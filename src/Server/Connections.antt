-- ===== src/Server/Connections.antt =====
-- The life of a TCP connection in fproxy-rs/src/server.rs: what it brings, and what its end leaves.
use fproxy.Base.{
  ℕ, ◌≡◌, ◌≢◌, refl, subst, true, Bool-cases, sym, ◌∙◌, ap, Bool, false, List, [], ◌∷◌, ◌++◌, arith,
  ◌==◌, ==_refl, Option, none, some, Bytes, All, inl, inr, Option-cases, nat_eq, retain, append-nil,
}
use fproxy.Base.HashMap.{get, remove, get-remove}
use fproxy.Frame.{read_frames, read_loop}
use fproxy.Frame.RoundTrip.{IsFramable, frames, read_frames-frames}
use fproxy.Server.State.{ClientPath, udp, tcp, Server}
use fproxy.Server.Packets.{Net}
use fproxy.Server.Tasks.Views.{at_key, at_other}
use fproxy.Server.Cleanup.{other_conn, drop_conn_paths, cleanup_tcp_conn}
use fproxy.Server.Events.{conn_closed, tcp_packets, handle_tcp_conn}

-- Packets of 1 to 65535 bytes that a client frames on a connection are handled one by one, in
-- order, and then the connection is cleaned up.
handle_tcp_conn-frames :
    (answers : ℕ → Net × ℕ) (conn_id writer : ℕ) (packets : List Bytes)
    → All IsFramable packets
    → handle_tcp_conn answers conn_id writer (frames packets)
      ≡ tcp_packets answers 0 conn_id writer packets ++ conn_closed conn_id ∷ []
unfolding handle_tcp_conn
handle_tcp_conn-frames answers conn_id writer packets h =
    let nothing_more : read_frames [] ≡ [] = unfold read_frames read_loop in refl in
    let read : read_frames (frames packets) ≡ packets =
      ap read_frames (sym (append-nil (frames packets)))
      ∙ read_frames-frames packets [] h
      ∙ rw (nothing_more, append-nil packets) in
    rw read

-- The second list is the first without the paths of one connection, the others in their order.
pub data Without (conn_id : ℕ) : List ClientPath → List ClientPath → Type 0 where
  nothing : Without conn_id [] []
  keeps_udp :
      (addr socket : ℕ) (ps qs : List ClientPath)
      → Without conn_id ps qs
      → Without conn_id (udp addr socket ∷ ps) (udp addr socket ∷ qs)
  keeps_tcp :
      (c writer : ℕ) (ps qs : List ClientPath)
      → c ≢ conn_id
      → Without conn_id ps qs
      → Without conn_id (tcp c writer ∷ ps) (tcp c writer ∷ qs)
  drops :
      (writer : ℕ) (ps qs : List ClientPath)
      → Without conn_id ps qs
      → Without conn_id (tcp conn_id writer ∷ ps) qs

retain-Without :
    (conn_id : ℕ) (ps : List ClientPath) → Without conn_id ps (retain (other_conn conn_id) ps)
retain-Without conn_id [] = nothing
retain-Without conn_id (udp addr socket ∷ ps) =
    keeps_udp addr socket ps _ (retain-Without conn_id ps)
retain-Without conn_id (tcp c writer ∷ ps) = elim (Bool-cases (c == conn_id)) [
  | inl same ↦
      let e : c ≡ conn_id = ground arith in
      rw same (
        subst (λ (x : ℕ). Without conn_id (tcp x writer ∷ ps) (retain (other_conn conn_id) ps))
          (sym e) (drops writer ps _ (retain-Without conn_id ps)))
  | inr other ↦
      let ne : c ≢ conn_id = λ e. ground (arith, e) in
      rw other (keeps_tcp c writer ps _ ne (retain-Without conn_id ps))
]

-- What the end of a connection leaves of a session's paths, by whether the map of connections held
-- that session for it.
abbrev pub Leaves : ℕ → Bool → Option (List ClientPath) → Option (List ClientPath) → Type 0
Leaves conn_id false old left = left ≡ old
Leaves conn_id true none left = left ≡ none
Leaves conn_id true (some ps) left =
    (qs : List ClientPath) × (left ≡ some qs) × Without conn_id ps qs

abbrev pub is_session : Option ℕ → ℕ → Bool
is_session none k = false
is_session (some j) k = j == k

drop_conn_paths-maps :
    (s : Server) (conn_id j : ℕ)
    → ((drop_conn_paths s conn_id j).tcp_conn_to_session ≡ s.tcp_conn_to_session)
      × ((drop_conn_paths s conn_id j).sessions ≡ s.sessions)
unfolding drop_conn_paths
drop_conn_paths-maps s conn_id j = elim (Option-cases (get s.client_paths j)) [
  | inl n ↦ rw (n, drop_conn_paths) (refl, refl)
  | inr (ps, n) ↦ rw (n, drop_conn_paths) (refl, refl)
]

drop_conn_paths-Leaves :
    (s : Server) (conn_id j k : ℕ)
    → Leaves conn_id
        (j == k)
        (get s.client_paths k)
        (get (drop_conn_paths s conn_id j).client_paths k)
unfolding drop_conn_paths
drop_conn_paths-Leaves s conn_id j k = elim (Bool-cases (j == k)) [
  | inl same ↦
      let jk : j ≡ k = ground arith in
      rw (same, ← jk)
        (elim (Option-cases (get s.client_paths j)) [
          | inl n ↦ rw (n, drop_conn_paths) n
          | inr (ps, n) ↦
              rw (n, drop_conn_paths)
                (
                  retain (other_conn conn_id) ps,
                  at_key s.client_paths j j _ (==_refl j),
                  retain-Without conn_id ps,
                )
        ])
  | inr other ↦ rw other (elim (Option-cases (get s.client_paths j)) [
    | inl n ↦ rw (n, drop_conn_paths) refl
    | inr (ps, n) ↦ rw (n, drop_conn_paths) (at_other s.client_paths j k _ other)
  ])
]

-- The end of a connection takes it, and nothing else, out of the map of connections. The one
-- session that the map held for it loses every path of the connection and keeps the others in their
-- order. Every other session keeps its paths, the connection's too if it has brought packets of
-- several sessions. No session ends.
pub cleanup_tcp_conn_lem :
    (s : Server) (conn_id : ℕ)
    → let s' = cleanup_tcp_conn s conn_id in
      (get s'.tcp_conn_to_session conn_id ≡ none)
      × ((c : ℕ) → c ≢ conn_id → get s'.tcp_conn_to_session c ≡ get s.tcp_conn_to_session c)
      × ((k : ℕ)
          → Leaves conn_id
              (is_session (get s.tcp_conn_to_session conn_id) k)
              (get s.client_paths k)
              (get s'.client_paths k))
      × (s'.sessions ≡ s.sessions)
unfolding cleanup_tcp_conn
cleanup_tcp_conn_lem s conn_id =
    let m = s.tcp_conn_to_session in
    let gone : get (remove m conn_id) conn_id ≡ none =
      get-remove m conn_id conn_id ∙ rw (==_refl conn_id) refl in
    let others : (c : ℕ) → c ≢ conn_id → get (remove m conn_id) c ≡ get m c =
      λ c ne. get-remove m conn_id c ∙ ground (arith, ne) in
    let s' : Server = record s { tcp_conn_to_session = remove m conn_id } in
    elim (Option-cases (get m conn_id)) [
      | inl e ↦ rw (e, cleanup_tcp_conn) (gone, others, (λ k. refl), refl)
      | inr (j, e) ↦
          let (kept, same) = drop_conn_paths-maps s' conn_id j in
          rw (e, cleanup_tcp_conn, kept)
            (gone, others, (λ k. drop_conn_paths-Leaves s' conn_id j k), same)
    ]
