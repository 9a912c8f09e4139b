-- ===== src/Relay/Back/Answers.antt =====
-- The numbers that responses get in fproxy-rs/src/server.rs.
use fproxy.Base.{
  ℕ, ◌+◌, ◌%◌, ◌≤◌, ◌<◌, ◌≡◌, refl, ◌∙◌, ap, sym, false, List, [], arith, ◌==◌, Option, none, some,
  Bytes, All, inl, inr, Bool-cases, Option-cases, Result-cases, nat_eq, unwrap_or, length, u32_mod,
  u64_mod, ==_refl,
}
use fproxy.Base.HashMap.{get}
use fproxy.Protocol.{Decoded, decode_udp, decode_tcp}
use fproxy.Frame.{max_tcp_frame_size}
use fproxy.Server.State.{Server, TargetSession, ClientPath, Output, put_session}
use fproxy.Server.Packets.{
  Net, Opened, found, opened, new_session, get_or_create_session, check_duplicate, receive,
  handle_udp_packet, handle_tcp_packet, add_udp_path, add_tcp_path,
}
use fproxy.Server.Responses.{send_response_to_all_paths}
use fproxy.Server.Cleanup.{cleanup_tcp_conn, drop_conn_paths}
use fproxy.Server.Events.{Event, udp_packet, tcp_packet, target_response, conn_closed, tick, step}
use fproxy.Server.Sessions.{get_or_create_session_cases}
use fproxy.Server.Receive.{AddsPath}
use fproxy.Server.Routing.{map-DeliversAll}
use fproxy.Server.Tasks.Views.{at_key, at_other}
use fproxy.Relay.Downstream.{Decodes, DeliversAll-Decodes}
use fproxy.Relay.Back.Defs.{AnswersNothing}

-- The number of the session's next response; a session that is not there starts at 0.
abbrev pub next_of : Option TargetSession → ℕ
next_of none = 0
next_of (some t) = t.response_seq

-- All sessions go on where they were.
abbrev pub SameNext : Server → Server → Type 0
SameNext s s' = (k : ℕ) → next_of (get s'.sessions k) ≡ next_of (get s.sessions k)

put_next :
    (s s' : Server) (k : ℕ) (t : TargetSession)
    → SameNext s s'
    → t.response_seq ≡ next_of (get s.sessions k)
    → SameNext s (put_session s' k t)
put_next s s' k t h e j = elim (Bool-cases (k == j)) [
  | inl same ↦
      let kj : k ≡ j = ground arith in
      ap next_of (at_key s'.sessions k j t same) ∙ e ∙ ap (λ (x : ℕ). next_of (get s.sessions x)) kj
  | inr other ↦ ap next_of (at_other s'.sessions k j t other) ∙ h j
]

checked_next :
    (s : Server) (o : Opened) (k now seq : ℕ)
    → SameNext s o.server
    → o.session.response_seq ≡ next_of (get s.sessions k)
    → SameNext s (check_duplicate o.server k o.session now seq).0
unfolding check_duplicate
checked_next s o k now seq h e = put_next s o.server k _ h e

receive_next :
    (s : Server) (net : Net) (now : ℕ) (d : Decoded) (add_path : Server → ℕ → Server)
    → AddsPath add_path
    → SameNext s (receive s net now d add_path).0
unfolding receive
receive_next s net now (k, seq, payload) add_path keep =
    let go : (o : Opened)
        → get_or_create_session s net now k ≡ some o
        → SameNext s o.server
        → o.session.response_seq ≡ next_of (get s.sessions k)
        → SameNext s (receive s net now (k, seq, payload) add_path).0 =
      λ o r h e.
        let s' : Server = (check_duplicate o.server k o.session now seq).0 in
        let checked : SameNext s s' = checked_next s o k now seq h e in
        elim (Bool-cases (check_duplicate o.server k o.session now seq).1) [
          | inl old ↦ rw (r, receive, old) checked
          | inr fresh ↦
              rw (r, receive, fresh) (λ j. ap (λ m. next_of (get m j)) (keep s' k).0 ∙ checked j)
        ] in
    elim (get_or_create_session_cases s net now k) [
      | inl (t, e, r) ↦ go (found s t) r (λ j. refl) (ap next_of (sym e))
      | inr (inl (conn, e, b, c, r)) ↦
          let t : TargetSession = new_session s conn now in
          go (opened s k conn t) r (put_next s s k t (λ j. refl) (ap next_of (sym e)))
            (ap next_of (sym e))
      | inr (inr (e, r)) ↦ rw (r, receive) (λ j. refl)
    ]

-- Packets and the ends of connections leave the numbers of responses alone.
pub step_next : (s : Server) (e : Event) → AnswersNothing e → SameNext s (step s e).0
unfolding step handle_udp_packet handle_tcp_packet add_udp_path add_tcp_path cleanup_tcp_conn
    drop_conn_paths
step_next s (udp_packet net now listener client_addr bytes) h =
    elim (Result-cases (decode_udp bytes)) [
      | inr (e, r) ↦ rw (r, handle_udp_packet) (λ k. refl)
      | inl (d, r) ↦ rw (r, handle_udp_packet) (receive_next s net now d _ (λ s' k. (refl, refl)))
    ]
step_next s (tcp_packet net now conn_id writer bytes) h = elim (Result-cases (decode_tcp bytes)) [
  | inr (e, r) ↦ rw (r, handle_tcp_packet) (λ k. refl)
  | inl (d, r) ↦ rw (r, handle_tcp_packet) (receive_next s net now d _ (λ s' k. (refl, refl)))
]
step_next s (target_response now k payload) h = absurd h
step_next s (conn_closed conn_id) h = elim (Option-cases (get s.tcp_conn_to_session conn_id)) [
  | inl e ↦ rw (e, cleanup_tcp_conn) (λ k. refl)
  | inr (j, e) ↦ elim (Option-cases (get s.client_paths j)) [
    | inl n ↦ rw (e, cleanup_tcp_conn, n, drop_conn_paths) (λ k. refl)
    | inr (ps, n) ↦ rw (e, cleanup_tcp_conn, n, drop_conn_paths) (λ k. refl)
  ]
]
step_next s (tick now) h = absurd h

-- A response in a session goes out under the session's next number, which is then passed.
pub record IsAnswered (s s' : Server) (k : ℕ) (payload : Bytes) (t : TargetSession)
    (os : List Output) : Type 0 where
  pub outputs : All (Decodes k t.response_seq payload) os
  pub passed : next_of (get s'.sessions k) ≡ t.response_seq + 1
  pub others : (j : ℕ) → (k == j) ≡ false → get s'.sessions j ≡ get s.sessions j

pub response-IsAnswered :
    (s : Server) (now k : ℕ) (payload : Bytes) (t : TargetSession)
    → get s.sessions k ≡ some t
    → k < u64_mod
    → t.response_seq + 1 < u32_mod
    → 12 + length payload ≤ max_tcp_frame_size
    → let (s', os) = step s (target_response now k payload) in IsAnswered s s' k payload t os
unfolding step send_response_to_all_paths
response-IsAnswered s now k payload t e hk hs hp =
    let t' : TargetSession = record t {
      last_activity = now;
      response_seq = (t.response_seq + 1) % u32_mod;
    } in
    let paths : List ClientPath = unwrap_or (get s.client_paths k) [] in
    rw (e, send_response_to_all_paths)
      record {
        outputs =
            DeliversAll-Decodes k t.response_seq payload paths _
              (map-DeliversAll k t.response_seq payload hk (omega arith) hp paths);
        passed = ap next_of (at_key s.sessions k k t' (==_refl k)) ∙ ground arith;
        others = λ j other. at_other s.sessions k j t' other;
      }
