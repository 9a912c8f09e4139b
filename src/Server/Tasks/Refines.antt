-- ===== src/Server/Tasks/Refines.antt =====
-- The handlers of fproxy-rs/src/server.rs in one step are what a task does that runs by itself.
use fproxy.Base.{
  ℕ, ◌≡◌, refl, ◌∙◌, ap, true, false, List, [], ◌∷◌, none, some, Bytes, ◌⊎◌, inl, inr, Bool-cases,
  Option-cases, nat_eq, if◌then◌else◌, ok,
}
use fproxy.Base.HashMap.{get}
use fproxy.Protocol.{decode_udp, decode_tcp}
use fproxy.Server.Window.{is_duplicate}
use fproxy.Server.State.{
  Server, TargetSession, udp, tcp, Output, to_target, spawn_target_reader, put_session,
}
use fproxy.Server.Packets.{
  Net, new_session, get_or_create_session, create_session, check_duplicate, receive,
  handle_udp_packet, handle_tcp_packet,
}
use fproxy.Server.Tasks.Defs.{
  Packet, idle, looking, missed, holding, System, task_of, goes, is_free, look, make, create,
  advance, arrive, Action, arrives, advances, act,
}
use fproxy.Server.Tasks.Alone.{asked, after_window, along}
use fproxy.Server.Tasks.Rounds.{register_path, act_at}

-- A packet arrives and its task takes as many turns as it needs.
abbrev pub alone : Net → ℕ → ℕ → Packet → List Action
alone net now i p = let a = advances net now i in arrives i p ∷ a ∷ a ∷ a ∷ a ∷ a ∷ a ∷ a ∷ []

abbrev pub as_receive : Server → Net → ℕ → Packet → Server × List Output
as_receive v net now p = receive v net now (p.session_id, p.seq, p.payload) (register_path p.path)

-- Both handlers are this, for a packet that was decoded.
handle_udp_packet-as_receive :
    (v : Server) (net : Net) (now addr socket k seq : ℕ) (payload bytes : Bytes)
    → decode_udp bytes ≡ ok (k, seq, payload)
    → handle_udp_packet v net now socket addr bytes
      ≡ as_receive v net now (along k seq payload (udp addr socket))
unfolding handle_udp_packet
handle_udp_packet-as_receive v net now addr socket k seq payload bytes e =
    rw (e, handle_udp_packet) refl

handle_tcp_packet-as_receive :
    (v : Server) (net : Net) (now conn_id writer k seq : ℕ) (payload bytes : Bytes)
    → decode_tcp bytes ≡ ok (k, seq, payload)
    → handle_tcp_packet v net now conn_id writer bytes
      ≡ as_receive v net now (along k seq payload (tcp conn_id writer))
unfolding handle_tcp_packet
handle_tcp_packet-as_receive v net now conn_id writer k seq payload bytes e =
    rw (e, handle_tcp_packet) refl

pub rest_round :
    (s : System) (net : Net) (now i : ℕ) → task_of s i ≡ idle → act s (advances net now i) ≡ s
unfolding act advance
rest_round s net now i e = ap (advance s net now i) e

pub arrive_round :
    (s : System) (i : ℕ) (p : Packet)
    → task_of s i ≡ idle
    → act s (arrives i p) ≡ goes s i (looking p)
unfolding act arrive
arrive_round s i p e = ap (arrive s i p) e

pub found_round :
    (s : System) (net : Net) (now i : ℕ) (p : Packet) (h : ℕ)
    → is_free s.clearing ≡ true
    → get s.sessions p.session_id ≡ some h
    → act (goes s i (looking p)) (advances net now i) ≡ goes (goes s i (looking p)) i (holding p h)
unfolding advance look
found_round s net now i p h free e = act_at s net now i (looking p) ∙ rw (free, e) refl

pub missing_round :
    (s : System) (net : Net) (now i : ℕ) (p : Packet)
    → is_free s.clearing ≡ true
    → get s.sessions p.session_id ≡ none
    → act (goes s i (looking p)) (advances net now i) ≡ goes (goes s i (looking p)) i (missed p)
unfolding advance look
missing_round s net now i p free e = act_at s net now i (looking p) ∙ rw (free, e) refl

pub create_round :
    (s : System) (net : Net) (now i : ℕ) (p : Packet)
    → is_free s.clearing ≡ true
    → get s.sessions p.session_id ≡ none
    → act (goes s i (missed p)) (advances net now i) ≡ make (goes s i (missed p)) net now i p
unfolding advance create
create_round s net now i p free e = act_at s net now i (missed p) ∙ rw (free, e) refl

-- What the handler does with a session that is there, or has just been made.
pub receive_found :
    (v : Server) (net : Net) (now : ℕ) (p : Packet) (o : TargetSession)
    → get v.sessions p.session_id ≡ some o
    → let duplicate = (is_duplicate o.dedup_window p.seq).1 in
      as_receive v net now p ≡ (
        after_window duplicate (put_session v p.session_id (asked o now p.seq)) p,
        if duplicate then [] else to_target o.target_conn p.payload ∷ [],
      )
unfolding receive get_or_create_session check_duplicate
receive_found v net now p o e = elim (Bool-cases (is_duplicate o.dedup_window p.seq).1) [
  | inl old ↦ rw (e, receive, get_or_create_session, old) refl
  | inr fresh ↦ rw (e, receive, get_or_create_session, fresh) refl
]

pub receive_made :
    (v : Server) (net : Net) (now : ℕ) (p : Packet) (conn : ℕ)
    → get v.sessions p.session_id ≡ none
    → net.bind ≡ some conn
    → net.connects ≡ true
    → let o = new_session v conn now in
      let duplicate = (is_duplicate o.dedup_window p.seq).1 in
      as_receive v net now p ≡ (
        after_window duplicate
            (put_session (put_session v p.session_id o) p.session_id (asked o now p.seq))
            p,
        if duplicate
            then spawn_target_reader p.session_id conn ∷ []
            else spawn_target_reader p.session_id conn ∷ to_target conn p.payload ∷ [],
      )
unfolding receive get_or_create_session create_session check_duplicate
receive_made v net now p conn e b c =
    elim (Bool-cases (is_duplicate (new_session v conn now).dedup_window p.seq).1) [
      | inl old ↦ rw (e, receive, get_or_create_session, b, c, old) refl
      | inr fresh ↦ rw (e, receive, get_or_create_session, b, c, fresh) refl
    ]

pub receive_failed :
    (v : Server) (net : Net) (now : ℕ) (p : Packet)
    → get v.sessions p.session_id ≡ none
    → (net.bind ≡ none) ⊎ (net.connects ≡ false)
    → as_receive v net now p ≡ (v, [])
unfolding receive get_or_create_session create_session
receive_failed v net now p e (inl b) = rw (e, receive, get_or_create_session, b) refl
receive_failed v net now p e (inr c) = elim (Option-cases net.bind) [
  | inl b ↦ rw (e, receive, get_or_create_session, b) refl
  | inr (conn, b) ↦ rw (e, receive, get_or_create_session, b, c) refl
]
