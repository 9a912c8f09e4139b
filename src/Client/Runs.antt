-- ===== src/Client/Runs.antt =====
-- After any history of the client, shorter than 2^63 events, the maps of UDP sessions are inverse.
use fproxy.Base.{
  ℕ, ◌+◌, ◌*◌, ◌<◌, List, [], ◌∷◌, arith, Bytes, inl, inr, Option-cases, Result-cases, nat_eq,
  u64_mod, length,
}
use fproxy.Base.HashMap.{get}
use fproxy.Config.{ClientConfig}
use fproxy.Protocol.{decode_udp, decode_tcp}
use fproxy.Client.State.{Client, key_Eq, new}
use fproxy.Client.Responses.{deliver_to, process_udp_response, process_tcp_response}
use fproxy.Client.Cleanup.{expired_udp, expired_tcp, remove_udp_sessions, cleanup_expired_sessions}
use fproxy.Client.Events.{Event, packet, udp_response, tcp_response, tcp_closed, tick, step, run}
use fproxy.Client.Maps.{IsInverse, Issued}
use fproxy.Client.Inverse.{
  Advanced, handle_packet-Advanced, deliver_to-IsInverse, deliver_to-Issued,
}
use fproxy.Client.SameMaps.{SameMaps-IsInverse, SameMaps-Issued}
use fproxy.Client.Cleared.{
  expired_udp-Pending, remove_udp_sessions-IsInverse, remove_udp_sessions-Issued,
  cleanup_tcp_session-SameMaps, remove_tcp_sessions-SameMaps,
}

unmoved : (initial n : ℕ) (c : Client) → IsInverse c → Issued initial n c → Advanced initial n c
unmoved initial n c v i = record {
  inverse = v;
  passed = n;
  at_least = omega arith;
  at_most = omega arith;
  issued = i;
}

delivered-Advanced :
    (initial n : ℕ) (c : Client) (now a seq : ℕ) (payload : Bytes)
    → IsInverse c
    → Issued initial n c
    → Advanced initial n (deliver_to c now a seq payload).0
delivered-Advanced initial n c now a seq payload v i =
    unmoved initial n _ (deliver_to-IsInverse c now a seq payload v)
      (deliver_to-Issued initial n c now a seq payload i)

udp_response-Advanced :
    (initial n : ℕ) (c : Client) (now : ℕ) (bytes : Bytes)
    → IsInverse c
    → Issued initial n c
    → Advanced initial n (process_udp_response c now bytes).0
unfolding process_udp_response
udp_response-Advanced initial n c now bytes v i = elim (Result-cases (decode_udp bytes)) [
  | inr (e, r) ↦ rw (r, process_udp_response) (unmoved initial n c v i)
  | inl ((id, seq, payload), r) ↦ elim (Option-cases (get c.udp_session_addrs id)) [
    | inl none_found ↦ rw (r, process_udp_response, none_found) (unmoved initial n c v i)
    | inr (a, found) ↦
        rw (r, process_udp_response, found) (delivered-Advanced initial n c now a seq payload v i)
  ]
]

tcp_response-Advanced :
    (initial n : ℕ) (c : Client) (now a : ℕ) (bytes : Bytes)
    → IsInverse c
    → Issued initial n c
    → Advanced initial n (process_tcp_response c now a bytes).0
unfolding process_tcp_response
tcp_response-Advanced initial n c now a bytes v i = elim (Result-cases (decode_tcp bytes)) [
  | inr (e, r) ↦ rw (r, process_tcp_response) (unmoved initial n c v i)
  | inl ((id, seq, payload), r) ↦
      rw (r, process_tcp_response) (delivered-Advanced initial n c now a seq payload v i)
]

-- What each event does to the maps and the counter.
pub step-Advanced :
    (initial n : ℕ) (c : Client) (e : Event)
    → IsInverse c
    → Issued initial n c
    → n + 2 < u64_mod
    → Advanced initial n (step c e).0
unfolding step process_udp_response process_tcp_response cleanup_expired_sessions
step-Advanced initial n c (packet env a payload) v i h =
    handle_packet-Advanced initial n c env a payload v i h
step-Advanced initial n c (udp_response now bytes) v i h =
    udp_response-Advanced initial n c now bytes v i
step-Advanced initial n c (tcp_response now a bytes) v i h =
    tcp_response-Advanced initial n c now a bytes v i
step-Advanced initial n c (tcp_closed key) v i h =
    let m = cleanup_tcp_session-SameMaps c key in
    unmoved initial n _ (SameMaps-IsInverse c _ m v) (SameMaps-Issued initial n c _ m i)
step-Advanced initial n c (tick now) v i h =
    let l = expired_udp c.cfg.session_timeout now c.udp_sessions in
    let d = remove_udp_sessions c l in
    let m = remove_tcp_sessions-SameMaps d (expired_tcp c.cfg.session_timeout now d.tcp_sessions) in
    let v' =
      remove_udp_sessions-IsInverse c l v
        (expired_udp-Pending c.cfg.session_timeout now c.udp_sessions v.sessions_map) in
    unmoved initial n _ (SameMaps-IsInverse d _ m v')
      (SameMaps-Issued initial n d _ m (remove_udp_sessions-Issued initial n c l i))

pub new-IsInverse : (cfg : ClientConfig) (initial : ℕ) → IsInverse (new cfg initial)
unfolding new get
new-IsInverse cfg initial = record {
  sessions_map = tt;
  forward = λ a s g. absurd (cc g);
  backward = λ id a g. absurd (cc g);
}

pub new-Issued :
    (cfg : ClientConfig) (initial : ℕ) → initial < u64_mod → Issued initial 0 (new cfg initial)
unfolding new get
new-Issued cfg initial h = record { counter = omega arith; ids = λ id a g. absurd (cc g) }

run_from-IsInverse :
    (initial n : ℕ) (c : Client) (es : List Event)
    → IsInverse c
    → Issued initial n c
    → n + 2 * length es < u64_mod
    → IsInverse (run c es).0
unfolding run
run_from-IsInverse initial n c [] v i h = v
run_from-IsInverse initial n c (e ∷ es) v i h =
    let s = step-Advanced initial n c e v i (omega arith) in
    run_from-IsInverse initial s.passed (step c e).0 es s.inverse s.issued
      (omega (arith, s.at_most))

-- With a counter that starts at any 64-bit number, over fewer than 2^63 events, no source is
-- listed twice, each session of a source is found by its id, and each id that is mapped is that of
-- the session of the source that it is mapped to.
pub run-IsInverse :
    (cfg : ClientConfig) (initial : ℕ) (es : List Event)
    → initial < u64_mod
    → 2 * length es < u64_mod
    → IsInverse (run (new cfg initial) es).0
run-IsInverse cfg initial es h k =
    run_from-IsInverse initial 0 (new cfg initial) es (new-IsInverse cfg initial)
      (new-Issued cfg initial h) (omega arith)
