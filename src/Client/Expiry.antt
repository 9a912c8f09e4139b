-- ===== src/Client/Expiry.antt =====
-- What the clean-up of expired sessions in fproxy-rs/src/client.rs removes, and what it leaves.
use fproxy.Base.{
  ℕ, ◌≡◌, refl, Bool, false, ◌||◌, List, [], ◌∷◌, arith, ◌==◌, Option, none, some, All, inl, inr,
  Option-cases, IsByte, nat_eq, ◌∙◌, ap, if◌then◌else◌,
}
use fproxy.Base.HashMap.{HashMap, get, get-remove, IsMap}
use fproxy.Config.{ClientConfig}
use fproxy.Client.State.{Client, UdpSession, key_Eq, new}
use fproxy.Client.Cleanup.{
  is_idle, expired_udp, expired_tcp, remove_udp_session, remove_udp_sessions,
  cleanup_expired_sessions,
}
use fproxy.Client.Events.{Event, packet, udp_response, tcp_response, tcp_closed, tick, step, run}
use fproxy.Client.Cleared.{remove_tcp_sessions-SameMaps}
use fproxy.Client.Windows.{IsSound}
use fproxy.Client.Once.{step-Keeps}

abbrev unless_idle : ℕ → ℕ → Option UdpSession → Option UdpSession
unless_idle timeout now none = none
unless_idle timeout now (some s) = if is_idle timeout now s.last_activity then none else some s

abbrev has_source : List (ℕ × ℕ) → ℕ → Bool
has_source [] a = false
has_source ((b, id) ∷ l) a = b == a || has_source l a

expired_udp-absent :
    (timeout now a : ℕ) (m : HashMap ℕ UdpSession)
    → get m a ≡ none
    → has_source (expired_udp timeout now m) a ≡ false
unfolding get expired_udp
expired_udp-absent timeout now a [] e = refl
expired_udp-absent timeout now a ((b, s) ∷ m) e = ground (arith, expired_udp-absent timeout now a m)

expired_udp-present :
    (timeout now a : ℕ) (m : HashMap ℕ UdpSession) (s : UdpSession)
    → IsMap m
    → get m a ≡ some s
    → has_source (expired_udp timeout now m) a ≡ is_idle timeout now s.last_activity
unfolding get expired_udp
expired_udp-present timeout now a [] s h e = absurd (cc e)
expired_udp-present timeout now a ((b, u) ∷ m) s h e =
    ground
      (arith, expired_udp-present timeout now a m s h.1, expired_udp-absent timeout now b m h.0)

get-remove_udp_sessions :
    (c : Client) (l : List (ℕ × ℕ)) (a : ℕ)
    → get (remove_udp_sessions c l).udp_sessions a
      ≡ (if has_source l a then none else get c.udp_sessions a)
unfolding remove_udp_sessions remove_udp_session
get-remove_udp_sessions c [] a = refl
get-remove_udp_sessions c ((b, id) ∷ l) a =
    let ih = get-remove_udp_sessions (remove_udp_session c b id) l a in
    ground (arith, ih, get-remove c.udp_sessions b a)

-- In a client that lists no source twice, a clean-up ends exactly the UDP sessions that were idle
-- for longer than the timeout, and leaves the others as they were.
cleanup_udp_sessions_lem :
    (c : Client) (now a : ℕ)
    → IsMap c.udp_sessions
    → get (cleanup_expired_sessions c now).0.udp_sessions a
      ≡ unless_idle c.cfg.session_timeout now (get c.udp_sessions a)
unfolding cleanup_expired_sessions
cleanup_udp_sessions_lem c now a h =
    let timeout = c.cfg.session_timeout in
    let l = expired_udp timeout now c.udp_sessions in
    let d = remove_udp_sessions c l in
    let same = (remove_tcp_sessions-SameMaps d (expired_tcp timeout now d.tcp_sessions)).sessions in
    let g = get-remove_udp_sessions c l a in
    ap (λ (m : HashMap ℕ UdpSession). get m a) same ∙ elim (Option-cases (get c.udp_sessions a)) [
      | inl e ↦ ground (arith, g, e, expired_udp-absent timeout now a c.udp_sessions e)
      | inr (s, e) ↦ ground (arith, g, e, expired_udp-present timeout now a c.udp_sessions s h e)
    ]

cleanup-IsSound : (c : Client) (now : ℕ) → IsSound c → IsSound (cleanup_expired_sessions c now).0
unfolding cleanup_expired_sessions
cleanup-IsSound c now v =
    let timeout = c.cfg.session_timeout in
    let l = expired_udp timeout now c.udp_sessions in
    let d = remove_udp_sessions c l in
    let same = (remove_tcp_sessions-SameMaps d (expired_tcp timeout now d.tcp_sessions)).sessions in
    record {
      windows = λ a s e.
          let e' : get d.udp_sessions a ≡ some s = rw (← same) e in
          v.windows a s (ground (arith, get-remove_udp_sessions c l a, e'));
    }

-- What arrives is bytes.
abbrev pub HasBytes : Event → Type 0
HasBytes (packet env a payload) = Unit
HasBytes (udp_response now bytes) = All IsByte bytes
HasBytes (tcp_response now a bytes) = All IsByte bytes
HasBytes (tcp_closed key) = Unit
HasBytes (tick now) = Unit

step-IsSound : (c : Client) (e : Event) → HasBytes e → IsSound c → IsSound (step c e).0
unfolding step
step-IsSound c (packet env a payload) h v = (step-Keeps c (packet env a payload) h v).sound
step-IsSound c (udp_response now bytes) h v = (step-Keeps c (udp_response now bytes) h v).sound
step-IsSound c (tcp_response now a bytes) h v = (step-Keeps c (tcp_response now a bytes) h v).sound
step-IsSound c (tcp_closed key) h v = (step-Keeps c (tcp_closed key) h v).sound
step-IsSound c (tick now) h v = cleanup-IsSound c now v

new-IsSound : (cfg : ClientConfig) (initial : ℕ) → IsSound (new cfg initial)
unfolding new get
new-IsSound cfg initial = record { windows = λ a s e. absurd (cc e) }

run_from-IsSound :
    (c : Client) (es : List Event) → All HasBytes es → IsSound c → IsSound (run c es).0
unfolding run
run_from-IsSound c [] h v = v
run_from-IsSound c (e ∷ es) h v = run_from-IsSound (step c e).0 es h.1 (step-IsSound c e h.0 v)

-- After any history of the client in which what arrives is bytes, the windows of responses of all
-- sessions are well formed.
pub response_windows-IsSound :
    (cfg : ClientConfig) (initial : ℕ) (es : List Event)
    → All HasBytes es
    → IsSound (run (new cfg initial) es).0
response_windows-IsSound cfg initial es b =
    run_from-IsSound (new cfg initial) es b (new-IsSound cfg initial)
