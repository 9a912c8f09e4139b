-- ===== src/Client/Deliver.antt =====
-- What `deliver_to` knows and learns; both response handlers of fproxy-rs/src/client.rs go through it.
use fproxy.Base.{
  ℕ, ◌≡◌, refl, ◌≢◌, true, [], none, some, Bytes, inl, inr, Bool-cases, Option-cases, nat_eq, ◌∙◌,
  sym, ==_refl, if◌then◌else◌,
}
use fproxy.Base.HashMap.{get}
use fproxy.Server.Window.Invariant.{IsValid, IsSeq, is_duplicate-IsValid}
use fproxy.Server.Window.Once.{
  rejects, is_duplicate-rejects, rejects-persists, rejects-is_duplicate,
}
use fproxy.Client.Window.{ResponseDedupWindow, is_duplicate, as_window, as_window-is_duplicate}
use fproxy.Client.State.{Client, UdpSession}
use fproxy.Client.Responses.{forward, deliver, deliver_to}
use fproxy.Client.Windows.{IsSound, knows, Keeps, Keeps-refl, knows_put, knows-some, put-Keeps}

-- The window after a response, seen as the server's.
pub moved-IsValid :
    (w : ResponseDedupWindow) (seq : ℕ)
    → IsValid (as_window w)
    → IsSeq seq
    → IsValid (as_window (is_duplicate w seq).0)
moved-IsValid w seq v h =
    rw ((as_window-is_duplicate w seq).0) (is_duplicate-IsValid (as_window w) seq v h)

pub deliver_to-Keeps :
    (c : Client) (now a seq : ℕ) (payload : Bytes)
    → IsSound c
    → IsSeq seq
    → Keeps c (deliver_to c now a seq payload).0
unfolding deliver_to deliver
deliver_to-Keeps c now a seq payload v h = elim (Option-cases (get c.udp_sessions a)) [
  | inl e ↦ rw (e, deliver_to) (Keeps-refl c v)
  | inr (s, e) ↦
      let w = as_window s.response_dedup in
      let valid = moved-IsValid s.response_dedup seq (v.windows a s e) h in
      let more : (q : ℕ)
          → knows c a q ≡ true
          → rejects (as_window (is_duplicate s.response_dedup seq).0) q ≡ true =
        λ q k.
          rw ((as_window-is_duplicate s.response_dedup seq).0)
            (rejects-persists w seq q (v.windows a s e) h (sym (knows-some c a q s e) ∙ k)) in
      elim (Bool-cases (is_duplicate s.response_dedup seq).1) [
        | inl d ↦ rw (e, deliver_to, d) (put-Keeps c a _ v valid more)
        | inr d ↦ rw (e, deliver_to, d) (put-Keeps c a _ v valid more)
      ]
]

pub deliver_to_learns :
    (c : Client) (now a seq : ℕ) (payload : Bytes)
    → IsSound c
    → IsSeq seq
    → get c.udp_sessions a ≢ none
    → knows (deliver_to c now a seq payload).0 a seq ≡ true
unfolding deliver_to deliver
deliver_to_learns c now a seq payload v h there = elim (Option-cases (get c.udp_sessions a)) [
  | inl e ↦ absurd (there e)
  | inr (s, e) ↦
      let known : rejects (as_window (is_duplicate s.response_dedup seq).0) seq ≡ true =
        rw ((as_window-is_duplicate s.response_dedup seq).0)
          (rejects-is_duplicate (as_window s.response_dedup) seq (v.windows a s e) h) in
      elim (Bool-cases (is_duplicate s.response_dedup seq).1) [
        | inl d ↦ rw (e, deliver_to, d) (knows_put c a a seq _ ∙ rw (==_refl a) known)
        | inr d ↦ rw (e, deliver_to, d) (knows_put c a a seq _ ∙ rw (==_refl a) known)
      ]
]

-- A response for a source with a session goes to it from the listening socket if the session does
-- not know its number, and nowhere if it does.
pub deliver_to_lem :
    (c : Client) (now a seq : ℕ) (payload : Bytes) (s : UdpSession)
    → get c.udp_sessions a ≡ some s
    → (deliver_to c now a seq payload).1
      ≡ (if knows c a seq then [] else forward c.listener a payload)
unfolding deliver_to deliver
deliver_to_lem c now a seq payload s e =
    let d : (is_duplicate s.response_dedup seq).1 ≡ knows c a seq =
      (as_window-is_duplicate s.response_dedup seq).1
      ∙ is_duplicate-rejects (as_window s.response_dedup) seq
      ∙ sym (knows-some c a seq s e) in
    elim (Bool-cases (knows c a seq)) [
      | inl k ↦ rw (e, deliver_to, d, k) refl
      | inr k ↦ rw (e, deliver_to, d, k) refl
    ]

pub deliver_to_known :
    (c : Client) (now a seq : ℕ) (payload : Bytes)
    → knows c a seq ≡ true
    → (deliver_to c now a seq payload).1 ≡ []
unfolding deliver_to
deliver_to_known c now a seq payload k = elim (Option-cases (get c.udp_sessions a)) [
  | inl e ↦ rw (e, deliver_to) refl
  | inr (s, e) ↦ deliver_to_lem c now a seq payload s e ∙ rw k
]
