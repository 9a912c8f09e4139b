-- ===== src/Client/Cleared.antt =====
-- What the clean-ups of fproxy-rs/src/client.rs do to the maps of UDP sessions.
use fproxy.Base.{
  ℕ, ◌≡◌, refl, true, List, [], ◌∷◌, arith, ◌==◌, none, some, inl, inr, Bool-cases, nat_eq, ◌∙◌,
  sym, subst, if◌then◌else◌,
}
use fproxy.Base.HashMap.{HashMap, get, remove, get-remove, IsMap}
use fproxy.Client.State.{Client, UdpSession, SessionKey, key_Eq}
use fproxy.Client.Cleanup.{
  is_idle, expired_udp, remove_udp_session, remove_udp_sessions, cleanup_tcp_session,
  remove_tcp_sessions,
}
use fproxy.Client.Maps.{IsInverse, Issued, removed-IsInverse}
use fproxy.Client.SameMaps.{SameMaps, SameMaps-refl, SameMaps-trans}

-- Each pair is a session of the map with its id, and no source comes twice.
abbrev Pending : HashMap ℕ UdpSession → List (ℕ × ℕ) → Type 0
Pending m [] = Unit
Pending m ((a, id) ∷ l) =
    ((s : UdpSession) × (get m a ≡ some s) × (s.session_id ≡ id)) × Pending (remove m a) l

Pending-same :
    (m n : HashMap ℕ UdpSession) (l : List (ℕ × ℕ))
    → ((k : ℕ) → get m k ≡ get n k)
    → Pending m l
    → Pending n l
Pending-same m n [] h p = tt
Pending-same m n ((a, id) ∷ l) h ((s, g, e), p) = (
  (s, sym (h a) ∙ g, e),
  Pending-same (remove m a) (remove n a) l
      (λ k. ground (arith, get-remove m a k, get-remove n a k, h k)) p,
)

-- What is pending in a map is pending in one with another source in front.
Pending-cons :
    (a : ℕ) (s : UdpSession) (m n : HashMap ℕ UdpSession) (l : List (ℕ × ℕ))
    → get m a ≡ none
    → ((k : ℕ) → get n k ≡ (if a == k then some s else get m k))
    → Pending m l
    → Pending n l
Pending-cons a s m n [] f h p = tt
Pending-cons a s m n ((b, id) ∷ l) f h ((t, g, e), p) = (
  (t, ground (arith, h b), e),
  Pending-cons a s (remove m b) (remove n b) l (ground (arith, get-remove m b a))
      (λ k. ground (arith, get-remove m b k, get-remove n b k, h k)) p,
)

get_of_eq : (m : HashMap ℕ UdpSession) (a k : ℕ) → get m a ≡ none → (a == k) ≡ true → get m k ≡ none
get_of_eq m a k e h = let q : a ≡ k = ground arith in subst (λ (x : ℕ). get m x ≡ none) q e

pub expired_udp-Pending :
    (timeout now : ℕ) (m : HashMap ℕ UdpSession) → IsMap m → Pending m (expired_udp timeout now m)
unfolding expired_udp get
expired_udp-Pending timeout now [] h = tt
expired_udp-Pending timeout now ((a, s) ∷ m) h =
    let rest : Pending m (expired_udp timeout now m) = expired_udp-Pending timeout now m h.1 in
    elim (Bool-cases (is_idle timeout now s.last_activity)) [
      | inl idle ↦ rw idle (
        (s, ground arith, refl),
        Pending-same m (remove ((a, s) ∷ m) a) (expired_udp timeout now m)
            (λ k. ground (arith, get-remove ((a, s) ∷ m) a k, get_of_eq m a k h.0)) rest,
      )
      | inr live ↦
          rw live (Pending-cons a s m ((a, s) ∷ m) (expired_udp timeout now m) h.0 (λ k. refl) rest)
    ]

pub remove_udp_sessions-IsInverse :
    (c : Client) (l : List (ℕ × ℕ))
    → IsInverse c
    → Pending c.udp_sessions l
    → IsInverse (remove_udp_sessions c l)
unfolding remove_udp_sessions
remove_udp_sessions-IsInverse c [] v p = v
remove_udp_sessions-IsInverse c ((a, id) ∷ l) v ((s, g, e), p) =
    remove_udp_sessions-IsInverse (remove_udp_session c a id) l
      (subst (λ (x : ℕ). IsInverse (remove_udp_session c a x)) e (removed-IsInverse c a s v g))
      (unfold remove_udp_session in p)

pub remove_udp_sessions-Issued :
    (initial n : ℕ) (c : Client) (l : List (ℕ × ℕ))
    → Issued initial n c
    → Issued initial n (remove_udp_sessions c l)
unfolding remove_udp_sessions remove_udp_session
remove_udp_sessions-Issued initial n c [] v = v
remove_udp_sessions-Issued initial n c ((a, id) ∷ l) v =
    remove_udp_sessions-Issued initial n (remove_udp_session c a id) l (record {
      counter = v.counter;
      ids = λ k b g. v.ids k b (ground (arith, get-remove c.udp_session_addrs id k));
    })

pub cleanup_tcp_session-SameMaps :
    (c : Client) (key : SessionKey) → SameMaps c (cleanup_tcp_session c key).0
unfolding cleanup_tcp_session
cleanup_tcp_session-SameMaps c key = ground arith

pub remove_tcp_sessions-SameMaps :
    (c : Client) (keys : List SessionKey) → SameMaps c (remove_tcp_sessions c keys).0
unfolding remove_tcp_sessions
remove_tcp_sessions-SameMaps c [] = SameMaps-refl c
remove_tcp_sessions-SameMaps c (key ∷ keys) =
    SameMaps-trans c (cleanup_tcp_session c key).0 _ (cleanup_tcp_session-SameMaps c key)
      (remove_tcp_sessions-SameMaps (cleanup_tcp_session c key).0 keys)
