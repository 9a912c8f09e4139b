-- ===== src/Client/Windows.antt =====
-- The response windows of all sessions of fproxy-rs/src/client.rs, and what they know.
use fproxy.Base.{
  ℕ, ◌≡◌, Bool, true, false, arith, ◌==◌, Option, none, some, inl, inr, Bool-cases, nat_eq, ◌∙◌,
  sym, ap, subst, if◌then◌else◌,
}
use fproxy.Base.HashMap.{get, get-insert}
use fproxy.Server.Window.Invariant.{IsValid}
use fproxy.Server.Window.Once.{rejects}
use fproxy.Client.Window.{as_window}
use fproxy.Client.State.{Client, UdpSession, put_udp_session}

-- Each session's window of responses is well formed.
pub record IsSound (c : Client) : Type 0 where
  pub windows :
      (a : ℕ) (s : UdpSession)
      → get c.udp_sessions a ≡ some s
      → IsValid (as_window s.response_dedup)

abbrev pub session_knows : Option UdpSession → ℕ → Bool
session_knows none seq = false
session_knows (some s) seq = rejects (as_window s.response_dedup) seq

-- Whether a response with number `seq` for the source `a` would be discarded as a duplicate.
unfoldable pub knows : Client → ℕ → ℕ → Bool
knows c a seq = session_knows (get c.udp_sessions a) seq

pub record Keeps (c d : Client) : Type 0 where
  pub sound : IsSound d
  pub knows_on : (a seq : ℕ) → knows c a seq ≡ true → knows d a seq ≡ true

pub Keeps-refl : (c : Client) → IsSound c → Keeps c c
Keeps-refl c v = record { sound = v; knows_on = λ a seq e. e }

pub Keeps-trans : (c d e : Client) → Keeps c d → Keeps d e → Keeps c e
Keeps-trans c d e h k = record {
  sound = k.sound;
  knows_on = λ a seq g. k.knows_on a seq (h.knows_on a seq g);
}

pub same_sessions : (c d : Client) → d.udp_sessions ≡ c.udp_sessions → IsSound c → Keeps c d
unfolding knows
same_sessions c d e v = record {
  sound = record { windows = λ a s g. v.windows a s (rw (← e) g) };
  knows_on = λ a seq g. subst (λ m. session_knows (get m a) seq ≡ true) (sym e) g;
}

pub knows_put :
    (c : Client) (a b seq : ℕ) (s : UdpSession)
    → knows (put_udp_session c a s) b seq
      ≡ (if a == b then rejects (as_window s.response_dedup) seq else knows c b seq)
unfolding knows
knows_put c a b seq s = rw (get-insert c.udp_sessions a b s) (ground arith)

pub knows-some :
    (c : Client) (a seq : ℕ) (s : UdpSession)
    → get c.udp_sessions a ≡ some s
    → knows c a seq ≡ rejects (as_window s.response_dedup) seq
unfolding knows
knows-some c a seq s e = ap (λ o. session_knows o seq) e

-- A session that knows what was known may be put in.
pub put-Keeps :
    (c : Client) (a : ℕ) (s : UdpSession)
    → IsSound c
    → IsValid (as_window s.response_dedup)
    → ((seq : ℕ) → knows c a seq ≡ true → rejects (as_window s.response_dedup) seq ≡ true)
    → Keeps c (put_udp_session c a s)
put-Keeps c a s v h more = record {
  sound = record {
    windows = λ b t g. elim (Bool-cases (a == b)) [
      | inl same ↦
          let q : s ≡ t = ground (arith, get-insert c.udp_sessions a b s) in
          subst (λ (x : UdpSession). IsValid (as_window x.response_dedup)) q h
      | inr other ↦ v.windows b t (ground (arith, get-insert c.udp_sessions a b s))
    ];
  };
  knows_on = λ b seq e. elim (Bool-cases (a == b)) [
    | inl same ↦
        let eq : a ≡ b = ground arith in
        knows_put c a b seq s
        ∙ rw same (more seq (subst (λ (x : ℕ). knows c x seq ≡ true) (sym eq) e))
    | inr other ↦ knows_put c a b seq s ∙ rw other e
  ];
}
