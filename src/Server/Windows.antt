-- ===== src/Server/Windows.antt =====
-- The windows of all sessions stay well formed, and a number that one of them rejects stays rejected
-- until the session ends.
use fproxy.Base.{
  ℕ, ◌<◌, ◌≡◌, Bool, true, false, arith, ◌==◌, Option, none, some, Bytes, ok, All, IsByte, inl, inr,
  Bool-cases, Option-cases, if◌then◌else◌, nat_eq, ◌∙◌, sym, ap, subst, ==_refl, ok_inj, u32_mod,
}
use fproxy.Base.HashMap.{get, get-insert}
use fproxy.Protocol.{Decoded, decode_packet}
use fproxy.Protocol.RoundTrip.{encode_packet-decode_packet}
use fproxy.Server.Window.{is_duplicate}
use fproxy.Server.Window.Invariant.{IsValid, IsSeq, is_duplicate-IsValid}
use fproxy.Server.Window.Once.{rejects, rejects-persists, rejects-is_duplicate}
use fproxy.Server.State.{Server, TargetSession, put_session}
use fproxy.Server.Packets.{Opened, check_duplicate}
use fproxy.Server.Sessions.{IsSound, IsOpened, put_session-IsSound}

-- Whether `seq` would be called a duplicate in session `k`.
abbrev pub session_knows : Option TargetSession → ℕ → Bool
session_knows none seq = false
session_knows (some t) seq = rejects t.dedup_window seq

unfoldable pub knows : Server → ℕ → ℕ → Bool
knows s k seq = session_knows (get s.sessions k) seq

-- What an operation does to the windows: they stay well formed and forget nothing.
pub record Keeps (s s' : Server) : Type 0 where
  pub sound : IsSound s'
  pub knows_on : (k seq : ℕ) → knows s k seq ≡ true → knows s' k seq ≡ true

pub knows-some :
    (s : Server) (k seq : ℕ) (t : TargetSession)
    → get s.sessions k ≡ some t
    → knows s k seq ≡ rejects t.dedup_window seq
unfolding knows
knows-some s k seq t e = ap (λ o. session_knows o seq) e

knows_put :
    (s : Server) (k j seq : ℕ) (t : TargetSession)
    → knows (put_session s k t) j seq
      ≡ (if k == j then rejects t.dedup_window seq else knows s j seq)
unfolding knows
knows_put s k j seq t = rw (get-insert s.sessions k j t) (ground arith)

-- A known number is known to the session that a lookup gives.
pub opened_knows :
    (s : Server) (k seq : ℕ) (o : Opened)
    → IsOpened s k o
    → knows s k seq ≡ true
    → rejects o.session.dedup_window seq ≡ true
opened_knows s k seq o p h = elim (Option-cases (get s.sessions k)) [
  | inl e ↦ absurd (unfold knows in cc (ap (λ x. session_knows x seq) e, h))
  | inr (t, e) ↦ rw (p.kept t e) (sym (knows-some s k seq t e) ∙ h)
]

-- A session that knows what it knew before may be put in the old one's place.
pub put_session-Keeps :
    (s s' : Server) (k : ℕ) (t : TargetSession)
    → IsSound s'
    → IsValid t.dedup_window
    → ((j : ℕ) → (k == j) ≡ false → get s'.sessions j ≡ get s.sessions j)
    → ((seq : ℕ) → knows s k seq ≡ true → rejects t.dedup_window seq ≡ true)
    → Keeps s (put_session s' k t)
put_session-Keeps s s' k t v h others more = record {
  sound = put_session-IsSound s' k t v h;
  knows_on = λ j seq e. elim (Bool-cases (k == j)) [
    | inl same ↦
        let eq : k ≡ j = ground arith in
        knows_put s' k j seq t
        ∙ rw same (more seq (subst (λ (x : ℕ). knows s x seq ≡ true) (sym eq) e))
    | inr other ↦
        knows_put s' k j seq t
        ∙ rw other (unfold knows in ap (λ o. session_knows o seq) (others j other) ∙ e)
  ];
}

pub check_duplicate-Keeps :
    (s : Server) (k now seq : ℕ) (o : Opened)
    → IsSound s
    → IsOpened s k o
    → IsSeq seq
    → Keeps s (check_duplicate o.server k o.session now seq).0
      × (knows (check_duplicate o.server k o.session now seq).0 k seq ≡ true)
unfolding check_duplicate
check_duplicate-Keeps s k now seq o v p h =
    let sound : IsSound o.server = p.sound v in
    let window : IsValid o.session.dedup_window = sound.windows k o.session p.found in
    let w = (is_duplicate o.session.dedup_window seq).0 in
    let t : TargetSession = record o.session { last_activity = now; dedup_window = w } in
    (
      put_session-Keeps s o.server k t sound
          (is_duplicate-IsValid o.session.dedup_window seq window h) p.others
          (λ q e.
            rejects-persists o.session.dedup_window seq q window h (opened_knows s k q o p e)),
      knows_put o.server k k seq t
          ∙ rw (==_refl k) (rejects-is_duplicate o.session.dedup_window seq window h),
    )

pub Keeps-refl : (s : Server) → IsSound s → Keeps s s
Keeps-refl s v = record { sound = v; knows_on = λ k seq e. e }

pub Keeps-trans : (s t u : Server) → Keeps s t → Keeps t u → Keeps s u
Keeps-trans s t u h k = record {
  sound = k.sound;
  knows_on = λ j seq e. k.knows_on j seq (h.knows_on j seq e);
}

-- Only the sessions and the configuration matter.
pub same_sessions :
    (s t u : Server) → t.sessions ≡ u.sessions → t.cfg ≡ u.cfg → Keeps s t → Keeps s u
unfolding knows
same_sessions s t u e c h = record {
  sound = record {
    sized = rw (← c) h.sound.sized;
    windows = λ k x g. h.sound.windows k x (rw e g);
  };
  knows_on = λ k seq g. subst (λ m. session_knows (get m k) seq ≡ true) e (h.knows_on k seq g);
}

pub decode-IsSeq :
    (bytes : Bytes) (k seq : ℕ) (payload : Bytes)
    → All IsByte bytes
    → decode_packet bytes ≡ ok (k, seq, payload)
    → IsSeq seq
decode-IsSeq bytes k seq payload h e = elim (encode_packet-decode_packet bytes h) [
  | inl (short, _) ↦ absurd (cc (short, e))
  | inr (d, same, _, bound, _) ↦
      let q : d ≡ (k, seq, payload) = ok_inj (sym same ∙ e) in
      subst (λ (x : Decoded). x.1 < u32_mod) q bound
]
