-- ===== src/Client/Numbers.antt =====
-- The session ids and numbers that packets get in fproxy-rs/src/client.rs are used once.
use fproxy.Base.{
  ℕ, ◌+◌, ◌%◌, ◌≤◌, ◌<◌, ◌≡◌, refl, ◌∙◌, ap, subst, Bool, true, false, ◌&&◌, ◌||◌, List, [], ◌∷◌,
  arith, ◌==◌, some, Bytes, inl, inr, Bool-cases, Option-cases, Result-cases, nat_eq, u64_mod,
  length,
}
use fproxy.Base.HashMap.{get, get-insert, get-remove}
use fproxy.Config.{ClientConfig}
use fproxy.Protocol.{Decoded, decode_udp, decode_tcp}
use fproxy.Client.Window.{is_duplicate}
use fproxy.Client.State.{Client, UdpSession, key_Eq, new, put_udp_session}
use fproxy.Client.Packets.{get_or_create_udp_session}
use fproxy.Client.Responses.{deliver, deliver_to, process_udp_response, process_tcp_response}
use fproxy.Client.Cleanup.{
  remove_udp_session, remove_udp_sessions, expired_udp, expired_tcp, cleanup_expired_sessions,
}
use fproxy.Client.Events.{Event, packet, udp_response, tcp_response, tcp_closed, tick, step}
use fproxy.Client.Maps.{IsInverse, Issued}
use fproxy.Client.Runs.{step-Advanced, new-IsInverse, new-Issued}
use fproxy.Client.Cleared.{cleanup_tcp_session-SameMaps, remove_tcp_sessions-SameMaps}

-- Whether a packet of the list has id `k` and number `q`.
abbrev pub has_key : List Decoded → ℕ → ℕ → Bool
has_key [] k q = false
has_key ((j, p, payload) ∷ given) k q = (j == k && p == q) || has_key given k q

-- No two have both in common.
abbrev pub KeysDistinct : List Decoded → Type 0
KeysDistinct [] = Unit
KeysDistinct ((j, p, payload) ∷ given) = (has_key given j p ≡ false) × KeysDistinct given

-- The id, number and payload under which an event sends a packet of a source.
unfoldable pub given_by : Client → Event → List Decoded
given_by c (packet env source_addr payload) =
    let s = (get_or_create_udp_session c env source_addr).1 in (s.session_id, s.seq, payload) ∷ []
given_by c (udp_response now bytes) = []
given_by c (tcp_response now source_addr bytes) = []
given_by c (tcp_closed key) = []
given_by c (tick now) = []

-- The first number of a session is below 2^31, so this many packets do not bring it to 2^32.
abbrev pub half : ℕ
half = 2147483648

-- What the sessions of a client know of the packets that it has sent.
pub record IsNumbered (given : List Decoded) (initial n : ℕ) (c : Client) : Type 0 where
  pub inverse : IsInverse c
  pub issued : Issued initial n c
  pub ids :
      (k q : ℕ)
      → has_key given k q ≡ true
      → (j : ℕ) × (j ≤ n) × (1 ≤ j) × (k ≡ (initial + j) % u64_mod)
  pub below :
      (a q : ℕ) (s : UdpSession)
      → get c.udp_sessions a ≡ some s
      → has_key given s.session_id q ≡ true
      → q < s.seq
  pub bounded :
      (a : ℕ) (s : UdpSession) → get c.udp_sessions a ≡ some s → s.seq < half + length given
  pub distinct : KeysDistinct given

pub new-IsNumbered :
    (cfg : ClientConfig) (initial : ℕ)
    → initial < u64_mod
    → IsNumbered [] initial 0 (new cfg initial)
unfolding new get
new-IsNumbered cfg initial h = record {
  inverse = new-IsInverse cfg initial;
  issued = new-Issued cfg initial h;
  ids = λ k q e. absurd (cc e);
  below = λ a q s e. absurd (cc e);
  bounded = λ a s e. absurd (cc e);
  distinct = tt;
}

-- The sessions that are left have the ids and numbers that they had.
record Ages (c d : Client) : Type 0 where
  older :
      (a : ℕ) (s : UdpSession)
      → get d.udp_sessions a ≡ some s
      → (t : UdpSession) × (get c.udp_sessions a ≡ some t)
        × (t.session_id ≡ s.session_id)
        × (t.seq ≡ s.seq)

Ages-refl : (c d : Client) → d.udp_sessions ≡ c.udp_sessions → Ages c d
Ages-refl c d e = record { older = λ a s g. (s, rw (← e) g, refl, refl) }

deliver_to-Ages :
    (c : Client) (now a seq : ℕ) (payload : Bytes) → Ages c (deliver_to c now a seq payload).0
unfolding deliver_to deliver
deliver_to-Ages c now a seq payload = elim (Option-cases (get c.udp_sessions a)) [
  | inl e ↦ rw (e, deliver_to) (Ages-refl c c refl)
  | inr (t, e) ↦
      let w = (is_duplicate t.response_dedup seq).0 in
      elim (Bool-cases (is_duplicate t.response_dedup seq).1) [
        | inl d ↦ rw (e, deliver_to, d) (put_Ages (record t { response_dedup = w }) t e refl refl)
        | inr d ↦
            rw (e, deliver_to, d)
              (put_Ages (record t { response_dedup = w; last_activity = now }) t e refl refl)
      ]
]
  where
    put_Ages :
        (s t : UdpSession)
        → get c.udp_sessions a ≡ some t
        → t.session_id ≡ s.session_id
        → t.seq ≡ s.seq
        → Ages c (put_udp_session c a s)
    put_Ages s t e i q = record {
      older = λ b u g. elim (Bool-cases (a == b)) [
        | inl same ↦
            let ab : a ≡ b = ground arith in
            let su : s ≡ u = ground (arith, get-insert c.udp_sessions a b s) in
            (
              t,
              subst (λ (x : ℕ). get c.udp_sessions x ≡ some t) ab e,
              i ∙ ap (λ (x : UdpSession). x.session_id) su,
              q ∙ ap (λ (x : UdpSession). x.seq) su,
            )
        | inr other ↦ (u, ground (arith, get-insert c.udp_sessions a b s), refl, refl)
      ];
    }

remove_udp_sessions-old :
    (c : Client) (l : List (ℕ × ℕ)) (a : ℕ) (s : UdpSession)
    → get (remove_udp_sessions c l).udp_sessions a ≡ some s
    → get c.udp_sessions a ≡ some s
unfolding remove_udp_sessions remove_udp_session
remove_udp_sessions-old c [] a s g = g
remove_udp_sessions-old c ((b, id) ∷ l) a s g =
    let h = remove_udp_sessions-old (remove_udp_session c b id) l a s g in
    ground (arith, get-remove c.udp_sessions b a)

-- The event is no packet of a source.
abbrev pub GivesNothing : Event → Type 0
GivesNothing (packet env source_addr payload) = ⊥
GivesNothing (udp_response now bytes) = Unit
GivesNothing (tcp_response now source_addr bytes) = Unit
GivesNothing (tcp_closed key) = Unit
GivesNothing (tick now) = Unit

step-Ages : (c : Client) (e : Event) → GivesNothing e → Ages c (step c e).0
unfolding step process_udp_response process_tcp_response cleanup_expired_sessions
step-Ages c (packet env a payload) h = absurd h
step-Ages c (udp_response now bytes) h = elim (Result-cases (decode_udp bytes)) [
  | inr (e, r) ↦ rw (r, process_udp_response) (Ages-refl c c refl)
  | inl ((id, seq, payload), r) ↦ elim (Option-cases (get c.udp_session_addrs id)) [
    | inl none_found ↦ rw (r, process_udp_response, none_found) (Ages-refl c c refl)
    | inr (a, found) ↦ rw (r, process_udp_response, found) (deliver_to-Ages c now a seq payload)
  ]
]
step-Ages c (tcp_response now a bytes) h = elim (Result-cases (decode_tcp bytes)) [
  | inr (e, r) ↦ rw (r, process_tcp_response) (Ages-refl c c refl)
  | inl ((id, seq, payload), r) ↦ rw (r, process_tcp_response) (deliver_to-Ages c now a seq payload)
]
step-Ages c (tcp_closed key) h = Ages-refl c _ (cleanup_tcp_session-SameMaps c key).sessions
step-Ages c (tick now) h =
    let l = expired_udp c.cfg.session_timeout now c.udp_sessions in
    let d = remove_udp_sessions c l in
    let m = remove_tcp_sessions-SameMaps d (expired_tcp c.cfg.session_timeout now d.tcp_sessions) in
    record {
      older = λ a s g. (s, remove_udp_sessions-old c l a s (rw (← m.sessions) g), refl, refl);
    }

-- Events that give nothing keep it.
pub other-IsNumbered :
    (given : List Decoded) (initial n : ℕ) (c : Client) (e : Event)
    → IsNumbered given initial n c
    → GivesNothing e
    → n + 2 < u64_mod
    → (m : ℕ) × (m ≤ n + 2) × IsNumbered given initial m (step c e).0
other-IsNumbered given initial n c e v h k =
    let adv = step-Advanced initial n c e v.inverse v.issued k in
    let ages = step-Ages c e h in
    (
      adv.passed,
      adv.at_most,
      record {
        inverse = adv.inverse;
        issued = adv.issued;
        ids = λ k' q g.
            let (j, hi, lo, same) = v.ids k' q g in (j, omega (arith, adv.at_least), lo, same);
        below = λ a q s g f.
            let (t, gt, it, qt) = ages.older a s g in rw (← qt) (v.below a q t gt (rw it f));
        bounded = λ a s g. let (t, gt, it, qt) = ages.older a s g in rw (← qt) (v.bounded a t gt);
        distinct = v.distinct;
      },
    )
