-- ===== src/Server/Tasks/Views.antt =====
-- The state of fproxy-rs/src/server.rs with shared session objects, seen as the state in which the
-- map holds the sessions themselves.
use fproxy.Base.{
  ℕ, ◌≤◌, ◌≡◌, ◌≢◌, refl, ◌∙◌, ap, sym, true, false, arith, ◌==◌, Option, none, some, ◌⊎◌, inl, inr,
  Bool-cases, Option-cases, nat_eq, if◌then◌else◌, ==_refl, some_inj,
}
use fproxy.Base.HashMap.{HashMap, get, insert, get-insert}
use fproxy.Server.State.{Server, TargetSession, put_session}
use fproxy.Server.Tasks.Defs.{Packet, System, put_object, add_object}

pub at_key :
    {V : Type 0} (m : HashMap ℕ V) (k j : ℕ) (x : V)
    → (k == j) ≡ true
    → get (insert m k x) j ≡ some x
at_key m k j x e = get-insert m k j x ∙ rw e refl

pub at_other :
    {V : Type 0} (m : HashMap ℕ V) (k j : ℕ) (x : V)
    → (k == j) ≡ false
    → get (insert m k x) j ≡ get m j
at_other m k j x e = get-insert m k j x ∙ rw e refl

abbrev pub object_of : HashMap ℕ TargetSession → Option ℕ → Option TargetSession
object_of objects none = none
object_of objects (some h) = get objects h

-- The maps agree, and no two sessions share an object.
pub record Views (s : System) (v : Server) : Type 0 where
  pub cfg : v.cfg ≡ s.cfg
  pub sessions : (k : ℕ) → get v.sessions k ≡ object_of s.objects (get s.sessions k)
  pub paths : v.client_paths ≡ s.client_paths
  pub conns : v.tcp_conn_to_session ≡ s.tcp_conn_to_session
  pub own : (j k h : ℕ) → get s.sessions j ≡ some h → get s.sessions k ≡ some h → j ≡ k
  pub there : (k h : ℕ) → get s.sessions k ≡ some h → get s.objects h ≢ none
  pub unmade : (h : ℕ) → s.made ≤ h → get s.objects h ≡ none

-- Where the tasks are does not matter.
pub same_shared :
    (s s' : System) (v : Server)
    → s'.cfg ≡ s.cfg
    → s'.objects ≡ s.objects
    → s'.made ≡ s.made
    → s'.sessions ≡ s.sessions
    → s'.client_paths ≡ s.client_paths
    → s'.tcp_conn_to_session ≡ s.tcp_conn_to_session
    → Views s v
    → Views s' v
same_shared s s' v cfg objects made sessions paths conns w = record {
  cfg = w.cfg ∙ sym cfg;
  sessions = λ k. rw (objects, sessions) (w.sessions k);
  paths = w.paths ∙ sym paths;
  conns = w.conns ∙ sym conns;
  own = λ j k h e f. w.own j k h (rw (← sessions) e) (rw (← sessions) f);
  there = λ k h e. rw objects (w.there k h (rw (← sessions) e));
  unmade = λ h le. rw objects (w.unmade h (rw (← made) le));
}

-- Only what the map of sessions holds matters, not how it is listed.
pub same_server :
    (s : System) (v v' : Server)
    → v'.cfg ≡ v.cfg
    → ((k : ℕ) → get v'.sessions k ≡ get v.sessions k)
    → v'.client_paths ≡ v.client_paths
    → v'.tcp_conn_to_session ≡ v.tcp_conn_to_session
    → Views s v
    → Views s v'
same_server s v v' cfg sessions paths conns w = record {
  cfg = cfg ∙ w.cfg;
  sessions = λ k. sessions k ∙ w.sessions k;
  paths = paths ∙ w.paths;
  conns = conns ∙ w.conns;
  own = w.own;
  there = w.there;
  unmade = w.unmade;
}

pub put-Views :
    (s : System) (v : Server) (k h : ℕ) (o : TargetSession)
    → get s.sessions k ≡ some h
    → Views s v
    → Views (put_object s h o) (put_session v k o)
put-Views s v k h o e w = record {
  cfg = w.cfg;
  sessions = λ j. get-insert v.sessions k j o ∙ seen j;
  paths = w.paths;
  conns = w.conns;
  own = w.own;
  there = λ j h' f. elim (Bool-cases (h == h')) [
    | inl same ↦ λ n. absurd (cc (sym n ∙ at_key s.objects h h' o same))
    | inr other ↦ λ n. w.there j h' f (sym (at_other s.objects h h' o other) ∙ n)
  ];
  unmade = λ h' le. elim (Bool-cases (h == h')) [
    | inl same ↦
        let hh : h ≡ h' = ground arith in
        absurd (w.there k h e (ap (get s.objects) hh ∙ w.unmade h' le))
    | inr other ↦ at_other s.objects h h' o other ∙ (w.unmade h' le)
  ];
}
  where
    seen :
        (j : ℕ)
        → (if k == j then some o else get v.sessions j)
          ≡ object_of (insert s.objects h o) (get s.sessions j)
    seen j = elim (Bool-cases (k == j)) [
      | inl same ↦
          let kj : k ≡ j = ground arith in
          let f : get s.sessions j ≡ some h = ap (get s.sessions) (sym kj) ∙ e in
          rw (same, f) (sym (at_key s.objects h h o (==_refl h)))
      | inr other ↦ elim (Option-cases (get s.sessions j)) [
        | inl n ↦ rw (other, n) (w.sessions j ∙ rw n refl)
        | inr (h', f) ↦
            let apart : (h == h') ≡ false = elim (Bool-cases (h == h')) [
              | inr different ↦ different
              | inl same ↦
                  let hh : h ≡ h' = ground arith in
                  let kj : k ≡ j = w.own k j h' (e ∙ ap some hh) f in absurd (ground arith)
            ] in
            rw (other, f) (w.sessions j ∙ rw f (sym (at_other s.objects h h' o apart)))
      ]
    ]

-- A session that is made gets an object of its own.
pub add-Views :
    (s : System) (v : Server) (i : ℕ) (p : Packet) (o : TargetSession)
    → get s.sessions p.session_id ≡ none
    → Views s v
    → Views (add_object s i p o) (put_session v p.session_id o)
add-Views s v i p o missing w = record {
  cfg = w.cfg;
  sessions = λ j.
      get-insert v.sessions p.session_id j o
      ∙ seen j
      ∙ ap (object_of (insert s.objects s.made o))
          (sym (get-insert s.sessions p.session_id j s.made));
  paths = w.paths;
  conns = w.conns;
  own = λ j k h e f. elim (from j h e) [
    | inl (jj, hh) ↦ elim (from k h f) [
      | inl (kk, _) ↦ sym jj ∙ kk
      | inr old ↦ absurd (w.there k h old (w.unmade h (omega arith)))
    ]
    | inr old ↦ elim (from k h f) [
      | inl (_, hh) ↦ absurd (w.there j h old (w.unmade h (omega arith)))
      | inr old' ↦ w.own j k h old old'
    ]
  ];
  there = λ k h e. elim (from k h e) [
    | inl (_, hh) ↦
        let here : (s.made == h) ≡ true = ground arith in
        λ n. absurd (cc (sym n ∙ at_key s.objects s.made h o here))
    | inr old ↦ λ n. w.there k h old (sym (still h (made k h old)) ∙ n)
  ];
  unmade = λ h le.
      let later : (s.made == h) ≡ false = ground arith in
      at_other s.objects s.made h o later ∙ (w.unmade h (omega arith));
}
  where
    from :
        (j h : ℕ)
        → get (insert s.sessions p.session_id s.made) j ≡ some h
        → ((p.session_id ≡ j) × (s.made ≡ h)) ⊎ (get s.sessions j ≡ some h)
    from j h e = elim (Bool-cases (p.session_id == j)) [
      | inl same ↦
          inl (ground arith, some_inj (sym (at_key s.sessions p.session_id j s.made same) ∙ e))
      | inr other ↦ inr (sym (at_other s.sessions p.session_id j s.made other) ∙ e)
    ]

    made : (k h : ℕ) → get s.sessions k ≡ some h → (s.made == h) ≡ false
    made k h e = elim (Bool-cases (s.made == h)) [
      | inr other ↦ other
      | inl same ↦ let le : s.made ≤ h = ground arith in absurd (w.there k h e (w.unmade h le))
    ]

    still : (h : ℕ) → (s.made == h) ≡ false → get (insert s.objects s.made o) h ≡ get s.objects h
    still h other = at_other s.objects s.made h o other

    seen :
        (j : ℕ)
        → (if p.session_id == j then some o else get v.sessions j)
          ≡ object_of
              (insert s.objects s.made o)
              (if p.session_id == j then some s.made else get s.sessions j)
    seen j = elim (Bool-cases (p.session_id == j)) [
      | inl same ↦ rw same (sym (at_key s.objects s.made s.made o (==_refl s.made)))
      | inr other ↦ elim (Option-cases (get s.sessions j)) [
        | inl n ↦ rw (other, n) (w.sessions j ∙ rw n refl)
        | inr (h, f) ↦ rw (other, f) (w.sessions j ∙ rw f (sym (still h (made j h f))))
      ]
    ]
