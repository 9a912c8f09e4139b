-- ===== src/Server/Tasks/Lookup.antt =====
-- The sections in which a task of fproxy-rs/src/server.rs finds or makes its session keep the invariant.
use fproxy.Base.{
  ℕ, ◌+◌, ◌≤◌, ◌≡◌, refl, ◌∙◌, ap, sym, subst, true, false, arith, ◌==◌, inl, inr, Bool-cases,
  Option-cases, nat_eq,
}
use fproxy.Base.HashMap.{get, insert, get-insert}
use fproxy.Server.Window.Invariant.{IsValid, IsSeq, new-IsValid}
use fproxy.Server.State.{TargetSession}
use fproxy.Server.Packets.{Net}
use fproxy.Server.Tasks.Defs.{
  Packet, Task, idle, missed, holding, active, System, task_of, goes, is_free, look, fresh_object,
  add_object, make, create, touch,
}
use fproxy.Server.Tasks.Invariant.{object_knows, let_through, HasSeq, IsOnce}
use fproxy.Server.Tasks.Moves.{KeepsObjects, same_objects, put_keeps, moved}

-- A task that goes on, and changes no object, to a place where nothing is let through.
pub calm :
    (s : System) (i : ℕ) (t : Task)
    → IsOnce s
    → HasSeq t
    → ((h q : ℕ) → let_through t h q ≡ true → let_through (task_of s i) h q ≡ true)
    → IsOnce (goes s i t)
calm s i t v seq fewer = moved s (goes s i t) i t v refl refl refl (same_objects s v) seq fewer

pub look-IsOnce : (s : System) (i : ℕ) (p : Packet) → IsOnce s → IsSeq p.seq → IsOnce (look s i p)
unfolding look
look-IsOnce s i p v k = elim (Bool-cases (is_free s.clearing)) [
  | inl free ↦ elim (Option-cases (get s.sessions p.session_id)) [
    | inl missing ↦ rw (free, missing) (calm s i (missed p) v k (λ h q e. absurd (cc e)))
    | inr (h, found) ↦ rw (free, found) (calm s i (holding p h) v k (λ j q e. absurd (cc e)))
  ]
  | inr busy ↦ rw busy v
]

-- A new object takes a handle that no task has.
pub add_keeps :
    (s : System) (object : TargetSession)
    → IsOnce s
    → IsValid object.dedup_window
    → KeepsObjects s (insert s.objects s.made object) (s.made + 1)
add_keeps s object v valid = record {
  unmade = λ j le.
      let other : (s.made == j) ≡ false = ground arith in
      get-insert s.objects s.made j object ∙ rw other (v.unmade j (omega arith));
  windows = λ j o g. elim (Bool-cases (s.made == j)) [
    | inl same ↦
        let q : object ≡ o = ground (arith, get-insert s.objects s.made j object) in
        subst (λ (x : TargetSession). IsValid x.dedup_window) q valid
    | inr other ↦ v.windows j o (ground (arith, get-insert s.objects s.made j object))
  ];
  more = λ j q k. elim (Bool-cases (s.made == j)) [
    | inl same ↦
        let le : s.made ≤ j = ground arith in
        absurd (cc (ap (λ o. object_knows o q) (sym (v.unmade j le)) ∙ k))
    | inr other ↦ rw (get-insert s.objects s.made j object, other) k
  ];
}

pub make-IsOnce :
    (s : System) (net : Net) (now i : ℕ) (p : Packet)
    → IsOnce s
    → IsSeq p.seq
    → IsOnce (make s net now i p)
unfolding make
make-IsOnce s net now i p v k =
    let quit : IsOnce (goes s i idle) = calm s i idle v tt (λ h q e. absurd (cc e)) in
    elim (Option-cases net.bind) [
      | inl unbound ↦ rw unbound quit
      | inr (target_conn, bound) ↦ elim (Bool-cases net.connects) [
        | inl connected ↦
            let object : TargetSession = fresh_object s target_conn now in
            rw (bound, connected)
              (moved s (add_object s i p object) i (holding p s.made) v refl refl refl
                (add_keeps s object v (new-IsValid s.cfg.dedup_window v.sized)) k
                (λ h q e. absurd (cc e)))
        | inr unconnected ↦ rw (bound, unconnected) quit
      ]
    ]

pub create-IsOnce :
    (s : System) (net : Net) (now i : ℕ) (p : Packet)
    → IsOnce s
    → IsSeq p.seq
    → IsOnce (create s net now i p)
unfolding create
create-IsOnce s net now i p v k = elim (Bool-cases (is_free s.clearing)) [
  | inl free ↦ elim (Option-cases (get s.sessions p.session_id)) [
    | inl missing ↦ rw (free, missing) (make-IsOnce s net now i p v k)
    | inr (h, found) ↦ rw (free, found) (calm s i (holding p h) v k (λ j q e. absurd (cc e)))
  ]
  | inr busy ↦ rw busy v
]

pub touch-IsOnce :
    (s : System) (now i : ℕ) (p : Packet) (h : ℕ)
    → IsOnce s
    → IsSeq p.seq
    → IsOnce (touch s now i p h)
unfolding touch
touch-IsOnce s now i p h v k = elim (Option-cases (get s.objects h)) [
  | inl gone ↦ rw (gone, touch) v
  | inr (object, e) ↦
      rw (e, touch)
        (moved s _ i (active p h) v refl refl refl
          (put_keeps s h object (record object { last_activity = now }) v e (v.windows h object e)
            (λ q r. r))
          k (λ j q f. absurd (cc f)))
]
