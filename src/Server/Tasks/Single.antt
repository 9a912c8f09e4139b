-- ===== src/Server/Tasks/Single.antt =====
-- A task of fproxy-rs/src/server.rs that handles one packet by itself, for a session that is there, is made or cannot be made.
use fproxy.Base.{
  ℕ, ◌+◌, ◌≡◌, refl, ◌∙◌, ap, sym, Bool, true, false, List, [], ◌∷◌, ◌++◌, map, none, some, Bytes,
  ◌⊎◌, inl, inr, Bool-cases, Option-cases, nat_eq, if◌then◌else◌, ==_refl,
}
use fproxy.Base.HashMap.{get, insert}
use fproxy.Config.{ServerConfig}
use fproxy.Server.Window.{is_duplicate}
use fproxy.Server.State.{Server, TargetSession, Output, to_target, spawn_target_reader, put_session}
use fproxy.Server.Outputs.{payloads}
use fproxy.Server.Packets.{Net, new_session}
use fproxy.Server.Tasks.Defs.{
  Packet, idle, looking, missed, holding, Sent, System, task_of, goes, is_free, fresh_object,
  add_object, make, advances, act, interleave,
}
use fproxy.Server.Tasks.Views.{Views, same_shared, add-Views, at_key}
use fproxy.Server.Tasks.Alone.{sent_after, holding_run}
use fproxy.Server.Tasks.Rounds.{IsDone, at_own, idle_round}
use fproxy.Server.Tasks.Refines.{
  alone, as_receive, rest_round, arrive_round, found_round, missing_round, create_round,
  receive_found, receive_made, receive_failed,
}

abbrev pub sent_payloads : List Sent → List Bytes
sent_payloads sent = map (λ (e : Sent). e.payload) sent

-- The tasks have come where the handler did.
pub record IsStep (i : ℕ) (s s' : System) (r : Server × List Output) : Type 0 where
  pub views : Views s' r.0
  pub sent_now : sent_payloads s'.sent ≡ payloads r.1 ++ sent_payloads s.sent
  pub at_rest : task_of s' i ≡ idle
  pub free : is_free s'.clearing ≡ true

IsDone-IsStep :
    (i : ℕ) (s s' : System) (v : Server) (p : Packet) (h : ℕ) (duplicate : Bool) (os : List Output)
    → IsDone i s s' v (sent_after duplicate p h s.sent)
    → payloads os ≡ (if duplicate then [] else p.payload ∷ [])
    → is_free s.clearing ≡ true
    → IsStep i s s' (v, os)
IsDone-IsStep i s s' v p h duplicate os d e free = record {
  views = d.views;
  sent_now = ap sent_payloads d.sent_now ∙ sent duplicate e;
  at_rest = d.at_rest;
  free = rw d.clearing free;
}
  where
    sent :
        (b : Bool)
        → payloads os ≡ (if b then [] else p.payload ∷ [])
        → sent_payloads (sent_after b p h s.sent) ≡ payloads os ++ sent_payloads s.sent
    sent true e = rw e refl
    sent false e = rw e refl

abbrev pub after_alone : Net → ℕ → ℕ → Packet → System → System
after_alone net now i p s = interleave s (alone net now i p)

pub found_alone :
    (s : System) (v : Server) (net : Net) (now i : ℕ) (p : Packet) (h : ℕ) (o : TargetSession)
    → Views s v
    → is_free s.clearing ≡ true
    → task_of s i ≡ idle
    → get s.sessions p.session_id ≡ some h
    → get s.objects h ≡ some o
    → IsStep i s (after_alone net now i p s) (as_receive v net now p)
unfolding interleave payloads
found_alone s v net now i p h o w free rest e f =
    let duplicate = (is_duplicate o.dedup_window p.seq).1 in
    let s1 = goes s i (looking p) in
    let there : get v.sessions p.session_id ≡ some o = w.sessions p.session_id ∙ rw e f in
    let a = advances net now i in
    let s5 = act (act (act (act (act (goes s1 i (holding p h)) a) a) a) a) a in
    let d =
      holding_run s1 v net now i p h o e f (same_shared s s1 v refl refl refl refl refl refl w) in
    let outputs = if duplicate then [] else to_target o.target_conn p.payload ∷ [] in
    let brought : payloads outputs ≡ (if duplicate then [] else p.payload ∷ []) =
      elim (Bool-cases duplicate) [ inl b ↦ rw b refl | inr b ↦ rw b refl ] in
    rw
      (
        arrive_round s i p rest,
        found_round s net now i p h free e,
        rest_round s5 net now i d.at_rest,
        receive_found v net now p o there,
      )
      (IsDone-IsStep i s _ _ p h duplicate outputs
        record {
          views = d.views;
          sent_now = d.sent_now;
          at_rest = d.at_rest;
          clearing = d.clearing;
        }
        brought free)

pub failed_alone :
    (s : System) (v : Server) (net : Net) (now i : ℕ) (p : Packet)
    → Views s v
    → is_free s.clearing ≡ true
    → task_of s i ≡ idle
    → get s.sessions p.session_id ≡ none
    → (net.bind ≡ none) ⊎ (net.connects ≡ false)
    → IsStep i s (after_alone net now i p s) (as_receive v net now p)
unfolding interleave payloads make
failed_alone s v net now i p w free rest e failed =
    let s1 = goes s i (looking p) in
    let s2 = goes s1 i (missed p) in
    let made : make s2 net now i p ≡ goes s2 i idle = elim failed [
      | inl b ↦ rw (b, make) refl
      | inr c ↦ elim (Option-cases net.bind) [
        | inl b ↦ rw (b, make) refl
        | inr (conn, b) ↦ rw (b, make, c) refl
      ]
    ] in
    let there : get v.sessions p.session_id ≡ none = w.sessions p.session_id ∙ rw e refl in
    let idle_now = idle_round s2 net now i in
    rw
      (
        arrive_round s i p rest,
        missing_round s net now i p free e,
        create_round s1 net now i p free e,
        made,
        idle_now,
        idle_now,
        idle_now,
        idle_now,
        idle_now,
        receive_failed v net now p there failed,
      )
      record {
        views = same_shared s (goes s2 i idle) v refl refl refl refl refl refl w;
        sent_now = refl;
        at_rest = at_own s2 i idle;
        free = free;
      }

pub made_alone :
    (s : System) (v : Server) (net : Net) (now i : ℕ) (p : Packet) (conn : ℕ)
    → Views s v
    → is_free s.clearing ≡ true
    → task_of s i ≡ idle
    → get s.sessions p.session_id ≡ none
    → net.bind ≡ some conn
    → net.connects ≡ true
    → IsStep i s (after_alone net now i p s) (as_receive v net now p)
unfolding interleave payloads make
made_alone s v net now i p conn w free rest e b c =
    let k = p.session_id in
    let s1 = goes s i (looking p) in
    let s2 = goes s1 i (missed p) in
    let o : TargetSession = new_session v conn now in
    let s3 = record s2 {
      objects = insert s.objects s.made o;
      made = s.made + 1;
      sessions = insert s.sessions k s.made;
    } in
    let same : fresh_object s conn now ≡ o =
      ap (λ (n : ServerConfig). fresh_object (record s { cfg = n }) conn now) (sym w.cfg) in
    let made : make s2 net now i p ≡ goes s3 i (holding p s.made) =
      rw (b, make, c) (ap (λ x. add_object s2 i p x) same) in
    let missing : get v.sessions k ≡ none = w.sessions k ∙ rw e refl in
    let w3 : Views s3 (put_session v k o) =
      same_shared (add_object s2 i p o) s3 (put_session v k o) refl refl refl refl refl refl
        (add-Views s2 v i p o e (same_shared s s2 v refl refl refl refl refl refl w)) in
    let duplicate = (is_duplicate o.dedup_window p.seq).1 in
    let d =
      holding_run s3 (put_session v k o) net now i p s.made o
        (at_key s.sessions k k s.made (==_refl k))
        (at_key s.objects s.made s.made o (==_refl s.made)) w3 in
    let spawn = spawn_target_reader k conn in
    let outputs = if duplicate then spawn ∷ [] else spawn ∷ to_target conn p.payload ∷ [] in
    let brought : payloads outputs ≡ (if duplicate then [] else p.payload ∷ []) =
      elim (Bool-cases duplicate) [ inl y ↦ rw y refl | inr y ↦ rw y refl ] in
    rw
      (
        arrive_round s i p rest,
        missing_round s net now i p free e,
        create_round s1 net now i p free e,
        made,
        receive_made v net now p conn missing b c,
      )
      (IsDone-IsStep i s _ _ p s.made duplicate outputs
        record {
          views = d.views;
          sent_now = d.sent_now;
          at_rest = d.at_rest;
          clearing = d.clearing;
        }
        brought free)
