-- ===== src/Server/Tasks/Atomic.antt =====
-- Packets of fproxy-rs/src/server.rs whose tasks run one after the other are handled as in one step each.
use fproxy.Base.{
  ℕ, ◌≡◌, refl, ◌∙◌, ap, sym, true, List, [], ◌∷◌, ◌++◌, inl, inr, Bool-cases, Option-cases, nat_eq,
}
use fproxy.Base.HashMap.{get}
use fproxy.Config.{ServerConfig}
use fproxy.Server.State.{Server, Output, new}
use fproxy.Server.Outputs.{payloads, payloads-append}
use fproxy.Server.Packets.{Net}
use fproxy.Server.Tasks.Defs.{Packet, idle, System, task_of, is_free, Action, interleave, init}
use fproxy.Server.Tasks.Views.{Views}
use fproxy.Server.Tasks.Refines.{alone, as_receive}
use fproxy.Server.Tasks.Single.{
  sent_payloads, IsStep, after_alone, found_alone, failed_alone, made_alone,
}

-- One packet, whatever the map of sessions and the operating system hold for it.
pub alone-IsStep :
    (s : System) (v : Server) (net : Net) (now i : ℕ) (p : Packet)
    → Views s v
    → is_free s.clearing ≡ true
    → task_of s i ≡ idle
    → IsStep i s (after_alone net now i p s) (as_receive v net now p)
alone-IsStep s v net now i p w free rest = elim (Option-cases (get s.sessions p.session_id)) [
  | inr (h, e) ↦ elim (Option-cases (get s.objects h)) [
    | inl n ↦ absurd (w.there p.session_id h e n)
    | inr (o, f) ↦ found_alone s v net now i p h o w free rest e f
  ]
  | inl e ↦ elim (Option-cases net.bind) [
    | inl b ↦ failed_alone s v net now i p w free rest e (inl b)
    | inr (conn, b) ↦ elim (Bool-cases net.connects) [
      | inl c ↦ made_alone s v net now i p conn w free rest e b c
      | inr c ↦ failed_alone s v net now i p w free rest e (inr c)
    ]
  ]
]

-- A packet, the time it arrives at, and what the operating system answers.
abbrev pub Arrival : Type 0
Arrival = Net × ℕ × Packet

-- The packets are handled in one step each; the last outputs come first.
abbrev pub serve : Server → List Output → List Arrival → Server × List Output
serve v os [] = (v, os)
serve v os ((net, now, p) ∷ arrivals) =
    let (v', more) = as_receive v net now p in serve v' (more ++ os) arrivals

-- One task handles the packets, section by section.
abbrev pub one_by_one : ℕ → List Arrival → List Action
one_by_one i [] = []
one_by_one i ((net, now, p) ∷ arrivals) = alone net now i p ++ one_by_one i arrivals

-- Where the task has got to, and what has been sent in all.
record IsServed (i : ℕ) (s : System) (r : Server × List Output) : Type 0 where
  pub views : Views s r.0
  pub sent_now : sent_payloads s.sent ≡ payloads r.1
  pub at_rest : task_of s i ≡ idle
  pub free : is_free s.clearing ≡ true

serve_run :
    (i : ℕ) (s : System) (v : Server) (os : List Output) (arrivals : List Arrival)
    → IsServed i s (v, os)
    → IsServed i (interleave s (one_by_one i arrivals)) (serve v os arrivals)
unfolding interleave
serve_run i s v os [] d = d
serve_run i s v os ((net, now, p) ∷ arrivals) d =
    let r = alone-IsStep s v net now i p d.views d.free d.at_rest in
    serve_run i (after_alone net now i p s) _ _ arrivals record {
      views = r.views;
      sent_now =
          r.sent_now
          ∙ ap (λ l. payloads (as_receive v net now p).1 ++ l) d.sent_now
          ∙ sym (payloads-append (as_receive v net now p).1 os);
      at_rest = r.at_rest;
      free = r.free;
    }

init-IsServed : (cfg : ServerConfig) (i : ℕ) → IsServed i (init cfg) (new cfg, [])
unfolding init new get payloads
init-IsServed cfg i = record {
  views = record {
    cfg = refl;
    sessions = λ k. refl;
    paths = refl;
    conns = refl;
    own = λ j k h e. absurd (cc e);
    there = λ k h e. absurd (cc e);
    unmade = λ h le. refl;
  };
  sent_now = refl;
  at_rest = refl;
  free = refl;
}

-- A task that handles packets one after the other, section by section, with nothing in between,
-- comes to the state that the handlers come to in one step for each packet, with the session objects
-- put in the place of their handles, and has sent the same payloads to targets in the same order.
pub interleave_refines :
    (cfg : ServerConfig) (i : ℕ) (arrivals : List Arrival)
    → let s = interleave (init cfg) (one_by_one i arrivals) in
      let (v, outputs) = serve (new cfg) [] arrivals in
      Views s v × (sent_payloads s.sent ≡ payloads outputs)
interleave_refines cfg i arrivals =
    let d = serve_run i (init cfg) (new cfg) [] arrivals (init-IsServed cfg i) in
    (d.views, d.sent_now)
