-- ===== src/Tests/Tasks.antt =====
-- Tasks of fproxy-rs/src/server.rs that interleave, on concrete inputs.
use fproxy.Base.{
  List, [], ◌∷◌, ◌++◌, ◌≡◌, refl, none, some, arith, insert_key, nat_eq, contains_key,
}
use fproxy.Base.HashMap.{get, insert, remove}
use fproxy.Server.Window.{is_duplicate, start, new}
use fproxy.Server.State.{udp, tcp}
use fproxy.Server.Packets.{update_udp_path}
use fproxy.Server.Tasks.Paths.{IsTidy, interleave-IsTidy}
use fproxy.Server.Tasks.Defs.{
  Packet, Action, arrives, advances, expires, clears, init, look, make, create, touch, ask_window,
  map_conn, register, send, advance, arrive, expired, remove_all, expire, clear, act, interleave,
}
use fproxy.Server.Tasks.Invariant.{SentOnce}
use fproxy.Server.Tasks.Once.{interleave-SentOnce}
use fproxy.Server.Tasks.OneObject.{SentOnceFor, interleave-SentOnceFor}
use fproxy.Server.State as ServerState
use fproxy.Server.Outputs.{payloads}
use fproxy.Server.Tasks.Views.{Views}
use fproxy.Server.Tasks.Atomic.{one_by_one, serve, interleave_refines}
use fproxy.Server.Tasks.Single.{sent_payloads}
use fproxy.Tests.Fixtures.{server_config, hello, net}

abbrev over_udp : Packet
over_udp = record { session_id = 7; seq = 3; payload = hello; path = udp 20 10 }

abbrev over_tcp : Packet
over_tcp = record { session_id = 7; seq = 3; payload = hello; path = tcp 50 51 }

-- Both tasks have found no session before either makes one.
abbrev at_once : List Action
at_once =
    arrives 0 over_udp
    ∷ arrives 1 over_tcp
    ∷ advances net 1 0
    ∷ advances net 1 1
    ∷ advances net 1 0
    ∷ advances net 1 1
    ∷ advances net 1 1
    ∷ advances net 1 0
    ∷ advances net 1 1
    ∷ advances net 1 0
    ∷ advances net 1 1
    ∷ advances net 1 1
    ∷ advances net 1 1
    ∷ []

interleave-SentOnce_example :
    SentOnce (interleave (init server_config) (at_once ++ expires 99 ∷ clears ∷ [])).sent
interleave-SentOnce_example =
    interleave-SentOnce server_config (at_once ++ expires 99 ∷ clears ∷ []) (omega arith)
      (omega arith)

interleave-SentOnceFor_example : SentOnceFor (interleave (init server_config) at_once).sent
interleave-SentOnceFor_example =
    interleave-SentOnceFor server_config at_once (omega arith) (omega arith) (omega arith)

-- One copy is sent, by the task that asked the window first.
one_copy :
    ((interleave (init server_config) at_once).sent)
    ≡ record { session_id = 7; object = 0; seq = 3; payload = hello } ∷ []
unfolding interleave act arrive advance look make create touch ask_window map_conn register send
    init is_duplicate start new insert_key contains_key update_udp_path get insert
one_copy = refl

-- The clean-up ends the session after the window has let a packet through and before its path is
-- registered.
abbrev overtaken : List Action
overtaken =
    arrives 0 over_udp
    ∷ advances net 1 0
    ∷ advances net 1 0
    ∷ advances net 1 0
    ∷ advances net 1 0
    ∷ advances net 1 0
    ∷ expires 99
    ∷ clears
    ∷ advances net 99 0
    ∷ advances net 99 0
    ∷ []

-- The path stays, and no session is there for a later clean-up to remove it with.
path_left_over :
    let s = interleave (init server_config) overtaken in
    (get s.sessions 7 ≡ none) × (get s.client_paths 7 ≡ some (udp 20 10 ∷ []))
unfolding interleave act arrive advance look make create touch ask_window map_conn register send
    init expire expired remove_all clear remove is_duplicate start new insert_key contains_key
    update_udp_path get insert
path_left_over = (refl, refl)

interleave-IsTidy_example : IsTidy (interleave (init server_config) overtaken)
interleave-IsTidy_example = interleave-IsTidy server_config overtaken

interleave_refines_example :
    let s =
      interleave
        (init server_config)
        (one_by_one 0 ((net, 1, over_udp) ∷ (net, 2, over_tcp) ∷ [])) in
    let (v, outputs) =
      serve (ServerState.new server_config) [] ((net, 1, over_udp) ∷ (net, 2, over_tcp) ∷ []) in
    Views s v × (sent_payloads s.sent ≡ payloads outputs)
interleave_refines_example =
    interleave_refines server_config 0 ((net, 1, over_udp) ∷ (net, 2, over_tcp) ∷ [])
