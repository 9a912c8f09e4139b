-- ===== src/Tests/Server.antt =====
-- The theorems on the server at concrete inputs.
use fproxy.Base.{
  ℕ, ◌++◌, List, [], ◌∷◌, ◌≡◌, refl, true, ◌≢◌, none, some, arith, if◌then◌else◌, IsByte, All,
  to_be_bytes, from_be_bytes, insert_key, nat_eq, contains_key, retain,
}
use fproxy.Base.HashMap.{get, insert}
use fproxy.Protocol.{encode_packet, decode_packet, decode_udp, decode_tcp}
use fproxy.Server.Window.{DedupWindow, is_duplicate, start}
use fproxy.Server.Window
use fproxy.Server.State.{ClientPath, udp, tcp, Server, TargetSession, to_target, put_session}
use fproxy.Server.Packets.{
  Net, update_udp_path, create_session, get_or_create_session, add_udp_path, check_duplicate,
  receive, handle_udp_packet,
}
use fproxy.Server.Responses.{send_response_to_all_paths}
use fproxy.Server.Cleanup.{cleanup_expired_sessions}
use fproxy.Server.Events.{
  udp_packet, handle_tcp_conn, tcp_packets, handle_udp_listener, handle_target_response,
  cleanup_interval, session_cleanup_loop, target_response, conn_closed, tick, step, run,
}
use fproxy.Server.Sessions.{IsSound}
use fproxy.Server.Windows.{knows}
use fproxy.Server.Idle.{idle_session_ends}
use fproxy.Frame.RoundTrip.{frames}
use fproxy.Frame.Broken.{no_length}
use fproxy.Server.Malformed.{has_header, run_without_malformed, handle_tcp_conn-broken}
use fproxy.Server.Once.{second_copy, step_outputs, Carries}
use fproxy.Server.Expiry.{run-IsSound, cleanup_expired_sessions_lem, unless_expired, paths_of}
use fproxy.Server.Invariant.{run-IsConsistent}
use fproxy.Server.Routing.{send_response_delivers, DeliversAll}
use fproxy.Protocol.RoundTrip.{decode_packet-encode_packet}
use fproxy.Server.State as ServerState
use fproxy.Tests.Fixtures.{server_config, hello, bytes, by_udp, by_tcp, fresh_server, serving, net}

fresh_IsSound : IsSound fresh_server
unfolding run
fresh_IsSound = run-IsSound server_config [] (omega arith) tt

bytes-IsByte : All IsByte bytes
unfolding encode_packet to_be_bytes
bytes-IsByte = omega arith

by_udp-Carries : Carries by_udp 7 3 hello
unfolding decode_udp
by_udp-Carries = (bytes-IsByte, decode_packet-encode_packet 7 3 hello (omega arith) (omega arith))

by_tcp-Carries : Carries by_tcp 7 3 hello
unfolding decode_tcp
by_tcp-Carries = (bytes-IsByte, decode_packet-encode_packet 7 3 hello (omega arith) (omega arith))

abbrev serving_session : TargetSession
serving_session = record {
  target_conn = 40;
  dedup_window = record { seen = 3 ∷ []; min_seq = 3; max_seq = 3; size = 4; started = true };
  response_seq = 0;
  last_activity = 1;
}

serving_found : get serving.sessions 7 ≡ some serving_session
unfolding step handle_udp_packet decode_udp decode_packet encode_packet to_be_bytes from_be_bytes
    receive get_or_create_session create_session check_duplicate add_udp_path ServerState.new
    Window.new is_duplicate start insert_key contains_key get insert
serving_found = refl

serving_has : get serving.sessions 7 ≢ none
serving_has = λ e. absurd (cc (e, serving_found))

second_copy_example :
    (step (run serving (target_response 2 7 hello ∷ conn_closed 50 ∷ [])).0 by_tcp).1 ≡ []
second_copy_example =
    second_copy fresh_server by_udp by_tcp (target_response 2 7 hello ∷ conn_closed 50 ∷ []) 7 3
      hello hello fresh_IsSound by_udp-Carries by_tcp-Carries (tt, (tt, tt)) serving_has

step_outputs_example :
    (step serving by_tcp).1 ≡ (if knows serving 7 3 then [] else to_target 40 hello ∷ [])
step_outputs_example =
    step_outputs serving by_tcp 7 3 hello serving_session by_tcp-Carries serving_found

run-IsSound_example : IsSound (run fresh_server (by_udp ∷ by_tcp ∷ [])).0
run-IsSound_example =
    run-IsSound server_config (by_udp ∷ by_tcp ∷ []) (omega arith)
      (bytes-IsByte, (bytes-IsByte, tt))

cleanup_expired_sessions_lem_example :
    let s' = (cleanup_expired_sessions (run fresh_server (by_udp ∷ [])).0 99).0 in
    let s = (run fresh_server (by_udp ∷ [])).0 in
    let left = unless_expired s.cfg.session_timeout 99 (get s.sessions 7) in
    (get s'.sessions 7 ≡ left) × (get s'.client_paths 7 ≡ paths_of left (get s.client_paths 7))
cleanup_expired_sessions_lem_example =
    cleanup_expired_sessions_lem (run fresh_server (by_udp ∷ [])).0 99 7
      (run-IsConsistent server_config (by_udp ∷ []))

abbrev paths : List ClientPath
paths = udp 20 10 ∷ tcp 50 51 ∷ []

serving_paths : get serving.client_paths 7 ≡ some (udp 20 10 ∷ [])
unfolding step handle_udp_packet decode_udp decode_packet encode_packet to_be_bytes from_be_bytes
    receive get_or_create_session create_session check_duplicate add_udp_path ServerState.new
    Window.new is_duplicate start insert_key contains_key update_udp_path get insert
serving_paths = refl

send_response_delivers_example :
    let (s', outputs) = send_response_to_all_paths serving 8 7 hello in
    DeliversAll 7 0 hello (udp 20 10 ∷ []) outputs
    × (get s'.sessions 7 ≡ some (record serving_session { last_activity = 8; response_seq = 1 }))
send_response_delivers_example =
    send_response_delivers serving 8 7 hello serving_session (udp 20 10 ∷ []) serving_found
      serving_paths (omega arith) (omega arith) (omega arith)

-- The other session's response and the connection that closes are no activity of session 7.
idle_session_ends_example :
    let s = (run fresh_server (by_udp ∷ [])).0 in
    let s' = (run s ((target_response 2 8 hello ∷ conn_closed 50 ∷ []) ++ tick 99 ∷ [])).0 in
    (get s'.sessions 7 ≡ none) × (get s'.client_paths 7 ≡ none)
idle_session_ends_example =
    idle_session_ends server_config (by_udp ∷ []) (target_response 2 8 hello ∷ conn_closed 50 ∷ [])
      99 7 serving_session (unfold run in serving_found) (refl, (tt, tt))
      (unfold run step handle_udp_packet decode_udp decode_packet encode_packet to_be_bytes
          from_be_bytes receive get_or_create_session create_session check_duplicate add_udp_path
          ServerState.new Window.new is_duplicate start insert_key contains_key get insert in
        omega arith)

run_without_malformed_example :
    run serving (udp_packet net 2 10 20 hello ∷ by_tcp ∷ [])
    ≡ run serving (retain has_header (udp_packet net 2 10 20 hello ∷ by_tcp ∷ []))
run_without_malformed_example =
    run_without_malformed serving (udp_packet net 2 10 20 hello ∷ by_tcp ∷ [])

-- The packet `i` comes at the time `i`.
abbrev answers : ℕ → Net × ℕ
answers i = (net, i)

handle_tcp_conn-broken_example :
    handle_tcp_conn answers 50 51 (frames (bytes ∷ hello ∷ []) ++ 0 ∷ 0 ∷ 9 ∷ [])
    ≡ tcp_packets answers 0 50 51 (bytes ∷ hello ∷ []) ++ conn_closed 50 ∷ []
unfolding encode_packet to_be_bytes
handle_tcp_conn-broken_example =
    handle_tcp_conn-broken answers 50 51 (bytes ∷ hello ∷ []) (0 ∷ 0 ∷ 9 ∷ []) (omega arith)
      (no_length (9 ∷ []))

-- A listener goes on after an error, a reader of a target does not.
read_errors :
    (handle_udp_listener answers 2 10 (none ∷ some (20, bytes) ∷ [])
      ≡ udp_packet net 2 10 20 bytes ∷ [])
    × (handle_target_response 7 (some (3, hello) ∷ none ∷ some (4, hello) ∷ [])
        ≡ target_response 3 7 hello ∷ [])
unfolding handle_udp_listener handle_target_response
read_errors = (refl, refl)

-- With a time-out of a minute the clean-up runs every ten seconds.
cleanup_loop :
    session_cleanup_loop (λ i. 0 ∷ i ∷ []) (record server_config { session_timeout = 60000000000 })
    ≡ tick 0 ∷ tick 10000000000 ∷ []
unfolding session_cleanup_loop cleanup_interval
cleanup_loop = refl
