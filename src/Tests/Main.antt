-- ===== src/Tests/Main.antt =====
-- The theorems on the command line at concrete inputs.
use fproxy.Base.{ℕ, ◌+◌, true, Option, some, List, [], ◌∷◌, ◌≡◌, refl, contains_key}
use fproxy.Config.{Text}
use fproxy.Config.Text.{text, text_eq, strip_prefix}
use fproxy.Config.{ServerConfig, Protocol, udp, tcp}
use fproxy.Server.Start as ServerStart
use fproxy.Server.Start.{
  Starts, start_tasks, udp_listener, tcp_listener, session_cleanup, start_listeners,
}
use fproxy.Tests.Fixtures.{server_config}
use fproxy.Tests.Config.{read_file}
use fproxy.Tests.Config as ConfigTests
use fproxy.Main.Run.{Env, main, IsOrderly, main-IsOrderly}
use fproxy.Main.{convert_go_style_args, convert_flag, contains}

abbrev args : List Text
args = text "fproxy" ∷ text "-mode" ∷ text "client" ∷ text "-x" ∷ []

convert_flag_example :
    convert_go_style_args (text "-mode" ∷ text "-mode=server" ∷ [])
    ≡ text "--mode" ∷ text "--mode=server" ∷ []
unfolding contains text_eq strip_prefix contains_key
convert_flag_example = convert_flag (text "mode") (text "server") refl refl refl

-- The listeners get the sockets 80 and 81, whose addresses are 90 and 91.
abbrev bound_to : Protocol → Option ℕ
bound_to udp = some 80
bound_to tcp = some 81

abbrev server_sockets : ServerStart.Sockets
server_sockets = record {
  bound = λ protocol address. bound_to protocol;
  local_addr = λ socket. some (socket + 10);
}

abbrev listening : ServerConfig
listening = record server_config {
  listen_addrs =
      record { address = 1 ∷ []; protocol = udp }
      ∷ record { address = 2 ∷ []; protocol = tcp }
      ∷ [];
}

start_tasks_example :
    Starts server_sockets listening.listen_addrs (ServerStart.start server_sockets listening)
start_tasks_example = start_tasks server_sockets listening

both_started :
    ServerStart.start server_sockets listening
    ≡ (udp_listener 80 ∷ tcp_listener 81 ∷ session_cleanup ∷ [], some (90 ∷ 91 ∷ []))
unfolding ServerStart.start start_listeners
both_started = refl

abbrev main_env : Env
main_env = record {
  parse = λ converted. some ConfigTests.args;
  read_file = read_file;
  subscribe = λ verbose. true;
  initial = 6;
  client_sockets = record { connected = λ address. some 60; bound = λ address. some 70 };
  server_sockets = server_sockets;
}

main-IsOrderly_example : IsOrderly main_env (main main_env args)
main-IsOrderly_example = main-IsOrderly main_env args
