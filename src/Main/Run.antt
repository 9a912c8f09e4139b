-- ===== src/Main/Run.antt =====
-- `main` of fproxy-rs/src/main.rs: what it comes to before it waits for a signal.
use fproxy.Base.{
  ℕ, ◌≡◌, Bool, true, List, Option, none, some, Result, ok, err, if◌then◌else◌, inl, inr,
  Bool-cases, Option-cases, Result-cases,
}
use fproxy.Config.{Text, Mode, client, server, ClientConfig, ServerConfig}
use fproxy.Config.Parse.{ConfigError}
use fproxy.Config.Load.{Config, YamlConfig, CliArgs, load}
use fproxy.Config.Ready.{IsReady, client_ready, server_ready, IsClient, IsServer, load-IsReady}
use fproxy.Client.State.{new}
use fproxy.Client.Start as ClientStart
use fproxy.Server.Start as ServerStart
use fproxy.Main.{convert_go_style_args}

-- What `main` takes from outside: clap, which gives no arguments when it prints help or an error and
-- ends the process; the reading of a file; whether the subscriber for this verbosity can be set; the
-- random start of the client's counter; and the sockets.
pub record Env : Type 0 where
  pub parse : List Text → Option CliArgs
  pub read_file : Text → Result ConfigError YamlConfig
  pub subscribe : Bool → Bool
  pub initial : ℕ
  pub client_sockets : ClientStart.Sockets
  pub server_sockets : ServerStart.Sockets

-- The end of the process by clap, an error that is returned, a panic at `expect`, or a client or a
-- server that runs until a signal stops it.
pub data Outcome : Type 0 where
  exited not_subscribed panicked not_started : Outcome
  refused : ConfigError → Outcome
  client_ran : ClientConfig → Outcome
  server_ran : ServerConfig → Outcome

unfoldable pub run_client : Env → ClientConfig → Outcome
run_client env cfg =
    if (ClientStart.start (new cfg env.initial) env.client_sockets).1
    then client_ran cfg
    else not_started

unfoldable pub run_server : Env → ServerConfig → Outcome
run_server env cfg = elim (ServerStart.start env.server_sockets cfg).1 [
  | none ↦ not_started
  | some addrs ↦ server_ran cfg
]

abbrev pub run_mode : Env → Config → Mode → Outcome
run_mode env c client = elim c.client_config [ none ↦ panicked | some cfg ↦ run_client env cfg ]
run_mode env c server = elim c.server_config [ none ↦ panicked | some cfg ↦ run_server env cfg ]

unfoldable pub run_config : Env → Config → Outcome
run_config env c = if env.subscribe c.verbose then run_mode env c c.mode else not_subscribed

unfoldable pub main : Env → List Text → Outcome
main env args = elim (env.parse (convert_go_style_args args)) [
  | none ↦ exited
  | some cli ↦ elim (load env.read_file cli) [ err e ↦ refused e | ok c ↦ run_config env c ]
]

-- It does not panic, and what runs has been validated and has started.
abbrev pub IsOrderly : Env → Outcome → Type 0
IsOrderly env exited = Unit
IsOrderly env not_subscribed = Unit
IsOrderly env panicked = ⊥
IsOrderly env not_started = Unit
IsOrderly env (refused e) = Unit
IsOrderly env (client_ran cfg) =
    IsClient cfg × ((ClientStart.start (new cfg env.initial) env.client_sockets).1 ≡ true)
IsOrderly env (server_ran cfg) =
    IsServer cfg × ((addrs : List ℕ) × ((ServerStart.start env.server_sockets cfg).1 ≡ some addrs))

run_client-IsOrderly :
    (env : Env) (cfg : ClientConfig) → IsClient cfg → IsOrderly env (run_client env cfg)
unfolding run_client
run_client-IsOrderly env cfg v =
    elim (Bool-cases (ClientStart.start (new cfg env.initial) env.client_sockets).1) [
      | inl started ↦ rw (started) (v, started)
      | inr failed ↦ rw failed tt
    ]

run_server-IsOrderly :
    (env : Env) (cfg : ServerConfig) → IsServer cfg → IsOrderly env (run_server env cfg)
unfolding run_server
run_server-IsOrderly env cfg v = elim (Option-cases (ServerStart.start env.server_sockets cfg).1) [
  | inl failed ↦ rw (failed, run_server) tt
  | inr (addrs, started) ↦ rw (started, run_server) (v, (addrs, started))
]

run_config-IsOrderly : (env : Env) (c : Config) → IsReady c → IsOrderly env (run_config env c)
unfolding run_config
run_config-IsOrderly env c v = elim (Bool-cases (env.subscribe c.verbose)) [
  | inr failed ↦ rw failed tt
  | inl subscribed ↦ rw subscribed (run_mode-IsOrderly v)
]
  where
    run_mode-IsOrderly : IsReady c → IsOrderly env (run_mode env c c.mode)
    run_mode-IsOrderly (client_ready k m e h) = rw (m, e) (run_client-IsOrderly env k h)
    run_mode-IsOrderly (server_ready k m e h) = rw (m, e) (run_server-IsOrderly env k h)

-- Whatever the arguments are, and whatever clap, the file and the operating system answer, `main`
-- does not panic for want of a configuration; and it waits for a signal only with a client or a
-- server that has started, from a configuration that is validated for its mode.
pub main-IsOrderly : (env : Env) (args : List Text) → IsOrderly env (main env args)
unfolding main
main-IsOrderly env args = elim (Option-cases (env.parse (convert_go_style_args args))) [
  | inl exits ↦ rw (exits, main) tt
  | inr (cli, parsed) ↦ elim (Result-cases (load env.read_file cli)) [
    | inr (e, bad) ↦ rw (parsed, main, bad) tt
    | inl (c, loaded) ↦
        rw (parsed, main, loaded)
          (run_config-IsOrderly env c (load-IsReady env.read_file cli c loaded))
  ]
]
