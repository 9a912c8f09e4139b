-- ===== src/Config/Load.antt =====
-- `Config`, its validation, and `load`, in fproxy-rs/src/config.rs.
use fproxy.Base.{
  ℕ, Bool, true, false, ◌||◌, List, [], ◌∷◌, Option, none, some, Result, ok, err, ◌>>=◌,
  if◌then◌else◌, ◌==◌, unwrap_or, or_option,
}
use fproxy.Config.{Text, Mode, client, server, Endpoint, ClientConfig, ServerConfig}
use fproxy.Config.Text.{text, is_empty, to_lowercase, text_eq}
use fproxy.Config.IpAddr.{Ip, v4, v6}
use fproxy.Config.Parse.{
  ConfigError, mode_required, invalid_mode, client_listen_required, client_servers_required,
  server_listen_required, server_target_required, client_servers_different_ips, parse_host_ip,
  normalize_listen_addr, parse_list, parse_duration,
}

abbrev pub default_dedup_window : ℕ
default_dedup_window = 10000

-- Sixty seconds.
abbrev pub default_session_timeout : ℕ
default_session_timeout = 60000000000

pub record Config : Type 0 where
  pub mode : Mode
  pub verbose : Bool
  pub client_config : Option ClientConfig
  pub server_config : Option ServerConfig

pub record YamlClientConfig : Type 0 where
  pub listen_addr : Option Text
  pub servers : Option Text
  pub session_timeout : Option Text

pub record YamlServerConfig : Type 0 where
  pub listen_addrs : Option Text
  pub target_addr : Option Text
  pub dedup_window : Option ℕ
  pub session_timeout : Option Text

pub record YamlConfig : Type 0 where
  pub mode : Option Text
  pub verbose : Option Bool
  pub client_config : Option YamlClientConfig
  pub server_config : Option YamlServerConfig

pub record CliArgs : Type 0 where
  pub config : Option Text
  pub mode : Option Text
  pub verbose : Bool
  pub listen : Option Text
  pub servers : Option Text
  pub listen_addrs : Option Text
  pub target : Option Text
  pub dedup_window : Option ℕ
  pub session_timeout : Option Text

-- `Mode::from_str`.
unfoldable pub from_str : Text → Option Mode
from_str s =
    let lower = to_lowercase s in
    if text_eq lower (text "client")
    then some client
    else if text_eq lower (text "server")
    then some server
    else none

abbrev pub is_empty_list : List Endpoint → Bool
is_empty_list [] = true
is_empty_list (e ∷ es) = false

unfoldable pub ip_eq : Option Ip → Option Ip → Bool
unfolding text_eq
ip_eq none none = true
ip_eq none (some j) = false
ip_eq (some i) none = false
ip_eq (some (v4 a)) (some (v4 b)) = text_eq a b
ip_eq (some (v4 a)) (some (v6 b)) = false
ip_eq (some (v6 a)) (some (v4 b)) = false
ip_eq (some (v6 a)) (some (v6 b)) = text_eq a b

-- The loop over the endpoints after the first.
unfoldable pub same_ip : Option Ip → List Endpoint → Result ConfigError Unit
same_ip first_ip [] = ok tt
same_ip first_ip (endpoint ∷ rest) = parse_host_ip endpoint.address >>= λ ip.
    if ip_eq first_ip ip then same_ip first_ip rest else err client_servers_different_ips

unfoldable pub validate_servers : List Endpoint → Result ConfigError Unit
validate_servers [] = ok tt
validate_servers (only ∷ []) = ok tt
validate_servers (first ∷ second ∷ rest) =
    parse_host_ip first.address >>= λ first_ip. same_ip first_ip (second ∷ rest)

abbrev pub or_default : ℕ → ℕ → ℕ
or_default n d = if n == 0 then d else n

unfoldable pub validate_client : ClientConfig → Result ConfigError ClientConfig
validate_client c =
    if is_empty c.listen_addr
    then err client_listen_required
    else if is_empty_list c.servers
    then err client_servers_required
    else validate_servers c.servers >>= λ u.
        ok (record c { session_timeout = or_default c.session_timeout default_session_timeout })

unfoldable pub validate_server : ServerConfig → Result ConfigError ServerConfig
validate_server s =
    if is_empty_list s.listen_addrs
    then err server_listen_required
    else if is_empty s.target_addr
    then err server_target_required
    else ok (record s {
      dedup_window = or_default s.dedup_window default_dedup_window;
      session_timeout = or_default s.session_timeout default_session_timeout;
    })

abbrev pub empty_client : ClientConfig
empty_client = record { listen_addr = []; servers = []; session_timeout = 0 }

abbrev pub empty_server : ServerConfig
empty_server = record { listen_addrs = []; target_addr = []; dedup_window = 0; session_timeout = 0 }

-- `Config::validate`: the configuration with its defaults filled in, or what is wrong with it.
unfoldable pub validate : Config → Result ConfigError Config
validate c = elim c.mode [
  | client ↦ validate_client (unwrap_or c.client_config empty_client) >>= λ k.
      ok (record c { client_config = some k })
  | server ↦ validate_server (unwrap_or c.server_config empty_server) >>= λ k.
      ok (record c { server_config = some k })
]

abbrev pub empty_yaml_client : YamlClientConfig
empty_yaml_client = record { listen_addr = none; servers = none; session_timeout = none }

abbrev pub empty_yaml_server : YamlServerConfig
empty_yaml_server = record {
  listen_addrs = none;
  target_addr = none;
  dedup_window = none;
  session_timeout = none;
}

abbrev pub empty_yaml : YamlConfig
empty_yaml = record { mode = none; verbose = none; client_config = none; server_config = none }

abbrev pub timeout_of : Option Text → ℕ
timeout_of none = 0
timeout_of (some s) = unwrap_or (parse_duration s) 0

unfoldable pub client_from : CliArgs → YamlClientConfig → Result ConfigError ClientConfig
client_from args yaml =
    parse_list (unwrap_or (or_option args.servers yaml.servers) []) >>= λ servers. ok (record {
      listen_addr = normalize_listen_addr (unwrap_or (or_option args.listen yaml.listen_addr) []);
      servers = servers;
      session_timeout = timeout_of (or_option args.session_timeout yaml.session_timeout);
    })

unfoldable pub server_from : CliArgs → YamlServerConfig → Result ConfigError ServerConfig
server_from args yaml =
    parse_list (unwrap_or (or_option args.listen_addrs yaml.listen_addrs) []) >>= λ listen_addrs.
    ok (record {
      listen_addrs = listen_addrs;
      target_addr = unwrap_or (or_option args.target yaml.target_addr) [];
      dedup_window = unwrap_or (or_option args.dedup_window yaml.dedup_window) 0;
      session_timeout = timeout_of (or_option args.session_timeout yaml.session_timeout);
    })

abbrev pub parsed_mode : Option Text → Result ConfigError Mode
parsed_mode none = err mode_required
parsed_mode (some s) = elim (from_str s) [ none ↦ err invalid_mode | some m ↦ ok m ]

abbrev pub build : CliArgs → YamlConfig → Mode → Bool → Result ConfigError Config
build args yaml client verbose =
    client_from args (unwrap_or yaml.client_config empty_yaml_client) >>= λ c.
    ok (record { mode = client; verbose = verbose; client_config = some c; server_config = none })
build args yaml server verbose =
    server_from args (unwrap_or yaml.server_config empty_yaml_server) >>= λ s.
    ok (record { mode = server; verbose = verbose; client_config = none; server_config = some s })

-- `read_file` stands for reading a file and for `serde_yaml::from_str` on what it holds.
abbrev pub yaml_config :
    (Text → Result ConfigError YamlConfig) → Option Text → Result ConfigError YamlConfig
yaml_config read_file none = ok empty_yaml
yaml_config read_file (some path) = read_file path

abbrev pub with_mode : CliArgs → YamlConfig → Mode → Result ConfigError Config
with_mode args yaml mode =
    build args yaml mode (args.verbose || unwrap_or yaml.verbose false) >>= validate

abbrev pub with_yaml : CliArgs → YamlConfig → Result ConfigError Config
with_yaml args yaml = parsed_mode (or_option args.mode yaml.mode) >>= with_mode args yaml

unfoldable pub load : (Text → Result ConfigError YamlConfig) → CliArgs → Result ConfigError Config
load read_file args = yaml_config read_file args.config >>= with_yaml args
