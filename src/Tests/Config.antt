-- ===== src/Tests/Config.antt =====
-- The theorems on the configuration at concrete inputs.
use fproxy.Base.{
  ℕ, Option, ltb, u64_mod, ◌*◌, ◌%◌, if◌then◌else◌, ◌++◌, [], ◌∷◌, ◌≡◌, refl, ok, err, none, some,
  false, Result,
}
use fproxy.Config.{Text, Endpoint, udp, server, ServerConfig}
use fproxy.Config.Text.{
  trim, trim_start, trim_end, strip_suffix, parse_u64, digits_from, text, split, to_lowercase,
  text_eq, strip_prefix, before_first, before_last,
}
use fproxy.Config.IpAddr.{v6, parse_ip}
use fproxy.Config.Parse.{
  ConfigError, invalid_ip_address, parse, parse_parts, parse_protocol, extract_host, is_valid_ip,
  normalize_listen_addr, parse_list, parse_all, parse_duration,
}
use fproxy.Config.Accepts.{IsEndpoint, parse-IsEndpoint, IsEndpoint-parse}
use fproxy.Config.Load.{
  Config, CliArgs, YamlConfig, validate, load, from_str, server_from, validate_server,
}
use fproxy.Config.Valid.{load_arguments_first}
use fproxy.Config.Duration.{value_after, parse_duration_lem}
use fproxy.Config.Ready.{IsReady, load-IsReady}

abbrev spelled : Text
spelled = text "127.0.0.1:80/UDP"

abbrev endpoint : Endpoint
endpoint = record { address = text "127.0.0.1:80"; protocol = udp }

parsed : parse spelled ≡ ok endpoint
unfolding parse parse_parts split parse_protocol to_lowercase text_eq extract_host strip_prefix
    before_last is_valid_ip parse_ip normalize_listen_addr
parsed = refl

parse-IsEndpoint_example : IsEndpoint spelled endpoint
parse-IsEndpoint_example = parse-IsEndpoint spelled endpoint parsed

IsEndpoint-parse_example : parse spelled ≡ ok endpoint
IsEndpoint-parse_example =
    IsEndpoint-parse spelled endpoint (parse-IsEndpoint spelled endpoint parsed)

abbrev pub args : CliArgs
args = record {
  config = some (text "f");
  mode = some (text "Server");
  verbose = false;
  listen = none;
  servers = none;
  listen_addrs = some spelled;
  target = some (text "h:9");
  dedup_window = some 0;
  session_timeout = some (text "5m");
}

abbrev yaml : YamlConfig
yaml = record { mode = none; verbose = none; client_config = none; server_config = none }

abbrev pub read_file : Text → Result ConfigError YamlConfig
read_file path = ok yaml

abbrev built : ServerConfig
built = record {
  listen_addrs = endpoint ∷ [];
  target_addr = text "h:9";
  dedup_window = 0;
  session_timeout = 0;
}

abbrev given : Config
given = record { mode = server; verbose = false; client_config = none; server_config = some built }

abbrev filled : Config
filled = record given {
  server_config = some (record built { dedup_window = 10000; session_timeout = 60000000000 });
}

abbrev loaded : Config
loaded = record given {
  server_config = some (record built { dedup_window = 10000; session_timeout = 300000000000 });
}

loaded_from_args : load read_file args ≡ ok loaded
unfolding load from_str server_from parse parse_list parse_all parse_parts split parse_protocol
    to_lowercase text_eq extract_host strip_prefix before_last is_valid_ip parse_ip
    normalize_listen_addr validate validate_server trim parse_duration strip_suffix parse_u64
    trim_end trim_start digits_from
loaded_from_args = refl

load-IsReady_example : IsReady loaded
load-IsReady_example = load-IsReady read_file args loaded loaded_from_args

load_arguments_first_example :
    load read_file args ≡ load (λ p. ok (record yaml { server_config = none; mode = none })) args
unfolding from_str to_lowercase text_eq
load_arguments_first_example =
    load_arguments_first read_file args (text "f") (text "Server") spelled (text "h:9") (text "5m")
      0 yaml none refl refl refl refl refl refl refl refl

loopback : parse_ip (text "::1") ≡ some (v6 (0 ∷ 0 ∷ 0 ∷ 0 ∷ 0 ∷ 0 ∷ 0 ∷ 1 ∷ []))
unfolding parse_ip
loopback = refl

mapped : parse_ip (text "::ffff:1.2.3.4") ≡ some (v6 (0 ∷ 0 ∷ 0 ∷ 0 ∷ 0 ∷ 65535 ∷ 258 ∷ 772 ∷ []))
unfolding parse_ip
mapped = refl

leading_zero : parse_ip (text "01.2.3.4") ≡ none
unfolding parse_ip
leading_zero = refl

five_parts : parse_ip (text "1.2.3.4.5") ≡ none
unfolding parse_ip
five_parts = refl

-- An IPv6 address without brackets passes, and the address that is made of it has no valid host.
no_brackets :
    (parse (text "::1:80/udp") ≡ ok (record { address = text "0.0.0.0::1:80"; protocol = udp }))
    × (is_valid_ip (text "0.0.0.0::1") ≡ false)
unfolding parse parse_parts split parse_protocol to_lowercase text_eq extract_host strip_prefix
    before_last is_valid_ip parse_ip normalize_listen_addr
no_brackets = (refl, refl)

-- Empty brackets pass too.
empty_brackets : parse (text "[]:80/udp") ≡ ok (record { address = text "[]:80"; protocol = udp })
unfolding parse parse_parts split parse_protocol to_lowercase text_eq extract_host strip_prefix
    before_first before_last is_valid_ip parse_ip normalize_listen_addr
empty_brackets = refl

-- `[:]:80`, which `normalize_listen_addr` would rewrite, is refused before.
colon_in_brackets : parse (text "[:]:80/udp") ≡ err invalid_ip_address
unfolding parse parse_parts split parse_protocol to_lowercase text_eq extract_host strip_prefix
    before_first before_last is_valid_ip parse_ip normalize_listen_addr
colon_in_brackets = refl

-- 5124095576030432 hours are a little more than 2^64 seconds.
abbrev many_hours : Text
many_hours = text "5124095576030432"

parse_duration_lem_example :
    let n = value_after 0 many_hours in
    let read : ℕ → Option ℕ = λ nanoseconds. if ltb n u64_mod then some nanoseconds else none in
    (parse_duration (many_hours ++ text "ms") ≡ read (n * 1000000))
    × (parse_duration (many_hours ++ text "s") ≡ read (n * 1000000000))
    × (parse_duration (many_hours ++ text "m") ≡ read (n * 60 % u64_mod * 1000000000))
    × (parse_duration (many_hours ++ text "h") ≡ read (n * 3600 % u64_mod * 1000000000))
parse_duration_lem_example = parse_duration_lem b'5' (text "124095576030432") (
  refl,
  (
    refl,
    (
      refl,
      (
        refl,
        (
          refl,
          (
            refl,
            (refl, (refl, (refl, (refl, (refl, (refl, (refl, (refl, (refl, (refl, tt)))))))))),
          ),
        ),
      ),
    ),
  ),
)
