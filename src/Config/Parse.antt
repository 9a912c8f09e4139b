-- ===== src/Config/Parse.antt =====
-- `Endpoint`, its text form and durations, in fproxy-rs/src/config.rs.
use fproxy.Base.{
  ℕ, ◌*◌, ◌%◌, Bool, ◌&&◌, not, List, [], ◌∷◌, ◌++◌, map, Option, none, some, Result, ok, err,
  ◌>>=◌, if◌then◌else◌, u64_mod, is_some, retain,
}
use fproxy.Config.{Text, Protocol, udp, tcp, Endpoint}
use fproxy.Config.Text.{
  text, is_empty, split, trim, to_lowercase, text_eq, strip_prefix, starts_with, strip_suffix,
  before_first, before_last, parse_u64,
}
use fproxy.Config.IpAddr.{Ip, parse_ip}

pub data ConfigError : Type 0 where
  mode_required invalid_mode client_listen_required client_servers_required : ConfigError
  server_listen_required server_target_required invalid_ip_address : ConfigError
  client_servers_different_ips : ConfigError
  invalid_endpoint_format invalid_protocol file_read_error file_parse_error : Text → ConfigError
  invalid_address_format : Text → Text → ConfigError

-- `ok_or` with the error for an address.
abbrev or_invalid : Text → Text → Option Text → Result ConfigError Text
or_invalid address reason none = err (invalid_address_format address reason)
or_invalid address reason (some host) = ok host

unfoldable pub extract_host : Text → Result ConfigError Text
extract_host address =
    if starts_with address (text "[")
    then elim (strip_prefix address (text "[")) [
      | none ↦ or_invalid address (text "unclosed bracket") none
      | some rest ↦ or_invalid address (text "unclosed bracket") (before_first b']' rest)
    ]
    else or_invalid address (text "missing port") (before_last b':' address)

unfoldable pub is_valid_ip : Text → Bool
is_valid_ip host = is_some (parse_ip host)

abbrev valid_or_error : Option Ip → Result ConfigError (Option Ip)
valid_or_error none = err invalid_ip_address
valid_or_error (some ip) = ok (some ip)

unfoldable pub parse_host_ip : Text → Result ConfigError (Option Ip)
parse_host_ip address = extract_host address >>= λ host.
    if is_empty host then ok none else valid_or_error (parse_ip host)

unfoldable pub normalize_listen_addr : Text → Text
normalize_listen_addr addr =
    if starts_with addr (text ":")
    then text "0.0.0.0" ++ addr
    else elim (strip_prefix addr (text "[:]:")) [ none ↦ addr | some rest ↦ text "[::]:" ++ rest ]

unfoldable pub parse_protocol : Text → Result ConfigError Protocol
parse_protocol s =
    let lower = to_lowercase s in
    if text_eq lower (text "udp")
    then ok udp
    else if text_eq lower (text "tcp")
    then ok tcp
    else err (invalid_protocol s)

abbrev pub checked_endpoint : Text → Protocol → Text → Result ConfigError Endpoint
checked_endpoint address protocol host =
    if not (is_empty host) && not (is_valid_ip host)
    then err invalid_ip_address
    else ok (record { address = normalize_listen_addr address; protocol = protocol })

-- What is left of `parse` when the text has been split.
unfoldable pub parse_parts : Text → List Text → Result ConfigError Endpoint
parse_parts s (address ∷ protocol_text ∷ []) = parse_protocol protocol_text >>= λ protocol.
    extract_host address >>= checked_endpoint address protocol
parse_parts s other = err (invalid_endpoint_format s)

-- `Endpoint::parse`.
unfoldable pub parse : Text → Result ConfigError Endpoint
parse s = parse_parts s (split b'/' s)

-- `collect` on results: the first error, or all values.
unfoldable pub parse_all : List Text → Result ConfigError (List Endpoint)
parse_all [] = ok []
parse_all (s ∷ parts) = parse s >>= λ e. parse_all parts >>= λ es. ok (e ∷ es)

unfoldable pub parse_list : Text → Result ConfigError (List Endpoint)
parse_list s =
    if is_empty s
    then ok []
    else parse_all (retain (λ p. not (is_empty p)) (map trim (split b',' s)))

abbrev second : ℕ
second = 1000000000

abbrev pub scaled : ℕ → Option ℕ → Option ℕ
scaled seconds none = none
scaled seconds (some num) = some (num * seconds % u64_mod * second)

abbrev pub milliseconds : Option ℕ → Option ℕ
milliseconds none = none
milliseconds (some num) = some (num * 1000000)

-- In nanoseconds. The products with 60 and 3600 are those of `u64`.
unfoldable pub parse_duration : Text → Option ℕ
parse_duration s =
    let t = trim s in
    if is_empty t then none else elim (strip_suffix t (text "ms")) [
      | some n ↦ milliseconds (parse_u64 n)
      | none ↦ elim (strip_suffix t (text "s")) [
        | some n ↦ scaled 1 (parse_u64 n)
        | none ↦ elim (strip_suffix t (text "m")) [
          | some n ↦ scaled 60 (parse_u64 n)
          | none ↦ elim (strip_suffix t (text "h")) [
            | some n ↦ scaled 3600 (parse_u64 n)
            | none ↦ scaled 1 (parse_u64 t)
          ]
        ]
      ]
    ]
