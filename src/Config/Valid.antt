-- ===== src/Config/Valid.antt =====
-- A configuration of fproxy-rs/src/config.rs that is complete stays as it is, and what takes precedence.
use fproxy.Base.{ℕ, ◌≤◌, ◌≡◌, refl, true, List, [], ◌∷◌, arith, All, Option, none, some, Result, ok}
use fproxy.Config.{Text, server, Endpoint}
use fproxy.Config.Text.{text_eq}
use fproxy.Config.IpAddr.{Ip, v4, v6}
use fproxy.Config.Parse.{ConfigError, parse_host_ip}
use fproxy.Config.Load.{
  Config, YamlConfig, YamlServerConfig, CliArgs, from_str, server_from, ip_eq, same_ip,
  validate_servers, or_default, validate_client, validate_server, validate, load, parsed_mode,
  default_session_timeout, default_dedup_window,
}
use fproxy.Config.Ready.{HaveOneIp, IsReady, client_ready, server_ready}

text_eq_refl : (s : Text) → text_eq s s ≡ true
unfolding text_eq
text_eq_refl [] = refl
text_eq_refl (x ∷ s) = ground (arith, text_eq_refl s)

ip_eq_refl : (a : Option Ip) → ip_eq a a ≡ true
unfolding ip_eq
ip_eq_refl none = refl
ip_eq_refl (some (v4 a)) = text_eq_refl a
ip_eq_refl (some (v6 a)) = text_eq_refl a

same_ip_complete :
    (ip : Option Ip) (es : List Endpoint)
    → All (λ e. parse_host_ip e.address ≡ ok ip) es
    → same_ip ip es ≡ ok tt
unfolding same_ip
same_ip_complete ip [] h = refl
same_ip_complete ip (e ∷ es) h = rw (h.0, ip_eq_refl ip) (same_ip_complete ip es h.1)

validate_servers_complete : (es : List Endpoint) → HaveOneIp es → validate_servers es ≡ ok tt
unfolding validate_servers
validate_servers_complete [] h = refl
validate_servers_complete (only ∷ []) h = refl
validate_servers_complete (first ∷ second ∷ rest) (ip, h) =
    rw h.0 (same_ip_complete ip (second ∷ rest) h.1)

filled : (n d : ℕ) → 1 ≤ n → or_default n d ≡ n
filled n d h = ground arith

-- A configuration that is complete passes as it is, so validating twice is validating once.
pub IsReady-validate : (c : Config) → IsReady c → validate c ≡ ok c
unfolding validate validate_client validate_server
IsReady-validate c (client_ready k m e v) =
    rw
      (
        m,
        e,
        v.listens,
        v.has_servers,
        validate_servers_complete k.servers v.one_ip,
        filled k.session_timeout default_session_timeout v.timeout,
      )
      refl
IsReady-validate c (server_ready k m e v) =
    rw
      (
        m,
        e,
        v.listens,
        v.has_target,
        filled k.dedup_window default_dedup_window v.window,
        filled k.session_timeout default_session_timeout v.timeout,
      )
      refl

-- Arguments take precedence over the file: to a command line that gives the mode and all of the
-- server's values, a file is as good as one with any other server section and no mode.
pub load_arguments_first :
    (read_file : Text → Result ConfigError YamlConfig) (args : CliArgs)
    (path mode addrs target timeout : Text) (window : ℕ) (yaml : YamlConfig)
    (section : Option YamlServerConfig)
    → args.config ≡ some path
    → args.mode ≡ some mode
    → from_str mode ≡ some server
    → args.listen_addrs ≡ some addrs
    → args.target ≡ some target
    → args.dedup_window ≡ some window
    → args.session_timeout ≡ some timeout
    → read_file path ≡ ok yaml
    → load read_file args
      ≡ load (λ p. ok (record yaml { server_config = section; mode = none })) args
unfolding load server_from
load_arguments_first read_file args path mode addrs target timeout window yaml section hp hm hs ha
      ht hw hd hy =
    rw (hp, hy, hm, parsed_mode, hs, ha, ht, hw, hd) refl
