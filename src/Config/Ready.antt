-- ===== src/Config/Ready.antt =====
-- What `validate` and `load` of fproxy-rs/src/config.rs promise of the configuration they return.
use fproxy.Base.{
  ◌≤◌, ◌≡◌, refl, ◌∙◌, ap, sym, subst, true, false, ◌||◌, List, [], ◌∷◌, arith, All, Option, none,
  some, Result, ok, ◌>>=◌, bind_ok, ok_inj, Bool-cases, inl, inr, ◌⊎◌, unwrap_or, or_option,
}
use fproxy.Config.{Text, Mode, client, server, Endpoint, ClientConfig, ServerConfig}
use fproxy.Config.Text.{is_empty}
use fproxy.Config.IpAddr.{Ip, v4, v6}
use fproxy.Config.Parse.{ConfigError, parse_host_ip}
use fproxy.Config.Accepts.{text_eq_sound}
use fproxy.Config.Load.{
  Config, YamlConfig, CliArgs, is_empty_list, ip_eq, same_ip, validate_servers, or_default,
  validate_client, validate_server, validate, empty_client, empty_server, load, parsed_mode,
  yaml_config, with_yaml, with_mode, build, default_session_timeout, default_dedup_window,
}

-- One server, or several whose addresses have one IP address, which may be the empty one.
abbrev pub HaveOneIp : List Endpoint → Type 0
HaveOneIp [] = Unit
HaveOneIp (only ∷ []) = Unit
HaveOneIp (first ∷ second ∷ rest) =
    (ip : Option Ip) × All (λ e. parse_host_ip e.address ≡ ok ip) (first ∷ second ∷ rest)

pub record IsClient (c : ClientConfig) : Type 0 where
  pub listens : is_empty c.listen_addr ≡ false
  pub has_servers : is_empty_list c.servers ≡ false
  pub one_ip : HaveOneIp c.servers
  pub timeout : 1 ≤ c.session_timeout

pub record IsServer (s : ServerConfig) : Type 0 where
  pub listens : is_empty_list s.listen_addrs ≡ false
  pub has_target : is_empty s.target_addr ≡ false
  pub window : 1 ≤ s.dedup_window
  pub timeout : 1 ≤ s.session_timeout

-- The part of the configuration that the mode uses is there and complete.
pub data IsReady (c : Config) : Type 0 where
  client_ready :
      (k : ClientConfig) → c.mode ≡ client → c.client_config ≡ some k → IsClient k → IsReady c
  server_ready :
      (k : ServerConfig) → c.mode ≡ server → c.server_config ≡ some k → IsServer k → IsReady c

ip_eq_sound : (a b : Option Ip) → ip_eq a b ≡ true → a ≡ b
unfolding ip_eq
ip_eq_sound none none h = refl
ip_eq_sound none (some j) h = absurd (cc h)
ip_eq_sound (some i) none h = absurd (cc h)
ip_eq_sound (some (v4 a)) (some (v4 b)) h = ap (λ x. some (v4 x)) (text_eq_sound a b h)
ip_eq_sound (some (v4 a)) (some (v6 b)) h = absurd (cc h)
ip_eq_sound (some (v6 a)) (some (v4 b)) h = absurd (cc h)
ip_eq_sound (some (v6 a)) (some (v6 b)) h = ap (λ x. some (v6 x)) (text_eq_sound a b h)

same_ip_sound :
    (ip : Option Ip) (es : List Endpoint)
    → same_ip ip es ≡ ok tt
    → All (λ e. parse_host_ip e.address ≡ ok ip) es
unfolding same_ip
same_ip_sound ip [] h = tt
same_ip_sound ip (e ∷ es) h =
    let (ip', hp, h') = bind_ok (parse_host_ip e.address) _ tt h in
    elim (Bool-cases (ip_eq ip ip')) [
      | inl q ↦
          let same : ip ≡ ip' = ip_eq_sound ip ip' q in
          let rest : same_ip ip es ≡ ok tt = cc (q, h') in
          (hp ∙ ap ok (sym same), same_ip_sound ip es rest)
      | inr q ↦ absurd (cc (q, h'))
    ]

validate_servers_sound : (es : List Endpoint) → validate_servers es ≡ ok tt → HaveOneIp es
unfolding validate_servers same_ip
validate_servers_sound [] h = tt
validate_servers_sound (only ∷ []) h = tt
validate_servers_sound (first ∷ second ∷ rest) h =
    let (ip, hp, h') =
      bind_ok (parse_host_ip first.address) (λ i. same_ip i (second ∷ rest)) tt h in
    (ip, (hp, same_ip_sound ip (second ∷ rest) h'))

validate_client_sound : (c k : ClientConfig) → validate_client c ≡ ok k → IsClient k
unfolding validate_client
validate_client_sound c k h = elim (Bool-cases (is_empty c.listen_addr)) [
  | inl e ↦ absurd (cc (e, h))
  | inr l ↦ elim (Bool-cases (is_empty_list c.servers)) [
    | inl e ↦ absurd (cc (l, e, h))
    | inr s ↦
        let filled : ClientConfig = record c {
          session_timeout = or_default c.session_timeout default_session_timeout;
        } in
        let q : validate_client c ≡ (validate_servers c.servers >>= λ u. ok filled) =
          rw (l, s) refl in
        let (u, hv, same) = bind_ok (validate_servers c.servers) (λ u. ok filled) k (sym q ∙ h) in
        subst IsClient (ok_inj same) (record {
          listens = l;
          has_servers = s;
          one_ip = validate_servers_sound c.servers hv;
          timeout = ground arith;
        })
  ]
]

validate_server_sound : (c k : ServerConfig) → validate_server c ≡ ok k → IsServer k
unfolding validate_server
validate_server_sound c k h = elim (Bool-cases (is_empty_list c.listen_addrs)) [
  | inl e ↦ absurd (cc (e, h))
  | inr l ↦ elim (Bool-cases (is_empty c.target_addr)) [
    | inl e ↦ absurd (cc (l, e, h))
    | inr t ↦
        let filled : ServerConfig = record c {
          dedup_window = or_default c.dedup_window default_dedup_window;
          session_timeout = or_default c.session_timeout default_session_timeout;
        } in
        let q : validate_server c ≡ ok filled = rw (l, t) refl in
        subst IsServer (ok_inj (sym q ∙ h))
          (record { listens = l; has_target = t; window = ground arith; timeout = ground arith })
  ]
]

Mode-cases : (m : Mode) → (m ≡ client) ⊎ (m ≡ server)
Mode-cases client = inl refl
Mode-cases server = inr refl

-- A configuration that passes has, for its mode, an address to listen on, servers or a target,
-- a timeout that is not 0, a window that is not 0, and servers that agree on their IP address.
pub validate-IsReady : (c c' : Config) → validate c ≡ ok c' → IsReady c'
unfolding validate
validate-IsReady c c' h = elim (Mode-cases c.mode) [
  | inl m ↦
      let given : ClientConfig = unwrap_or c.client_config empty_client in
      let with : ClientConfig → Config = λ k. record c { client_config = some k } in
      let q : validate c ≡ (validate_client given >>= λ k. ok (with k)) = rw m refl in
      let (k, hk, same) = bind_ok (validate_client given) (λ k. ok (with k)) c' (sym q ∙ h) in
      subst IsReady (ok_inj same) (client_ready k m refl (validate_client_sound given k hk))
  | inr m ↦
      let given : ServerConfig = unwrap_or c.server_config empty_server in
      let with : ServerConfig → Config = λ k. record c { server_config = some k } in
      let q : validate c ≡ (validate_server given >>= λ k. ok (with k)) = rw m refl in
      let (k, hk, same) = bind_ok (validate_server given) (λ k. ok (with k)) c' (sym q ∙ h) in
      subst IsReady (ok_inj same) (server_ready k m refl (validate_server_sound given k hk))
]

-- Whatever the arguments are and whatever reading the file gives, a configuration that is loaded
-- has, for its mode, an address to listen on, servers that agree on their IP address or a target,
-- a timeout that is not 0 and a window that is not 0.
pub load-IsReady :
    (read_file : Text → Result ConfigError YamlConfig) (args : CliArgs) (c : Config)
    → load read_file args ≡ ok c
    → IsReady c
unfolding load
load-IsReady read_file args c h =
    let (yaml, hy, h1) = bind_ok (yaml_config read_file args.config) (with_yaml args) c h in
    let (mode, hm, h2) =
      bind_ok (parsed_mode (or_option args.mode yaml.mode)) (with_mode args yaml) c h1 in
    let (built, hb, h3) =
      bind_ok (build args yaml mode (args.verbose || unwrap_or yaml.verbose false)) validate c h2 in
    validate-IsReady built c h3
