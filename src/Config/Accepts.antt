-- ===== src/Config/Accepts.antt =====
-- The endpoints that `Endpoint::parse` of fproxy-rs/src/config.rs accepts.
use fproxy.Base.{
  ◌≡◌, refl, ◌∙◌, ap, sym, subst, true, false, not, ◌&&◌, ◌||◌, List, [], ◌∷◌, ◌++◌, arith, All, ok,
  err, bind_ok, contains_key, Bool-cases, inl, inr, ok_inj,
}
use fproxy.Config.{Text, Protocol, udp, tcp, Endpoint}
use fproxy.Config.Text.{text, is_empty, split, to_lowercase, text_eq}
use fproxy.Config.Parse.{
  invalid_protocol, extract_host, is_valid_ip, normalize_listen_addr, parse_protocol, parse_parts,
  parse, checked_endpoint,
}
use fproxy.Config.Split.{join, join-split, split-free, split_whole, split_at}

abbrev pub protocol_name : Protocol → Text
protocol_name udp = text "udp"
protocol_name tcp = text "tcp"

-- The text is an address, a slash and the name of a protocol in letters of either case; the address
-- has a port or brackets, and its host is empty or an IP address.
pub record IsEndpoint (s : Text) (e : Endpoint) : Type 0 where
  pub address : Text
  pub name : Text
  pub host : Text
  pub spelled : s ≡ address ++ b'/' ∷ name
  pub no_slash : (contains_key address b'/' ≡ false) × (contains_key name b'/' ≡ false)
  pub named : to_lowercase name ≡ protocol_name e.protocol
  pub hosted : extract_host address ≡ ok host
  pub host_valid : (is_empty host || is_valid_ip host) ≡ true
  pub normal : e.address ≡ normalize_listen_addr address

pub text_eq_sound : (s t : Text) → text_eq s t ≡ true → s ≡ t
unfolding text_eq
text_eq_sound [] [] h = refl
text_eq_sound [] (y ∷ t) h = absurd (cc h)
text_eq_sound (x ∷ s) [] h = absurd (cc h)
text_eq_sound (x ∷ s) (y ∷ t) h =
    let e : s ≡ t = text_eq_sound s t (ground arith) in let q : x ≡ y = ground arith in cc (e, q)

protocol_sound :
    (s : Text) (p : Protocol) → parse_protocol s ≡ ok p → to_lowercase s ≡ protocol_name p
unfolding parse_protocol
protocol_sound s p h = elim (Bool-cases (text_eq (to_lowercase s) (text "udp"))) [
  | inl u ↦
      let q : parse_protocol s ≡ ok udp = rw u refl in
      text_eq_sound (to_lowercase s) (text "udp") u ∙ ap protocol_name (ok_inj (sym q ∙ h))
  | inr nu ↦ elim (Bool-cases (text_eq (to_lowercase s) (text "tcp"))) [
    | inl t ↦
        let q : parse_protocol s ≡ ok tcp = rw (nu, t) refl in
        text_eq_sound (to_lowercase s) (text "tcp") t ∙ ap protocol_name (ok_inj (sym q ∙ h))
    | inr nt ↦
        let q : parse_protocol s ≡ err (invalid_protocol s) = rw (nu, nt) refl in absurd (cc (q, h))
  ]
]

protocol_complete :
    (s : Text) (p : Protocol) → to_lowercase s ≡ protocol_name p → parse_protocol s ≡ ok p
unfolding parse_protocol text_eq
protocol_complete s udp h = rw h refl
protocol_complete s tcp h = rw h refl

checked_sound :
    (address host : Text) (p : Protocol) (e : Endpoint)
    → checked_endpoint address p host ≡ ok e
    → ((is_empty host || is_valid_ip host) ≡ true)
      × (record { address = normalize_listen_addr address; protocol = p } ≡ e)
checked_sound address host p e h =
    elim (Bool-cases (not (is_empty host) && not (is_valid_ip host))) [
      | inl bad ↦ absurd (cc (bad, h))
      | inr good ↦
          let q : checked_endpoint address p host
              ≡ ok (record { address = normalize_listen_addr address; protocol = p }) =
            rw good refl in
          (ground arith, ok_inj (sym q ∙ h))
    ]

parts_sound :
    (s : Text) (parts : List Text) (e : Endpoint)
    → split b'/' s ≡ parts
    → parse_parts s parts ≡ ok e
    → IsEndpoint s e
unfolding parse_parts
parts_sound s [] e q h = absurd (cc h)
parts_sound s (a ∷ []) e q h = absurd (cc h)
parts_sound s (a ∷ n ∷ m ∷ ps) e q h = absurd (cc h)
parts_sound s (a ∷ n ∷ []) e q h =
    let (p, hp, h1) = bind_ok (parse_protocol n) _ e h in
    let (host, hh, h2) = bind_ok (extract_host a) (checked_endpoint a p) e h1 in
    let (v, same) = checked_sound a host p e h2 in
    let free : All (λ x. contains_key x b'/' ≡ false) (a ∷ n ∷ []) =
      subst (All (λ x. contains_key x b'/' ≡ false)) q (split-free b'/' s) in
    record {
      address = a;
      name = n;
      host = host;
      spelled = sym (join-split b'/' s) ∙ ap (join b'/') q;
      no_slash = (free.0, free.1.0);
      named = protocol_sound n p hp ∙ ap (λ (x : Endpoint). protocol_name x.protocol) same;
      hosted = hh;
      host_valid = v;
      normal = ap (λ (x : Endpoint). x.address) (sym same);
    }

-- A text that is accepted as an endpoint is an address and the name of a protocol, in letters of
-- either case, around its one slash; the host of the address is empty or an IP address; and the
-- endpoint has that protocol, and that address as `normalize_listen_addr` leaves it.
pub parse-IsEndpoint : (s : Text) (e : Endpoint) → parse s ≡ ok e → IsEndpoint s e
unfolding parse
parse-IsEndpoint s e h = parts_sound s (split b'/' s) e refl h

-- Every text that is such an address and name of a protocol around a slash is accepted, with the
-- endpoint that it spells.
pub IsEndpoint-parse : (s : Text) (e : Endpoint) → IsEndpoint s e → parse s ≡ ok e
unfolding parse parse_parts
IsEndpoint-parse s e v =
    let parts : split b'/' s ≡ v.address ∷ v.name ∷ [] =
      ap (split b'/') v.spelled
      ∙ split_at b'/' v.address v.name v.no_slash.0
      ∙ ap (v.address ∷◌) (split_whole b'/' v.name v.no_slash.1) in
    let p = protocol_complete v.name e.protocol v.named in
    let good : (not (is_empty v.host) && not (is_valid_ip v.host)) ≡ false =
      ground (arith, v.host_valid) in
    rw (parts, p, v.hosted, good) (ap (λ (a : Text). ok (record e { address = a })) (sym v.normal))
