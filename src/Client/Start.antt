-- ===== src/Client/Start.antt =====
-- `Client::start` in fproxy-rs/src/client.rs: the senders and the listening socket.
use fproxy.Base.{
  ℕ, ◌≡◌, refl, ◌∙◌, ap, Bool, true, false, List, [], ◌∷◌, ◌++◌, map, Option, none, some,
  if◌then◌else◌, retain, Bool-cases, Option-cases, inl, inr,
}
use fproxy.Config.{Text, Protocol, udp, tcp, Endpoint, ClientConfig}
use fproxy.Client.State.{Client, new}

-- What the operating system answers: a socket connected to an address, and one bound to an address.
pub record Sockets : Type 0 where
  pub connected : Text → Option ℕ
  pub bound : Text → Option ℕ

-- One endpoint's part, given the sockets of the later ones: they are not made after a failure.
abbrev pub sender_for : Protocol → Option ℕ → List ℕ × Bool → List ℕ × Bool
sender_for tcp answer later = later
sender_for udp none later = ([], false)
sender_for udp (some socket) (more, fine) = (socket ∷ more, fine)

-- The sockets made before the first failure, and whether there was none.
unfoldable pub start_senders : (Text → Option ℕ) → List Endpoint → List ℕ × Bool
start_senders connected [] = ([], true)
start_senders connected (endpoint ∷ servers) =
    sender_for endpoint.protocol (connected endpoint.address) (start_senders connected servers)

-- The started client, and whether `start` returns `Ok`. A failure leaves the senders made before.
unfoldable pub start : Client → Sockets → Client × Bool
start c sockets =
    let (senders, fine) = start_senders sockets.connected c.cfg.servers in
    let c' = record c { udp_senders = c.udp_senders ++ senders } in
    if fine
    then elim (sockets.bound c.cfg.listen_addr) [
      | none ↦ (c', false)
      | some listener ↦ (record c' { listener = some listener }, true)
    ]
    else (c', false)

abbrev pub is_udp : Protocol → Bool
is_udp udp = true
is_udp tcp = false

sender_for_lem :
    (p : Protocol) (answer : Option ℕ) (later : List ℕ × Bool) (answers : List (Option ℕ))
    → (later.1 ≡ true → map some later.0 ≡ answers)
    → (sender_for p answer later).1 ≡ true
    → map some (sender_for p answer later).0 ≡ (if is_udp p then answer ∷ answers else answers)
sender_for_lem tcp answer later answers h k = h k
sender_for_lem udp none later answers h k = absurd (cc k)
sender_for_lem udp (some socket) (more, fine) answers h k = ap (some socket ∷◌) (h k)

start_senders_lem :
    (connected : Text → Option ℕ) (servers : List Endpoint)
    → (start_senders connected servers).1 ≡ true
    → map some (start_senders connected servers).0
      ≡ map (λ e. connected e.address) (retain (λ e. is_udp e.protocol) servers)
unfolding start_senders
start_senders_lem connected [] h = refl
start_senders_lem connected (endpoint ∷ servers) h =
    let answer : Endpoint → Option ℕ = λ e. connected e.address in
    let later = start_senders connected servers in
    let answers = map answer (retain (λ e. is_udp e.protocol) servers) in
    let one =
      sender_for_lem endpoint.protocol (answer endpoint) later answers
        (start_senders_lem connected servers) h in
    one ∙ elim (Bool-cases (is_udp endpoint.protocol)) [ inl u ↦ rw u refl | inr u ↦ rw u refl ]

-- A client that has started has one sender for each UDP endpoint of its configuration, in that order
-- and connected to that endpoint's address, and listens on the configured address.
pub start_lem :
    (cfg : ClientConfig) (initial : ℕ) (sockets : Sockets)
    → (start (new cfg initial) sockets).1 ≡ true
    → let c = (start (new cfg initial) sockets).0 in
      (map some c.udp_senders
        ≡ map (λ e. sockets.connected e.address) (retain (λ e. is_udp e.protocol) cfg.servers))
      × (c.listener ≡ sockets.bound cfg.listen_addr)
unfolding start new
start_lem cfg initial sockets h =
    elim (Bool-cases (start_senders sockets.connected cfg.servers).1) [
      | inr bad ↦ absurd (cc (bad, h))
      | inl fine ↦ elim (Option-cases (sockets.bound cfg.listen_addr)) [
        | inl n ↦ absurd (cc (fine, n, h))
        | inr (l, n) ↦ rw (fine, n) (start_senders_lem sockets.connected cfg.servers fine, refl)
      ]
    ]
