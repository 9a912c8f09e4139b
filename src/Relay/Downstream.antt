-- ===== src/Relay/Downstream.antt =====
-- A response of the target reaches the source of the client once.
use fproxy.Base.{
  ℕ, ◌+◌, ◌<◌, ◌≤◌, List, [], ◌∷◌, ◌≡◌, refl, inl, inr, ◌∙◌, sym, ap, subst, arith, true, false,
  some, Bytes, All, IsByte, ok, nat_eq, u32_mod, u64_mod, length, append-nil,
}
use fproxy.Base.HashMap.{get}
use fproxy.Protocol.{decode_udp, decode_tcp}
use fproxy.Frame.{read_frames, max_tcp_frame_size}
use fproxy.Server.State.{
  Server, TargetSession, ClientPath, udp, tcp, to_target, to_client, to_writer, spawn_target_reader,
  cancel_session,
}
use fproxy.Server.State as ServerState
use fproxy.Server.Responses.{send_response_to_all_paths}
use fproxy.Server.Routing.{Delivers, DeliversAll, send_response_delivers}
use fproxy.Server.Window.Invariant.{IsSeq}
use fproxy.Client.State.{Client, UdpSession, Output, to_source}
use fproxy.Client.Responses.{forward, deliver, deliver_to}
use fproxy.Client.Events.{Event, packet, udp_response, tcp_response, tcp_closed, tick, step, run}
use fproxy.Client.Maps.{IsInverse}
use fproxy.Client.Windows.{IsSound, knows, Keeps}
use fproxy.Client.Deliver.{deliver_to_lem, deliver_to_known, deliver_to_learns, deliver_to-Keeps}
use fproxy.Client.Once.{Brings, as_deliver_to, brought-IsSeq}
use fproxy.Relay.{Any}

-- The event is the arrival of what a server sent, on the connection of the source `a` if by TCP.
abbrev pub ArrivesBack : ℕ → Event → ServerState.Output → Type 0
ArrivesBack a (udp_response now bytes) (to_client socket addr sent) =
    All IsByte bytes × (bytes ≡ sent)
ArrivesBack a (tcp_response now a' bytes) (to_writer w sent) =
    All IsByte bytes × (a' ≡ a) × (read_frames sent ≡ bytes ∷ [])
ArrivesBack a e o = ⊥

abbrev pub Decodes : ℕ → ℕ → Bytes → ServerState.Output → Type 0
Decodes k seq payload (to_client socket addr bytes) = decode_udp bytes ≡ ok (k, seq, payload)
Decodes k seq payload (to_writer w bytes) =
    (packet : Bytes) × (read_frames bytes ≡ packet ∷ [])
    × (decode_tcp packet ≡ ok (k, seq, payload))
Decodes k seq payload o = ⊥

delivered-Decodes :
    (k seq : ℕ) (payload : Bytes) (p : ClientPath) (o : ServerState.Output)
    → Delivers k seq payload p o
    → Decodes k seq payload o
delivered-Decodes k seq payload (udp a s) (to_client s' a' bytes) d = d.2
delivered-Decodes k seq payload (udp a s) (to_writer w bytes) d = absurd d
delivered-Decodes k seq payload (udp a s) (to_target conn p) d = absurd d
delivered-Decodes k seq payload (udp a s) (spawn_target_reader j conn) d = absurd d
delivered-Decodes k seq payload (udp a s) (cancel_session j) d = absurd d
delivered-Decodes k seq payload (tcp c w) (to_writer w' bytes) d = d.1
delivered-Decodes k seq payload (tcp c w) (to_client s' a' bytes) d = absurd d
delivered-Decodes k seq payload (tcp c w) (to_target conn p) d = absurd d
delivered-Decodes k seq payload (tcp c w) (spawn_target_reader j conn) d = absurd d
delivered-Decodes k seq payload (tcp c w) (cancel_session j) d = absurd d

pub DeliversAll-Decodes :
    (k seq : ℕ) (payload : Bytes) (ps : List ClientPath) (os : List ServerState.Output)
    → DeliversAll k seq payload ps os
    → All (Decodes k seq payload) os
DeliversAll-Decodes k seq payload [] [] d = tt
DeliversAll-Decodes k seq payload [] (o ∷ os) d = absurd d
DeliversAll-Decodes k seq payload (p ∷ ps) [] d = absurd d
DeliversAll-Decodes k seq payload (p ∷ ps) (o ∷ os) d =
    (delivered-Decodes k seq payload p o d.0, DeliversAll-Decodes k seq payload ps os d.1)

-- The event brings the response `seq` of the session `k`, for the source `a`.
abbrev pub BringsBack : Event → ℕ → ℕ → ℕ → Bytes → Type 0
BringsBack (packet env a' p) k a seq payload = ⊥
BringsBack (udp_response now bytes) k a seq payload =
    All IsByte bytes × (decode_udp bytes ≡ ok (k, seq, payload))
BringsBack (tcp_response now a' bytes) k a seq payload =
    All IsByte bytes × (a' ≡ a) × (decode_tcp bytes ≡ ok (k, seq, payload))
BringsBack (tcp_closed key) k a seq payload = ⊥
BringsBack (tick now) k a seq payload = ⊥

pub arrived-BringsBack :
    (e : Event) (o : ServerState.Output) (k a seq : ℕ) (payload : Bytes)
    → ArrivesBack a e o
    → Decodes k seq payload o
    → BringsBack e k a seq payload
arrived-BringsBack (packet env a' p) o k a seq payload r d = absurd r
arrived-BringsBack (udp_response now bytes) (to_client s addr sent) k a seq payload r d =
    (r.0, subst (λ (b : Bytes). decode_udp b ≡ ok (k, seq, payload)) (sym r.1) d)
arrived-BringsBack (udp_response now bytes) (to_writer w sent) k a seq payload r d = absurd r
arrived-BringsBack (udp_response now bytes) (to_target conn p) k a seq payload r d = absurd r
arrived-BringsBack (udp_response now bytes) (spawn_target_reader j conn) k a seq payload r d =
    absurd r
arrived-BringsBack (udp_response now bytes) (cancel_session j) k a seq payload r d = absurd r
arrived-BringsBack (tcp_response now a' bytes) (to_writer w sent) k a seq payload r (sent', f, d) =
    let e : sent' ∷ [] ≡ bytes ∷ [] = sym f ∙ r.2 in
    let same : sent' ≡ bytes = cc e in
    (r.0, r.1, subst (λ (b : Bytes). decode_tcp b ≡ ok (k, seq, payload)) same d)
arrived-BringsBack (tcp_response now a' bytes) (to_client s addr sent) k a seq payload r d =
    absurd r
arrived-BringsBack (tcp_response now a' bytes) (to_target conn p) k a seq payload r d = absurd r
arrived-BringsBack (tcp_response now a' bytes) (spawn_target_reader j conn) k a seq payload r d =
    absurd r
arrived-BringsBack (tcp_response now a' bytes) (cancel_session j) k a seq payload r d = absurd r
arrived-BringsBack (tcp_closed key) o k a seq payload r d = absurd r
arrived-BringsBack (tick now) o k a seq payload r d = absurd r

Any-BringsBack :
    (e : Event) (os : List ServerState.Output) (k a seq : ℕ) (payload : Bytes)
    → Any (ArrivesBack a e) os
    → All (Decodes k seq payload) os
    → BringsBack e k a seq payload
Any-BringsBack e [] k a seq payload r d = absurd r
Any-BringsBack e (o ∷ os) k a seq payload (inl r) d = arrived-BringsBack e o k a seq payload r d.0
Any-BringsBack e (o ∷ os) k a seq payload (inr r) d = Any-BringsBack e os k a seq payload r d.1

All-BringsBack :
    (es : List Event) (os : List ServerState.Output) (k a seq : ℕ) (payload : Bytes)
    → All (λ e. Any (ArrivesBack a e) os) es
    → All (Decodes k seq payload) os
    → All (λ e. BringsBack e k a seq payload) es
All-BringsBack [] os k a seq payload r d = tt
All-BringsBack (e ∷ es) os k a seq payload r d =
    (Any-BringsBack e os k a seq payload r.0 d, All-BringsBack es os k a seq payload r.1 d)

-- At a client that maps the session to the source.
pub brought-Brings :
    (c : Client) (e : Event) (k a seq : ℕ) (payload : Bytes)
    → get c.udp_session_addrs k ≡ some a
    → BringsBack e k a seq payload
    → Brings e c a seq payload
brought-Brings c (packet env a' p) k a seq payload g b = absurd b
brought-Brings c (udp_response now bytes) k a seq payload g b = (b.0, (k, b.1, g))
brought-Brings c (tcp_response now a' bytes) k a seq payload g b = (b.0, b.1, (k, b.2))
brought-Brings c (tcp_closed key) k a seq payload g b = absurd b
brought-Brings c (tick now) k a seq payload g b = absurd b

pub deliver_to-addrs :
    (c : Client) (now a seq : ℕ) (payload : Bytes)
    → (deliver_to c now a seq payload).0.udp_session_addrs ≡ c.udp_session_addrs
unfolding deliver_to deliver
deliver_to-addrs c now a seq payload = ground arith

module _ (k a seq : ℕ) (payload : Bytes) where
  step-Keeps_addrs :
      (c : Client) (e : Event)
      → IsSound c
      → get c.udp_session_addrs k ≡ some a
      → BringsBack e k a seq payload
      → Keeps c (step c e).0 × (get (step c e).0.udp_session_addrs k ≡ some a)
  step-Keeps_addrs c e v g b =
      let brings = brought-Brings c e k a seq payload g b in
      let (now, eq) = as_deliver_to c e a seq payload brings in
      let bound : IsSeq seq = brought-IsSeq c e a seq payload brings in
      rw eq (
        deliver_to-Keeps c now a seq payload v bound,
        subst (λ m. get m k ≡ some a) (sym (deliver_to-addrs c now a seq payload)) g,
      )

  -- A client that knows the number sends nothing, however many copies arrive.
  known_responses :
      (c : Client) (es : List Event)
      → IsSound c
      → get c.udp_session_addrs k ≡ some a
      → knows c a seq ≡ true
      → All (λ e. BringsBack e k a seq payload) es
      → (run c es).1 ≡ []
  unfolding run
  known_responses c [] v g h b = refl
  known_responses c (e ∷ es) v g h b =
      let (now, eq) = as_deliver_to c e a seq payload (brought-Brings c e k a seq payload g b.0) in
      let nothing : (step c e).1 ≡ [] =
        ap (λ (r : Client × List Output). r.1) eq ∙ deliver_to_known c now a seq payload h in
      let (kept, g') = step-Keeps_addrs c e v g b.0 in
      let rest = known_responses (step c e).0 es kept.sound g' (kept.knows_on a seq h) b.1 in
      rw nothing rest

  copies_back_once :
      (c : Client) (s : UdpSession) (e : Event) (es : List Event)
      → IsSound c
      → get c.udp_session_addrs k ≡ some a
      → get c.udp_sessions a ≡ some s
      → knows c a seq ≡ false
      → All (λ e'. BringsBack e' k a seq payload) (e ∷ es)
      → (run c (e ∷ es)).1 ≡ forward c.listener a payload
  unfolding run
  copies_back_once c s e es v g there h b =
      let brings = brought-Brings c e k a seq payload g b.0 in
      let (now, eq) = as_deliver_to c e a seq payload brings in
      let bound : IsSeq seq = brought-IsSeq c e a seq payload brings in
      let first : (step c e).1 ≡ forward c.listener a payload =
        ap (λ (r : Client × List Output). r.1) eq
        ∙ deliver_to_lem c now a seq payload s there
        ∙ rw h refl in
      let learned : knows (step c e).0 a seq ≡ true =
        rw eq (deliver_to_learns c now a seq payload v bound (λ n. absurd (cc (n, there)))) in
      let (kept, g') = step-Keeps_addrs c e v g b.0 in
      let rest = known_responses (step c e).0 es kept.sound g' learned b.1 in
      rw (first, rest) (append-nil (forward c.listener a payload))

-- What the server sends for one response of the target may arrive at the client in any order, over
-- any of the paths and any number of times. If the session has paths, its id and number fit their
-- fields and the response fits a frame, then a client that has the session, with well-formed
-- windows and maps that are inverse, has its listening socket, and does not know the number yet,
-- sends the payload from that socket to the source of the session, once, and nothing else.
pub response_once :
    (s : Server) (now k : ℕ) (payload : Bytes) (t : TargetSession) (ps : List ClientPath)
    (c : Client) (listener a : ℕ) (u : UdpSession) (e : Event) (es : List Event)
    → get s.sessions k ≡ some t
    → get s.client_paths k ≡ some ps
    → k < u64_mod
    → t.response_seq < u32_mod
    → 12 + length payload ≤ max_tcp_frame_size
    → c.listener ≡ some listener
    → IsSound c
    → IsInverse c
    → get c.udp_sessions a ≡ some u
    → u.session_id ≡ k
    → knows c a t.response_seq ≡ false
    → All (λ e'. Any (ArrivesBack a e') (send_response_to_all_paths s now k payload).1) (e ∷ es)
    → (run c (e ∷ es)).1 ≡ to_source listener a payload ∷ []
unfolding forward
response_once s now k payload t ps c listener a u e es ht hp hk hseq hlen hl v i hu hid h arrivals =
    let sent = (send_response_delivers s now k payload t ps ht hp hk hseq hlen).0 in
    let outputs = (send_response_to_all_paths s now k payload).1 in
    let mapped : get c.udp_session_addrs k ≡ some a =
      subst (λ (x : ℕ). get c.udp_session_addrs x ≡ some a) hid (i.forward a u hu) in
    let sends : forward c.listener a payload ≡ to_source listener a payload ∷ [] = rw hl refl in
    copies_back_once k a t.response_seq payload c u e es v mapped hu h (
      All-BringsBack (e ∷ es) outputs k a t.response_seq payload arrivals
        (DeliversAll-Decodes k t.response_seq payload ps outputs sent))
    ∙ sends
