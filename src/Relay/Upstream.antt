-- ===== src/Relay/Upstream.antt =====
-- A payload from a source of the client reaches the server's target once.
use fproxy.Base.{
  ℕ, ◌<◌, List, [], ◌∷◌, ◌≡◌, ◌≢◌, refl, inl, inr, ◌∙◌, sym, ap, subst, true, false, none, Bytes,
  All, ok, nat_eq, u32_mod, u64_mod,
}
use fproxy.Base.HashMap.{get}
use fproxy.Protocol.{decode_udp, decode_tcp}
use fproxy.Client.State.{Client, to_server, to_writer, to_source, spawn_tcp_reader, cancel_tcp}
use fproxy.Client.State as ClientState
use fproxy.Client.Packets.{Env, get_or_create_udp_session, handle_packet}
use fproxy.Client.Sending.{Sends, handle_packet_lem}
use fproxy.Server.State.{Server, Output}
use fproxy.Server.Outputs.{payloads, payloads-append}
use fproxy.Server.Window.{is_duplicate}
use fproxy.Server.Window
use fproxy.Server.Window.Invariant.{IsSeq}
use fproxy.Server.Packets.{Net, receive, check_duplicate}
use fproxy.Server.Receive.{receive_known, receive_new, receive_learns}
use fproxy.Server.Expiry.{HasBytes}
use fproxy.Server.Events.{
  Event, udp_packet, tcp_packet, target_response, conn_closed, tick, step, run,
}
use fproxy.Server.Sessions.{IsSound, get_or_create_session_cases}
use fproxy.Server.Windows.{knows}
use fproxy.Server.Once.{Carries, EndsNothing, step-Keeps, as_receive, carried-IsSeq}
use fproxy.Relay.{Any, Arrives}

pub arrival-Carries :
    (e : Event) (o : ClientState.Output) (k seq : ℕ) (payload : Bytes)
    → HasBytes e
    → Arrives e o
    → Sends k seq payload o
    → Carries e k seq payload
arrival-Carries (udp_packet net now listener client_addr bytes) (to_server sender sent) k seq
      payload h r d =
    (h, subst (λ (b : Bytes). decode_udp b ≡ ok (k, seq, payload)) (sym r) d)
arrival-Carries (tcp_packet net now conn_id writer bytes) (to_writer w sent) k seq payload h r
      (packet, f, d) =
    let e : packet ∷ [] ≡ bytes ∷ [] = sym f ∙ r in
    let same : packet ≡ bytes = cc e in
    (h, subst (λ (b : Bytes). decode_tcp b ≡ ok (k, seq, payload)) same d)
arrival-Carries (udp_packet net now listener client_addr bytes) (to_writer w sent) k seq payload h r
      d =
    absurd r
arrival-Carries (udp_packet net now listener client_addr bytes) (to_source l a b) k seq payload h r
      d =
    absurd r
arrival-Carries (udp_packet net now listener client_addr bytes) (spawn_tcp_reader a key) k seq
      payload h r d =
    absurd r
arrival-Carries (udp_packet net now listener client_addr bytes) (cancel_tcp w) k seq payload h r d =
    absurd r
arrival-Carries (tcp_packet net now conn_id writer bytes) (to_server sender sent) k seq payload h r
      d =
    absurd r
arrival-Carries (tcp_packet net now conn_id writer bytes) (to_source l a b) k seq payload h r d =
    absurd r
arrival-Carries (tcp_packet net now conn_id writer bytes) (spawn_tcp_reader a key) k seq payload h r
      d =
    absurd r
arrival-Carries (tcp_packet net now conn_id writer bytes) (cancel_tcp w) k seq payload h r d =
    absurd r
arrival-Carries (target_response now j p) o k seq payload h r d = absurd r
arrival-Carries (conn_closed conn_id) o k seq payload h r d = absurd r
arrival-Carries (tick now) o k seq payload h r d = absurd r

Any-Carries :
    (e : Event) (os : List ClientState.Output) (k seq : ℕ) (payload : Bytes)
    → HasBytes e
    → Any (Arrives e) os
    → All (Sends k seq payload) os
    → Carries e k seq payload
Any-Carries e [] k seq payload h r d = absurd r
Any-Carries e (o ∷ os) k seq payload h (inl r) d = arrival-Carries e o k seq payload h r d.0
Any-Carries e (o ∷ os) k seq payload h (inr r) d = Any-Carries e os k seq payload h r d.1

pub carried-EndsNothing :
    (e : Event) (k seq : ℕ) (payload : Bytes) → Carries e k seq payload → EndsNothing e
carried-EndsNothing (udp_packet net now listener client_addr bytes) k seq payload c = c.0
carried-EndsNothing (tcp_packet net now conn_id writer bytes) k seq payload c = c.0
carried-EndsNothing (target_response now session_id p) k seq payload c = absurd c
carried-EndsNothing (conn_closed conn_id) k seq payload c = absurd c
carried-EndsNothing (tick now) k seq payload c = absurd c

-- What a packet does that opens the session, or finds it without the packet's number.
pub receive_first :
    (s : Server) (net : Net) (now k seq : ℕ) (payload : Bytes) (add_path : Server → ℕ → Server)
    → get (receive s net now (k, seq, payload) add_path).0.sessions k ≢ none
    → knows s k seq ≡ false
    → payloads (receive s net now (k, seq, payload) add_path).1 ≡ payload ∷ []
unfolding receive check_duplicate payloads is_duplicate Window.new
receive_first s net now k seq payload add_path there h =
    elim (get_or_create_session_cases s net now k) [
      | inl (t, e, r) ↦ rw (receive_new s net now (k, seq, payload) t add_path e h)
      | inr (inl (conn, e, b, c, r)) ↦ rw (r, receive) refl
      | inr (inr (e, r)) ↦ absurd (there (rw (r, receive) e))
    ]

-- A server that knows the number sends nothing, however many copies arrive.
known_copies :
    (s : Server) (es : List Event) (k seq : ℕ) (payload : Bytes)
    → IsSound s
    → knows s k seq ≡ true
    → All (λ e. Carries e k seq payload) es
    → payloads (run s es).1 ≡ []
unfolding run payloads
known_copies s [] k seq payload v h c = refl
known_copies s (e ∷ es) k seq payload v h c =
    let (net, now, add_path, keep, eq) = as_receive s e k seq payload c.0 in
    let nothing : (step s e).1 ≡ [] =
      ap (λ (r : Server × List Output). r.1) eq
      ∙ receive_known s net now (k, seq, payload) add_path h in
    let kept = step-Keeps s e (carried-EndsNothing e k seq payload c.0) v in
    let rest = known_copies (step s e).0 es k seq payload kept.sound (kept.knows_on k seq h) c.1 in
    rw nothing rest

-- Copies of one packet that arrive one after the other bring its payload to the target once.
copies_once :
    (s : Server) (e : Event) (es : List Event) (k seq : ℕ) (payload : Bytes)
    → IsSound s
    → get (step s e).0.sessions k ≢ none
    → knows s k seq ≡ false
    → All (λ e'. Carries e' k seq payload) (e ∷ es)
    → payloads (run s (e ∷ es)).1 ≡ payload ∷ []
unfolding run
copies_once s e es k seq payload v there h c =
    let (net, now, add_path, keep, eq) = as_receive s e k seq payload c.0 in
    let bound : IsSeq seq = carried-IsSeq e k seq payload c.0 in
    let there' : get (receive s net now (k, seq, payload) add_path).0.sessions k ≢ none =
      λ g. there (rw eq g) in
    let first : payloads (step s e).1 ≡ payload ∷ [] =
      rw eq (receive_first s net now k seq payload add_path there' h) in
    let learned : knows (step s e).0 k seq ≡ true =
      rw eq (receive_learns s net now (k, seq, payload) add_path keep v bound there') in
    let kept = step-Keeps s e (carried-EndsNothing e k seq payload c.0) v in
    payloads-append (step s e).1 (run (step s e).0 es).1
    ∙ rw (first, known_copies (step s e).0 es k seq payload kept.sound learned c.1)

All-Carries :
    (es : List Event) (os : List ClientState.Output) (k seq : ℕ) (payload : Bytes)
    → All (λ e. HasBytes e × Any (Arrives e) os) es
    → All (Sends k seq payload) os
    → All (λ e. Carries e k seq payload) es
All-Carries [] os k seq payload h d = tt
All-Carries (e ∷ es) os k seq payload h d =
    (Any-Carries e os k seq payload h.0.0 h.0.1 d, All-Carries es os k seq payload h.1 d)

-- What the client sends for one packet of a source may arrive in any order, over any of the paths
-- and any number of times. If the session's id and number fit their fields, the server's windows
-- are well formed, the server does not know the number yet, and the first arrival finds or opens
-- the session, then the target gets the payload, and gets it once.
pub payload_once :
    (c : Client) (env : Env) (a : ℕ) (payload : Bytes) (s : Server) (e : Event) (es : List Event)
    → let u = (get_or_create_udp_session c env a).1 in
      u.session_id < u64_mod
      → u.seq < u32_mod
      → IsSound s
      → get (step s e).0.sessions u.session_id ≢ none
      → knows s u.session_id u.seq ≡ false
      → All (λ e'. HasBytes e' × Any (Arrives e') (handle_packet c env a payload).1) (e ∷ es)
      → payloads (run s (e ∷ es)).1 ≡ payload ∷ []
payload_once c env a payload s e es hid hseq v there h arrivals =
    let u = (get_or_create_udp_session c env a).1 in
    let sends = (handle_packet_lem c env a payload hid hseq).0 in
    copies_once s e es u.session_id u.seq payload v there h (
      All-Carries (e ∷ es) (handle_packet c env a payload).1 u.session_id u.seq payload arrivals
        sends)
