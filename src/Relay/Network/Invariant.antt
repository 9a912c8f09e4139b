-- ===== src/Relay/Network/Invariant.antt =====
-- What holds of packets and deliveries in a network of fproxy-rs/src/client.rs and fproxy-rs/src/server.rs.
use fproxy.Base.{
  ℕ, ◌+◌, ◌≤◌, ◌<◌, List, [], ◌∷◌, ◌≡◌, inl, inr, ◌∙◌, sym, arith, true, false, ◌&&◌, ◌==◌, Bytes,
  All, All-append, Bool-cases, nat_eq, u64_mod, length,
}
use fproxy.Protocol.{Decoded}
use fproxy.Client.Packets.{Env, get_or_create_udp_session, handle_packet}
use fproxy.Client.Events as ClientEvents
use fproxy.Client.Sending.{handle_packet_lem}
use fproxy.Client.Numbers.{
  given_by, GivesNothing, has_key, KeysDistinct, half, IsNumbered, other-IsNumbered,
}
use fproxy.Client.Numbering.{packet-IsNumbered}
use fproxy.Server.State.{Server}
use fproxy.Server.Expiry.{HasBytes}
use fproxy.Server.Events.{Event, udp_packet, tcp_packet, target_response, conn_closed, tick, step}
use fproxy.Server.Sessions.{IsSound}
use fproxy.Server.Windows.{knows, Keeps}
use fproxy.Server.Once.{EndsNothing, step-Keeps}
use fproxy.Relay.{Any, Arrives}
use fproxy.Relay.Upstream.{carried-EndsNothing}
use fproxy.Relay.Network.Defs.{World, take_packet, bring, BringsNothing}
use fproxy.Relay.Network.Arriving.{
  event_outcome, carried-decoded, Comes, Brings, arrival-Brings, more_Comes, new_Comes,
}

-- A packet that was given.
abbrev pub IsGiven : List Decoded → Decoded → Type 0
IsGiven given d = Any (λ (g : Decoded). d ≡ g) given

pub record IsExact (initial n : ℕ) (w : World) : Type 0 where
  pub numbered : IsNumbered w.given initial n w.client
  pub carried : All (Comes w.given) w.sent
  pub sound : IsSound w.server
  pub known : (k q : ℕ) → has_key w.delivered k q ≡ true → knows w.server k q ≡ true
  pub once : KeysDistinct w.delivered
  pub given_first : All (IsGiven w.given) w.delivered

more_IsGiven :
    (given : List Decoded) (g : Decoded) (ds : List Decoded)
    → All (IsGiven given) ds
    → All (IsGiven (g ∷ given)) ds
more_IsGiven given g [] h = tt
more_IsGiven given g (d ∷ ds) h = (inr h.0, more_IsGiven given g ds h.1)

pub take-IsExact :
    (initial n : ℕ) (w : World) (env : Env) (a : ℕ) (payload : Bytes)
    → IsExact initial n w
    → n + 2 < u64_mod
    → length w.given < half
    → (m : ℕ) × (m ≤ n + 2) × IsExact initial m (take_packet w env a payload)
unfolding ClientEvents.step given_by
take-IsExact initial n w env a payload v h k =
    let (m, hi, hid, hseq, numbered) =
      packet-IsNumbered w.given initial n w.client env a payload v.numbered h k in
    let u = (get_or_create_udp_session w.client env a).1 in
    let d : Decoded = (u.session_id, u.seq, payload) in
    let outputs = (handle_packet w.client env a payload).1 in
    let sends = (handle_packet_lem w.client env a payload hid hseq).0 in
    (
      m,
      hi,
      record {
        numbered = numbered;
        carried =
            All-append (Comes (d ∷ w.given)) outputs w.sent
              (new_Comes w.given u.session_id u.seq payload outputs sends)
              (more_Comes w.given d w.sent v.carried);
        sound = v.sound;
        known = v.known;
        once = v.once;
        given_first = more_IsGiven w.given d w.delivered v.given_first;
      },
    )

pub client-IsExact :
    (initial n : ℕ) (w : World) (e : ClientEvents.Event)
    → IsExact initial n w
    → n + 2 < u64_mod
    → GivesNothing e
    → (m : ℕ) × (m ≤ n + 2)
      × IsExact initial m (record w { client = (ClientEvents.step w.client e).0 })
client-IsExact initial n w e v h g =
    let (m, hi, numbered) = other-IsNumbered w.given initial n w.client e v.numbered g h in
    (
      m,
      hi,
      record {
        numbered = numbered;
        carried = v.carried;
        sound = v.sound;
        known = v.known;
        once = v.once;
        given_first = v.given_first;
      },
    )

-- A server that forgets nothing and delivers nothing.
pub kept-IsExact :
    (initial n : ℕ) (w : World) (s : Server)
    → IsExact initial n w
    → Keeps w.server s
    → IsExact initial n (record w { server = s })
kept-IsExact initial n w s v k = record {
  numbered = v.numbered;
  carried = v.carried;
  sound = k.sound;
  known = λ j q e. k.knows_on j q (v.known j q e);
  once = v.once;
  given_first = v.given_first;
}

pub quiet-EndsNothing : (e : Event) → BringsNothing e → EndsNothing e
quiet-EndsNothing (udp_packet net now listener client_addr bytes) h = absurd h
quiet-EndsNothing (tcp_packet net now conn_id writer bytes) h = absurd h
quiet-EndsNothing (target_response now session_id payload) h = tt
quiet-EndsNothing (conn_closed conn_id) h = tt
quiet-EndsNothing (tick now) h = absurd h

-- A delivery is of a packet that was given, and the first under its id and number.
delivered-IsExact :
    (initial n : ℕ) (w : World) (s : Server) (k q : ℕ) (payload : Bytes)
    → IsExact initial n w
    → Keeps w.server s
    → IsGiven w.given (k, q, payload)
    → knows w.server k q ≡ false
    → knows s k q ≡ true
    → IsExact initial n (record w { server = s; delivered = (k, q, payload) ∷ w.delivered })
delivered-IsExact initial n w s k q payload v keeps given fresh learned = record {
  numbered = v.numbered;
  carried = v.carried;
  sound = keeps.sound;
  known = λ j p e. elim (Bool-cases (k == j && q == p)) [
    | inl same ↦
        let kj : k ≡ j = ground arith in let qp : q ≡ p = ground arith in rw (← kj, ← qp) learned
    | inr other ↦ keeps.knows_on j p (v.known j p (ground arith))
  ];
  once = (
    elim (Bool-cases (has_key w.delivered k q)) [
      | inl old ↦ absurd (cc (sym fresh ∙ v.known k q old))
      | inr new_key ↦ new_key
    ],
    v.once,
  );
  given_first = (given, v.given_first);
}

pub bring-IsExact :
    (initial n : ℕ) (w : World) (e : Event)
    → IsExact initial n w
    → HasBytes e
    → Any (Arrives e) w.sent
    → IsExact initial n (bring w e)
bring-IsExact initial n w e v h r =
    let b : Brings w.given e = arrival-Brings w.given e w.sent h r v.carried in
    let keeps : Keeps w.server (step w.server e).0 =
      step-Keeps w.server e (carried-EndsNothing e b.k b.seq b.payload b.carries) v.sound in
    let read = carried-decoded e b.k b.seq b.payload b.carries in
    elim (event_outcome w.server e b.k b.seq b.payload v.sound b.carries) [
      | inl nothing ↦ rw (nothing, read) (kept-IsExact initial n w (step w.server e).0 v keeps)
      | inr (something, fresh, learned) ↦
          rw (something, read)
            (delivered-IsExact initial n w (step w.server e).0 b.k b.seq b.payload v keeps
              b.is_given fresh learned)
    ]
