-- ===== src/Relay/Network/Arriving.antt =====
-- What one arrival does at the server of fproxy-rs/src/server.rs.
use fproxy.Base.{
  ℕ, List, [], ◌∷◌, ◌≡◌, ◌≢◌, refl, ◌⊎◌, inl, inr, ◌∙◌, sym, ap, true, false, none, some, Bytes,
  All, ok, Bool-cases, Option-cases, nat_eq, ==_refl,
}
use fproxy.Base.HashMap.{get, get-insert}
use fproxy.Protocol.{Decoded}
use fproxy.Client.State as ClientState
use fproxy.Client.Sending.{Sends}
use fproxy.Server.Window.{is_duplicate}
use fproxy.Server.Window.Invariant.{IsSeq}
use fproxy.Server.State.{Server, TargetSession, put_session}
use fproxy.Server.Packets.{Net, Opened, get_or_create_session, check_duplicate, receive}
use fproxy.Server.Receive.{AddsPath, receive_known, receive_learns}
use fproxy.Server.Expiry.{HasBytes}
use fproxy.Server.Events.{Event, udp_packet, tcp_packet, target_response, conn_closed, tick, step}
use fproxy.Server.Sessions.{IsSound}
use fproxy.Server.Windows.{knows}
use fproxy.Server.Once.{Carries, as_receive, carried-IsSeq}
use fproxy.Relay.{Any, Arrives}
use fproxy.Relay.Upstream.{receive_first, arrival-Carries}
use fproxy.Server.Outputs.{payloads}
use fproxy.Relay.Network.Defs.{decoded}

-- A lookup that succeeds leaves the session in the map.
receive_there :
    (s : Server) (net : Net) (now k seq : ℕ) (payload : Bytes) (add_path : Server → ℕ → Server)
    (o : Opened)
    → AddsPath add_path
    → get_or_create_session s net now k ≡ some o
    → get (receive s net now (k, seq, payload) add_path).0.sessions k ≢ none
unfolding receive check_duplicate
receive_there s net now k seq payload add_path o keep e =
    let (w, duplicate) = is_duplicate o.session.dedup_window seq in
    let t : TargetSession = record o.session { last_activity = now; dedup_window = w } in
    let s' : Server = put_session o.server k t in
    let there : get s'.sessions k ≡ some t =
      get-insert o.server.sessions k k t ∙ rw (==_refl k) refl in
    elim (Bool-cases duplicate) [
      | inl old ↦ rw (e, receive, old) (λ n. absurd (cc (sym n ∙ there)))
      | inr fresh ↦
          rw (e, receive, fresh)
            (λ n. absurd (cc (sym n ∙ ap (λ m. get m k) (keep s' k).0 ∙ there)))
    ]

-- A packet brings nothing to the target, or it brings its payload, and then the server did not know
-- its number and does from then on.
pub event_outcome :
    (s : Server) (e : Event) (k seq : ℕ) (payload : Bytes)
    → IsSound s
    → Carries e k seq payload
    → (payloads (step s e).1 ≡ [])
      ⊎ ((payloads (step s e).1 ≡ payload ∷ [])
          × (knows s k seq ≡ false)
          × (knows (step s e).0 k seq ≡ true))
unfolding receive payloads
event_outcome s e k seq payload v c =
    let (net, now, add_path, keep, eq) = as_receive s e k seq payload c in
    let bound : IsSeq seq = carried-IsSeq e k seq payload c in
    elim (Bool-cases (knows s k seq)) [
      | inl old ↦ inl (rw (eq, receive_known s net now (k, seq, payload) add_path old) refl)
      | inr fresh ↦ elim (Option-cases (get_or_create_session s net now k)) [
        | inl failed ↦ inl (rw eq (rw (failed, receive) refl))
        | inr (o, opened) ↦
            let there = receive_there s net now k seq payload add_path o keep opened in
            inr (
              rw eq (receive_first s net now k seq payload add_path there fresh),
              fresh,
              rw eq (receive_learns s net now (k, seq, payload) add_path keep v bound there),
            )
      ]
    ]

pub carried-decoded :
    (e : Event) (k seq : ℕ) (payload : Bytes)
    → Carries e k seq payload
    → decoded e ≡ ok (k, seq, payload)
carried-decoded (udp_packet net now listener client_addr bytes) k seq payload c = c.1
carried-decoded (tcp_packet net now conn_id writer bytes) k seq payload c = c.1
carried-decoded (target_response now j p) k seq payload c = absurd c
carried-decoded (conn_closed conn_id) k seq payload c = absurd c
carried-decoded (tick now) k seq payload c = absurd c

-- The output carries one of the packets.
abbrev pub Comes : List Decoded → ClientState.Output → Type 0
Comes given o = Any (λ (d : Decoded). Sends d.0 d.1 d.2 o) given

-- The arrival carries one of the packets.
pub record Brings (given : List Decoded) (e : Event) : Type 0 where
  pub k : ℕ
  pub seq : ℕ
  pub payload : Bytes
  pub is_given : Any (λ (d : Decoded). (k, seq, payload) ≡ d) given
  pub carries : Carries e k seq payload

more_Brings :
    (d : Decoded) (given : List Decoded) (e : Event) → Brings given e → Brings (d ∷ given) e
more_Brings d given e b = record {
  k = b.k;
  seq = b.seq;
  payload = b.payload;
  is_given = inr b.is_given;
  carries = b.carries;
}

output_Brings :
    (given : List Decoded) (e : Event) (o : ClientState.Output)
    → HasBytes e
    → Arrives e o
    → Comes given o
    → Brings given e
output_Brings [] e o h r c = absurd c
output_Brings ((k, seq, payload) ∷ given) e o h r (inl c) = record {
  k = k;
  seq = seq;
  payload = payload;
  is_given = inl refl;
  carries = arrival-Carries e o k seq payload h r c;
}
output_Brings (d ∷ given) e o h r (inr c) = more_Brings d given e (output_Brings given e o h r c)

pub arrival-Brings :
    (given : List Decoded) (e : Event) (os : List ClientState.Output)
    → HasBytes e
    → Any (Arrives e) os
    → All (Comes given) os
    → Brings given e
arrival-Brings given e [] h r c = absurd r
arrival-Brings given e (o ∷ os) h (inl r) c = output_Brings given e o h r c.0
arrival-Brings given e (o ∷ os) h (inr r) c = arrival-Brings given e os h r c.1

-- What carries one of the packets carries one of more of them.
pub more_Comes :
    (given : List Decoded) (d : Decoded) (os : List ClientState.Output)
    → All (Comes given) os
    → All (Comes (d ∷ given)) os
more_Comes given d [] c = tt
more_Comes given d (o ∷ os) c = (inr c.0, more_Comes given d os c.1)

pub new_Comes :
    (given : List Decoded) (k seq : ℕ) (payload : Bytes) (os : List ClientState.Output)
    → All (Sends k seq payload) os
    → All (Comes ((k, seq, payload) ∷ given)) os
new_Comes given k seq payload [] c = tt
new_Comes given k seq payload (o ∷ os) c = (inl c.0, new_Comes given k seq payload os c.1)
