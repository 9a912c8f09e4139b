-- ===== src/Relay.antt =====
-- The client of fproxy-rs/src/client.rs and the server of fproxy-rs/src/server.rs together: what one
-- sends arrives at the other, any number of times and in any order, by UDP or by TCP.
pub mod Upstream
pub mod Downstream
pub mod Network
pub mod Back
use fproxy.Base.{ℕ, List, [], ◌∷◌, ◌⊎◌, ◌≡◌, Bytes}
use fproxy.Frame.{read_frames}
use fproxy.Client.State as ClientState
use fproxy.Client.State.{to_server, to_writer, to_source, spawn_tcp_reader, cancel_tcp}
use fproxy.Server.Events.{Event, udp_packet, tcp_packet, target_response, conn_closed, tick}

abbrev pub Any {ℓ} : {A : Type ℓ} → (A → Type 0) → List A → Type 0
Any P [] = ⊥
Any P (x ∷ xs) = P x ⊎ Any P xs

-- The event is the arrival of what was sent: a UDP packet as it is, or the one frame that the bytes
-- on a connection hold.
abbrev pub Arrives : Event → ClientState.Output → Type 0
Arrives (udp_packet net now listener client_addr bytes) (to_server sender sent) = bytes ≡ sent
Arrives (tcp_packet net now conn_id writer bytes) (to_writer w sent) = read_frames sent ≡ bytes ∷ []
Arrives e o = ⊥
