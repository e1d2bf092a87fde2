-- ===== src/Rtc/Callbacks.antt =====
-- tunnel/src/rtc.rs: what the callbacks do that the two `establish` functions register.
use p2p_llm_tunnel.Prelude.{List, [], ◌∷◌, ◌++◌, Bool, true, Option, none, some}
use p2p_llm_tunnel.Protocol.{Bytes}
use p2p_llm_tunnel.Signaling.{OutgoingSignal}
use p2p_llm_tunnel.Signaling.Client.{SignalingClient, send_signal}
use p2p_llm_tunnel.Rtc.Establish.{Event, notified, pc_failed}

-- `on_ice_candidate`: `none` is the end of the gathering, `some none` a candidate with no JSON. The
-- result of sending is ignored.
unfoldable pub on_ice_candidate : Option (Option Bytes) → SignalingClient → SignalingClient
on_ice_candidate none client = client
on_ice_candidate (some none) client = client
on_ice_candidate (some (some text)) client = (send_signal (OutgoingSignal.candidate text) client).1

pub data PeerConnectionState : Type 0 where
  connected failed other : PeerConnectionState

-- `on_peer_connection_state_change` of the offerer and of the answerer: which waiters are notified.
unfoldable pub offerer_state_change : PeerConnectionState → Option Event
offerer_state_change connected = some notified
offerer_state_change failed = some pc_failed
offerer_state_change other = none

unfoldable pub answerer_state_change : PeerConnectionState → Option Event
answerer_state_change failed = some pc_failed
answerer_state_change _ = none

-- `DataChannelPair`, by what its callbacks change: the messages that were passed on, and whether the
-- waiters for its opening were notified.
pub record DataChannelPair : Type 0 where
  pub incoming : List Bytes
  pub connected : Bool

pub data ChannelEvent : Type 0 where
  on_open : ChannelEvent
  on_message : Bytes → ChannelEvent
  on_close : ChannelEvent

unfoldable pub channel_event : ChannelEvent → DataChannelPair → DataChannelPair
channel_event on_open pair = record pair { connected = true }
channel_event (on_message bytes) pair = record pair { incoming = pair.incoming ++ bytes ∷ [] }
channel_event on_close pair = pair
