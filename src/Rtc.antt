-- ===== src/Rtc.antt =====
-- tunnel/src/rtc.rs: the choice of the role, and the exchange of descriptions and candidates. The
-- crate webrtc is not part of the repository: what its calls return is an argument.
pub mod Role
pub mod Establish
pub mod Candidates
pub mod Rounds
pub mod Connect
pub mod Callbacks
pub mod Waits
pub mod Exchange
use p2p_llm_tunnel.Prelude.{Bool, List, Option}
use p2p_llm_tunnel.Protocol.{Bytes}

-- What an `anyhow::Error` of rtc.rs stands for.
pub data RtcError : Type 0 where
  connection_lost peer_left_early ice_failed bad_description bad_candidate : RtcError
  no_answer no_offer not_created signaling_closed no_data_channel : RtcError
  signaling_error : Bytes → RtcError

-- `TurnConfig` of tunnel/src/cli.rs.
pub record TurnConfig : Type 0 where
  pub url : Option Bytes
  pub username : Option Bytes
  pub password : Option Bytes

-- The fields of `RTCIceServer` that the code sets.
pub record IceServer : Type 0 where
  pub urls : List Bytes
  pub username : Bytes
  pub credential : Bytes

-- `MulticastDnsMode` of the crate, as far as the code names its values.
pub data MulticastDnsMode : Type 0 where
  disabled : MulticastDnsMode

-- The calls of `RTCPeerConnection` and of the JSON parser for candidates, by their outcomes. `create`
-- is the making of a peer connection with the mode and the ICE servers, `local_offer` and `local_answer` are the
-- descriptions after `create_offer` or `create_answer` and `set_local_description`.
pub record PeerConnection : Type 0 where
  pub register_default_codecs : Bool
  pub register_default_interceptors : Bool
  pub create : MulticastDnsMode → List IceServer → Bool
  pub create_data_channel : Bool
  pub local_offer : Option Bytes
  pub parse_ice_candidate : Bytes → Option Bytes
  pub set_remote_description : Bytes → Bool
  pub add_ice_candidate : Bytes → Bool
  pub local_answer : Option Bytes
  pub signaling_open : Bool
