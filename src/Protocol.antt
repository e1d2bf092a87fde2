-- ===== src/Protocol.antt =====
-- tunnel/src/protocol.rs: the messages of the tunnel.
-- A `Bytes`, a `Vec<u8>`, a `String` or a `&str` is the list of its bytes.
pub mod Frame
pub mod Build
pub mod Negotiate
pub mod RoundTrip
pub mod Wire
pub mod Tests
pub mod Examples
use p2p_llm_tunnel.Prelude.{ℕ, ◌-◌, ◌<◌, ◌^◌, List, [], ◌∷◌, Option, HashMap, codes}

abbrev pub Bytes : Type 0
Bytes = List ℕ

abbrev pub IsByte : ℕ → Type 0
IsByte b = b < 256

abbrev pub IsU32 : ℕ → Type 0
IsU32 n = n < 2 ^ 32

abbrev pub protocol_version : ℕ
protocol_version = 1

abbrev pub protocol_name : Bytes
protocol_name = codes "httptunnel"

abbrev pub max_frame_size : ℕ
max_frame_size = 65536

abbrev pub max_body_chunk : ℕ
max_body_chunk = max_frame_size - 128

pub record Hello : Type 0 where
  pub proto : Bytes
  pub min_version : ℕ
  pub max_version : ℕ
  pub features : List Bytes

pub record Agree : Type 0 where
  pub version : ℕ
  pub features : List Bytes

pub data MessageType : Type 0 where
  hello agree ping pong req_headers req_body req_end res_headers res_body res_end error :
      MessageType

pub record RequestHeaders : Type 0 where
  pub stream_id : ℕ
  pub method : Bytes
  pub path : Bytes
  pub headers : HashMap Bytes Bytes

pub record ResponseHeaders : Type 0 where
  pub stream_id : ℕ
  pub status : ℕ
  pub headers : HashMap Bytes Bytes

pub record TunnelMessage : Type 0 where
  pub msg_type : MessageType
  pub stream_id : ℕ
  pub payload : Bytes

-- `serde_json::to_vec` and `serde_json::from_slice` at the four types that cross the tunnel. The
-- crate is not part of the repository; `to_vec` cannot fail at these types.
pub record Serde : Type 0 where
  pub hello_to_vec : Hello → Bytes
  pub hello_from_slice : Bytes → Option Hello
  pub agree_to_vec : Agree → Bytes
  pub agree_from_slice : Bytes → Option Agree
  pub request_to_vec : RequestHeaders → Bytes
  pub request_from_slice : Bytes → Option RequestHeaders
  pub response_to_vec : ResponseHeaders → Bytes
  pub response_from_slice : Bytes → Option ResponseHeaders
