-- ===== src/Protocol/Frame.antt =====
-- tunnel/src/protocol.rs: `MessageType::from_u8`, `TunnelMessage::encode` and
-- `TunnelMessage::decode`, and the big-endian integers of the `bytes` crate that they use.
use mathlib.Core.List.{foldl}
use p2p_llm_tunnel.Prelude.{
  ℕ, ◌+◌, ◌*◌, ◌/◌, ◌%◌, ◌^◌, [], ◌∷◌, ◌++◌, Option, none, some, Result, ok, err, ltb, eqb,
  if◌then◌else◌, length, get_or, take, drop,
}
use p2p_llm_tunnel.Protocol.{
  Bytes, MessageType, hello, agree, ping, pong, req_headers, req_body, req_end, res_headers,
  res_body, res_end, error, TunnelMessage,
}

-- `msg_type as u8`, by the discriminants of the enum.
unfoldable pub as_u8 : MessageType → ℕ
as_u8 hello = 1
as_u8 agree = 2
as_u8 ping = 3
as_u8 pong = 4
as_u8 req_headers = 10
as_u8 req_body = 11
as_u8 req_end = 12
as_u8 res_headers = 20
as_u8 res_body = 21
as_u8 res_end = 22
as_u8 error = 99

unfoldable pub from_u8 : ℕ → Option MessageType
from_u8 v =
    if eqb v 1
    then some hello
    else if eqb v 2
    then some agree
    else if eqb v 3
    then some ping
    else if eqb v 4
    then some pong
    else if eqb v 10
    then some req_headers
    else if eqb v 11
    then some req_body
    else if eqb v 12
    then some req_end
    else if eqb v 20
    then some res_headers
    else if eqb v 21
    then some res_body
    else if eqb v 22
    then some res_end
    else if eqb v 99
    then some error
    else none

-- `put_u32` and `get_u32`: four bytes, the most significant first.
unfoldable pub put_u32 : ℕ → Bytes
put_u32 v = (v / 16777216 % 256) ∷ (v / 65536 % 256) ∷ (v / 256 % 256) ∷ (v % 256) ∷ []

unfoldable pub get_u32 : Bytes → ℕ
get_u32 = foldl (λ acc b. (acc * 256 + b) % 2 ^ 32) 0

unfoldable pub encode : TunnelMessage → Bytes
encode m = as_u8 m.msg_type ∷ put_u32 m.stream_id ++ m.payload

pub data DecodeError : Type 0 where
  too_short : ℕ → DecodeError
  unknown_type : ℕ → DecodeError

unfoldable pub decode : Bytes → Result DecodeError TunnelMessage
decode bytes =
    if ltb (length bytes) 5
    then err (too_short (length bytes))
    else let type_byte = get_or bytes 0 0 in
      elim (from_u8 type_byte) [
        | none ↦ err (unknown_type type_byte)
        | some msg_type ↦ ok (record {
          msg_type = msg_type;
          stream_id = get_u32 (take 4 (drop 1 bytes));
          payload = drop 4 (drop 1 bytes);
        })
      ]
