-- ===== src/Protocol/Examples.antt =====
-- tunnel/src/protocol.rs: the codec and the negotiation at concrete inputs.
use p2p_llm_tunnel.Prelude.{
  ℕ, ◌↔◌, ◌≡◌, refl, [], ◌∷◌, ok, codes, arith, contains, keep_if, bytes_eqb,
}
use p2p_llm_tunnel.Protocol.{Bytes, Agree, MessageType, Hello, TunnelMessage, protocol_name}
use p2p_llm_tunnel.Protocol.Frame.{as_u8, from_u8, put_u32, get_u32, encode, decode}
use p2p_llm_tunnel.Protocol.Negotiate.{from_hello, IsCommon, IsAgreement, from_hello_lem}
use p2p_llm_tunnel.Protocol.RoundTrip.{decode-encode, encode-decode}

abbrev body : TunnelMessage
body = record {
  msg_type = MessageType.res_body;
  stream_id = 4294967295;
  payload = codes "hello world";
}

abbrev body_frame : Bytes
body_frame = 21 ∷ 255 ∷ 255 ∷ 255 ∷ 255 ∷ codes "hello world"

encode_body : encode body ≡ body_frame
unfolding encode as_u8 put_u32
encode_body = refl

decode_body : decode body_frame ≡ ok body
unfolding decode from_u8 get_u32
decode_body = refl

decode-encode_example : decode (encode body) ≡ ok body
decode-encode_example = decode-encode body (omega arith)

encode-decode_example : encode body ≡ body_frame
encode-decode_example = encode-decode body_frame (omega arith) decode_body

abbrev wide : Hello
wide = record {
  proto = protocol_name;
  min_version = 1;
  max_version = 3;
  features = codes "gzip" ∷ codes "sse" ∷ [];
}

abbrev agreement : Agree
agreement = record { version = 1; features = codes "sse" ∷ [] }

negotiated : from_hello wide ≡ ok agreement
unfolding from_hello keep_if contains bytes_eqb
negotiated = refl

from_hello_lem_example :
    ((from_hello wide ≡ ok agreement) ↔ IsAgreement wide agreement)
    × (((b : Agree) × (from_hello wide ≡ ok b))
        ↔ ((wide.proto ≡ protocol_name) × (v : ℕ) × IsCommon wide v))
from_hello_lem_example = from_hello_lem wide agreement
