-- ===== src/Protocol/Tests.antt =====
-- tunnel/src/protocol.rs: the tests of the codec, as Boolean functions: whether all assertions of a test
-- hold. A failed `unwrap` is a failed test. The JSON of the headers is a parameter.
pub mod Pass
pub mod Negotiation
use p2p_llm_tunnel.Prelude.{
  ℕ, zero, suc, ◌+◌, ◌-◌, ◌^◌, ◌≡◌, refl, ap, ◌∙◌, List, [], ◌∷◌, Bool, true, false, ◌&&◌, Option,
  none, some, Result, ok, err, All, length, eqb, bytes_eqb, ◌==◌, nat_eq, bytes_eq, codes, arith,
  matches_self,
}
use p2p_llm_tunnel.Protocol.{
  Bytes, IsU32, MessageType, Hello, Agree, RequestHeaders, ResponseHeaders, TunnelMessage, Serde,
  protocol_name, protocol_version, max_body_chunk,
}
use p2p_llm_tunnel.Protocol.Build
use p2p_llm_tunnel.Protocol.Build.{new_hello}
use p2p_llm_tunnel.Protocol.Frame.{
  as_u8, from_u8, put_u32, get_u32, encode, decode, DecodeError, too_short, unknown_type,
}
use p2p_llm_tunnel.Protocol.RoundTrip.{decode-encode}

-- `unwrap`, and assertions about the value.
abbrev pub unwrapped {ℓ κ} : {E : Type ℓ} {A : Type κ} → Result E A → (A → Bool) → Bool
unwrapped (err e) p = false
unwrapped (ok a) p = p a

abbrev pub parsed {ℓ} : {A : Type ℓ} → Option A → (A → Bool) → Bool
parsed none p = false
parsed (some a) p = p a

unfoldable pub same_type : MessageType → MessageType → Bool
same_type t u = as_u8 t == as_u8 u

-- A message through the codec and back, and assertions about what comes back.
unfoldable pub through_codec : TunnelMessage → (TunnelMessage → Bool) → Bool
through_codec msg = unwrapped (decode (encode msg))

unfoldable pub repeated : ℕ → ℕ → Bytes
repeated byte zero = []
repeated byte (suc n) = byte ∷ repeated byte n

abbrev pub agree_sent : Agree
agree_sent = record { version = 1; features = codes "sse" ∷ [] }

abbrev pub request_sent : RequestHeaders
request_sent = record {
  stream_id = 42;
  method = codes "POST";
  path = codes "/v1/chat/completions";
  headers = (codes "content-type", codes "application/json") ∷ [];
}

abbrev pub response_sent : ResponseHeaders
response_sent = record {
  stream_id = 99;
  status = 200;
  headers = (codes "content-type", codes "text/event-stream") ∷ [];
}

-- `Vec<String>` has the equality of its elements.
unfoldable pub same_texts : List Bytes → List Bytes → Bool
same_texts [] [] = true
same_texts (x ∷ xs) (y ∷ ys) = x == y && same_texts xs ys
same_texts _ _ = false

module _ (serde : Serde) where
  unfoldable pub test_roundtrip_hello : Bool
  test_roundtrip_hello = through_codec (Build.hello serde new_hello) λ decoded.
      same_type decoded.msg_type MessageType.hello
      && eqb decoded.stream_id 0
      && parsed (serde.hello_from_slice decoded.payload) λ hello.
        hello.proto == protocol_name
        && eqb hello.min_version 1
        && eqb hello.max_version protocol_version

  unfoldable pub test_roundtrip_agree : Bool
  test_roundtrip_agree = through_codec (Build.agree serde agree_sent) λ decoded.
      same_type decoded.msg_type MessageType.agree
      && parsed (serde.agree_from_slice decoded.payload)
          λ agree. eqb agree.version 1 && same_texts agree.features (codes "sse" ∷ [])

  unfoldable pub test_roundtrip_req_headers : Bool
  test_roundtrip_req_headers = through_codec (Build.req_headers serde request_sent) λ decoded.
      same_type decoded.msg_type MessageType.req_headers
      && eqb decoded.stream_id 42
      && parsed (serde.request_from_slice decoded.payload)
          λ request. request.method == codes "POST" && request.path == codes "/v1/chat/completions"

  unfoldable pub test_roundtrip_res_headers : Bool
  test_roundtrip_res_headers = through_codec (Build.res_headers serde response_sent) λ decoded.
      same_type decoded.msg_type MessageType.res_headers
      && eqb decoded.stream_id 99
      && parsed (serde.response_from_slice decoded.payload) λ response. eqb response.status 200

-- The test of a message without JSON.
unfoldable pub returns : TunnelMessage → MessageType → ℕ → Bytes → Bool
returns msg t id payload =
    through_codec msg λ decoded.
      same_type decoded.msg_type t && decoded.stream_id == id && decoded.payload == payload

unfoldable pub test_roundtrip_req_body : Bool
test_roundtrip_req_body =
    let body = codes "hello world" in returns (Build.req_body 7 body) MessageType.req_body 7 body

unfoldable pub test_roundtrip_req_end : Bool
test_roundtrip_req_end = returns (Build.req_end 7) MessageType.req_end 7 []

unfoldable pub test_roundtrip_res_body : Bool
test_roundtrip_res_body =
    let event = codes "data: {\"token\": \"hello\"}\n\n" in
    returns (Build.res_body 99 event) MessageType.res_body 99 event

unfoldable pub test_roundtrip_res_end : Bool
test_roundtrip_res_end = returns (Build.res_end 99) MessageType.res_end 99 []

unfoldable pub test_roundtrip_error : Bool
test_roundtrip_error =
    let text = codes "upstream timeout" in returns (Build.error 5 text) MessageType.error 5 text

-- The error is the one whose text the test looks for.
abbrev pub is_too_short : Result DecodeError TunnelMessage → Bool
is_too_short (err (too_short n)) = true
is_too_short _ = false

abbrev pub is_unknown_type : Result DecodeError TunnelMessage → Bool
is_unknown_type (err (unknown_type b)) = true
is_unknown_type _ = false

unfoldable pub test_decode_empty : Bool
test_decode_empty = is_too_short (decode [])

unfoldable pub test_decode_too_short : Bool
test_decode_too_short = is_too_short (decode (1 ∷ 0 ∷ 0 ∷ []))

unfoldable pub test_decode_unknown_type : Bool
test_decode_unknown_type = is_unknown_type (decode (255 ∷ 0 ∷ 0 ∷ 0 ∷ 0 ∷ []))

unfoldable pub test_decode_exactly_header_no_payload : Bool
test_decode_exactly_header_no_payload =
    unwrapped (decode (12 ∷ 0 ∷ 0 ∷ 0 ∷ 0 ∷ []))
      λ msg. same_type msg.msg_type MessageType.req_end && eqb msg.stream_id 0 && msg.payload == []

unfoldable pub test_zero_stream_id : Bool
test_zero_stream_id = through_codec (Build.req_end 0) λ decoded. eqb decoded.stream_id 0

unfoldable pub test_max_stream_id : Bool
test_max_stream_id =
    through_codec (Build.req_end (2 ^ 32 - 1)) λ decoded. eqb decoded.stream_id (2 ^ 32 - 1)

unfoldable pub large : Bytes
unfolding repeated
large = repeated 171 max_body_chunk

unfoldable pub test_large_payload : Bool
test_large_payload =
    let msg = Build.res_body 1 large in
    eqb (length (encode msg)) (5 + max_body_chunk)
    && through_codec msg
        λ decoded. eqb (length decoded.payload) max_body_chunk && decoded.payload == large

unfoldable pub test_empty_payload_body : Bool
test_empty_payload_body =
    through_codec (Build.res_body 1 [])
      λ decoded. same_type decoded.msg_type MessageType.res_body && decoded.payload == []
