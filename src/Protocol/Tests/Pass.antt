-- ===== src/Protocol/Tests/Pass.antt =====
-- The tests of the codec of tunnel/src/protocol.rs pass.
use p2p_llm_tunnel.Prelude.{
  ℕ, zero, suc, ◌+◌, ◌≡◌, refl, ap, ◌∙◌, Bool, true, some, length, bytes_eqb, nat_eq, bytes_eq,
  arith, matches_self,
}
use p2p_llm_tunnel.Protocol.{Bytes, IsU32, MessageType, TunnelMessage, Serde, max_body_chunk}
use p2p_llm_tunnel.Protocol.Build
use p2p_llm_tunnel.Protocol.Build.{new_hello}
use p2p_llm_tunnel.Protocol.Frame.{as_u8, from_u8, put_u32, get_u32, encode, decode}
use p2p_llm_tunnel.Protocol.RoundTrip.{decode-encode}
use p2p_llm_tunnel.Protocol.Tests.{
  same_type, through_codec, repeated, same_texts, test_roundtrip_hello, test_roundtrip_agree,
  test_roundtrip_req_headers, test_roundtrip_res_headers, returns, test_roundtrip_req_body,
  test_roundtrip_req_end, test_roundtrip_res_body, test_roundtrip_res_end, test_roundtrip_error,
  test_decode_empty, test_decode_too_short, test_decode_unknown_type,
  test_decode_exactly_header_no_payload, test_zero_stream_id, test_max_stream_id, large,
  test_large_payload, test_empty_payload_body, agree_sent, request_sent, response_sent,
}

through_codec_lem :
    (msg : TunnelMessage) (p : TunnelMessage → Bool)
    → IsU32 msg.stream_id
    → through_codec msg p ≡ p msg
unfolding through_codec
through_codec_lem msg p fits = rw (decode-encode msg fits) refl

returns_lem :
    (t : MessageType) (id : ℕ) (payload : Bytes)
    → IsU32 id
    → returns (record { msg_type = t; stream_id = id; payload = payload }) t id payload ≡ true
unfolding returns same_type
returns_lem t id payload fits =
    through_codec_lem _ _ fits
    ∙ rw (matches_self (as_u8 t), matches_self id, matches_self payload) refl

length-repeated : (byte n : ℕ) → length (repeated byte n) ≡ n
unfolding repeated
length-repeated byte zero = refl
length-repeated byte (suc n) = ap suc (length-repeated byte n)

length-encode : (msg : TunnelMessage) → length (encode msg) ≡ 5 + length msg.payload
unfolding encode put_u32
length-encode msg = omega arith

test_large_payload_lem : test_large_payload ≡ true
unfolding test_large_payload Build.res_body
test_large_payload_lem =
    let long : length large ≡ max_body_chunk = unfold large in length-repeated 171 max_body_chunk in
    rw
      (
        length-encode (Build.res_body 1 large),
        through_codec_lem (Build.res_body 1 large) _ (omega arith),
        long,
        matches_self large,
      )
      refl

-- The tests that involve no JSON pass.
codec_tests_pass :
    (test_roundtrip_req_body ≡ true)
    × (test_roundtrip_req_end ≡ true)
    × (test_roundtrip_res_body ≡ true)
    × (test_roundtrip_res_end ≡ true)
    × (test_roundtrip_error ≡ true)
    × (test_decode_empty ≡ true)
    × (test_decode_too_short ≡ true)
    × (test_decode_unknown_type ≡ true)
    × (test_decode_exactly_header_no_payload ≡ true)
    × (test_zero_stream_id ≡ true)
    × (test_max_stream_id ≡ true)
    × (test_large_payload ≡ true)
    × (test_empty_payload_body ≡ true)
unfolding test_roundtrip_req_body test_roundtrip_req_end test_roundtrip_res_body
    test_roundtrip_res_end test_roundtrip_error test_decode_empty test_decode_too_short
    test_decode_unknown_type test_decode_exactly_header_no_payload test_zero_stream_id
    test_max_stream_id test_empty_payload_body decode from_u8 get_u32 as_u8 same_type Build.req_body
    Build.req_end Build.res_body Build.res_end Build.error bytes_eqb
codec_tests_pass = (
  returns_lem MessageType.req_body 7 _ (omega arith),
  returns_lem MessageType.req_end 7 _ (omega arith),
  returns_lem MessageType.res_body 99 _ (omega arith),
  returns_lem MessageType.res_end 99 _ (omega arith),
  returns_lem MessageType.error 5 _ (omega arith),
  refl,
  refl,
  refl,
  refl,
  through_codec_lem _ _ (omega arith),
  through_codec_lem _ _ (omega arith),
  test_large_payload_lem,
  through_codec_lem _ _ (omega arith),
)

-- What the tests need of the JSON: their values parse back.
record TestsParse (serde : Serde) : Type 0 where
  pub hello : serde.hello_from_slice (serde.hello_to_vec new_hello) ≡ some new_hello
  pub agree : serde.agree_from_slice (serde.agree_to_vec agree_sent) ≡ some agree_sent
  pub request : serde.request_from_slice (serde.request_to_vec request_sent) ≡ some request_sent
  pub response :
      serde.response_from_slice (serde.response_to_vec response_sent) ≡ some response_sent

json_tests_pass :
    (serde : Serde)
    → TestsParse serde
    → (test_roundtrip_hello serde ≡ true)
      × (test_roundtrip_agree serde ≡ true)
      × (test_roundtrip_req_headers serde ≡ true)
      × (test_roundtrip_res_headers serde ≡ true)
unfolding test_roundtrip_hello test_roundtrip_agree test_roundtrip_req_headers
    test_roundtrip_res_headers Build.hello Build.agree Build.req_headers Build.res_headers new_hello
    as_u8 same_type same_texts bytes_eqb
json_tests_pass serde h = (
  through_codec_lem _ _ (omega arith) ∙ (rw h.hello refl),
  through_codec_lem _ _ (omega arith) ∙ (rw h.agree refl),
  through_codec_lem _ _ (omega arith) ∙ (rw h.request refl),
  through_codec_lem _ _ (omega arith) ∙ (rw h.response refl),
)
