-- ===== src/Protocol/Tests/Negotiation.antt =====
-- tunnel/src/protocol.rs: the tests of the negotiation, as Boolean functions, and that they pass.
use p2p_llm_tunnel.Prelude.{
  ◌≡◌, refl, List, [], ◌∷◌, Bool, true, false, ◌&&◌, Result, err, eqb, bytes_eqb, ◌==◌, bytes_eq,
  codes, contains, keep_if,
}
use p2p_llm_tunnel.Protocol.{Bytes, Hello, Agree, protocol_name, protocol_version}
use p2p_llm_tunnel.Protocol.Build.{new_hello}
use p2p_llm_tunnel.Protocol.Negotiate.{
  NegotiateError, unknown_protocol, no_compatible_version, from_hello,
}
use p2p_llm_tunnel.Protocol.Tests.{unwrapped, same_texts}

abbrev offering : List Bytes → Hello
offering features = record {
  proto = protocol_name;
  min_version = 1;
  max_version = 1;
  features = features;
}

-- The error is the one whose text the test looks for.
abbrev is_no_compatible_version : Result NegotiateError Agree → Bool
is_no_compatible_version (err (no_compatible_version min max our_min our_max)) = true
is_no_compatible_version _ = false

abbrev is_unknown_protocol : Result NegotiateError Agree → Bool
is_unknown_protocol (err (unknown_protocol proto)) = true
is_unknown_protocol _ = false

unfoldable test_version_negotiation_exact_match : Bool
test_version_negotiation_exact_match =
    unwrapped (from_hello (offering (codes "sse" ∷ []))) λ agree. eqb agree.version 1

unfoldable test_version_negotiation_range_overlap : Bool
test_version_negotiation_range_overlap =
    let hello = record (offering (codes "sse" ∷ [])) { max_version = 3 } in
    unwrapped (from_hello hello) λ agree. eqb agree.version 1

unfoldable test_version_negotiation_no_overlap : Bool
test_version_negotiation_no_overlap =
    is_no_compatible_version
      (from_hello (record (offering []) { min_version = 5; max_version = 10 }))

unfoldable test_version_negotiation_wrong_protocol : Bool
test_version_negotiation_wrong_protocol =
    is_unknown_protocol (from_hello (record (offering []) { proto = codes "wrongproto" }))

unfoldable test_feature_intersection : Bool
test_feature_intersection =
    let hello = offering (codes "sse" ∷ codes "gzip" ∷ codes "unknown" ∷ []) in
    unwrapped (from_hello hello) λ agree. same_texts agree.features (codes "sse" ∷ [])

unfoldable test_feature_no_overlap : Bool
test_feature_no_overlap =
    unwrapped (from_hello (offering (codes "gzip" ∷ codes "brotli" ∷ [])))
      λ agree. same_texts agree.features []

unfoldable test_hello_default_values : Bool
test_hello_default_values =
    new_hello.proto == protocol_name
    && eqb new_hello.min_version 1
    && eqb new_hello.max_version protocol_version
    && contains new_hello.features (codes "sse")

negotiation_tests_pass :
    (test_version_negotiation_exact_match ≡ true)
    × (test_version_negotiation_range_overlap ≡ true)
    × (test_version_negotiation_no_overlap ≡ true)
    × (test_version_negotiation_wrong_protocol ≡ true)
    × (test_feature_intersection ≡ true)
    × (test_feature_no_overlap ≡ true)
    × (test_hello_default_values ≡ true)
unfolding test_version_negotiation_exact_match test_version_negotiation_range_overlap
    test_version_negotiation_no_overlap test_version_negotiation_wrong_protocol
    test_feature_intersection test_feature_no_overlap test_hello_default_values from_hello new_hello
    same_texts keep_if contains bytes_eqb
negotiation_tests_pass = (refl, refl, refl, refl, refl, refl, refl)
