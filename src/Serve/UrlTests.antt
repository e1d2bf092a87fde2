-- ===== src/Serve/UrlTests.antt =====
-- tunnel/src/serve.rs: the tests of `build_upstream_url`, as Boolean functions, and that they pass.
use p2p_llm_tunnel.Prelude.{◌≡◌, refl, [], Bool, true, codes, ◌==◌, bytes_eq, bytes_eqb}
use p2p_llm_tunnel.Protocol.{Bytes}
use p2p_llm_tunnel.Serve.Url.{build_upstream_url, trim_end_matches, is_empty, strip_prefix}

abbrev local : Bytes
local = codes "http://localhost:3001"

unfoldable test_build_upstream_url_default_prefix : Bool
test_build_upstream_url_default_prefix =
    build_upstream_url local (codes "/") (codes "/models") == codes "http://localhost:3001/models"

unfoldable test_build_upstream_url_with_prefix : Bool
test_build_upstream_url_with_prefix =
    build_upstream_url local (codes "/v1") (codes "/v1/models")
    == codes "http://localhost:3001/models"

unfoldable test_build_upstream_url_trailing_slashes : Bool
test_build_upstream_url_trailing_slashes =
    build_upstream_url (codes "http://localhost:3001/") (codes "/v1/") (codes "/v1/models")
    == codes "http://localhost:3001/models"

unfoldable test_build_upstream_url_empty_prefix : Bool
test_build_upstream_url_empty_prefix =
    build_upstream_url local [] (codes "/chat/completions")
    == codes "http://localhost:3001/chat/completions"

unfoldable test_build_upstream_url_exact_prefix : Bool
test_build_upstream_url_exact_prefix =
    build_upstream_url local (codes "/v1") (codes "/v1") == codes "http://localhost:3001/"

unfoldable test_build_upstream_url_no_prefix_match : Bool
test_build_upstream_url_no_prefix_match =
    build_upstream_url local (codes "/v1") (codes "/health") == codes "http://localhost:3001/health"

unfoldable test_build_upstream_url_nested_prefix : Bool
test_build_upstream_url_nested_prefix =
    build_upstream_url local (codes "/api/v1") (codes "/api/v1/chat/completions")
    == codes "http://localhost:3001/chat/completions"

url_tests_pass :
    (test_build_upstream_url_default_prefix ≡ true)
    × (test_build_upstream_url_with_prefix ≡ true)
    × (test_build_upstream_url_trailing_slashes ≡ true)
    × (test_build_upstream_url_empty_prefix ≡ true)
    × (test_build_upstream_url_exact_prefix ≡ true)
    × (test_build_upstream_url_no_prefix_match ≡ true)
    × (test_build_upstream_url_nested_prefix ≡ true)
unfolding test_build_upstream_url_default_prefix test_build_upstream_url_with_prefix
    test_build_upstream_url_trailing_slashes test_build_upstream_url_empty_prefix
    test_build_upstream_url_exact_prefix test_build_upstream_url_no_prefix_match
    test_build_upstream_url_nested_prefix build_upstream_url trim_end_matches is_empty strip_prefix
    bytes_eqb
url_tests_pass = (refl, refl, refl, refl, refl, refl, refl)
