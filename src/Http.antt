-- ===== src/Http.antt =====
-- The parts of HTTP that tunnel/src/serve.rs and tunnel/src/proxy.rs share: how a header list becomes
-- a map, the test for hop-by-hop headers, and the cutting of a body into frames.
pub mod Laws
use p2p_llm_tunnel.Prelude.{
  ℕ, ◌+◌, ◌-◌, List, [], ◌∷◌, Bool, true, false, ◌&&◌, ◌||◌, not, Option, none, some, HashMap,
  insert, leb, if◌then◌else◌, codes, map, take, drop, ◌==◌, bytes_eq, keep_if, contains,
}
use p2p_llm_tunnel.Protocol.{Bytes}

-- The fields of a request or response as the HTTP library has them, in order, with the outcome of
-- `HeaderValue::to_str`.
abbrev pub Fields : Type 0
Fields = List (Bytes × Option Bytes)

unfoldable pub add_field : HashMap Bytes Bytes → Bytes → Option Bytes → HashMap Bytes Bytes
add_field headers key none = headers
add_field headers key (some v) = insert headers key v

-- `for (key, value) in fields { if let Ok(v) = value.to_str() { headers.insert(key, v) } }`
unfoldable pub collect_headers : HashMap Bytes Bytes → Fields → HashMap Bytes Bytes
unfolding add_field
collect_headers headers [] = headers
collect_headers headers ((key, value) ∷ rest) = collect_headers (add_field headers key value) rest

-- `str::to_lowercase` at ASCII letters. Of the other letters only the Kelvin sign lowers to ASCII
-- alone, to a `k`, which no name that the code compares with contains.
unfoldable pub to_lowercase : Bytes → Bytes
to_lowercase = map λ c. if leb b'A' c && leb c b'Z' then c + 32 else c

-- The entries whose lowered name is none of those listed.
unfoldable pub without_names : List Bytes → List (Bytes × Bytes) → List (Bytes × Bytes)
unfolding to_lowercase
without_names names = keep_if λ e. not (contains names (to_lowercase e.0))

-- `&bytes[start..end]`
unfoldable pub slice : Bytes → ℕ → ℕ → Bytes
slice bytes start end = take (end - start) (drop start bytes)
