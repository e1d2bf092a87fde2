-- ===== src/Serve/Url.antt =====
-- tunnel/src/serve.rs: `build_upstream_url`, with the `str` methods that it calls.
use p2p_llm_tunnel.Prelude.{
  ℕ, ◌≡◌, ◌≢◌, inl, inr, refl, Bool, true, false, ◌&&◌, ◌||◌, [], ◌∷◌, ◌++◌, Option, none, some,
  eqb, if◌then◌else◌, ◌==◌, bytes_eq, arith, Bool-cases,
}
use p2p_llm_tunnel.Protocol.{Bytes}

abbrev pub slash : ℕ
slash = b'/'

unfoldable pub is_empty : Bytes → Bool
is_empty [] = true
is_empty (c ∷ cs) = false

-- `str::trim_end_matches` with a character.
unfoldable pub trim_end_matches : Bytes → ℕ → Bytes
trim_end_matches [] c = []
trim_end_matches (x ∷ xs) c =
    let rest = trim_end_matches xs c in if is_empty rest && eqb x c then [] else x ∷ rest

-- `str::strip_prefix` with a string.
unfoldable pub strip_prefix : Bytes → Bytes → Option Bytes
strip_prefix text [] = some text
strip_prefix [] (p ∷ ps) = none
strip_prefix (x ∷ xs) (p ∷ ps) = if eqb x p then strip_prefix xs ps else none

-- The body of `build_upstream_url`, once the slashes at the ends are gone.
unfoldable pub forward_url : Bytes → Bytes → Bytes → Bytes
forward_url base prefix request_path =
    if prefix == (slash ∷ []) || is_empty prefix
    then base ++ request_path
    else elim (strip_prefix request_path prefix) [
      | none ↦ base ++ request_path
      | some stripped ↦
          let stripped' = if is_empty stripped then slash ∷ [] else stripped in base ++ stripped'
    ]

unfoldable pub build_upstream_url : Bytes → Bytes → Bytes → Bytes
unfolding forward_url
build_upstream_url upstream_base advertise_prefix request_path =
    let base = trim_end_matches upstream_base slash in
    let prefix = trim_end_matches advertise_prefix slash in forward_url base prefix request_path

-- What `strip_prefix` finds is what stands behind the prefix.
pub strip_prefix-append : (ps rest : Bytes) → strip_prefix (ps ++ rest) ps ≡ some rest
unfolding strip_prefix
strip_prefix-append [] rest = refl
strip_prefix-append (p ∷ ps) rest = ground (arith, strip_prefix-append ps rest)

pub append-strip_prefix :
    (text ps : Bytes) {rest : Bytes} → strip_prefix text ps ≡ some rest → text ≡ ps ++ rest
unfolding strip_prefix
append-strip_prefix text [] h = cc
append-strip_prefix [] (p ∷ ps) h = cc
append-strip_prefix (x ∷ xs) (p ∷ ps) {rest} h = elim (Bool-cases (eqb x p)) [
  | inl e ↦ ground (arith, append-strip_prefix xs ps {rest = rest})
  | inr e ↦ ground arith
]

-- Trimming never leaves the lone slash that the code tests for.
pub trim_end_matches-ne-slash : (xs : Bytes) → trim_end_matches xs slash ≢ slash ∷ []
unfolding trim_end_matches is_empty
trim_end_matches-ne-slash [] h = cc
trim_end_matches-ne-slash (x ∷ xs) h = ground arith
