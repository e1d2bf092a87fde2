-- ===== src/Serve/UrlLaws.antt =====
-- What tunnel/src/serve.rs sends upstream for a request path: `build_upstream_url`.
use p2p_llm_tunnel.Prelude.{
  ℕ, ◌≡◌, ◌≢◌, ◌↔◌, ◌⊎◌, inl, inr, some, none, ap, refl, sym, ◌∙◌, [], ◌∷◌, ◌++◌, if◌then◌else◌,
  bytes_eq, bytes_eqb_iff, arith, Option-cases,
}
use mathlib.Core.List.{append_cancel_left}
use mathlib.Core.Path.{ap₂}
use p2p_llm_tunnel.Protocol.{Bytes}
use p2p_llm_tunnel.Serve.Url.{
  slash, is_empty, trim_end_matches, strip_prefix, forward_url, build_upstream_url,
  strip_prefix-append, append-strip_prefix, trim_end_matches-ne-slash,
}

-- A prefix that is more than slashes is cut off the paths that begin with it, and the rest of the
-- path, or a slash if nothing is left, stands behind the base.
build_upstream_url-strips :
    (base prefix rest : Bytes)
    → trim_end_matches prefix slash ≢ []
    → build_upstream_url base prefix (trim_end_matches prefix slash ++ rest)
      ≡ trim_end_matches base slash ++ (if is_empty rest then slash ∷ [] else rest)
unfolding build_upstream_url is_empty
build_upstream_url-strips base prefix rest h = ground (
  arith,
  bytes_eqb_iff (trim_end_matches prefix slash) (slash ∷ []),
  trim_end_matches-ne-slash prefix,
  strip_prefix-append (trim_end_matches prefix slash) rest,
)

-- Any other path goes to the upstream as it is: with a prefix of slashes only, or with a path that
-- does not begin with the prefix.
build_upstream_url-passes :
    (base prefix path : Bytes)
    → (trim_end_matches prefix slash ≡ [])
      ⊎ ((rest : Bytes) → path ≢ trim_end_matches prefix slash ++ rest)
    → build_upstream_url base prefix path ≡ trim_end_matches base slash ++ path
unfolding build_upstream_url is_empty
build_upstream_url-passes base prefix path (inl e) = ground arith
build_upstream_url-passes base prefix path (inr h) =
    elim (Option-cases (strip_prefix path (trim_end_matches prefix slash))) [
      | inl e ↦ ground arith
      | inr (rest, e) ↦ absurd (h rest (append-strip_prefix path _ e))
    ]

empty_or_not : (xs : Bytes) → (xs ≡ []) ⊎ (xs ≢ [])
empty_or_not [] = inl refl
empty_or_not (x ∷ xs) = inr (λ e. cc)

-- Every URL, in one of two ways. Either the prefix without the slashes at its end is not empty and the
-- path begins with it: then it is cut off, and the rest of the path, or a slash if nothing is left,
-- stands behind the base. Or it is empty, or the path does not begin with it: then the whole path stands
-- behind the base. The base loses the slashes at its end.
pub build_upstream_url_lem :
    (base prefix path : Bytes)
    → ((rest : Bytes) × (path ≡ trim_end_matches prefix slash ++ rest)
        × (trim_end_matches prefix slash ≢ [])
        × (build_upstream_url base prefix path
            ≡ trim_end_matches base slash ++ (if is_empty rest then slash ∷ [] else rest)))
      ⊎ (((trim_end_matches prefix slash ≡ [])
            ⊎ ((rest : Bytes) → path ≢ trim_end_matches prefix slash ++ rest))
          × (build_upstream_url base prefix path ≡ trim_end_matches base slash ++ path))
build_upstream_url_lem base prefix path =
    let cut = trim_end_matches prefix slash in
    elim (empty_or_not cut) [
      | inl e ↦ inr (inl e, build_upstream_url-passes base prefix path (inl e))
      | inr ne ↦ elim (Option-cases (strip_prefix path cut)) [
        | inl e ↦
            let differs : (rest : Bytes) → path ≢ cut ++ rest = λ rest same.
              let found : some rest ≡ none =
                sym (strip_prefix-append cut rest) ∙ ap (λ t. strip_prefix t cut) (sym same) ∙ e in
              cc in
            inr (inr differs, build_upstream_url-passes base prefix path (inr differs))
        | inr (rest, e) ↦
            let same = append-strip_prefix path cut e in
            inl (
              rest,
              same,
              ne,
              ap (build_upstream_url base prefix) same
                  ∙ build_upstream_url-strips base prefix rest ne,
            )
      ]
    ]

module _ (base prefix : Bytes) where
  url_joins :
      (rest : Bytes)
      → trim_end_matches prefix slash ≢ []
      → (tail : Bytes) × (build_upstream_url base prefix (trim_end_matches prefix slash ++ rest)
          ≡ trim_end_matches base slash ++ slash ∷ tail)
      → (rest ≡ []) ⊎ ((tail : Bytes) × (rest ≡ slash ∷ tail))
  unfolding is_empty
  url_joins [] h w = inl refl
  url_joins (c ∷ cs) h (tail, e) = inr (
    tail,
    append_cancel_left (trim_end_matches base slash) (c ∷ cs) (slash ∷ tail)
        (sym (build_upstream_url-strips base prefix (c ∷ cs) h) ∙ e),
  )

  joins_url :
      (rest : Bytes)
      → trim_end_matches prefix slash ≢ []
      → (rest ≡ []) ⊎ ((tail : Bytes) × (rest ≡ slash ∷ tail))
      → (tail : Bytes) × (build_upstream_url base prefix (trim_end_matches prefix slash ++ rest)
          ≡ trim_end_matches base slash ++ slash ∷ tail)
  unfolding is_empty
  joins_url rest h (inl e) = ([], rw e (build_upstream_url-strips base prefix [] h))
  joins_url rest h (inr (tail, e)) =
      (tail, rw e (build_upstream_url-strips base prefix (slash ∷ tail) h))

-- Behind a prefix that is cut off, the URL goes on with a slash exactly when the rest of the path is
-- empty or begins with one. A path that only shares the prefix's letters, such as /v1beta behind
-- /v1, is glued to the authority of the base.
pub build_upstream_url_joins :
    (base prefix rest : Bytes)
    → trim_end_matches prefix slash ≢ []
    → ((tail : Bytes) × (build_upstream_url base prefix (trim_end_matches prefix slash ++ rest)
          ≡ trim_end_matches base slash ++ slash ∷ tail))
      ↔ ((rest ≡ []) ⊎ ((tail : Bytes) × (rest ≡ slash ∷ tail)))
build_upstream_url_joins base prefix rest h =
    (url_joins base prefix rest h, joins_url base prefix rest h)

trim_end_matches-append :
    (xs : Bytes) (c : ℕ) → trim_end_matches (xs ++ c ∷ []) c ≡ trim_end_matches xs c
unfolding trim_end_matches is_empty
trim_end_matches-append [] c = ground arith
trim_end_matches-append (x ∷ xs) c = rw (trim_end_matches-append xs c)

-- Slashes at the end of the base and of the prefix make no difference.
build_upstream_url-slashes :
    (base prefix path : Bytes)
    → build_upstream_url (base ++ slash ∷ []) (prefix ++ slash ∷ []) path
      ≡ build_upstream_url base prefix path
unfolding build_upstream_url
build_upstream_url-slashes base prefix path =
    ap₂ (λ b p. forward_url b p path) (trim_end_matches-append base slash)
      (trim_end_matches-append prefix slash)
