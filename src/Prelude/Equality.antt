-- ===== src/Prelude/Equality.antt =====
-- Boolean equality as an interface, for the keys of maps and the texts that the code compares.
use Prim.Native.Nat.{ℕ}
use mathlib.Core.Path.{◌≡◌, refl}
use mathlib.Core.Logic.{◌↔◌, ◌≢◌, inl, inr}
use mathlib.Core.Bool.{Bool, true, false, ◌&&◌, ◌||◌}
use mathlib.Core.List.{List, [], ◌∷◌, ◌++◌}
use native.Mathlib.Omega.{arith}
use p2p_llm_tunnel.Prelude.Tests.{eqb, eqb_iff, Bool-cases, if◌then◌else◌}

-- The values can be told apart by a test, and the test decides equality.
pub record Comparable {ℓ} (K : Type ℓ) : Type ℓ where
  pub matches : K → K → Bool
  pub agrees : (x y : K) → (matches x y ≡ true) ↔ (x ≡ y)

module _ {ℓ} {K : Type ℓ} ⦃key : Comparable K⦄ where
  infix 50 ◌==◌
  abbrev pub ◌==◌ : K → K → Bool
  ◌==◌ = key.matches

unfoldable pub bytes_eqb : List ℕ → List ℕ → Bool
bytes_eqb [] [] = true
bytes_eqb (x ∷ xs) (y ∷ ys) = eqb x y && bytes_eqb xs ys
bytes_eqb _ _ = false

pub bytes_eqb_iff : (xs ys : List ℕ) → (bytes_eqb xs ys ≡ true) ↔ (xs ≡ ys)
unfolding bytes_eqb
bytes_eqb_iff [] [] = ((λ h. refl), (λ h. refl))
bytes_eqb_iff [] (y ∷ ys) = ((λ h. cc), (λ h. cc))
bytes_eqb_iff (x ∷ xs) [] = ((λ h. cc), (λ h. cc))
bytes_eqb_iff (x ∷ xs) (y ∷ ys) = ground (arith, bytes_eqb_iff xs ys)

instance abbrev pub nat_eq : Comparable ℕ
nat_eq = record { matches = eqb; agrees = eqb_iff }

instance abbrev pub bytes_eq : Comparable (List ℕ)
bytes_eq = record { matches = bytes_eqb; agrees = bytes_eqb_iff }

module _ {ℓ} {A : Type ℓ} where
  unfoldable pub keep_if : (A → Bool) → List A → List A
  keep_if p [] = []
  keep_if p (x ∷ xs) = let rest = keep_if p xs in if p x then x ∷ rest else rest

module _ {ℓ} {A : Type ℓ} ⦃key : Comparable A⦄ where
  unfoldable pub contains : List A → A → Bool
  contains [] name = false
  contains (listed ∷ names) name = listed == name || contains names name

pub keep_if-append {ℓ} :
    {A : Type ℓ} (p : A → Bool) (xs ys : List A)
    → keep_if p (xs ++ ys) ≡ keep_if p xs ++ keep_if p ys
unfolding keep_if
keep_if-append p [] ys = refl
keep_if-append p (x ∷ xs) ys = ground (arith, keep_if-append p xs ys)

module _ {ℓ} {K : Type ℓ} ⦃key : Comparable K⦄ (x : K) where
  pub matches_self : (x == x) ≡ true
  matches_self = (key.agrees x x).1 refl

  pub matches_ne : (y : K) → x ≢ y → (x == y) ≡ false
  matches_ne y h = elim (Bool-cases (x == y)) [
    | inl same ↦ absurd (h ((key.agrees x y).0 same))
    | inr other ↦ other
  ]
