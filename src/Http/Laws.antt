-- ===== src/Http/Laws.antt =====
-- Header maps and slices.
use p2p_llm_tunnel.Prelude.{
  ℕ, ◌+◌, ◌-◌, ◌≤◌, ◌<◌, zero, suc, ◌≡◌, refl, sym, ap, ◌∙◌, [], ◌∷◌, ◌++◌, Option, none, some,
  HashMap, get, insert, get-insert, if◌then◌else◌, ◌==◌, bytes_eq, arith, length, take, drop,
  length-take, length-drop, take-append-drop, drop-drop,
}
use p2p_llm_tunnel.Protocol.{Bytes, max_body_chunk}
use p2p_llm_tunnel.Http.{Fields, collect_headers, slice}

-- The last readable value of a field, as a list of fields has it.
unfoldable pub last_value : Option Bytes → Fields → Bytes → Option Bytes
last_value found [] name = found
last_value found ((key, none) ∷ rest) name = last_value found rest name
last_value found ((key, some v) ∷ rest) name =
    last_value (if key == name then some v else found) rest name

-- The map that the code collects has, for each name, the last readable value of that name: earlier
-- values of a repeated field are lost.
pub get-collect_headers :
    (m : HashMap Bytes Bytes) (fields : Fields) (name : Bytes)
    → get (collect_headers m fields) name ≡ last_value (get m name) fields name
unfolding collect_headers last_value
get-collect_headers m [] name = refl
get-collect_headers m ((key, none) ∷ rest) name = get-collect_headers m rest name
get-collect_headers m ((key, some v) ∷ rest) name =
    get-collect_headers (insert m key v) rest name
    ∙ ap (λ o. last_value o rest name) (get-insert m key v name)

pub length-slice :
    (bytes : Bytes) (start end : ℕ)
    → end ≤ length bytes
    → length (slice bytes start end) ≡ end - start
unfolding slice
length-slice bytes start end h =
    omega (arith, length-take (end - start) (drop start bytes), length-drop start bytes)

pub slice-append-drop :
    (bytes : Bytes) (start end : ℕ)
    → start ≤ end
    → slice bytes start end ++ drop end bytes ≡ drop start bytes
unfolding slice
slice-append-drop bytes start end h =
    let e : start + (end - start) ≡ end = omega arith in
    ap (λ t. take (end - start) (drop start bytes) ++ t)
      (ap (λ k. drop k bytes) (sym e) ∙ sym (drop-drop start (end - start) bytes))
    ∙ take-append-drop (end - start) (drop start bytes)

pub drop-eq-nil : (xs : Bytes) (n : ℕ) → length xs ≤ n → [] ≡ drop n xs
drop-eq-nil [] zero h = refl
drop-eq-nil [] (suc n) h = refl
drop-eq-nil (x ∷ xs) zero h = absurd (omega arith)
drop-eq-nil (x ∷ xs) (suc n) h = drop-eq-nil xs n (omega arith)

-- A piece of a body is not empty and leaves room for the header of its frame.
abbrev pub IsPiece : Bytes → Type 0
IsPiece p = (0 < length p) × (length p ≤ max_body_chunk)
