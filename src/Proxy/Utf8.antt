-- ===== src/Proxy/Utf8.antt =====
-- `String::from_utf8_lossy`, which tunnel/src/proxy.rs uses on the text of an error frame: what is no
-- UTF-8 is replaced by U+FFFD, once for each longest part that begins like a character.
use Prim.Native.Nat.{pred}
use p2p_llm_tunnel.Prelude.{
  ℕ, ◌<◌, ◌≡◌, refl, [], ◌∷◌, ◌++◌, Option, none, some, ◌&&◌, ltb, leb, eqb, if◌then◌else◌, All,
  arith,
}
use p2p_llm_tunnel.Protocol.{Bytes}

-- A character that has begun: its bytes so far, how many are to come, and the bounds of the next.
pub record Started : Type 0 where
  pub so_far : Bytes
  pub missing_after : ℕ
  pub low : ℕ
  pub high : ℕ

abbrev replacement : Bytes
replacement = 0xef ∷ 0xbf ∷ 0xbd ∷ []

abbrev expect : ℕ → ℕ → ℕ → ℕ → Bytes × Option Started
expect b missing low high =
    ([], some (record { so_far = b ∷ []; missing_after = missing; low = low; high = high }))

first_byte : ℕ → Bytes × Option Started
first_byte b =
    if ltb b 0x80
    then (b ∷ [], none)
    else if ltb b 0xc2
    then (replacement, none)
    else if ltb b 0xe0
    then expect b 0 0x80 0xbf
    else if eqb b 0xe0
    then expect b 1 0xa0 0xbf
    else if eqb b 0xed
    then expect b 1 0x80 0x9f
    else if ltb b 0xf0
    then expect b 1 0x80 0xbf
    else if eqb b 0xf0
    then expect b 2 0x90 0xbf
    else if ltb b 0xf4
    then expect b 2 0x80 0xbf
    else if eqb b 0xf4
    then expect b 2 0x80 0x8f
    else (replacement, none)

-- The next byte of a character that has begun. One that does not fit begins anew.
continue : Started → ℕ → Bytes × Option Started
unfolding first_byte
continue s b =
    if leb s.low b && leb b s.high
    then (if eqb s.missing_after 0 then (s.so_far ++ b ∷ [], none) else (
      [],
      some (record {
        so_far = s.so_far ++ b ∷ [];
        missing_after = pred s.missing_after;
        low = 0x80;
        high = 0xbf;
      }),
    ))
    else (replacement ++ (first_byte b).0, (first_byte b).1)

next_byte : Option Started → ℕ → Bytes × Option Started
unfolding continue
next_byte none b = first_byte b
next_byte (some s) b = continue s b

lossy : Option Started → Bytes → Bytes
unfolding next_byte
lossy none [] = []
lossy (some s) [] = replacement
lossy state (b ∷ bs) = let (out, state') = next_byte state b in out ++ lossy state' bs

unfoldable pub from_utf8_lossy : Bytes → Bytes
unfolding lossy
from_utf8_lossy = lossy none

-- ASCII text is kept.
pub from_utf8_lossy-ascii : (text : Bytes) → All (λ b. b < 0x80) text → from_utf8_lossy text ≡ text
unfolding from_utf8_lossy first_byte
from_utf8_lossy-ascii [] h = refl
from_utf8_lossy-ascii (b ∷ bs) h = ground (arith, from_utf8_lossy-ascii bs h.1)

lossy_tests :
    (from_utf8_lossy (0x61 ∷ 0xc3 ∷ 0xa9 ∷ []) ≡ 0x61 ∷ 0xc3 ∷ 0xa9 ∷ [])
    × (from_utf8_lossy (0xf0 ∷ 0x9f ∷ 0x61 ∷ []) ≡ 0xef ∷ 0xbf ∷ 0xbd ∷ 0x61 ∷ [])
    × (from_utf8_lossy (0xff ∷ 0xe2 ∷ 0x82 ∷ []) ≡ replacement ++ replacement)
unfolding from_utf8_lossy first_byte continue
lossy_tests = (refl, refl, refl)
