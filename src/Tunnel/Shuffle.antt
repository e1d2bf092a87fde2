-- ===== src/Tunnel/Shuffle.antt =====
-- Tasks that send on one channel at the same time: what is sent is an interleaving of what each sends.
use p2p_llm_tunnel.Prelude.{List, [], ◌∷◌, ◌++◌, All}
use p2p_llm_tunnel.Protocol.{Bytes}
use p2p_llm_tunnel.Tunnel.Woven.{Woven, done, ours, other}

-- The frames of two senders, each in its order.
pub data Shuffle : List Bytes → List Bytes → List Bytes → Type 0 where
  both_done : Shuffle [] [] []
  left : {f : Bytes} {fs gs out : List Bytes} → Shuffle fs gs out → Shuffle (f ∷ fs) gs (f ∷ out)
  right : {g : Bytes} {fs gs out : List Bytes} → Shuffle fs gs out → Shuffle fs (g ∷ gs) (g ∷ out)

-- The frames of any number of senders.
pub data Interleaved : List (List Bytes) → List Bytes → Type 0 where
  nobody : Interleaved [] []
  joins :
      {fs : List Bytes} {fss : List (List Bytes)} {among out : List Bytes}
      → Interleaved fss among
      → Shuffle fs among out
      → Interleaved (fs ∷ fss) out

-- The frames of one sender among others that meet a condition.
abbrev pub Among : (Bytes → Type 0) → List Bytes → List Bytes → Type 0
Among P = Woven (λ f. f) P

module _ (P : Bytes → Type 0) where
  others : {fs gs out : List Bytes} → Shuffle fs gs out → All P gs → Among P fs out
  others both_done p = done
  others (left s) p = ours (others s p)
  others (right s) p = other _ p.0 (others s p.1)

  Shuffle-All : {fs gs out : List Bytes} → Shuffle fs gs out → All P fs → All P gs → All P out
  Shuffle-All both_done p q = tt
  Shuffle-All (left s) p q = (p.0, Shuffle-All s p.1 q)
  Shuffle-All (right s) p q = (q.0, Shuffle-All s p q.1)

  pub Interleaved-All :
      {fss : List (List Bytes)} {out : List Bytes}
      → Interleaved fss out
      → All (All P) fss
      → All P out
  Interleaved-All nobody p = tt
  Interleaved-All (joins i s) p = Shuffle-All s p.0 (Interleaved-All i p.1)

  weave_in :
      {hs mid out fs : List Bytes} → Shuffle hs mid out → All P hs → Among P fs mid → Among P fs out
  weave_in both_done p w = w
  weave_in (left s) p w = other _ p.0 (weave_in s p.1 w)
  weave_in (right s) p (ours w) = ours (weave_in s p w)
  weave_in (right s) p (other g q w) = other g q (weave_in s p w)

  pub Interleaved-Among :
      (before : List (List Bytes)) {fs : List Bytes} (after : List (List Bytes)) {out : List Bytes}
      → Interleaved (before ++ fs ∷ after) out
      → All (All P) before
      → All (All P) after
      → Among P fs out
  Interleaved-Among [] after (joins i s) p q = others s (Interleaved-All i q)
  Interleaved-Among (hs ∷ before) after (joins i s) p q =
      weave_in s p.0 (Interleaved-Among before after i p.1 q)

-- Two layers of other inputs are one.
pub Among-Woven :
    {I : Type 0} (arrives : Bytes → I) (P Q : I → Type 0) {fs mid : List Bytes} {inputs : List I}
    → ((i : I) → Q i → P i)
    → Among (λ f. P (arrives f)) fs mid
    → Woven arrives Q mid inputs
    → Woven arrives P fs inputs
Among-Woven arrives P Q h w done = stop w
  where
    stop : {fs : List Bytes} → Among (λ f. P (arrives f)) fs [] → Woven arrives P fs []
    stop done = done
Among-Woven arrives P Q h (ours w) (ours v) = ours (Among-Woven arrives P Q h w v)
Among-Woven arrives P Q h (other f p w) (ours v) = other _ p (Among-Woven arrives P Q h w v)
Among-Woven arrives P Q h w (other i q v) = other i (h i q) (Among-Woven arrives P Q h w v)
