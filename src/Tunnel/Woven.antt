-- ===== src/Tunnel/Woven.antt =====
-- How the frames of one sender arrive at the other side, where frames of other tasks and local events
-- come between.
use p2p_llm_tunnel.Prelude.{List, [], ◌∷◌}
use p2p_llm_tunnel.Protocol.{Bytes}

-- The inputs hold the frames in their order, and between them only silent inputs.
pub data Woven {I : Type 0} (arrives : Bytes → I) (IsSilent : I → Type 0)
    : List Bytes → List I → Type 0 where
  done : Woven arrives IsSilent [] []
  ours :
      {f : Bytes} {fs : List Bytes} {inputs : List I}
      → Woven arrives IsSilent fs inputs
      → Woven arrives IsSilent (f ∷ fs) (arrives f ∷ inputs)
  other :
      (i : I) {fs : List Bytes} {inputs : List I}
      → IsSilent i
      → Woven arrives IsSilent fs inputs
      → Woven arrives IsSilent fs (i ∷ inputs)
