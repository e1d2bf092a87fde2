-- ===== src/Main/Ends.antt =====
-- How the program of tunnel/src/main.rs ends.
use p2p_llm_tunnel.Prelude.{ℕ, ◌≤◌, ◌≡◌, ◌⊎◌, All, none, some, ok, err}
use p2p_llm_tunnel.Retry.{
  max_backoff_secs, Round, completed, Ended, by_user, Progress, returned, attempting, Trace,
}
use p2p_llm_tunnel.Retry
use p2p_llm_tunnel.Rtc.Establish
use p2p_llm_tunnel.Main.{Future}

-- The future has not returned `Ok`.
abbrev IsNotOk : Future → Type 0
IsNotOk none = Unit
IsNotOk (some (ok done)) = ⊥
IsNotOk (some (err e)) = Unit

abbrev GoesOn : Round → Type 0
GoesOn completed = ⊥
GoesOn _ = Unit

-- On its way or ended by the user, with no pause longer than the cap.
abbrev pub RunsOn : Trace → Type 0
RunsOn t =
    (((n : ℕ) × (t.1 ≡ attempting n)) ⊎ (t.1 ≡ returned by_user))
    × All (λ p. p ≤ max_backoff_secs) t.0
