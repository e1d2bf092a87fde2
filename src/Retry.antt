-- ===== src/Retry.antt =====
-- tunnel/src/main.rs: `run_with_retry`, as a release build computes it, where integers wrap around.
-- How each attempt and each pause ends is an argument.
pub mod Backoff
pub mod Forever
use p2p_llm_tunnel.Prelude.{
  ℕ, zero, suc, ◌+◌, ◌-◌, ◌*◌, ◌%◌, ◌^◌, min, List, [], ◌∷◌, ◌++◌, ltb, if◌then◌else◌,
}
use p2p_llm_tunnel.Channel.{Error}

-- `u32::MAX`: retry forever.
abbrev pub max_retries : ℕ
max_retries = 4294967295

abbrev pub initial_backoff_secs : ℕ
initial_backoff_secs = 2

abbrev pub max_backoff_secs : ℕ
max_backoff_secs = 60

-- `attempt.min(10) - 1` is a `u32`, `2u64.pow(..)` and the product are `u64`s.
unfoldable pub backoff : ℕ → ℕ
backoff attempt =
    let exponent = (min attempt 10 + 2 ^ 32 - 1) % 2 ^ 32 in
    min (initial_backoff_secs * (2 ^ exponent % 2 ^ 64) % 2 ^ 64) max_backoff_secs

pub data Pause : Type 0 where
  slept interrupted : Pause

-- One round: how the future ends, or Ctrl+C; and after a failure the pause.
pub data Round : Type 0 where
  completed : Round
  ctrl_c : Round
  failed : Error → Pause → Round

pub data Ended : Type 0 where
  normally : Ended
  by_user : Ended
  gave_up : Error → Ended

-- The loop has returned, or is on its next attempt.
pub data Progress : Type 0 where
  returned : Ended → Progress
  attempting : ℕ → Progress

-- The pauses that the loop has begun, in seconds, and where it is.
abbrev pub Trace : Type 0
Trace = List ℕ × Progress

abbrev pub after_pause : ℕ → Pause → Progress
after_pause attempt slept = attempting attempt
after_pause attempt interrupted = returned by_user

-- What is done after a failure, given the number of failures so far.
unfoldable pub after_failure : ℕ → ℕ → Error → Pause → Trace
after_failure limit attempt e pause =
    if ltb limit attempt
    then ([], returned (gave_up e))
    else (backoff attempt ∷ [], after_pause attempt pause)

unfoldable pub round : ℕ → ℕ → Round → Trace
unfolding after_failure
round limit attempt completed = ([], returned normally)
round limit attempt ctrl_c = ([], returned by_user)
round limit attempt (failed e pause) = after_failure limit ((attempt + 1) % 2 ^ 32) e pause

abbrev pub go_on : (ℕ → Trace) → Trace → Trace
go_on k (pauses, returned x) = (pauses, returned x)
go_on k (pauses, attempting n) = (pauses ++ (k n).0, (k n).1)

unfoldable pub run_with_retry : ℕ → List Round → ℕ → Trace
unfolding round
run_with_retry limit [] attempt = ([], attempting attempt)
run_with_retry limit (r ∷ rest) attempt = go_on (run_with_retry limit rest) (round limit attempt r)
