-- ===== src/Retry/Forever.antt =====
-- How the loop of tunnel/src/main.rs ends, and how long it pauses.
use p2p_llm_tunnel.Prelude.{
  ℕ, zero, suc, ◌+◌, ◌%◌, ◌^◌, ◌<◌, ◌≡◌, ◌≢◌, refl, ap, List, [], ◌∷◌, ◌++◌, All, arith, length,
  le→ltb,
}
use p2p_llm_tunnel.Channel.{Error}
use p2p_llm_tunnel.Retry.{
  max_retries, backoff, Pause, slept, interrupted, Round, completed, ctrl_c, failed, gave_up,
  returned, attempting, run_with_retry,
}

-- The loop as the program calls it never gives up, however many attempts fail.
run_with_retry_forever :
    (rounds : List Round) (attempt : ℕ) (e : Error)
    → (run_with_retry max_retries rounds attempt).1 ≢ returned (gave_up e)
unfolding run_with_retry
run_with_retry_forever [] attempt e h = cc
run_with_retry_forever (completed ∷ rest) attempt e h = cc
run_with_retry_forever (ctrl_c ∷ rest) attempt e h = cc
run_with_retry_forever (failed x slept ∷ rest) attempt e h =
    ground (arith, run_with_retry_forever rest ((attempt + 1) % 2 ^ 32) e)
run_with_retry_forever (failed x interrupted ∷ rest) attempt e h = ground arith

abbrev pub IsFailure : Round → Type 0
IsFailure (failed e slept) = Unit
IsFailure _ = ⊥

-- The pauses after so many failures, the first of which is the next after `attempt`.
unfoldable pub pauses_from : ℕ → ℕ → List ℕ
pauses_from attempt zero = []
pauses_from attempt (suc n) = backoff (attempt + 1) ∷ pauses_from (attempt + 1) n

-- With a limit below the largest `u32`, the loop makes one attempt more than the limit: it goes on
-- through as many failures as the limit allows, with the pause for its number after each, and the next
-- one is what it returns with, after no further pause.
pub run_with_retry_gives_up :
    (limit attempt : ℕ) (rounds : List Round) (e : Error) (pause : Pause) (rest : List Round)
    → limit < max_retries
    → All IsFailure rounds
    → attempt + length rounds ≡ limit
    → (run_with_retry limit rounds attempt
        ≡ (pauses_from attempt (length rounds), attempting limit))
      × (run_with_retry limit (rounds ++ failed e pause ∷ rest) attempt
          ≡ (pauses_from attempt (length rounds), returned (gave_up e)))
unfolding run_with_retry pauses_from
run_with_retry_gives_up limit attempt [] e pause rest small h sum =
    (ap (λ n. ([], attempting n)) (omega arith), ground arith)
run_with_retry_gives_up limit attempt (completed ∷ rounds) e pause rest small h sum = elim h.0 [ ]
run_with_retry_gives_up limit attempt (ctrl_c ∷ rounds) e pause rest small h sum = elim h.0 [ ]
run_with_retry_gives_up limit attempt (failed x interrupted ∷ rounds) e pause rest small h sum =
    elim h.0 [ ]
run_with_retry_gives_up limit attempt (failed x slept ∷ rounds) e pause rest small h sum =
    let next : (attempt + 1) % 2 ^ 32 ≡ attempt + 1 = omega arith in
    let ih =
      run_with_retry_gives_up limit (attempt + 1) rounds e pause rest small h.1 (omega arith) in
    rw (next, le→ltb limit (attempt + 1) (omega arith), ih.0, ih.1) (refl, refl)
