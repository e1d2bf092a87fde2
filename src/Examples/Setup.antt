-- ===== src/Examples/Setup.antt =====
-- tunnel/src/main.rs, tunnel/src/rtc.rs and tunnel/src/signaling.rs at concrete inputs.
use mathlib.Core.List.{filter_map}
use p2p_llm_tunnel.Prelude.{
  ℕ, ◌≡◌, ◌≢◌, refl, List, [], ◌∷◌, Option, some, true, codes, arith, ◌*◌, ◌^◌,
}
use p2p_llm_tunnel.Channel.{send_failed}
use p2p_llm_tunnel.Retry.{
  max_retries, backoff, initial_backoff_secs, Round, completed, failed, slept, run_with_retry,
  returned, gave_up, normally,
}
use p2p_llm_tunnel.Retry.Backoff.{backoff_lem}
use p2p_llm_tunnel.Retry.Forever.{pauses_from, run_with_retry_gives_up}
use p2p_llm_tunnel.Signaling.{
  IncomingSignal, joined, peer_joined, peer_left, text, close, other, read_signals,
}
use p2p_llm_tunnel.Signaling.Reader.{read_signals_lem}
use p2p_llm_tunnel.Rtc.Role.{determine_role, joining, role, determine_role_stuck}

backoff_lem_example : backoff 4 ≡ initial_backoff_secs * 2 ^ 3
backoff_lem_example = (backoff_lem 3).0 (omega arith)

abbrev failure : Round
failure = failed send_failed slept

recovers :
    run_with_retry max_retries (failure ∷ failure ∷ completed ∷ []) 0
    ≡ (2 ∷ 4 ∷ [], returned normally)
unfolding run_with_retry backoff
recovers = refl

run_with_retry_gives_up_example :
    run_with_retry 2 (failure ∷ failure ∷ failure ∷ []) 0
    ≡ (pauses_from 0 2, returned (gave_up send_failed))
run_with_retry_gives_up_example =
    (run_with_retry_gives_up 2 0 (failure ∷ failure ∷ []) send_failed slept [] (omega arith)
      (tt, (tt, tt)) refl).1

abbrev parse_left : List ℕ → Option IncomingSignal
parse_left t = some (peer_left t)

read_signals_lem_example :
    read_signals parse_left (text (codes "a") ∷ other ∷ close ∷ text (codes "b") ∷ [])
    ≡ peer_left (codes "a") ∷ []
unfolding read_signals filter_map
read_signals_lem_example =
    read_signals_lem parse_left (text (codes "a") ∷ other ∷ []) close (text (codes "b") ∷ [])
      (tt, (tt, tt)) tt

determine_role_stuck_example :
    determine_role
      (some (joined (codes "a") [])
        ∷ some (peer_left (codes "b"))
        ∷ some (peer_joined (codes "c"))
        ∷ [])
      joining
    ≢ role true
determine_role_stuck_example =
    determine_role_stuck (codes "a") (some (peer_left (codes "b")))
      (some (peer_joined (codes "c")) ∷ []) true tt (tt, tt)
