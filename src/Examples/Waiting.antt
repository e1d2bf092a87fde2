-- ===== src/Examples/Waiting.antt =====
-- The loops of tunnel/src/rtc.rs beside their callbacks, at concrete inputs.
use p2p_llm_tunnel.Prelude.{◌≡◌, ◌≢◌, refl, false, List, [], ◌∷◌, ◌++◌, true, some, codes}
use p2p_llm_tunnel.Signaling.{IncomingSignal}
use p2p_llm_tunnel.Rtc.{ice_failed}
use p2p_llm_tunnel.Rtc.Establish.{
  Negotiation, on_candidate, check_open, failed, fresh, run_rounds, offerer_round, answerer_round,
}
use p2p_llm_tunnel.Rtc.Callbacks
use p2p_llm_tunnel.Rtc.Callbacks.{connected}
use p2p_llm_tunnel.Rtc.Waits.{
  Waits, choosing, handling, over, Move, arrives, takes, finishes, opens, changes, offerer_move,
  answerer_move, run_moves, entering,
}
use p2p_llm_tunnel.Rtc.Waits.Rounds.{progress_of, signal_of, signals_in, arrived}
use p2p_llm_tunnel.Rtc.Waits.Kept.{signals_kept}
use p2p_llm_tunnel.Rtc.Waits.Lost.{IsBusy, failure_hangs}
use p2p_llm_tunnel.Examples.Meeting.{eager}

abbrev hint : IncomingSignal
hint = IncomingSignal.candidate (codes "b") (codes "c1")

-- A candidate is taken, the connection and the channel open meanwhile, and another one waits.
abbrev moves : List Move
moves =
    arrives (some hint)
    ∷ takes
    ∷ changes connected true
    ∷ arrives (some hint)
    ∷ finishes
    ∷ opens true
    ∷ changes connected true
    ∷ []

signals_kept_example :
    let s = run_moves (offerer_move eager) moves (entering fresh) in
    let t = run_moves (answerer_move eager) moves (entering fresh) in
    (run_rounds (offerer_round eager) s.log fresh ≡ progress_of s.turn)
    × (signals_in s.log ++ (signal_of s.turn ++ s.queue) ≡ arrived moves)
    × (run_rounds (answerer_round eager) t.log fresh ≡ progress_of t.turn)
    × (signals_in t.log ++ (signal_of t.turn ++ t.queue) ≡ arrived moves)
signals_kept_example = signals_kept eager fresh moves

-- The loops with a candidate in hand.
abbrev with_hint : Waits
with_hint = record { turn = handling (some hint) fresh; queue = []; is_open = false; log = [] }

abbrev after_hint : Negotiation
after_hint = record fresh { buffered_candidates = codes "c1" ∷ [] }

-- The arm ends, and the connection says once that it is up.
abbrev quiet_moves : List Move
quiet_moves = finishes ∷ takes ∷ changes connected true ∷ finishes ∷ []

offerer_goes_on : IsBusy (offerer_round eager) with_hint.turn
unfolding offerer_round on_candidate check_open
offerer_goes_on = (after_hint, refl)

answerer_goes_on : IsBusy (answerer_round eager) with_hint.turn
unfolding answerer_round on_candidate check_open
answerer_goes_on = (after_hint, refl)

failure_hangs_example :
    let fails = changes Callbacks.failed in
    ((run_moves (offerer_move eager) (fails true ∷ quiet_moves) with_hint).turn
      ≢ over (failed ice_failed))
    × ((run_moves (answerer_move eager) (fails true ∷ quiet_moves) with_hint).turn
        ≢ over (failed ice_failed))
    × ((offerer_move eager (fails true) (record with_hint { turn = choosing fresh })).turn
        ≡ over (failed ice_failed))
    × ((answerer_move eager (fails true) (record with_hint { turn = choosing fresh })).turn
        ≡ over (failed ice_failed))
failure_hangs_example =
    failure_hangs eager quiet_moves true with_hint with_hint fresh (failed ice_failed)
      (tt, (tt, (tt, (tt, tt)))) offerer_goes_on refl refl answerer_goes_on refl refl
