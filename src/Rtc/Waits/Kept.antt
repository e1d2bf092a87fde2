-- ===== src/Rtc/Waits/Kept.antt =====
-- What the loops of tunnel/src/rtc.rs keep of what wakes them, whatever comes at whatever time.
use p2p_llm_tunnel.Prelude.{
  ◌≡◌, refl, sym, ap, ◌∙◌, List, [], ◌∷◌, ◌++◌, append-nil, append_assoc, Bool, true, false, Option,
  none, some,
}
use p2p_llm_tunnel.Signaling.{IncomingSignal}
use p2p_llm_tunnel.Rtc.{PeerConnection}
use p2p_llm_tunnel.Rtc.Establish.{
  Negotiation, Event, notified, pc_failed, Progress, run_rounds, offerer_round, answerer_round,
}
use p2p_llm_tunnel.Rtc.Callbacks.{
  PeerConnectionState, connected, other, offerer_state_change, answerer_state_change,
}
use p2p_llm_tunnel.Rtc.Waits.{
  Turn, choosing, handling, polling, over, Waits, Move, arrives, takes, finishes, opens, changes,
  offerer_wakes, offerer_move, answerer_wakes, answerer_move, run_moves, entering,
}
use p2p_llm_tunnel.Rtc.Waits.Rounds.{
  progress_of, signal_of, signals_in, arrived, Agrees, complete-Agrees, moved, arrives-Agrees,
  take_next-Agrees, finish-Agrees,
}

module _ (pc : PeerConnection) (start : Negotiation) where
  offerer_wakes-Agrees :
      {heard : List (Option IncomingSignal)} (t : Turn) (e : Option Event) (wins : Bool) (s : Waits)
      → s.turn ≡ t
      → Agrees (offerer_round pc) start heard s
      → Agrees (offerer_round pc) start heard (offerer_wakes pc t e wins s)
  unfolding offerer_wakes signals_in
  offerer_wakes-Agrees (choosing n) (some notified) true s e a =
      moved (offerer_round pc) start (polling n) s s.queue a (ap progress_of (sym e)) (rw e refl)
  offerer_wakes-Agrees (choosing n) (some pc_failed) true s e a =
      complete-Agrees (offerer_round pc) start pc_failed s.is_open n s a (ap progress_of e)
        (sym (ap signal_of e))
  offerer_wakes-Agrees _ _ _ s e a = a

  offerer_move-Agrees :
      {heard : List (Option IncomingSignal)} (m : Move) (s : Waits)
      → Agrees (offerer_round pc) start heard s
      → Agrees (offerer_round pc) start (heard ++ arrived (m ∷ [])) (offerer_move pc m s)
  unfolding offerer_move arrived
  offerer_move-Agrees (arrives sig) s a = arrives-Agrees (offerer_round pc) start sig s a
  offerer_move-Agrees takes s a =
      rw append-nil (take_next-Agrees (offerer_round pc) start s.turn s.queue s refl refl a)
  offerer_move-Agrees finishes s a =
      rw append-nil (finish-Agrees (offerer_round pc) start s.turn s refl a)
  offerer_move-Agrees (opens wins) s a = rw append-nil (record { rounds = a.rounds; kept = a.kept })
  offerer_move-Agrees (changes state wins) s a =
      rw append-nil (offerer_wakes-Agrees s.turn (offerer_state_change state) wins s refl a)

  answerer_wakes-Agrees :
      {heard : List (Option IncomingSignal)} (t : Turn) (e : Event) (wins : Bool) (s : Waits)
      → s.turn ≡ t
      → signals_in ((e, s.is_open) ∷ []) ≡ []
      → Agrees (answerer_round pc) start heard s
      → Agrees (answerer_round pc) start heard (answerer_wakes pc t (some e) wins s)
  unfolding answerer_wakes
  answerer_wakes-Agrees (choosing n) e true s at none_in a =
      complete-Agrees (answerer_round pc) start e s.is_open n s a (ap progress_of at)
        (none_in ∙ sym (ap signal_of at))
  answerer_wakes-Agrees (choosing n) e false s at none_in a = a
  answerer_wakes-Agrees (handling sig n) e wins s at none_in a = a
  answerer_wakes-Agrees (polling n) e wins s at none_in a = a
  answerer_wakes-Agrees (over p) e wins s at none_in a = a

  answerer_idle : (t : Turn) (wins : Bool) (s : Waits) → answerer_wakes pc t none wins s ≡ s
  unfolding answerer_wakes
  answerer_idle (choosing n) wins s = refl
  answerer_idle _ wins s = refl

  answerer_changes-Agrees :
      {heard : List (Option IncomingSignal)} (state : PeerConnectionState) (wins : Bool) (s : Waits)
      → Agrees (answerer_round pc) start heard s
      → Agrees
          (answerer_round pc)
          start
          heard
          (answerer_wakes pc s.turn (answerer_state_change state) wins s)
  unfolding answerer_state_change signals_in answerer_wakes
  answerer_changes-Agrees PeerConnectionState.failed wins s a =
      answerer_wakes-Agrees s.turn pc_failed wins s refl refl a
  answerer_changes-Agrees connected wins s a = rw (answerer_idle s.turn wins s) a
  answerer_changes-Agrees other wins s a = rw (answerer_idle s.turn wins s) a

  answerer_move-Agrees :
      {heard : List (Option IncomingSignal)} (m : Move) (s : Waits)
      → Agrees (answerer_round pc) start heard s
      → Agrees (answerer_round pc) start (heard ++ arrived (m ∷ [])) (answerer_move pc m s)
  unfolding answerer_move arrived signals_in
  answerer_move-Agrees (arrives sig) s a = arrives-Agrees (answerer_round pc) start sig s a
  answerer_move-Agrees takes s a =
      rw append-nil (take_next-Agrees (answerer_round pc) start s.turn s.queue s refl refl a)
  answerer_move-Agrees finishes s a =
      rw append-nil (finish-Agrees (answerer_round pc) start s.turn s refl a)
  answerer_move-Agrees (opens wins) s a = rw append-nil (
      answerer_wakes-Agrees s.turn notified wins (record s { is_open = true }) refl refl
        (record { rounds = a.rounds; kept = a.kept }))
  answerer_move-Agrees (changes state wins) s a =
      rw append-nil (answerer_changes-Agrees state wins s a)

arrived-cons : (m : Move) (rest : List Move) → arrived (m ∷ rest) ≡ arrived (m ∷ []) ++ arrived rest
unfolding arrived
arrived-cons (arrives sig) rest = refl
arrived-cons takes rest = refl
arrived-cons finishes rest = refl
arrived-cons (opens wins) rest = refl
arrived-cons (changes state wins) rest = refl

run_moves-Agrees :
    (round : Event × Bool → Negotiation → Progress) (start : Negotiation)
    (move : Move → Waits → Waits)
    → ((heard : List (Option IncomingSignal)) (m : Move) (s : Waits)
        → Agrees round start heard s
        → Agrees round start (heard ++ arrived (m ∷ [])) (move m s))
    → (moves : List Move) (heard : List (Option IncomingSignal)) (s : Waits)
    → Agrees round start heard s
    → Agrees round start (heard ++ arrived moves) (run_moves move moves s)
unfolding run_moves
run_moves-Agrees round start move h [] heard s a = unfold arrived in rw append-nil a
run_moves-Agrees round start move h (m ∷ rest) heard s a =
    rw (arrived-cons m rest, ← append_assoc)
      (run_moves-Agrees round start move h rest (heard ++ arrived (m ∷ [])) (move m s)
        (h heard m s a))

entering-Agrees :
    (round : Event × Bool → Negotiation → Progress) (n : Negotiation)
    → Agrees round n [] (entering n)
unfolding run_rounds signals_in
entering-Agrees round n = record { rounds = refl; kept = refl }

-- Whatever arrives, opens and changes at whatever time: what the loop of either side has come to is what
-- its rounds come to, taken one after another, for the events in its log; and every signal that has
-- arrived is in one of these rounds, in the arm that is running, or in the queue, in the order of
-- arrival: none is lost and none comes twice.
pub signals_kept :
    (pc : PeerConnection) (n : Negotiation) (moves : List Move)
    → let s = run_moves (offerer_move pc) moves (entering n) in
      let t = run_moves (answerer_move pc) moves (entering n) in
      (run_rounds (offerer_round pc) s.log n ≡ progress_of s.turn)
      × (signals_in s.log ++ (signal_of s.turn ++ s.queue) ≡ arrived moves)
      × (run_rounds (answerer_round pc) t.log n ≡ progress_of t.turn)
      × (signals_in t.log ++ (signal_of t.turn ++ t.queue) ≡ arrived moves)
signals_kept pc n moves =
    let a =
      run_moves-Agrees (offerer_round pc) n (offerer_move pc)
        (λ heard m s. offerer_move-Agrees pc n m s) moves [] (entering n)
        (entering-Agrees (offerer_round pc) n) in
    let b =
      run_moves-Agrees (answerer_round pc) n (answerer_move pc)
        (λ heard m s. answerer_move-Agrees pc n m s) moves [] (entering n)
        (entering-Agrees (answerer_round pc) n) in
    (a.rounds, a.kept, b.rounds, b.kept)
