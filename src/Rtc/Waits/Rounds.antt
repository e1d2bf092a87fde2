-- ===== src/Rtc/Waits/Rounds.antt =====
-- The rounds of the loops of tunnel/src/rtc.rs, and the signals, as the moves that both loops share leave
-- them.
use mathlib.Core.Path.{ap₂}
use p2p_llm_tunnel.Prelude.{
  ◌≡◌, refl, sym, ap, ◌∙◌, List, [], ◌∷◌, ◌++◌, append_assoc, Bool, Option,
}
use p2p_llm_tunnel.Signaling.{IncomingSignal}
use p2p_llm_tunnel.Rtc.Establish.{
  Negotiation, Event, signal, notified, pc_failed, Progress, established, failed, waiting,
  then_wait, run_rounds,
}
use p2p_llm_tunnel.Rtc.Waits.{
  Turn, choosing, handling, polling, over, Waits, Move, arrives, settle, complete, take_next,
  finish,
}

-- What the rounds so far have come to.
abbrev pub progress_of : Turn → Progress
progress_of (choosing n) = waiting n
progress_of (handling sig n) = waiting n
progress_of (polling n) = waiting n
progress_of (over p) = p

abbrev pub signal_of : Turn → List (Option IncomingSignal)
signal_of (handling sig n) = sig ∷ []
signal_of _ = []

-- The signals of some rounds, and those that have arrived.
unfoldable pub signals_in : List (Event × Bool) → List (Option IncomingSignal)
signals_in [] = []
signals_in ((signal sig, b) ∷ rest) = sig ∷ signals_in rest
signals_in (_ ∷ rest) = signals_in rest

unfoldable pub arrived : List Move → List (Option IncomingSignal)
arrived [] = []
arrived (arrives sig ∷ rest) = sig ∷ arrived rest
arrived (_ ∷ rest) = arrived rest

progress_of-settle : (p : Progress) → progress_of (settle p) ≡ p
progress_of-settle (established n) = refl
progress_of-settle (failed e) = refl
progress_of-settle (waiting n) = refl

signal_of-settle : (p : Progress) → signal_of (settle p) ≡ []
signal_of-settle (established n) = refl
signal_of-settle (failed e) = refl
signal_of-settle (waiting n) = refl

signals_in-append :
    (es fs : List (Event × Bool)) → signals_in (es ++ fs) ≡ signals_in es ++ signals_in fs
unfolding signals_in
signals_in-append [] fs = refl
signals_in-append ((signal sig, b) ∷ es) fs = ap (λ t. sig ∷ t) (signals_in-append es fs)
signals_in-append ((notified, b) ∷ es) fs = signals_in-append es fs
signals_in-append ((pc_failed, b) ∷ es) fs = signals_in-append es fs

module _ (round : Event × Bool → Negotiation → Progress) (start : Negotiation) where
  one_more_round :
      (es : List (Event × Bool)) (e : Event × Bool) (n : Negotiation)
      → run_rounds round (es ++ e ∷ []) n ≡ then_wait (round e) (run_rounds round es n)
  unfolding run_rounds
  one_more_round [] e n = ends (round e n)
    where
      ends : (p : Progress) → then_wait (λ m. waiting m) p ≡ p
      ends (established m) = refl
      ends (failed x) = refl
      ends (waiting m) = refl
  one_more_round (f ∷ es) e n = through (round f n) (one_more_round es e)
    where
      through :
          (p : Progress)
          → ((m : Negotiation)
              → run_rounds round (es ++ e ∷ []) m ≡ then_wait (round e) (run_rounds round es m))
          → then_wait (run_rounds round (es ++ e ∷ [])) p
            ≡ then_wait (round e) (then_wait (run_rounds round es) p)
      through (established m) h = refl
      through (failed x) h = refl
      through (waiting m) h = h m

  -- The rounds so far are the abstract rounds of the log, and every signal is in one of them, in the
  -- arm that is running, or in the queue.
  pub record Agrees (heard : List (Option IncomingSignal)) (s : Waits) : Type 0 where
    pub rounds : run_rounds round s.log start ≡ progress_of s.turn
    pub kept : signals_in s.log ++ (signal_of s.turn ++ s.queue) ≡ heard

  pub complete-Agrees :
      {heard : List (Option IncomingSignal)} (e : Event) (b : Bool) (n : Negotiation) (s : Waits)
      → Agrees heard s
      → progress_of s.turn ≡ waiting n
      → signals_in ((e, b) ∷ []) ≡ signal_of s.turn
      → Agrees heard (complete round e b n s)
  unfolding complete
  complete-Agrees e b n s a at same = record {
    rounds =
        one_more_round s.log (e, b) start
        ∙ ap (then_wait (round (e, b))) (a.rounds ∙ at)
        ∙ sym (progress_of-settle (round (e, b) n));
    kept =
        ap (λ t. t ++ (signal_of (settle (round (e, b) n)) ++ s.queue))
          (signals_in-append s.log ((e, b) ∷ []))
        ∙ append_assoc (signals_in s.log) (signals_in ((e, b) ∷ [])) _
        ∙ ap₂ (λ t w. signals_in s.log ++ (t ++ (w ++ s.queue))) same
            (signal_of-settle (round (e, b) n))
        ∙ a.kept;
  }

  at_turn :
      {heard : List (Option IncomingSignal)} (t : Turn) (s : Waits)
      → s.turn ≡ t
      → Agrees heard s
      → run_rounds round s.log start ≡ progress_of t
  at_turn t s e a = a.rounds ∙ ap progress_of e

  pub moved :
      {heard : List (Option IncomingSignal)} (t : Turn) (s : Waits)
      (queue : List (Option IncomingSignal))
      → Agrees heard s
      → progress_of t ≡ progress_of s.turn
      → signal_of t ++ queue ≡ signal_of s.turn ++ s.queue
      → Agrees heard (record s { turn = t; queue = queue })
  moved t s queue a e f = record {
    rounds = a.rounds ∙ sym e;
    kept = ap (λ w. signals_in s.log ++ w) f ∙ a.kept;
  }

  pub arrives-Agrees :
      {heard : List (Option IncomingSignal)} (sig : Option IncomingSignal) (s : Waits)
      → Agrees heard s
      → Agrees (heard ++ sig ∷ []) (record s { queue = s.queue ++ sig ∷ [] })
  arrives-Agrees sig s a = record {
    rounds = a.rounds;
    kept =
        ap (λ w. signals_in s.log ++ w) (sym (append_assoc (signal_of s.turn) s.queue (sig ∷ [])))
        ∙ sym (append_assoc (signals_in s.log) (signal_of s.turn ++ s.queue) (sig ∷ []))
        ∙ ap (λ w. w ++ sig ∷ []) a.kept;
  }

  pub take_next-Agrees :
      {heard : List (Option IncomingSignal)} (t : Turn) (queue : List (Option IncomingSignal))
      (s : Waits)
      → s.turn ≡ t
      → s.queue ≡ queue
      → Agrees heard s
      → Agrees heard (take_next t queue s)
  unfolding take_next
  take_next-Agrees (choosing n) (sig ∷ rest) s e f a =
      moved (handling sig n) s rest a (ap progress_of (sym e)) (rw (e, f) refl)
  take_next-Agrees (choosing n) [] s e f a = a
  take_next-Agrees (handling sig n) queue s e f a = a
  take_next-Agrees (polling n) queue s e f a = a
  take_next-Agrees (over p) queue s e f a = a

  pub finish-Agrees :
      {heard : List (Option IncomingSignal)} (t : Turn) (s : Waits)
      → s.turn ≡ t
      → Agrees heard s
      → Agrees heard (finish round t s)
  unfolding finish signals_in
  finish-Agrees (choosing n) s e a = a
  finish-Agrees (handling sig n) s e a =
      complete-Agrees (signal sig) s.is_open n s a (ap progress_of e) (sym (ap signal_of e))
  finish-Agrees (polling n) s e a =
      complete-Agrees notified s.is_open n s a (ap progress_of e) (sym (ap signal_of e))
  finish-Agrees (over p) s e a = a
