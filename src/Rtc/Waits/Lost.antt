-- ===== src/Rtc/Waits/Lost.antt =====
-- What the loops of tunnel/src/rtc.rs miss.
use p2p_llm_tunnel.Prelude.{
  ◌≡◌, ◌≢◌, refl, sym, ap, ◌∙◌, List, [], ◌∷◌, Bool, true, false, Option, All,
}
use p2p_llm_tunnel.Signaling.{IncomingSignal}
use p2p_llm_tunnel.Rtc.{PeerConnection, ice_failed}
use p2p_llm_tunnel.Rtc.Establish.{
  Negotiation, Event, signal, notified, Progress, failed, waiting, offerer_round, answerer_round,
  check_open,
}
use p2p_llm_tunnel.Rtc.Callbacks
use p2p_llm_tunnel.Rtc.Callbacks.{
  PeerConnectionState, connected, offerer_state_change, answerer_state_change,
}
use p2p_llm_tunnel.Rtc.Waits.{
  Turn, choosing, handling, polling, over, Waits, Move, arrives, takes, finishes, opens, changes,
  complete, take_next, finish, offerer_wakes, offerer_move, answerer_wakes, answerer_move,
  run_moves,
}

-- The loop is in an arm after which it goes on to wait, if the data channel is not open by then.
abbrev pub IsBusy : (Event × Bool → Negotiation → Progress) → Turn → Type 0
IsBusy round (handling sig n) = (m : Negotiation) × (round (signal sig, false) n ≡ waiting m)
IsBusy round (polling n) = (m : Negotiation) × (round (notified, false) n ≡ waiting m)
IsBusy round _ = ⊥

-- Or it waits.
abbrev IsGoingOn : (Event × Bool → Negotiation → Progress) → Turn → Type 0
IsGoingOn round (choosing n) = Unit
IsGoingOn round t = IsBusy round t

-- No signal arrives, the data channel does not open, and there is no second failure.
abbrev pub IsQuiet : Move → Type 0
IsQuiet takes = Unit
IsQuiet finishes = Unit
IsQuiet (changes Callbacks.failed wins) = ⊥
IsQuiet (changes _ wins) = Unit
IsQuiet _ = ⊥

record Hangs (round : Event × Bool → Negotiation → Progress) (s : Waits) : Type 0 where
  pub goes_on : IsGoingOn round s.turn
  pub empty : s.queue ≡ []
  pub shut : s.is_open ≡ false

busy_goes_on :
    (round : Event × Bool → Negotiation → Progress) (t : Turn) → IsBusy round t → IsGoingOn round t
busy_goes_on round (handling sig n) h = h
busy_goes_on round (polling n) h = h
busy_goes_on round (choosing n) h = tt
busy_goes_on round (over p) h = h

module _ (round : Event × Bool → Negotiation → Progress) where
  not_over : (t : Turn) (p : Progress) → IsGoingOn round t → t ≢ over p
  not_over (choosing n) p h e = cc
  not_over (handling sig n) p h e = cc
  not_over (polling n) p h e = cc
  not_over (over q) p h e = elim h [ ]

  take_next-Hangs :
      (t : Turn) (q : List (Option IncomingSignal)) (s : Waits)
      → q ≡ []
      → Hangs round s
      → Hangs round (take_next t q s)
  unfolding take_next
  take_next-Hangs (choosing n) [] s e h = h
  take_next-Hangs (choosing n) (x ∷ q) s e h = cc
  take_next-Hangs (handling sig n) q s e h = h
  take_next-Hangs (polling n) q s e h = h
  take_next-Hangs (over p) q s e h = h

  complete-Hangs :
      (e : Event) (n m : Negotiation) (s : Waits)
      → round (e, false) n ≡ waiting m
      → Hangs round s
      → Hangs round (complete round e s.is_open n s)
  unfolding complete
  complete-Hangs e n m s w h = record {
    goes_on = rw (h.shut, w) tt;
    empty = h.empty;
    shut = h.shut;
  }

  finish-Hangs :
      (t : Turn) (s : Waits) → IsGoingOn round t → Hangs round s → Hangs round (finish round t s)
  unfolding finish
  finish-Hangs (choosing n) s b h = h
  finish-Hangs (handling sig n) s (m, w) h = complete-Hangs (signal sig) n m s w h
  finish-Hangs (polling n) s (m, w) h = complete-Hangs notified n m s w h
  finish-Hangs (over p) s b h = h

  none_over :
      (move : Move → Waits → Waits) (moves : List Move) (s : Waits) (p : Progress)
      → ((m : Move) (t : Waits) → IsQuiet m → Hangs round t → Hangs round (move m t))
      → All IsQuiet moves
      → Hangs round s
      → (run_moves move moves s).turn ≢ over p
  unfolding run_moves
  none_over move [] s p keep q h = not_over s.turn p h.goes_on
  none_over move (m ∷ moves) s p keep q h =
      none_over move moves (move m s) p keep q.1 (keep m s q.0 h)

module _ (pc : PeerConnection) where
  offerer_wakes-Hangs :
      (t : Turn) (state : PeerConnectionState) (wins : Bool) (s : Waits)
      → IsQuiet (changes state wins)
      → Hangs (offerer_round pc) s
      → Hangs (offerer_round pc) (offerer_wakes pc t (offerer_state_change state) wins s)
  unfolding offerer_wakes offerer_round check_open offerer_state_change
  offerer_wakes-Hangs t Callbacks.failed wins s q h = elim q [ ]
  offerer_wakes-Hangs (choosing n) connected true s q h = record {
    goes_on = (n, refl);
    empty = h.empty;
    shut = h.shut;
  }
  offerer_wakes-Hangs (choosing n) connected false s q h = h
  offerer_wakes-Hangs (choosing n) Callbacks.other wins s q h = h
  offerer_wakes-Hangs (handling sig n) state wins s q h = h
  offerer_wakes-Hangs (polling n) state wins s q h = h
  offerer_wakes-Hangs (over p) state wins s q h = h

  offerer_move-Hangs :
      (m : Move) (s : Waits)
      → IsQuiet m
      → Hangs (offerer_round pc) s
      → Hangs (offerer_round pc) (offerer_move pc m s)
  unfolding offerer_move
  offerer_move-Hangs (arrives sig) s q h = elim q [ ]
  offerer_move-Hangs takes s q h = take_next-Hangs (offerer_round pc) s.turn s.queue s h.empty h
  offerer_move-Hangs finishes s q h = finish-Hangs (offerer_round pc) s.turn s h.goes_on h
  offerer_move-Hangs (opens wins) s q h = elim q [ ]
  offerer_move-Hangs (changes state wins) s q h = offerer_wakes-Hangs s.turn state wins s q h

  answerer_wakes-Hangs :
      (t : Turn) (state : PeerConnectionState) (wins : Bool) (s : Waits)
      → IsQuiet (changes state wins)
      → Hangs (answerer_round pc) s
      → Hangs (answerer_round pc) (answerer_wakes pc t (answerer_state_change state) wins s)
  unfolding answerer_wakes answerer_state_change
  answerer_wakes-Hangs t Callbacks.failed wins s q h = elim q [ ]
  answerer_wakes-Hangs (choosing n) connected wins s q h = h
  answerer_wakes-Hangs (choosing n) Callbacks.other wins s q h = h
  answerer_wakes-Hangs (handling sig n) state wins s q h = h
  answerer_wakes-Hangs (polling n) state wins s q h = h
  answerer_wakes-Hangs (over p) state wins s q h = h

  answerer_move-Hangs :
      (m : Move) (s : Waits)
      → IsQuiet m
      → Hangs (answerer_round pc) s
      → Hangs (answerer_round pc) (answerer_move pc m s)
  unfolding answerer_move
  answerer_move-Hangs (arrives sig) s q h = elim q [ ]
  answerer_move-Hangs takes s q h = take_next-Hangs (answerer_round pc) s.turn s.queue s h.empty h
  answerer_move-Hangs finishes s q h = finish-Hangs (answerer_round pc) s.turn s h.goes_on h
  answerer_move-Hangs (opens wins) s q h = elim q [ ]
  answerer_move-Hangs (changes state wins) s q h = answerer_wakes-Hangs s.turn state wins s q h

offerer_misses :
    (pc : PeerConnection) (t : Turn) (e : Option Event) (wins : Bool) (s : Waits)
    → IsBusy (offerer_round pc) t
    → offerer_wakes pc t e wins s ≡ s
unfolding offerer_wakes
offerer_misses pc (choosing n) e wins s busy = elim busy [ ]
offerer_misses pc (handling sig n) e wins s busy = refl
offerer_misses pc (polling n) e wins s busy = refl
offerer_misses pc (over p) e wins s busy = refl

answerer_misses :
    (pc : PeerConnection) (t : Turn) (e : Option Event) (wins : Bool) (s : Waits)
    → IsBusy (answerer_round pc) t
    → answerer_wakes pc t e wins s ≡ s
unfolding answerer_wakes
answerer_misses pc (choosing n) e wins s busy = elim busy [ ]
answerer_misses pc (handling sig n) e wins s busy = refl
answerer_misses pc (polling n) e wins s busy = refl
answerer_misses pc (over p) e wins s busy = refl

-- The peer connection fails while the loop is in an arm: that for a signal, after which it goes on to
-- wait, or, for the offerer, the poll for the data channel. No signal is left in the queue, and from then
-- on none arrives, the data channel does not open and the connection does not fail anew. Then the loop of
-- either side never returns, with no error and with no result, however often it is woken. If it had been
-- waiting when the connection failed, and had taken that arm, it would have returned with the error.
pub failure_hangs :
    (pc : PeerConnection) (moves : List Move) (wins : Bool) (s t : Waits) (n : Negotiation)
    (p : Progress)
    → All IsQuiet moves
    → IsBusy (offerer_round pc) s.turn
    → s.queue ≡ []
    → s.is_open ≡ false
    → IsBusy (answerer_round pc) t.turn
    → t.queue ≡ []
    → t.is_open ≡ false
    → let fails = changes Callbacks.failed in
      ((run_moves (offerer_move pc) (fails wins ∷ moves) s).turn ≢ over p)
      × ((run_moves (answerer_move pc) (fails wins ∷ moves) t).turn ≢ over p)
      × ((offerer_move pc (fails true) (record s { turn = choosing n })).turn
          ≡ over (failed ice_failed))
      × ((answerer_move pc (fails true) (record t { turn = choosing n })).turn
          ≡ over (failed ice_failed))
unfolding run_moves offerer_move answerer_move offerer_wakes answerer_wakes offerer_state_change
    answerer_state_change complete offerer_round answerer_round
failure_hangs pc moves wins s t n p quiet busy empty shut busy' empty' shut' = (
  λ e.
      none_over (offerer_round pc) (offerer_move pc) moves s p (offerer_move-Hangs pc) quiet
        (record {
          goes_on = busy_goes_on (offerer_round pc) s.turn busy;
          empty = empty;
          shut = shut;
        })
        (ap (λ x. (run_moves (offerer_move pc) moves x).turn)
            (sym (offerer_misses pc s.turn (offerer_state_change Callbacks.failed) wins s busy))
          ∙ e),
  λ e.
      none_over (answerer_round pc) (answerer_move pc) moves t p (answerer_move-Hangs pc) quiet
        (record {
          goes_on = busy_goes_on (answerer_round pc) t.turn busy';
          empty = empty';
          shut = shut';
        })
        (ap (λ x. (run_moves (answerer_move pc) moves x).turn)
            (sym (answerer_misses pc t.turn (answerer_state_change Callbacks.failed) wins t busy'))
          ∙ e),
  refl,
  refl,
)
