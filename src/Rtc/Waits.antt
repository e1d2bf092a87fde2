-- ===== src/Rtc/Waits.antt =====
-- tunnel/src/rtc.rs: the loops of the two `establish` functions beside the callbacks that wake them.
-- `recv` waits on a queue; `notified()` of the crate tokio wakes only if the loop waits in `select!`
-- when `notify_waiters` is called, and a notification that comes at another time is not kept.
pub mod Rounds
pub mod Kept
pub mod Lost
use p2p_llm_tunnel.Prelude.{List, [], ◌∷◌, ◌++◌, Bool, true, false, Option, none, some}
use p2p_llm_tunnel.Protocol.{Bytes}
use p2p_llm_tunnel.Signaling.{IncomingSignal}
use p2p_llm_tunnel.Rtc.{PeerConnection}
use p2p_llm_tunnel.Rtc.Establish.{
  Negotiation, Event, signal, notified, pc_failed, Progress, waiting, offerer_round, answerer_round,
}
use p2p_llm_tunnel.Rtc.Callbacks.{PeerConnectionState, offerer_state_change, answerer_state_change}

-- Where the loop is: in `select!`, in the arm for a signal, in the wait for the data channel that the
-- offerer's arm for success begins with, or at its end.
pub data Turn : Type 0 where
  choosing : Negotiation → Turn
  handling : Option IncomingSignal → Negotiation → Turn
  polling : Negotiation → Turn
  over : Progress → Turn

-- The signals that wait in the queue, whether there is an open data channel, and the rounds that are
-- over, oldest first, each with whether the data channel was open at its end.
pub record Waits : Type 0 where
  pub turn : Turn
  pub queue : List (Option IncomingSignal)
  pub is_open : Bool
  pub log : List (Event × Bool)

-- What happens next. A notification says whether `select!` takes its arm if it is waiting, since another
-- arm may be ready too.
pub data Move : Type 0 where
  arrives : Option IncomingSignal → Move
  takes : Move
  finishes : Move
  opens : Bool → Move
  changes : PeerConnectionState → Bool → Move

abbrev pub settle : Progress → Turn
settle (waiting n) = choosing n
settle p = over p

-- A round is over.
unfoldable pub complete :
    (Event × Bool → Negotiation → Progress) → Event → Bool → Negotiation → Waits → Waits
complete round e is_open n s = record s {
  turn = settle (round (e, is_open) n);
  log = s.log ++ (e, is_open) ∷ [];
}

unfoldable pub take_next : Turn → List (Option IncomingSignal) → Waits → Waits
take_next (choosing n) (sig ∷ rest) s = record s { turn = handling sig n; queue = rest }
take_next _ _ s = s

unfoldable pub finish : (Event × Bool → Negotiation → Progress) → Turn → Waits → Waits
unfolding complete
finish round (handling sig n) s = complete round (signal sig) s.is_open n s
finish round (polling n) s = complete round notified s.is_open n s
finish round _ s = s

-- The offerer's arms for notifications: a failure ends the loop, and success begins the poll.
unfoldable pub offerer_wakes : PeerConnection → Turn → Option Event → Bool → Waits → Waits
unfolding complete
offerer_wakes pc (choosing n) (some notified) true s = record s { turn = polling n }
offerer_wakes pc (choosing n) (some pc_failed) true s =
    complete (offerer_round pc) pc_failed s.is_open n s
offerer_wakes pc _ _ _ s = s

unfoldable pub offerer_move : PeerConnection → Move → Waits → Waits
unfolding take_next finish offerer_wakes
offerer_move pc (arrives sig) s = record s { queue = s.queue ++ sig ∷ [] }
offerer_move pc takes s = take_next s.turn s.queue s
offerer_move pc finishes s = finish (offerer_round pc) s.turn s
offerer_move pc (opens wins) s = record s { is_open = true }
offerer_move pc (changes state wins) s = offerer_wakes pc s.turn (offerer_state_change state) wins s

-- The answerer's: `dc_opened`, and a failure.
unfoldable pub answerer_wakes : PeerConnection → Turn → Option Event → Bool → Waits → Waits
unfolding complete
answerer_wakes pc (choosing n) (some e) true s = complete (answerer_round pc) e s.is_open n s
answerer_wakes pc _ _ _ s = s

unfoldable pub answerer_move : PeerConnection → Move → Waits → Waits
unfolding take_next finish answerer_wakes
answerer_move pc (arrives sig) s = record s { queue = s.queue ++ sig ∷ [] }
answerer_move pc takes s = take_next s.turn s.queue s
answerer_move pc finishes s = finish (answerer_round pc) s.turn s
answerer_move pc (opens wins) s =
    answerer_wakes pc s.turn (some notified) wins (record s { is_open = true })
answerer_move pc (changes state wins) s =
    answerer_wakes pc s.turn (answerer_state_change state) wins s

unfoldable pub run_moves : (Move → Waits → Waits) → List Move → Waits → Waits
run_moves move [] s = s
run_moves move (m ∷ rest) s = run_moves move rest (move m s)

-- The loop before its first round.
abbrev pub entering : Negotiation → Waits
entering n = record { turn = choosing n; queue = []; is_open = false; log = [] }
