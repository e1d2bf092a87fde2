-- ===== src/Rtc/Connect.antt =====
-- tunnel/src/rtc.rs: `connect`, from the opened signaling connection on.
use p2p_llm_tunnel.Prelude.{List, [], ◌∷◌, Bool, true, false, Option}
use p2p_llm_tunnel.Signaling.{IncomingSignal}
use p2p_llm_tunnel.Rtc.{RtcError, TurnConfig, PeerConnection}
use p2p_llm_tunnel.Rtc.Role.{
  Phase, joining, RoleStep, role, failed, phase, determine_role, left_signals,
}
use p2p_llm_tunnel.Rtc.Establish.{
  Event, signal, notified, pc_failed, Progress, establish_as_offerer, establish_as_answerer,
}

-- Still without a role, with an error before a role was settled, or in one of the two functions.
pub data Connecting : Type 0 where
  without_role : Phase → Connecting
  not_joined : RtcError → Connecting
  linking : Progress → Connecting

unfoldable pub with_role :
    PeerConnection → TurnConfig → Bool → List (Event × Bool) → RoleStep → Connecting
with_role pc turn received events (role true) = linking (establish_as_offerer pc turn events)
with_role pc turn received events (role false) =
    linking (establish_as_answerer pc turn received events)
with_role pc turn received events (failed e) = not_joined e
with_role pc turn received events (phase p) = without_role p

-- Which arm of `select!` a round of the second loop takes: `recv`, success or failure.
pub data Arm : Type 0 where
  recv success failure : Arm

-- The rounds of the second loop, given what is in the queue of signals. A `recv` on a queue that gets no
-- more signals waits.
unfoldable pub events_of : List (Option IncomingSignal) → List (Arm × Bool) → List (Event × Bool)
events_of queue [] = []
events_of queue ((success, b) ∷ rest) = (notified, b) ∷ events_of queue rest
events_of queue ((failure, b) ∷ rest) = (pc_failed, b) ∷ events_of queue rest
events_of [] ((recv, b) ∷ rest) = []
events_of (s ∷ queue) ((recv, b) ∷ rest) = (signal s, b) ∷ events_of queue rest

-- Both loops take from one queue: the second goes on with what the first has left. `received` says
-- whether a data channel has come in by the end of the answerer's loop.
unfoldable pub connect :
    PeerConnection
    → TurnConfig
    → Bool
    → List (Option IncomingSignal)
    → List (Arm × Bool)
    → Connecting
unfolding determine_role left_signals with_role events_of
connect pc turn received signals arms =
    with_role pc turn received (events_of (left_signals signals joining) arms)
      (determine_role signals joining)
