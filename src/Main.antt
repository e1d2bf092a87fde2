-- ===== src/Main.antt =====
-- tunnel/src/main.rs: `main`, from the parsed command line of tunnel/src/cli.rs on. What the
-- environment does during one attempt is an argument.
pub mod Ends
pub mod Up
use p2p_llm_tunnel.Prelude.{
  ℕ, List, [], ◌∷◌, Bool, true, false, Option, none, some, Result, ok, err,
}
use p2p_llm_tunnel.Protocol.{Bytes, Serde}
use p2p_llm_tunnel.Channel.{Channel, Error, setup_failed, Received, wait_ends}
use p2p_llm_tunnel.Signaling.{IncomingSignal}
use p2p_llm_tunnel.Rtc.{TurnConfig, PeerConnection}
use p2p_llm_tunnel.Rtc.Establish.{Negotiation, Progress, established, failed, waiting}
use p2p_llm_tunnel.Rtc.Connect.{Arm, Connecting, not_joined, linking, connect}
use p2p_llm_tunnel.Rtc.Connect
use p2p_llm_tunnel.Rtc.Role.{Phase}
use p2p_llm_tunnel.Serve.Run.{Server, Input, Outcome, run_serve}
use p2p_llm_tunnel.Proxy.Listen.{ListenEvent, Listening, run_proxy}
use p2p_llm_tunnel.Retry.{max_retries, Pause, Round, completed, ctrl_c, Trace, run_with_retry}
use p2p_llm_tunnel.Retry

-- `Command`, with the options of both subcommands in their order.
pub data Command : Type 0 where
  serve : Bytes → Bytes → Bytes → Bytes → TurnConfig → Command
  proxy : Bytes → Bytes → Bytes → TurnConfig → Command

abbrev pub turn_config : Command → TurnConfig
turn_config (serve signal room upstream advertise turn) = turn
turn_config (proxy signal room listen turn) = turn

-- One attempt of either side: the signaling connection, the peer connection, the rounds until the data
-- channel is there, the wait for it to open, the first message on it, and what arrives then.
pub record World : Type 0 where
  pub signaling_opens : Bool
  pub pc : PeerConnection
  pub has_channel : Bool
  pub signals : List (Option IncomingSignal)
  pub arms : List (Arm × Bool)
  pub already_open : Bool
  pub notified : Bool
  pub handshake : Received
  pub inputs : List Input
  pub bound : Bool
  pub connections : List ListenEvent
  pub channel : Channel

-- How far an attempt has come: in the loop that settles the role, in the one that connects, in the wait
-- for the data channel to open, in the loop of `run_serve` or in that of `run_proxy`, with the connections
-- that it has accepted; or it has returned.
pub data Stage : Type 0 where
  without_role : Phase → Stage
  negotiating : Negotiation → Stage
  opening : Stage
  serving : Server → Stage
  listening : List ℕ → Stage
  ended : Result Error (Unit {0}) → Stage

-- `none` is a future that is not ready.
abbrev pub Future : Type 0
Future = Option (Result Error (Unit {0}))

abbrev pub future_of : Stage → Future
future_of (ended r) = some r
future_of _ = none

abbrev pub serve_stage : Outcome → Stage
serve_stage (s, none) = serving s
serve_stage (s, some e) = ended (err e)

abbrev pub proxy_stage : Listening → Stage
proxy_stage (connections, none) = listening connections
proxy_stage (connections, some e) = ended (err e)

abbrev pub once_open : Bool → Stage → Stage
once_open true side = side
once_open false side = opening

-- `run_serve` or `run_proxy`, once `rtc::connect` has returned.
unfoldable pub run_side : Serde → Command → World → Stage
unfolding wait_ends
run_side serde (serve signal room upstream advertise turn) w =
    once_open (wait_ends w.already_open w.notified)
      (serve_stage (run_serve serde w.handshake w.inputs w.channel))
run_side serde (proxy signal room listen turn) w =
    once_open (wait_ends w.already_open w.notified)
      (proxy_stage (run_proxy serde w.handshake w.bound w.connections w.channel))

abbrev pub after_connect : Stage → Connecting → Stage
after_connect side (Connect.without_role p) = without_role p
after_connect side (not_joined e) = ended (err setup_failed)
after_connect side (linking (established n)) = side
after_connect side (linking (failed e)) = ended (err setup_failed)
after_connect side (linking (waiting n)) = negotiating n

abbrev pub when_reached : Bool → Stage → Stage
when_reached true stage = stage
when_reached false stage = ended (err setup_failed)

-- The future that `run_with_retry` makes, by what it has come to.
unfoldable pub stage_of : Serde → Command → World → Stage
unfolding run_side
stage_of serde cmd w = when_reached w.signaling_opens (
    after_connect (run_side serde cmd w)
      (connect w.pc (turn_config cmd) w.has_channel w.signals w.arms))

unfoldable pub run_once : Serde → Command → World → Future
unfolding stage_of
run_once serde cmd w = future_of (stage_of serde cmd w)

-- What ends a round: Ctrl+C, or the future; and the pause, where there is one.
pub data Attempt : Type 0 where
  interrupted : Attempt
  attempt : World → Pause → Attempt

abbrev pub round_ended : Pause → Future → Option Round
round_ended pause none = none
round_ended pause (some (ok done)) = some completed
round_ended pause (some (err e)) = some (Retry.failed e pause)

unfoldable pub round_of : Serde → Command → Attempt → Option Round
unfolding run_once
round_of serde cmd interrupted = some ctrl_c
round_of serde cmd (attempt w pause) = round_ended pause (run_once serde cmd w)

abbrev pub then_rounds : Option Round → List Round → List Round
then_rounds none rest = []
then_rounds (some r) rest = r ∷ rest

-- The rounds up to the first whose future is not ready.
unfoldable pub rounds_of : Serde → Command → List Attempt → List Round
unfolding round_of
rounds_of serde cmd [] = []
rounds_of serde cmd (a ∷ rest) = then_rounds (round_of serde cmd a) (rounds_of serde cmd rest)

unfoldable pub main : Serde → Command → List Attempt → Trace
unfolding rounds_of
main serde cmd attempts = run_with_retry max_retries (rounds_of serde cmd attempts) 0
