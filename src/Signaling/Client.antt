-- ===== src/Signaling/Client.antt =====
-- tunnel/src/signaling.rs: `SignalingClient`, its connection, its writer task, and what it does when it
-- is dropped. The WebSocket sink is a channel of texts that takes each or fails.
use p2p_llm_tunnel.Prelude.{
  List, [], ◌∷◌, ◌++◌, Bool, true, false, Option, none, some, Result, ok, err,
}
use p2p_llm_tunnel.Protocol.{Bytes}
use p2p_llm_tunnel.Channel.{Error, bad_json, Channel, Send, attempt, send, pure, fail, ◌>>◌}
use p2p_llm_tunnel.Signaling.{OutgoingSignal, join, bye, IncomingSignal}

-- The two queues of the client. `writer_alive` says whether the receiver of the first still is there.
pub record SignalingClient : Type 0 where
  pub queue : List OutgoingSignal
  pub received : List IncomingSignal
  pub writer_alive : Bool

unfoldable pub push : Bool → OutgoingSignal → SignalingClient → Bool × SignalingClient
push true msg client = (true, record client { queue = client.queue ++ msg ∷ [] })
push false msg client = (false, client)

-- `send`: whether the queue took the message.
unfoldable pub send_signal : OutgoingSignal → SignalingClient → Bool × SignalingClient
unfolding push
send_signal msg client = push client.writer_alive msg client

unfoldable pub take_signal :
    List IncomingSignal → SignalingClient → Option IncomingSignal × SignalingClient
take_signal [] client = (none, client)
take_signal (s ∷ rest) client = (some s, record client { received = rest })

-- `recv`, at the end of the reader task.
unfoldable pub recv : SignalingClient → Option IncomingSignal × SignalingClient
unfolding take_signal
recv client = take_signal client.received client

-- `Drop`: a last `Bye`, whose result is ignored.
unfoldable pub drop_client : SignalingClient → SignalingClient
unfolding send_signal
drop_client client = (send_signal bye client).1

unfoldable pub send_join : Option Bytes → Send (Unit {0})
send_join none = fail bad_json
send_join (some text) = send text

-- `connect`, from the opened WebSocket on: `join` is the first text. `to_json` is `serde_json::to_string`.
unfoldable pub connect :
    (OutgoingSignal → Option Bytes) → Bytes → List IncomingSignal → Send SignalingClient
unfolding send_join
connect to_json room received = do
  send_join (to_json (join room))
  pure (record { queue = []; received = received; writer_alive = true })

abbrev pub unless_closed : (Channel → Channel) → Bool × Channel → Channel
unless_closed rest (true, sink) = rest sink
unless_closed rest (false, sink) = sink

abbrev pub taken : Result Error Bool × Channel → Bool × Channel
taken (ok b, sink) = (b, sink)
taken (err e, sink) = (false, sink)

-- What the writer task does with one message, and then with the rest: one that does not serialize is
-- skipped, and a text that the sink does not take ends the task.
unfoldable pub write_one : Option Bytes → (Channel → Channel) → Channel → Channel
write_one none rest sink = rest sink
write_one (some text) rest sink = unless_closed rest (taken (attempt text sink))

unfoldable pub run_writer :
    (OutgoingSignal → Option Bytes) → List OutgoingSignal → Channel → Channel
unfolding write_one
run_writer to_json [] sink = sink
run_writer to_json (msg ∷ rest) sink = write_one (to_json msg) (run_writer to_json rest) sink
