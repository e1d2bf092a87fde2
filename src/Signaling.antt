-- ===== src/Signaling.antt =====
-- tunnel/src/signaling.rs: the messages to and from the signaling server, and the reader task.
pub mod Reader
pub mod Client
pub mod Writer
use p2p_llm_tunnel.Prelude.{List, [], ◌∷◌, Option, none, some}
use p2p_llm_tunnel.Protocol.{Bytes}

pub data OutgoingSignal : Type 0 where
  join : Bytes → OutgoingSignal
  offer : Bytes → OutgoingSignal
  answer : Bytes → OutgoingSignal
  candidate : Bytes → OutgoingSignal
  bye : OutgoingSignal

-- Each but `error` begins with the id of the peer that it is about.
pub data IncomingSignal : Type 0 where
  joined : Bytes → List Bytes → IncomingSignal
  peer_joined : Bytes → IncomingSignal
  offer : Bytes → Bytes → IncomingSignal
  answer : Bytes → Bytes → IncomingSignal
  candidate : Bytes → Bytes → IncomingSignal
  peer_left : Bytes → IncomingSignal
  error : Bytes → IncomingSignal

-- What the WebSocket stream yields: an item of `Message`, or an error.
pub data WsItem : Type 0 where
  text : Bytes → WsItem
  close : WsItem
  failure : WsItem
  other : WsItem

-- The signals that the reader task passes on before it ends. `parse` is `serde_json::from_str` at
-- `IncomingSignal`; the receiver is there as long as the client is.
unfoldable pub pass_on : Option IncomingSignal → List IncomingSignal → List IncomingSignal
pass_on none rest = rest
pass_on (some signal) rest = signal ∷ rest

unfoldable pub read_signals : (Bytes → Option IncomingSignal) → List WsItem → List IncomingSignal
unfolding pass_on
read_signals parse [] = []
read_signals parse (text t ∷ rest) = pass_on (parse t) (read_signals parse rest)
read_signals parse (close ∷ rest) = []
read_signals parse (failure ∷ rest) = []
read_signals parse (other ∷ rest) = read_signals parse rest
