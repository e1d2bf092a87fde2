-- ===== src/Serve/Run.antt =====
-- tunnel/src/serve.rs: `run_serve`, from the handshake on. What the environment does is an argument:
-- how the wait for HELLO ends, and then which arm of `select!` is taken in each round.
use p2p_llm_tunnel.Prelude.{
  ℕ, List, [], ◌∷◌, ◌++◌, Bool, true, false, Option, none, some, Result, ok, err, map_err, HashMap,
  get, insert, remove, nat_eq,
}
use p2p_llm_tunnel.Protocol.{
  Bytes, Serde, MessageType, hello, req_headers, req_body, req_end, ping, Agree, RequestHeaders,
  TunnelMessage,
}
use p2p_llm_tunnel.Protocol.Build
use p2p_llm_tunnel.Protocol.Frame.{DecodeError, encode, decode}
use p2p_llm_tunnel.Protocol.Negotiate.{from_hello}
use p2p_llm_tunnel.Channel.{
  Channel, Error, bad_json, connection_failed, channel_closed, handshake_failed, Received, Send,
  receive_payload, parsed, lift, attempt, send, pure, ◌>>=◌, ◌>>◌,
}

-- The wait for HELLO, the choice of version and features, and the AGREE that is sent back.
unfoldable pub serve_handshake : Serde → Received → Send Agree
unfolding receive_payload
serve_handshake serde received = do
  payload ← lift (receive_payload hello received)
  h ← lift (parsed (serde.hello_from_slice payload))
  agreed ← lift (map_err (from_hello h) handshake_failed)
  send (encode (Build.agree serde agreed))
  pure agreed

abbrev pub Pending : Type 0
Pending = RequestHeaders × Bytes

-- The variables of the loop: the requests that are not yet complete, by stream id; the requests that
-- were handed to a task of their own, oldest first; whether the keepalive task runs; the channel.
pub record Server : Type 0 where
  pub pending_requests : HashMap ℕ Pending
  pub spawned : List Pending
  pub ping_task : Bool
  pub channel : Channel

-- The arms of `select!`.
pub data Input : Type 0 where
  disconnected : Input
  closed : Input
  message : Bytes → Input

-- A state, and the error with which the loop has returned.
abbrev pub Outcome : Type 0
Outcome = Server × Option Error

unfoldable pub on_req_headers : Option RequestHeaders → Server → Outcome
on_req_headers none s = (s, some bad_json)
on_req_headers (some h) s =
    (record s { pending_requests = insert s.pending_requests h.stream_id (h, []) }, none)

unfoldable pub on_req_body : Option Pending → ℕ → Bytes → Server → Outcome
on_req_body none id payload s = (s, none)
on_req_body (some (h, body)) id payload s =
    (record s { pending_requests = insert s.pending_requests id (h, body ++ payload) }, none)

unfoldable pub on_req_end : Option Pending → ℕ → Server → Outcome
on_req_end none id s = (s, none)
on_req_end (some r) id s = (
  record s { pending_requests = remove s.pending_requests id; spawned = s.spawned ++ r ∷ [] },
  none,
)

unfoldable pub dispatch : Serde → MessageType → TunnelMessage → Server → Outcome
unfolding on_req_headers on_req_body on_req_end
dispatch serde req_headers m s = on_req_headers (serde.request_from_slice m.payload) s
dispatch serde req_body m s =
    on_req_body (get s.pending_requests m.stream_id) m.stream_id m.payload s
dispatch serde req_end m s = on_req_end (get s.pending_requests m.stream_id) m.stream_id s
dispatch serde ping m s = (record s { channel = (attempt (encode Build.pong) s.channel).1 }, none)
dispatch serde _ m s = (s, none)

unfoldable pub on_decoded : Serde → Result DecodeError TunnelMessage → Server → Outcome
unfolding dispatch
on_decoded serde (err e) s = (s, none)
on_decoded serde (ok m) s = dispatch serde m.msg_type m s

-- One round of the loop.
unfoldable pub step : Serde → Input → Server → Outcome
unfolding on_decoded
step serde disconnected s = (record s { ping_task = false }, some connection_failed)
step serde closed s = (record s { ping_task = false }, some channel_closed)
step serde (message bytes) s = on_decoded serde (decode bytes) s

abbrev pub resume : (Server → Outcome) → Outcome → Outcome
resume k (s, none) = k s
resume k (s, some e) = (s, some e)

-- The rounds for the inputs at hand. With no error the loop waits for more.
unfoldable pub serve_loop : Serde → List Input → Server → Outcome
serve_loop serde [] s = (s, none)
serve_loop serde (i ∷ rest) s = resume (serve_loop serde rest) (step serde i s)

abbrev pub start : Bool → Channel → Server
start ping_task channel = record {
  pending_requests = [];
  spawned = [];
  ping_task = ping_task;
  channel = channel;
}

abbrev pub after_handshake : Serde → List Input → Result Error Agree × Channel → Outcome
after_handshake serde inputs (ok agreed, c) = serve_loop serde inputs (start true c)
after_handshake serde inputs (err e, c) = (start false c, some e)

unfoldable pub run_serve : Serde → Received → List Input → Channel → Outcome
unfolding serve_handshake serve_loop
run_serve serde received inputs c = after_handshake serde inputs (serve_handshake serde received c)
