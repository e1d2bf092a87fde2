-- ===== src/Proxy/Router.antt =====
-- tunnel/src/proxy.rs: the response reader task of `run_proxy`, which routes the frames that arrive
-- to the channel of their stream. A sender is the number of its channel.
use p2p_llm_tunnel.Prelude.{
  ℕ, List, [], ◌∷◌, ◌++◌, Option, none, some, Result, ok, err, HashMap, get, insert, remove, nat_eq,
}
use p2p_llm_tunnel.Protocol.{
  Bytes, Serde, MessageType, ResponseHeaders, TunnelMessage, res_headers, res_body, res_end, error,
  ping,
}
use p2p_llm_tunnel.Protocol.Build
use p2p_llm_tunnel.Protocol.Frame.{DecodeError, encode, decode}
use p2p_llm_tunnel.Channel.{Channel, attempt}
use p2p_llm_tunnel.Proxy.Utf8.{from_utf8_lossy}

pub data StreamEvent : Type 0 where
  headers : ResponseHeaders → StreamEvent
  body : Bytes → StreamEvent
  failed : Bytes → StreamEvent
  end : StreamEvent

-- `PendingResponses`, what was sent on each channel so far, oldest first, and the data channel.
pub record Router : Type 0 where
  pub pending : HashMap ℕ ℕ
  pub delivered : List (ℕ × StreamEvent)
  pub channel : Channel

-- `tx.send(event)`, whose result is ignored, on a sender that was found.
unfoldable pub deliver : Option ℕ → StreamEvent → Router → Router
deliver none event r = r
deliver (some tx) event r = record r { delivered = r.delivered ++ (tx, event) ∷ [] }

-- The same with the sender taken out of the map.
unfoldable pub deliver_last : Option ℕ → ℕ → StreamEvent → Router → Router
deliver_last none id event r = r
deliver_last (some tx) id event r = record r {
  pending = remove r.pending id;
  delivered = r.delivered ++ (tx, event) ∷ [];
}

unfoldable pub on_res_headers : Option ResponseHeaders → Router → Router
unfolding deliver
on_res_headers none r = r
on_res_headers (some h) r = deliver (get r.pending h.stream_id) (headers h) r

unfoldable pub route : Serde → MessageType → TunnelMessage → Router → Router
unfolding on_res_headers deliver deliver_last
route serde res_headers m r = on_res_headers (serde.response_from_slice m.payload) r
route serde res_body m r = deliver (get r.pending m.stream_id) (body m.payload) r
route serde res_end m r = deliver_last (get r.pending m.stream_id) m.stream_id end r
route serde error m r =
    deliver_last (get r.pending m.stream_id) m.stream_id (failed (from_utf8_lossy m.payload)) r
route serde ping m r = record r { channel = (attempt (encode Build.pong) r.channel).1 }
route serde _ m r = r

unfoldable pub on_decoded : Serde → Result DecodeError TunnelMessage → Router → Router
unfolding route
on_decoded serde (err e) r = r
on_decoded serde (ok m) r = route serde m.msg_type m r

-- What changes the map: a frame that the reader takes from the data channel, and the requests that
-- enter and leave their sender (`handle_proxy_request`).
pub data Action : Type 0 where
  frame : Bytes → Action
  register : ℕ → ℕ → Action
  unregister : ℕ → Action

unfoldable pub act : Serde → Action → Router → Router
unfolding on_decoded
act serde (frame bytes) r = on_decoded serde (decode bytes) r
act serde (register id tx) r = record r { pending = insert r.pending id tx }
act serde (unregister id) r = record r { pending = remove r.pending id }

unfoldable pub run_reader : Serde → List Action → Router → Router
unfolding act
run_reader serde [] r = r
run_reader serde (a ∷ rest) r = run_reader serde rest (act serde a r)
