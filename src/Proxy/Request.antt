-- ===== src/Proxy/Request.antt =====
-- tunnel/src/proxy.rs: `handle_proxy_request` up to the wait for the response: the checks, the stream
-- id, the registration, and the frames of the request.
use p2p_llm_tunnel.Prelude.{
  ℕ, zero, suc, ◌+◌, ◌%◌, ◌^◌, min, [], Bool, true, false, Option, none, some, Result, ok, HashMap,
  insert, remove, nat_eq, codes, ltb, if◌then◌else◌, length,
}
use p2p_llm_tunnel.Protocol.{Bytes, Serde, RequestHeaders, max_body_chunk}
use p2p_llm_tunnel.Protocol.Build.{req_headers, req_body, req_end}
use p2p_llm_tunnel.Protocol.Frame.{encode}
use p2p_llm_tunnel.Channel.{Channel, Error, stuck, Send, attempt, pure, fail, ◌>>=◌, ◌>>◌}
use p2p_llm_tunnel.Http.{Fields, collect_headers, slice}

-- `Request<Incoming>` of the crate hyper, with the outcome of reading its body.
pub record Incoming : Type 0 where
  pub method : Bytes
  pub path_and_query : Option Bytes
  pub fields : Fields
  pub collected : Option Bytes

-- A response whose body is one text.
pub record Full : Type 0 where
  pub status : ℕ
  pub content_type : Option Bytes
  pub text : Bytes

-- The state that the handlers share. A sender is the number of its channel.
pub record Proxy : Type 0 where
  pub tunnel_ready : Bool
  pub stream_counter : ℕ
  pub pending : HashMap ℕ ℕ
  pub channel : Channel

-- The request is answered at once, or waits for the events of its stream.
pub data Begun : Type 0 where
  answered : Full → Begun
  waiting : ℕ → Begun

abbrev pub not_ready : Full
not_ready = record {
  status = 503;
  content_type = some (codes "text/plain");
  text = codes "Tunnel not ready";
}

abbrev pub unreadable : Full
unreadable = record { status = 400; content_type = none; text = codes "Failed to read body" }

abbrev pub not_sent : Full
not_sent = record { status = 502; content_type = none; text = codes "Tunnel send failed" }

-- `if let Err(e) = dc.send(..).await { break; }`
abbrev pub unless_failed : Send (Unit {0}) → Bool → Send (Unit {0})
unless_failed more true = more
unless_failed more false = pure tt

-- `while offset < body.len()`: one `ReqBody` frame for each piece; a failed `send` ends the loop. The
-- fuel is the length of the body.
unfoldable pub send_pieces : ℕ → ℕ → Bytes → ℕ → Send (Unit {0})
send_pieces zero stream_id body offset = if ltb offset (length body) then fail stuck else pure tt
send_pieces (suc fuel) stream_id body offset = elim (ltb offset (length body)) [
  | false ↦ pure tt
  | true ↦
      let end = min (offset + max_body_chunk) (length body) in
      do
        sent ← attempt (encode (req_body stream_id (slice body offset end)))
        unless_failed (send_pieces fuel stream_id body end) sent
]

-- The frames behind the headers. The outcome of sending the end is only logged.
unfoldable pub send_rest : ℕ → Bytes → Send (Unit {0})
unfolding send_pieces
send_rest stream_id body = do
  send_pieces (length body) stream_id body 0
  attempt (encode (req_end stream_id)) >>= λ _. pure tt

unfoldable pub path_of : Option Bytes → Bytes
path_of none = codes "/"
path_of (some pq) = pq

unfoldable pub request_headers : Incoming → ℕ → RequestHeaders
unfolding path_of
request_headers req stream_id = record {
  stream_id = stream_id;
  method = req.method;
  path = path_of req.path_and_query;
  headers = collect_headers [] req.fields;
}

-- What follows the call of `send` for the headers, by its outcome.
unfoldable pub after_headers : ℕ → Bytes → Proxy → Result Error Bool × Channel → Proxy × Begun
unfolding send_rest
after_headers id body p (ok true, c) = (record p { channel = (send_rest id body c).1 }, waiting id)
after_headers id body p (_, c) =
    (record p { pending = remove p.pending id; channel = c }, answered not_sent)

unfoldable pub with_body : Serde → Incoming → ℕ → ℕ → Option Bytes → Proxy → Proxy × Begun
unfolding after_headers request_headers
with_body serde req id tx none p = (p, answered unreadable)
with_body serde req id tx (some body) p =
    let p' : Proxy = record p { pending = insert p.pending id tx } in
    after_headers id body p'
      (attempt (encode (req_headers serde (request_headers req id))) p.channel)

-- `tx` is the channel that is made for the events of this request.
unfoldable pub begin_request : Serde → Incoming → ℕ → Proxy → Proxy × Begun
unfolding with_body
begin_request serde req tx p =
    if p.tunnel_ready
    then with_body serde req p.stream_counter tx req.collected
        (record p { stream_counter = (p.stream_counter + 1) % 2 ^ 32 })
    else (p, answered not_ready)
