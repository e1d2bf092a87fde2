-- ===== src/Protocol/Build.antt =====
-- tunnel/src/protocol.rs: the convenience constructors of `TunnelMessage`, and `Hello::new`.
use p2p_llm_tunnel.Prelude.{ℕ, [], ◌∷◌, codes}
use p2p_llm_tunnel.Protocol.{
  Bytes, MessageType, Hello, Agree, RequestHeaders, ResponseHeaders, TunnelMessage, Serde,
  protocol_version, protocol_name,
}

unfoldable pub new_hello : Hello
new_hello = record {
  proto = protocol_name;
  min_version = 1;
  max_version = protocol_version;
  features = codes "sse" ∷ [];
}

unfoldable pub hello : Serde → Hello → TunnelMessage
hello s h = record { msg_type = MessageType.hello; stream_id = 0; payload = s.hello_to_vec h }

unfoldable pub agree : Serde → Agree → TunnelMessage
agree s a = record { msg_type = MessageType.agree; stream_id = 0; payload = s.agree_to_vec a }

unfoldable pub req_headers : Serde → RequestHeaders → TunnelMessage
req_headers s h = record {
  msg_type = MessageType.req_headers;
  stream_id = h.stream_id;
  payload = s.request_to_vec h;
}

unfoldable pub req_body : ℕ → Bytes → TunnelMessage
req_body id bytes = record { msg_type = MessageType.req_body; stream_id = id; payload = bytes }

unfoldable pub req_end : ℕ → TunnelMessage
req_end id = record { msg_type = MessageType.req_end; stream_id = id; payload = [] }

unfoldable pub res_headers : Serde → ResponseHeaders → TunnelMessage
res_headers s h = record {
  msg_type = MessageType.res_headers;
  stream_id = h.stream_id;
  payload = s.response_to_vec h;
}

unfoldable pub res_body : ℕ → Bytes → TunnelMessage
res_body id bytes = record { msg_type = MessageType.res_body; stream_id = id; payload = bytes }

unfoldable pub res_end : ℕ → TunnelMessage
res_end id = record { msg_type = MessageType.res_end; stream_id = id; payload = [] }

unfoldable pub error : ℕ → Bytes → TunnelMessage
error id msg = record { msg_type = MessageType.error; stream_id = id; payload = msg }

unfoldable pub ping : TunnelMessage
ping = record { msg_type = MessageType.ping; stream_id = 0; payload = [] }

unfoldable pub pong : TunnelMessage
pong = record { msg_type = MessageType.pong; stream_id = 0; payload = [] }
