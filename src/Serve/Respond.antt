-- ===== src/Serve/Respond.antt =====
-- tunnel/src/serve.rs: `handle_request`, which forwards one request to the upstream and sends the
-- response back as frames.
use p2p_llm_tunnel.Prelude.{
  ℕ, zero, suc, ◌+◌, min, List, [], ◌∷◌, ◌++◌, true, false, Option, none, some, codes, ltb,
  if◌then◌else◌, length,
}
use p2p_llm_tunnel.Protocol.{Bytes, Serde, RequestHeaders, max_body_chunk}
use p2p_llm_tunnel.Protocol.Build.{res_headers, res_body, res_end, error}
use p2p_llm_tunnel.Protocol.Frame.{encode}
use p2p_llm_tunnel.Channel.{Send, pure, fail, send, ◌>>◌, stuck, bad_method}
use p2p_llm_tunnel.Http.{Fields, collect_headers, without_names, slice}
use p2p_llm_tunnel.Serve.Url.{build_upstream_url, is_empty}

-- What the code asks of reqwest, and what it can answer. An error shows as its text.
pub record HttpRequest : Type 0 where
  pub method : Bytes
  pub url : Bytes
  pub headers : List (Bytes × Bytes)
  pub body : Option Bytes

pub data Chunk : Type 0 where
  bytes : Bytes → Chunk
  broken : Bytes → Chunk

pub data Reply : Type 0 where
  refused : Bytes → Reply
  response : ℕ → Fields → List Chunk → Reply

-- The HTTP client, of the crate reqwest: `Method::from_str`, and `send` with the body stream that
-- follows.
pub record Client : Type 0 where
  pub parse_method : Bytes → Option Bytes
  pub execute : HttpRequest → Reply

abbrev pub hop_by_hop : List Bytes
hop_by_hop = codes "host" ∷ codes "connection" ∷ codes "transfer-encoding" ∷ []

unfoldable pub upstream_request : Bytes → Bytes → Bytes → RequestHeaders → Bytes → HttpRequest
upstream_request method upstream_url advertise_prefix h body = record {
  method = method;
  url = build_upstream_url upstream_url advertise_prefix h.path;
  headers = without_names hop_by_hop h.headers;
  body = if is_empty body then none else some body;
}

-- `while offset < chunk.len()`: one `ResBody` frame for each piece of the chunk. The fuel is the
-- length of the chunk, and each round goes on by a byte at least.
unfoldable pub send_pieces : ℕ → ℕ → Bytes → ℕ → Send (Unit {0})
send_pieces zero stream_id chunk offset = if ltb offset (length chunk) then fail stuck else pure tt
send_pieces (suc fuel) stream_id chunk offset = elim (ltb offset (length chunk)) [
  | false ↦ pure tt
  | true ↦
      let end = min (offset + max_body_chunk) (length chunk) in
      do
        send (encode (res_body stream_id (slice chunk offset end)))
        send_pieces fuel stream_id chunk end
]

-- `while let Some(chunk_result) = stream.next().await`
unfoldable pub stream_body : ℕ → List Chunk → Send (Unit {0})
unfolding send_pieces
stream_body stream_id [] = pure tt
stream_body stream_id (bytes chunk ∷ rest) = do
  send_pieces (length chunk) stream_id chunk 0
  stream_body stream_id rest
stream_body stream_id (broken e ∷ rest) =
    send (encode (error stream_id (codes "upstream error: " ++ e)))

unfoldable pub respond : Serde → ℕ → Reply → Send (Unit {0})
unfolding stream_body
respond serde stream_id (refused e) = do
  send (
      encode (
        res_headers serde (record {
          stream_id = stream_id;
          status = 502;
          headers = (codes "content-type", codes "text/plain") ∷ [];
        })))
  send (encode (res_body stream_id (codes "Bad Gateway: " ++ e)))
  send (encode (res_end stream_id))
respond serde stream_id (response status fields chunks) = do
  send (
      encode (
        res_headers serde
          (record { stream_id = stream_id; status = status; headers = collect_headers [] fields })))
  stream_body stream_id chunks
  send (encode (res_end stream_id))

-- `req_headers.method.parse()?`
unfoldable pub with_method : Option Bytes → (Bytes → Send (Unit {0})) → Send (Unit {0})
with_method none k = fail bad_method
with_method (some method) k = k method

unfoldable pub handle_request :
    Serde → Client → Bytes → Bytes → RequestHeaders → Bytes → Send (Unit {0})
unfolding respond with_method upstream_request
handle_request serde client upstream_url advertise_prefix h body =
    with_method (client.parse_method h.method) λ method.
      respond serde h.stream_id
        (client.execute (upstream_request method upstream_url advertise_prefix h body))
