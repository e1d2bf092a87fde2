-- ===== src/Tunnel/Termination.antt =====
-- The loops that cut bodies into frames, on both sides, come to their end.
use p2p_llm_tunnel.Prelude.{
  ℕ, zero, suc, ◌+◌, ◌≤◌, min, ◌≢◌, Bool, true, false, List, [], ◌∷◌, Option, none, some, err, inl,
  inr, length, ltb, ltb→lt, arith, Bool-cases,
}
use p2p_llm_tunnel.Protocol.{Bytes, Serde, RequestHeaders, max_body_chunk}
use p2p_llm_tunnel.Channel.{Channel, Send, stuck}
use p2p_llm_tunnel.Channel.Total.{
  IsTotal, IsTotal-pure, IsTotal-fail, IsTotal-attempt, IsTotal-send, IsTotal-bind,
}
use p2p_llm_tunnel.Serve.Respond.{
  Chunk, bytes, broken, Reply, refused, response, Client, stream_body, respond, with_method,
  handle_request,
}
use p2p_llm_tunnel.Serve.Respond
use p2p_llm_tunnel.Proxy.Request.{unless_failed, send_rest}
use p2p_llm_tunnel.Proxy.Request

served_pieces :
    (fuel id : ℕ) (chunk : Bytes) (offset : ℕ)
    → length chunk ≤ offset + fuel
    → IsTotal (Respond.send_pieces fuel id chunk offset)
unfolding Respond.send_pieces
served_pieces zero id chunk offset h = elim (Bool-cases (ltb offset (length chunk))) [
  | inl more ↦ absurd (omega (arith, ltb→lt _ _ more))
  | inr done ↦ rw done (IsTotal-pure tt)
]
served_pieces (suc fuel) id chunk offset h = elim (Bool-cases (ltb offset (length chunk))) [
  | inr done ↦ rw (done, Respond.send_pieces) (IsTotal-pure tt)
  | inl more ↦
      let lt = ltb→lt offset (length chunk) more in
      let end = min (offset + max_body_chunk) (length chunk) in
      let rest = served_pieces fuel id chunk end (omega arith) in
      rw (more, Respond.send_pieces) (IsTotal-bind (IsTotal-send _) (λ _. rest))
]

served_body : (id : ℕ) (chunks : List Chunk) → IsTotal (stream_body id chunks)
unfolding stream_body
served_body id [] = IsTotal-pure tt
served_body id (bytes chunk ∷ rest) =
    IsTotal-bind (served_pieces (length chunk) id chunk 0 (omega arith)) (λ _. served_body id rest)
served_body id (broken e ∷ rest) = IsTotal-send _

served_reply : (serde : Serde) (id : ℕ) (reply : Reply) → IsTotal (respond serde id reply)
unfolding respond
served_reply serde id (refused e) =
    IsTotal-bind (IsTotal-send _) (λ _. IsTotal-bind (IsTotal-send _) (λ _. IsTotal-send _))
served_reply serde id (response status fields chunks) =
    IsTotal-bind (IsTotal-send _) (λ _. IsTotal-bind (served_body id chunks) (λ _. IsTotal-send _))

served_method :
    (method : Option Bytes) {k : Bytes → Send (Unit {0})}
    → ((m : Bytes) → IsTotal (k m))
    → IsTotal (with_method method k)
unfolding with_method
served_method none h = IsTotal-fail (λ e. cc)
served_method (some m) h = h m

requested_pieces :
    (fuel id : ℕ) (body : Bytes) (offset : ℕ)
    → length body ≤ offset + fuel
    → IsTotal (Request.send_pieces fuel id body offset)
unfolding Request.send_pieces
requested_pieces zero id body offset h = elim (Bool-cases (ltb offset (length body))) [
  | inl more ↦ absurd (omega (arith, ltb→lt _ _ more))
  | inr done ↦ rw done (IsTotal-pure tt)
]
requested_pieces (suc fuel) id body offset h = elim (Bool-cases (ltb offset (length body))) [
  | inr done ↦ rw (done, Request.send_pieces) (IsTotal-pure tt)
  | inl more ↦
      let lt = ltb→lt offset (length body) more in
      let end = min (offset + max_body_chunk) (length body) in
      let rest = requested_pieces fuel id body end (omega arith) in
      rw (more, Request.send_pieces) (IsTotal-bind (IsTotal-attempt _) (λ sent. unless sent rest))
]
  where
    unless : (b : Bool) {m : Send (Unit {0})} → IsTotal m → IsTotal (unless_failed m b)
    unless true h = h
    unless false h = IsTotal-pure tt

-- Whatever the upstream answers, however long the bodies are and whichever calls of `send` fail, the
-- sending of a response and the sending of a request's body both come to an end: neither runs out of
-- the fuel that its loop is given.
pub loops_end :
    (serde : Serde) (client : Client) (upstream_url prefix : Bytes) (h : RequestHeaders)
    (request_body : Bytes) (id : ℕ) (body : Bytes) (c : Channel)
    → ((handle_request serde client upstream_url prefix h request_body c).0 ≢ err stuck)
      × ((send_rest id body c).0 ≢ err stuck)
unfolding handle_request send_rest
loops_end serde client upstream_url prefix h request_body id body c = (
  (served_method (client.parse_method h.method) (λ m. served_reply serde h.stream_id _)).ends c,
  (IsTotal-bind (requested_pieces (length body) id body 0 (omega arith))
        (λ _. IsTotal-bind (IsTotal-attempt _) (λ _. IsTotal-pure tt))).ends
      c,
)
