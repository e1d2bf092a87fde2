-- ===== src/Proxy/Upload.antt =====
-- The frames that `handle_proxy_request` of tunnel/src/proxy.rs sends for a request.
use p2p_llm_tunnel.Prelude.{
  ℕ, zero, suc, ◌+◌, ◌≤◌, min, ◌≡◌, refl, ap, ◌∙◌, List, [], ◌∷◌, ◌++◌, true, none, some, inl, inr,
  concat, map, All, length, drop, ltb, arith, Bool-cases, ltb→lt, ltb→le, get, insert, get-insert,
  get-remove, nat_eq, ◌==◌, if◌then◌else◌, append_assoc,
}
use p2p_llm_tunnel.Protocol.{Bytes, Serde, max_body_chunk}
use p2p_llm_tunnel.Protocol.Build.{req_headers, req_body, req_end}
use p2p_llm_tunnel.Protocol.Frame.{encode}
use p2p_llm_tunnel.Channel.{Channel, attempt, pure, ◌>>=◌, IsOpen}
use p2p_llm_tunnel.Channel.Writes.{Writes, Writes-pure, Writes-attempt, Writes-bind}
use p2p_llm_tunnel.Http.{slice}
use p2p_llm_tunnel.Http.Laws.{length-slice, slice-append-drop, drop-eq-nil, IsPiece}
use p2p_llm_tunnel.Proxy.Request.{
  Full, Incoming, Proxy, answered, waiting, unless_failed, send_pieces, send_rest, request_headers,
  begin_request,
}

abbrev pub body_frames : ℕ → List Bytes → List Bytes
body_frames id = map λ p. encode (req_body id p)

send_pieces-Writes :
    (fuel id : ℕ) (body : Bytes) (offset : ℕ)
    → offset ≤ length body
    → length body ≤ offset + fuel
    → (ps : List Bytes) × Writes (send_pieces fuel id body offset) tt (body_frames id ps)
      × (concat ps ≡ drop offset body)
      × All IsPiece ps
unfolding send_pieces
send_pieces-Writes zero id body offset h k = elim (Bool-cases (ltb offset (length body))) [
  | inl more ↦ absurd (omega (arith, ltb→lt _ _ more))
  | inr done ↦ rw done ([], Writes-pure tt, drop-eq-nil body offset (ltb→le _ _ done), tt)
]
send_pieces-Writes (suc fuel) id body offset h k = elim (Bool-cases (ltb offset (length body))) [
  | inr done ↦
      rw (done, send_pieces) ([], Writes-pure tt, drop-eq-nil body offset (ltb→le _ _ done), tt)
  | inl more ↦
      let lt = ltb→lt offset (length body) more in
      let end = min (offset + max_body_chunk) (length body) in
      let (ps, writes, whole, pieces) =
        send_pieces-Writes fuel id body end (omega arith) (omega arith) in
      rw (more, send_pieces)
        (
          slice body offset end ∷ ps,
          Writes-bind (unless_failed _) (Writes-attempt _) writes,
          ap (λ t. slice body offset end ++ t) whole
              ∙ slice-append-drop body offset end (omega arith),
          (
            (
              omega (arith, length-slice body offset end),
              omega (arith, length-slice body offset end),
            ),
            pieces,
          ),
        )
]

pub send_rest-Writes :
    (id : ℕ) (body : Bytes)
    → (ps : List Bytes) × Writes
        (send_rest id body)
        tt
        (body_frames id ps ++ encode (req_end id) ∷ [])
      × (concat ps ≡ body)
      × All IsPiece ps
unfolding send_rest
send_rest-Writes id body =
    let (ps, writes, whole, pieces) =
      send_pieces-Writes (length body) id body 0 (omega arith) (omega arith) in
    (
      ps,
      Writes-bind (λ _. attempt (encode (req_end id)) >>= λ _. pure tt) writes
          (Writes-bind (λ _. pure tt) (Writes-attempt (encode (req_end id))) (Writes-pure tt)),
      whole,
      pieces,
    )

-- On a channel that takes every frame, a request whose body could be read is sent as a headers frame
-- under the next stream id, the body in pieces that are not empty and fit in a frame, and an end
-- frame. The pieces joined are the body. The request then waits under its id, with its sender in the
-- map beside those that were there.
pub begin_request_sends :
    (serde : Serde) (req : Incoming) (tx : ℕ) (p : Proxy) (body : Bytes)
    → p.tunnel_ready ≡ true
    → req.collected ≡ some body
    → IsOpen p.channel
    → let id = p.stream_counter in
      let q = begin_request serde req tx p in
      (ps : List Bytes) × (q.1 ≡ waiting id)
      × (q.0.channel.sent
          ≡ p.channel.sent
            ++ (encode (req_headers serde (request_headers req id))
                ∷ (body_frames id ps ++ encode (req_end id) ∷ [])))
      × (concat ps ≡ body)
      × All IsPiece ps
      × ((k : ℕ) → get q.0.pending k ≡ (if id == k then some tx else get p.pending k))
unfolding begin_request attempt
begin_request_sends serde req tx p body ready read open_channel =
    let id = p.stream_counter in
    let (ps, writes, whole, pieces) = send_rest-Writes id body in
    let first = encode (req_headers serde (request_headers req id)) in
    let c : Channel = record p.channel {
      sent = p.channel.sent ++ first ∷ [];
      calls = suc p.channel.calls;
    } in
    let rest = writes.on_open c open_channel in
    rw (ready, read, open_channel p.channel.calls)
      (
        ps,
        refl,
        rest.record_of_sent
            ∙ append_assoc p.channel.sent (first ∷ [])
                (body_frames id ps ++ encode (req_end id) ∷ []),
        whole,
        pieces,
        λ k. get-insert p.pending id tx k,
      )

-- A request that is answered at once, because the tunnel is not ready, its body cannot be read or its
-- headers cannot be sent, leaves the map of senders as it was, if its id was not in use.
pub begin_request-answered :
    (serde : Serde) (req : Incoming) (tx : ℕ) (p : Proxy) {a : Full}
    → (begin_request serde req tx p).1 ≡ answered a
    → get p.pending p.stream_counter ≡ none
    → (k : ℕ) → get (begin_request serde req tx p).0.pending k ≡ get p.pending k
unfolding begin_request attempt
begin_request-answered serde req tx p e fresh k = ground (
  arith,
  get-remove (insert p.pending p.stream_counter tx) p.stream_counter k,
  get-insert p.pending p.stream_counter tx k,
)
