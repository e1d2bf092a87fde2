-- ===== src/Serve/Stream.antt =====
-- The frames that `handle_request` of tunnel/src/serve.rs sends, for every reply of the upstream.
use p2p_llm_tunnel.Prelude.{
  ℕ, zero, suc, ◌+◌, ◌≤◌, min, ◌≡◌, refl, ap, ◌∙◌, List, [], ◌∷◌, ◌++◌, some, codes, concat, map,
  map-append, append_assoc, All, All-append, concat-append, length, drop, ltb, arith, Bool-cases,
  inl, inr, ltb→lt, ltb→le,
}
use p2p_llm_tunnel.Protocol.{Bytes, Serde, RequestHeaders, max_body_chunk, max_frame_size}
use p2p_llm_tunnel.Protocol.Build.{res_headers, res_body, res_end, error}
use p2p_llm_tunnel.Protocol.Frame.{encode, put_u32}
use p2p_llm_tunnel.Channel.Emits.{Emits, Emits-pure, Emits-send, Emits-bind}
use p2p_llm_tunnel.Http.{Fields, collect_headers, slice}
use p2p_llm_tunnel.Http.Laws.{IsPiece, drop-eq-nil, length-slice, slice-append-drop}
use p2p_llm_tunnel.Serve.Respond.{
  Chunk, bytes, broken, refused, response, Client, upstream_request, send_pieces, stream_body,
  handle_request,
}

abbrev pub body_frames : ℕ → List Bytes → List Bytes
body_frames id = map λ p. encode (res_body id p)

-- The bytes of the body that arrive before the upstream breaks off.
unfoldable pub body_of : List Chunk → Bytes
body_of [] = []
body_of (bytes b ∷ rest) = b ++ body_of rest
body_of (broken e ∷ rest) = []

-- The frame that reports that the upstream broke off, if it did.
unfoldable pub failure_frames : ℕ → List Chunk → List Bytes
failure_frames id [] = []
failure_frames id (bytes b ∷ rest) = failure_frames id rest
failure_frames id (broken e ∷ rest) = encode (error id (codes "upstream error: " ++ e)) ∷ []

send_pieces-Emits :
    (fuel id : ℕ) (chunk : Bytes) (offset : ℕ)
    → offset ≤ length chunk
    → length chunk ≤ offset + fuel
    → (ps : List Bytes) × Emits (send_pieces fuel id chunk offset) (body_frames id ps)
      × (concat ps ≡ drop offset chunk)
      × All IsPiece ps
unfolding send_pieces
send_pieces-Emits zero id chunk offset h k = elim (Bool-cases (ltb offset (length chunk))) [
  | inl more ↦ absurd (omega (arith, ltb→lt _ _ more))
  | inr done ↦ rw done ([], Emits-pure tt, drop-eq-nil chunk offset (ltb→le _ _ done), tt)
]
send_pieces-Emits (suc fuel) id chunk offset h k = elim (Bool-cases (ltb offset (length chunk))) [
  | inr done ↦
      rw (done, send_pieces) ([], Emits-pure tt, drop-eq-nil chunk offset (ltb→le _ _ done), tt)
  | inl more ↦
      let lt = ltb→lt offset (length chunk) more in
      let end = min (offset + max_body_chunk) (length chunk) in
      let (ps, emits, whole, pieces) =
        send_pieces-Emits fuel id chunk end (omega arith) (omega arith) in
      rw (more, send_pieces)
        (
          slice chunk offset end ∷ ps,
          Emits-bind (Emits-send _) (λ _. emits),
          ap (λ t. slice chunk offset end ++ t) whole
              ∙ slice-append-drop chunk offset end (omega arith),
          (
            (
              omega (arith, length-slice chunk offset end),
              omega (arith, length-slice chunk offset end),
            ),
            pieces,
          ),
        )
]

stream_body-Emits :
    (id : ℕ) (chunks : List Chunk)
    → (ps : List Bytes) × Emits
        (stream_body id chunks)
        (body_frames id ps ++ failure_frames id chunks)
      × (concat ps ≡ body_of chunks)
      × All IsPiece ps
unfolding stream_body body_of failure_frames
stream_body-Emits id [] = ([], Emits-pure tt, refl, tt)
stream_body-Emits id (broken e ∷ rest) = ([], Emits-send _, refl, tt)
stream_body-Emits id (bytes b ∷ rest) =
    let (ps, emits, whole, pieces) =
      send_pieces-Emits (length b) id b 0 (omega arith) (omega arith) in
    let (qs, emits', whole', pieces') = stream_body-Emits id rest in
    (
      ps ++ qs,
      rw (map-append, append_assoc) (Emits-bind emits (λ _. emits')),
      concat-append ps qs ∙ (rw (whole, whole')),
      All-append IsPiece ps qs pieces pieces',
    )

-- For a request that the upstream answers, `handle_request` sends a frame with the response headers
-- under the id of the request, then the body in pieces that are not empty and fit in a frame, then
-- an error frame if the upstream broke off, then the end frame. The pieces joined are the bytes
-- that the upstream sent. If a call of `send` fails, what was sent is a prefix of this; if none
-- does, it is all of it.
pub handle_request-Emits :
    (serde : Serde) (client : Client) (upstream_url prefix : Bytes) (h : RequestHeaders)
    (body : Bytes) (method : Bytes) (status : ℕ) (fields : Fields) (chunks : List Chunk)
    → client.parse_method h.method ≡ some method
    → client.execute (upstream_request method upstream_url prefix h body)
      ≡ response status fields chunks
    → (ps : List Bytes) × Emits (handle_request serde client upstream_url prefix h body) (
        encode (
            res_headers serde (record {
              stream_id = h.stream_id;
              status = status;
              headers = collect_headers [] fields;
            }))
          ∷ (body_frames h.stream_id ps ++ failure_frames h.stream_id chunks)
        ++ encode (res_end h.stream_id) ∷ [])
      × (concat ps ≡ body_of chunks)
      × All IsPiece ps
unfolding handle_request
handle_request-Emits serde client upstream_url prefix h body method status fields chunks p e =
    let (ps, emits, whole, pieces) = stream_body-Emits h.stream_id chunks in
    rw p (
      rw e
        (ps, Emits-bind (Emits-send _) (λ _. Emits-bind emits (λ _. Emits-send _)), whole, pieces))

-- If the upstream cannot be reached, the answer is a whole response with status 502, and a text that
-- names the error.
pub handle_request_refused :
    (serde : Serde) (client : Client) (upstream_url prefix : Bytes) (h : RequestHeaders)
    (body : Bytes) (method e : Bytes)
    → client.parse_method h.method ≡ some method
    → client.execute (upstream_request method upstream_url prefix h body) ≡ refused e
    → Emits (handle_request serde client upstream_url prefix h body) (
        encode (
          res_headers serde (record {
            stream_id = h.stream_id;
            status = 502;
            headers = (codes "content-type", codes "text/plain") ∷ [];
          }))
        ∷ encode (res_body h.stream_id (codes "Bad Gateway: " ++ e))
        ∷ encode (res_end h.stream_id)
        ∷ [])
unfolding handle_request
handle_request_refused serde client upstream_url prefix h body method e p q =
    rw p (rw q (Emits-bind (Emits-send _) (λ _. Emits-bind (Emits-send _) (λ _. Emits-send _))))

-- The frame of a piece stays within the largest frame.
piece_frame-le : (id : ℕ) (p : Bytes) → IsPiece p → length (encode (res_body id p)) ≤ max_frame_size
unfolding encode put_u32 res_body
piece_frame-le id p h = omega arith
