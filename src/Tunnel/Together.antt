-- ===== src/Tunnel/Together.antt =====
-- The tasks that tunnel/src/serve.rs spawns for the requests answer them at the same time, over one
-- data channel.
use p2p_llm_tunnel.Prelude.{
  ℕ, ◌≡◌, ◌≢◌, refl, ap, List, [], ◌∷◌, ◌++◌, Bool, true, none, some, inl, inr, map, map-append,
  concat, All, All-append, nat_eq, arith, get, HashMap, codes, Option-cases,
}
use p2p_llm_tunnel.Protocol.{Bytes, Serde, IsU32, RequestHeaders, ResponseHeaders}
use p2p_llm_tunnel.Protocol.Build.{res_headers, res_body, res_end, error}
use p2p_llm_tunnel.Protocol.Frame.{encode}
use p2p_llm_tunnel.Protocol.RoundTrip.{decode-encode}
use p2p_llm_tunnel.Channel.{Channel, Send, fail, bad_method}
use p2p_llm_tunnel.Channel.Writes.{Emits-open}
use p2p_llm_tunnel.Http.{Fields, without_names}
use p2p_llm_tunnel.Http.Laws.{IsPiece}
use p2p_llm_tunnel.Serve.Respond.{
  Chunk, bytes, broken, Reply, refused, response, Client, upstream_request, handle_request,
}
use p2p_llm_tunnel.Serve.Stream.{
  body_frames, body_of, failure_frames, handle_request-Emits, handle_request_refused,
}
use p2p_llm_tunnel.Serve.Run.{Pending}
use p2p_llm_tunnel.Proxy.Router.{Router, Action, frame, run_reader}
use p2p_llm_tunnel.Proxy.Delivery.{action_events, events_of, Owns, IsForeign}
use p2p_llm_tunnel.Proxy.Answer.{
  Silence, HttpLibrary, streaming, all_accepted, hop_by_hop, status_or_bad_gateway, finish_request,
}
use p2p_llm_tunnel.Proxy.Client.{Stays}
use p2p_llm_tunnel.Tunnel.Woven.{Woven}
use p2p_llm_tunnel.Tunnel.Shuffle.{Interleaved, Interleaved-Among, Among-Woven}
use p2p_llm_tunnel.Tunnel.Response.{IsSilent, answered_headers, response_returns}

abbrev pub open_channel : Channel
open_channel = record { sent = []; outcomes = λ n. true; calls = 0 }

-- What one task sends if every call of `send` succeeds.
unfoldable pub frames_of : Serde → Client → Bytes → Bytes → Pending → List Bytes
frames_of serde client upstream_url prefix t =
    (handle_request serde client upstream_url prefix t.0 t.1 open_channel).1.sent

-- The JSON of response headers parses to headers with the same stream id.
abbrev pub ResponsesParse : Serde → Type 0
ResponsesParse serde =
    (h : ResponseHeaders)
    → (h' : ResponseHeaders) × (serde.response_from_slice (serde.response_to_vec h) ≡ some h')
      × (h'.stream_id ≡ h.stream_id)

-- An action that holds no event for any stream.
abbrev pub IsBackground : Serde → Action → Type 0
IsBackground serde a = (id : ℕ) → IsSilent serde id a

abbrev pub IsOtherTask : ℕ → Pending → Type 0
IsOtherTask id t = IsU32 t.0.stream_id × (t.0.stream_id ≢ id)

module _ (serde : Serde) (id k : ℕ) (fits : IsU32 k) (ne : k ≢ id) where
  headers-IsSilent :
      (h h' : ResponseHeaders)
      → h.stream_id ≡ k
      → h'.stream_id ≡ k
      → serde.response_from_slice (serde.response_to_vec h) ≡ some h'
      → IsSilent serde id (frame (encode (res_headers serde h)))
  unfolding action_events
  headers-IsSilent h h' e e' parses =
      rw (decode-encode (res_headers serde h) (unfold res_headers in omega arith))
        (unfold res_headers in rw parses (ground arith))

  body-IsSilent : (p : Bytes) → IsSilent serde id (frame (encode (res_body k p)))
  unfolding action_events
  body-IsSilent p =
      rw (decode-encode (res_body k p) (unfold res_body in fits)) (unfold res_body in ground arith)

  end-IsSilent : IsSilent serde id (frame (encode (res_end k)))
  unfolding action_events
  end-IsSilent =
      rw (decode-encode (res_end k) (unfold res_end in fits)) (unfold res_end in ground arith)

  error-IsSilent : (e : Bytes) → IsSilent serde id (frame (encode (error k e)))
  unfolding action_events
  error-IsSilent e =
      rw (decode-encode (error k e) (unfold error in fits)) (unfold error in ground arith)

  abbrev Quiet : List Bytes → Type 0
  Quiet = All (λ f. IsSilent serde id (frame f))

  bodies-IsSilent : (ps : List Bytes) → Quiet (body_frames k ps)
  bodies-IsSilent [] = tt
  bodies-IsSilent (p ∷ ps) = (body-IsSilent p, bodies-IsSilent ps)

  failure-IsSilent : (chunks : List Chunk) → Quiet (failure_frames k chunks)
  unfolding failure_frames
  failure-IsSilent [] = tt
  failure-IsSilent (bytes b ∷ rest) = failure-IsSilent rest
  failure-IsSilent (broken e ∷ rest) = (error-IsSilent _, tt)

module _ (serde : Serde) (json : ResponsesParse serde) (client : Client)
    (upstream_url prefix : Bytes) where
  reply-IsSilent :
      (id : ℕ) (h : RequestHeaders) (body method : Bytes) (reply : Reply)
      → IsOtherTask id (h, body)
      → client.parse_method h.method ≡ some method
      → client.execute (upstream_request method upstream_url prefix h body) ≡ reply
      → All
          (λ f. IsSilent serde id (frame f))
          (frames_of serde client upstream_url prefix (h, body))
  unfolding frames_of
  reply-IsSilent id h body method (refused e) (fits, ne) p q =
      let (h', parses, same) = json (record {
        stream_id = h.stream_id;
        status = 502;
        headers = (codes "content-type", codes "text/plain") ∷ [];
      }) in
      rw
        (Emits-open open_channel
          (handle_request_refused serde client upstream_url prefix h body method e p q) (λ n. refl))
        (
          headers-IsSilent serde id h.stream_id fits ne _ h' refl same parses,
          (
            body-IsSilent serde id h.stream_id fits ne _,
            (end-IsSilent serde id h.stream_id fits ne, tt),
          ),
        )
  reply-IsSilent id h body method (response status fields chunks) (fits, ne) p q =
      let k = h.stream_id in
      let (ps, emits, whole, pieces) =
        handle_request-Emits serde client upstream_url prefix h body method status fields chunks p
          q in
      let (h', parses, same) = json (answered_headers h status fields) in
      rw (Emits-open open_channel emits (λ n. refl)) (
        headers-IsSilent serde id k fits ne _ h' refl same parses,
        All-append _ (body_frames k ps ++ failure_frames k chunks) (encode (res_end k) ∷ [])
            (All-append _ (body_frames k ps) (failure_frames k chunks)
              (bodies-IsSilent serde id k fits ne ps) (failure-IsSilent serde id k fits ne chunks))
            (end-IsSilent serde id k fits ne, tt),
      )

  handle_request_unparsed :
      (h : RequestHeaders) (body : Bytes)
      → client.parse_method h.method ≡ none
      → handle_request serde client upstream_url prefix h body ≡ fail bad_method
  unfolding handle_request
  handle_request_unparsed h body e = rw e

  frames_of-none :
      (h : RequestHeaders) (body : Bytes)
      → client.parse_method h.method ≡ none
      → frames_of serde client upstream_url prefix (h, body) ≡ []
  unfolding frames_of
  frames_of-none h body e =
      ap (λ (m : Send (Unit {0})). (m open_channel).1.sent) (handle_request_unparsed h body e)

  frames_of-IsSilent :
      (id : ℕ) (t : Pending)
      → IsOtherTask id t
      → All (λ f. IsSilent serde id (frame f)) (frames_of serde client upstream_url prefix t)
  frames_of-IsSilent id (h, body) o = elim (Option-cases (client.parse_method h.method)) [
    | inl e ↦ rw (frames_of-none h body e) tt
    | inr (method, e) ↦ reply-IsSilent id h body method _ o e refl
  ]

  pub All-IsSilent :
      (id : ℕ) (ts : List Pending)
      → All (IsOtherTask id) ts
      → All
          (All (λ f. IsSilent serde id (frame f)))
          (map (frames_of serde client upstream_url prefix) ts)
  All-IsSilent id [] o = tt
  All-IsSilent id (t ∷ ts) o = (frames_of-IsSilent id t o.0, All-IsSilent id ts o.1)

  -- The server answers any number of requests at the same time, each in a task of its own, on a
  -- channel that takes every frame. However the frames of the tasks are interleaved, and mixed on
  -- arrival with frames that belong to no stream and with what other requests of the proxy do, the
  -- HTTP client of each request that the upstream answers gets the status and the headers of its own
  -- response, less the hop-by-hop ones, and pieces that are its own bytes in order, and its sender has
  -- left the map. The other tasks may fail in any way. Their stream ids are different, all fit in 32
  -- bits, the JSON of response headers parses to headers with the same id, the client stays and the
  -- response builder accepts the headers.
  pub responses_return_together :
      (before after : List Pending) (h : RequestHeaders) (request_body method : Bytes) (status : ℕ)
      (fields : Fields) (chunks : List Chunk) (out : List Bytes) (actions : List Action)
      (r : Router) (tx : ℕ) (http : HttpLibrary) (takes : ℕ → Bool) (silence : Silence)
      (senders : HashMap ℕ ℕ)
      → IsU32 h.stream_id
      → All (IsOtherTask h.stream_id) before
      → All (IsOtherTask h.stream_id) after
      → client.parse_method h.method ≡ some method
      → client.execute (upstream_request method upstream_url prefix h request_body)
        ≡ response status fields chunks
      → Interleaved
          (map (frames_of serde client upstream_url prefix) (before ++ (h, request_body) ∷ after))
          out
      → Woven (λ f. frame f) (IsBackground serde) out actions
      → Owns h.stream_id tx r
      → get r.pending h.stream_id ≡ some tx
      → All (IsForeign h.stream_id tx) actions
      → events_of tx r ≡ []
      → Stays takes
      → let h' = (json (answered_headers h status fields)).0 in
        all_accepted http (without_names hop_by_hop h'.headers) ≡ true
        → let after = run_reader serde actions r in
          let h' = (json (answered_headers h status fields)).0 in
          (ps : List Bytes) × (finish_request http takes h.stream_id
              (events_of tx after)
              silence
              senders
            ≡ (
              senders,
              streaming
                  (status_or_bad_gateway (http.status_from_u16 h'.status))
                  (without_names hop_by_hop h'.headers)
                  ps,
            ))
          × (concat ps ≡ body_of chunks)
          × All IsPiece ps
          × (get after.pending h.stream_id ≡ none)
  unfolding frames_of
  responses_return_together before after h request_body method status fields chunks out actions r tx
        http takes silence senders fits others_before others_after parses_method answers mixed woven
        owns here foreign fresh stays accepted =
      let id = h.stream_id in
      let (h', parses, same) = json (answered_headers h status fields) in
      let frames = frames_of serde client upstream_url prefix in
      let mixed' : Interleaved (map frames before ++ frames (h, request_body) ∷ map frames after)
          out =
        rw map-append at mixed in
      let own =
        Interleaved-Among (λ f. IsSilent serde id (frame f)) (map frames before) (map frames after)
          mixed' (All-IsSilent id before others_before) (All-IsSilent id after others_after) in
      response_returns serde client upstream_url prefix h request_body method status fields chunks
        open_channel (frames (h, request_body)) actions r tx h' http takes silence senders
        parses_method answers (λ n. refl) fits parses same refl
        (Among-Woven (λ f. frame f) (IsSilent serde id) (IsBackground serde) (λ a q. q id) own
          woven)
        owns here foreign fresh stays accepted
