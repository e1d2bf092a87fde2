-- ===== src/Tunnel/Requests.antt =====
-- The handlers of tunnel/src/proxy.rs send their requests at the same time, over one data channel.
use p2p_llm_tunnel.Prelude.{
  ℕ, ◌≡◌, ◌≢◌, refl, sym, ap, ◌∙◌, List, [], ◌∷◌, ◌++◌, true, none, some, inl, inr, map, map-append,
  All, All-append, nat_eq, arith, get, Option-cases,
}
use p2p_llm_tunnel.Protocol.{Bytes, Serde, IsU32, RequestHeaders, MessageType, TunnelMessage}
use p2p_llm_tunnel.Protocol.Build.{req_headers, req_body, req_end}
use p2p_llm_tunnel.Protocol.Frame.{encode}
use p2p_llm_tunnel.Protocol.RoundTrip.{decode-encode}
use p2p_llm_tunnel.Proxy.Request.{Incoming, Proxy, request_headers, begin_request}
use p2p_llm_tunnel.Proxy.Upload.{body_frames, begin_request_sends}
use p2p_llm_tunnel.Serve.Run.{Server, Input, message, serve_loop}
use p2p_llm_tunnel.Serve.Keyed.{IsKeyed}
use p2p_llm_tunnel.Serve.Assembly.{part_of, tasks_of}
use p2p_llm_tunnel.Serve.Requests.{IsHarmless}
use p2p_llm_tunnel.Tunnel.Woven.{Woven, done, ours, other}
use p2p_llm_tunnel.Tunnel.Shuffle.{Interleaved, Interleaved-All, Interleaved-Among, Among-Woven}
use p2p_llm_tunnel.Tunnel.Request.{IsSilent, request_arrives}
use p2p_llm_tunnel.Tunnel.Together.{open_channel}

-- A request of an HTTP client, with the stream id that it gets.
abbrev pub Sending : Type 0
Sending = Incoming × ℕ

abbrev pub sender : ℕ → Proxy
sender id = record {
  tunnel_ready = true;
  stream_counter = id;
  pending = [];
  channel = open_channel;
}

-- What one handler sends if every call of `send` succeeds.
unfoldable pub request_frames : Serde → Sending → List Bytes
request_frames serde (req, id) = (begin_request serde req 0 (sender id)).0.channel.sent

-- The JSON of request headers parses to headers with the same stream id.
abbrev pub RequestsParse : Serde → Type 0
RequestsParse serde =
    (h : RequestHeaders)
    → (h' : RequestHeaders) × (serde.request_from_slice (serde.request_to_vec h) ≡ some h')
      × (h'.stream_id ≡ h.stream_id)

-- An input that has no part in any stream and does not end the loop.
abbrev pub IsIdle : Serde → Input → Type 0
IsIdle serde i = ((id : ℕ) → IsSilent serde id i) × IsHarmless serde i

abbrev pub IsOtherRequest : ℕ → Sending → Type 0
IsOtherRequest id t = IsU32 t.1 × (t.1 ≢ id)

pub Woven-All :
    {I : Type 0} (arrives : Bytes → I) (Q P : I → Type 0) {fs : List Bytes} {inputs : List I}
    → ((i : I) → Q i → P i)
    → Woven arrives Q fs inputs
    → All (λ f. P (arrives f)) fs
    → All P inputs
Woven-All arrives Q P h done a = tt
Woven-All arrives Q P h (ours w) a = (a.0, Woven-All arrives Q P h w a.1)
Woven-All arrives Q P h (other i q w) a = (h i q, Woven-All arrives Q P h w a)

module _ (serde : Serde) (P : Bytes → Type 0) (k : ℕ)
    (bodies : (b : Bytes) → P (encode (req_body k b))) (last : P (encode (req_end k))) where
  body_frames-All : (ps : List Bytes) → All P (body_frames k ps)
  body_frames-All [] = tt
  body_frames-All (b ∷ ps) = (bodies b, body_frames-All ps)

  -- Whatever holds of the frames of each kind holds of what a handler sends.
  request_frames-All :
      (req : Incoming)
      → P (encode (req_headers serde (request_headers req k)))
      → All P (request_frames serde (req, k))
  unfolding request_frames
  request_frames-All req first = elim (Option-cases req.collected) [
    | inl e ↦ unfold begin_request in rw e tt
    | inr (body, e) ↦
        let (ps, waits, sent, whole, pieces, senders) =
          begin_request_sends serde req 0 (sender k) body refl e (λ n. refl) in
        rw sent (
          first,
          All-append P (body_frames k ps) (encode (req_end k) ∷ []) (body_frames-All ps) (last, tt),
        )
  ]

module _ (serde : Serde) (json : RequestsParse serde) where
  module _ (id k : ℕ) (fits : IsU32 k) (ne : k ≢ id) where
    headers-IsSilent :
        (req : Incoming)
        → IsSilent serde id (message (encode (req_headers serde (request_headers req k))))
    unfolding part_of
    headers-IsSilent req =
        let (h', parses, same) = json (request_headers req k) in
        rw
          (decode-encode (req_headers serde (request_headers req k))
            (unfold req_headers request_headers in fits))
          (unfold req_headers in rw (parses, same) (unfold request_headers in ground arith))

    body-IsSilent : (b : Bytes) → IsSilent serde id (message (encode (req_body k b)))
    unfolding part_of
    body-IsSilent b =
        rw (decode-encode (req_body k b) (unfold req_body in fits))
          (unfold req_body in ground arith)

    end-IsSilent : IsSilent serde id (message (encode (req_end k)))
    unfolding part_of
    end-IsSilent =
        rw (decode-encode (req_end k) (unfold req_end in fits)) (unfold req_end in ground arith)

  frame-IsHarmless :
      (m : TunnelMessage)
      → IsU32 m.stream_id
      → (m.msg_type ≡ MessageType.req_headers → serde.request_from_slice m.payload ≢ none)
      → IsHarmless serde (message (encode m))
  frame-IsHarmless m fits h m' d t e =
      let round_trip = decode-encode m fits in
      let same : m' ≡ m = cc in
      h (ap (λ x. x.msg_type) (sym same) ∙ t)
        (ap (λ x. serde.request_from_slice x.payload) (sym same) ∙ e)

  sent-IsSilent :
      (id : ℕ) (t : Sending)
      → IsOtherRequest id t
      → All (λ f. IsSilent serde id (message f)) (request_frames serde t)
  sent-IsSilent id (req, k) (fits, ne) =
      request_frames-All serde (λ f. IsSilent serde id (message f)) k (body-IsSilent id k fits ne)
        (end-IsSilent id k fits ne) req (headers-IsSilent id k fits ne req)

  sent-IsHarmless :
      (t : Sending) → IsU32 t.1 → All (λ f. IsHarmless serde (message f)) (request_frames serde t)
  sent-IsHarmless (req, k) fits =
      let (h', parses, same) = json (request_headers req k) in
      request_frames-All serde (λ f. IsHarmless serde (message f)) k
        (λ b.
          frame-IsHarmless (req_body k b) (unfold req_body in fits) (unfold req_body in λ e. cc))
        (frame-IsHarmless (req_end k) (unfold req_end in fits) (unfold req_end in λ e. cc)) req
        (frame-IsHarmless (req_headers serde (request_headers req k))
          (unfold req_headers request_headers in fits) (unfold req_headers in λ e none_there. cc))

  pub All-IsSilent :
      (id : ℕ) (ts : List Sending)
      → All (IsOtherRequest id) ts
      → All (All (λ f. IsSilent serde id (message f))) (map (request_frames serde) ts)
  All-IsSilent id [] o = tt
  All-IsSilent id (t ∷ ts) o = (sent-IsSilent id t o.0, All-IsSilent id ts o.1)

  pub All-IsHarmless :
      (id : ℕ) (ts : List Sending)
      → All (IsOtherRequest id) ts
      → All (All (λ f. IsHarmless serde (message f))) (map (request_frames serde) ts)
  All-IsHarmless id [] o = tt
  All-IsHarmless id (t ∷ ts) o = (sent-IsHarmless t o.0.0, All-IsHarmless id ts o.1)

  -- Any number of handlers send their requests at the same time, on a channel that takes every frame.
  -- However their frames are interleaved, and mixed on arrival with frames that belong to no stream and
  -- do not end the loop, the server goes on, and for each request whose body could be read it starts
  -- exactly one task, with the headers as they parse and with the whole body, and keeps nothing of it.
  -- The stream ids are different and fit in 32 bits, and the JSON of request headers parses to headers
  -- with the same id.
  pub requests_arrive_together :
      (before after : List Sending) (req : Incoming) (id : ℕ) (body : Bytes) (ins : List Bytes)
      (inputs : List Input) (s : Server)
      → IsU32 id
      → req.collected ≡ some body
      → All (IsOtherRequest id) before
      → All (IsOtherRequest id) after
      → Interleaved (map (request_frames serde) (before ++ (req, id) ∷ after)) ins
      → Woven (λ f. message f) (IsIdle serde) ins inputs
      → IsKeyed s
      → let t = serve_loop serde inputs s in
        (t.1 ≡ none)
        × (get t.0.pending_requests id ≡ none)
        × (tasks_of id t.0 ≡ tasks_of id s ++ ((json (request_headers req id)).0, body) ∷ [])
  unfolding request_frames
  requests_arrive_together before after req id body ins inputs s fits read others_before
        others_after mixed woven keyed =
      let (h, parses, same') = json (request_headers req id) in
      let same : h.stream_id ≡ id = same' ∙ (unfold request_headers in refl) in
      let frames = request_frames serde in
      let mixed' : Interleaved (map frames before ++ frames (req, id) ∷ map frames after) ins =
        rw map-append at mixed in
      let own =
        Interleaved-Among (λ f. IsSilent serde id (message f)) (map frames before)
          (map frames after) mixed' (All-IsSilent id before others_before)
          (All-IsSilent id after others_after) in
      let arrives : Woven (λ f. message f) (IsSilent serde id) (frames (req, id)) inputs =
        Among-Woven (λ f. message f) (IsSilent serde id) (IsIdle serde) (λ i q. q.0 id) own woven in
      let harmless =
        Woven-All (λ f. message f) (IsIdle serde) (IsHarmless serde) (λ i q. q.1) woven
          (Interleaved-All (λ f. IsHarmless serde (message f)) mixed'
            (All-append _ (map frames before) (frames (req, id) ∷ map frames after)
              (All-IsHarmless id before others_before)
              (sent-IsHarmless (req, id) fits, All-IsHarmless id after others_after))) in
      let arrived =
        request_arrives serde req 0 (sender id) body h (frames (req, id)) inputs s refl read
          (λ n. refl) fits parses same refl (rw same arrives) keyed harmless in
      let t = (serve_loop serde inputs s).0 in
      (
        arrived.0,
        ap (λ k. get t.pending_requests k) (sym same) ∙ arrived.1,
        ap (λ k. tasks_of k t) (sym same)
            ∙ arrived.2
            ∙ ap (λ k. tasks_of k s ++ (h, body) ∷ []) same,
      )
