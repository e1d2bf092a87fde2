-- ===== src/Tunnel/Refusals.antt =====
-- The requests that the server of tunnel/src/serve.rs could not forward, answered over the tunnel.
use p2p_llm_tunnel.Prelude.{
  ℕ, ◌≡◌, refl, ap, ◌∙◌, List, [], ◌∷◌, ◌++◌, Bool, true, none, some, map, map-append, All, nat_eq,
  get, HashMap, codes,
}
use p2p_llm_tunnel.Protocol.{Bytes, Serde, IsU32, RequestHeaders, ResponseHeaders}
use p2p_llm_tunnel.Channel.Writes.{Emits-open}
use p2p_llm_tunnel.Http.{without_names}
use p2p_llm_tunnel.Serve.Respond.{refused, Client, upstream_request}
use p2p_llm_tunnel.Serve.Stream.{failure_frames, handle_request_refused}
use p2p_llm_tunnel.Serve.Run.{Pending}
use p2p_llm_tunnel.Proxy.Router.{Router, Action, frame, run_reader}
use p2p_llm_tunnel.Proxy.Delivery.{events_in, events_of, Owns, IsForeign}
use p2p_llm_tunnel.Proxy.Answer.{
  Silence, HttpLibrary, streaming, all_accepted, hop_by_hop, status_or_bad_gateway, finish_request,
}
use p2p_llm_tunnel.Proxy.Client.{Stays}
use p2p_llm_tunnel.Tunnel.Woven.{Woven}
use p2p_llm_tunnel.Tunnel.Shuffle.{Interleaved, Interleaved-Among, Among-Woven}
use p2p_llm_tunnel.Tunnel.Response.{
  IsSilent, last_event, late_events, events_in-Woven, events_in-response, events_return,
}
use p2p_llm_tunnel.Tunnel.Together.{
  open_channel, frames_of, ResponsesParse, IsBackground, IsOtherTask, All-IsSilent,
}

-- The response of the server itself.
abbrev pub refused_headers : ℕ → ResponseHeaders
refused_headers id = record {
  stream_id = id;
  status = 502;
  headers = (codes "content-type", codes "text/plain") ∷ [];
}

module _ (serde : Serde) (json : ResponsesParse serde) (client : Client)
    (upstream_url prefix : Bytes) where
  -- A request that the upstream refuses, among any number that the server answers at the same time, each
  -- in a task of its own, on a channel that takes every frame. However the frames of the tasks are
  -- interleaved, and mixed on arrival with frames that belong to no stream and with what other requests
  -- of the proxy do, the HTTP client of the request gets a whole response: the status 502 and the header
  -- of the server's answer, as they parse, and one piece, a text that names the error; and its sender has
  -- left the map. The other tasks may go in any way. Their stream ids are different, all fit in 32 bits,
  -- the JSON of response headers parses to headers with the same id, the client stays and the response
  -- builder accepts the headers.
  pub refusals_return :
      (before after : List Pending) (h : RequestHeaders) (request_body method e : Bytes)
      (out : List Bytes) (actions : List Action) (r : Router) (tx : ℕ) (http : HttpLibrary)
      (takes : ℕ → Bool) (silence : Silence) (senders : HashMap ℕ ℕ)
      → IsU32 h.stream_id
      → All (IsOtherTask h.stream_id) before
      → All (IsOtherTask h.stream_id) after
      → client.parse_method h.method ≡ some method
      → client.execute (upstream_request method upstream_url prefix h request_body) ≡ refused e
      → Interleaved
          (map (frames_of serde client upstream_url prefix) (before ++ (h, request_body) ∷ after))
          out
      → Woven (λ f. frame f) (IsBackground serde) out actions
      → Owns h.stream_id tx r
      → get r.pending h.stream_id ≡ some tx
      → All (IsForeign h.stream_id tx) actions
      → events_of tx r ≡ []
      → Stays takes
      → let h' = (json (refused_headers h.stream_id)).0 in
        all_accepted http (without_names hop_by_hop h'.headers) ≡ true
        → let end = run_reader serde actions r in
          let h' = (json (refused_headers h.stream_id)).0 in
          (finish_request http takes h.stream_id (events_of tx end) silence senders ≡ (
            senders,
            streaming
                (status_or_bad_gateway (http.status_from_u16 h'.status))
                (without_names hop_by_hop h'.headers)
                ((codes "Bad Gateway: " ++ e) ∷ []),
          ))
          × (get end.pending h.stream_id ≡ none)
  unfolding frames_of failure_frames last_event late_events
  refusals_return before after h request_body method e out actions r tx http takes silence senders
        fits others_before others_after parses_method refuses mixed woven owns here foreign fresh
        stays accepted =
      let id = h.stream_id in
      let text = codes "Bad Gateway: " ++ e in
      let (h', parses, same) = json (refused_headers id) in
      let frames = frames_of serde client upstream_url prefix in
      let mixed' : Interleaved (map frames before ++ frames (h, request_body) ∷ map frames after)
          out =
        rw map-append at mixed in
      let own =
        Interleaved-Among (λ f. IsSilent serde id (frame f)) (map frames before) (map frames after)
          mixed' (All-IsSilent serde json client upstream_url prefix id before others_before)
          (All-IsSilent serde json client upstream_url prefix id after others_after) in
      let sends =
        Emits-open open_channel
          (handle_request_refused serde client upstream_url prefix h request_body method e
            parses_method refuses)
          (λ n. refl) in
      let split =
        events_in-Woven serde id (
          Among-Woven (λ f. frame f) (IsSilent serde id) (IsBackground serde) (λ a q. q id) own
            woven)
        ∙ ap (λ t. events_in serde id (map (λ f. frame f) t)) sends
        ∙ events_in-response serde id fits (refused_headers id) h' (text ∷ []) [] refl same
            parses in
      events_return serde id h' (text ∷ []) [] actions r tx http takes silence senders split owns
        here foreign fresh stays accepted
