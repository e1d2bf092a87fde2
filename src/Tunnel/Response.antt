-- ===== src/Tunnel/Response.antt =====
-- A response on its way from the upstream of the server to the HTTP client of the proxy.
use mathlib.Core.List.{append_cancel_left}
use p2p_llm_tunnel.Prelude.{
  ℕ, ◌≡◌, refl, sym, ap, ◌∙◌, List, [], ◌∷◌, ◌++◌, Bool, true, false, none, some, map, concat, All,
  nat_eq, arith, get, HashMap, codes,
}
use p2p_llm_tunnel.Protocol.{Bytes, Serde, IsU32, RequestHeaders, ResponseHeaders}
use p2p_llm_tunnel.Protocol.Build.{res_headers, res_body, res_end, error}
use p2p_llm_tunnel.Protocol.Frame.{encode}
use p2p_llm_tunnel.Protocol.RoundTrip.{decode-encode}
use p2p_llm_tunnel.Channel.{Channel, IsOpen}
use p2p_llm_tunnel.Channel.Writes.{Emits-open}
use p2p_llm_tunnel.Http.{Fields, collect_headers, without_names}
use p2p_llm_tunnel.Http.Laws.{IsPiece}
use p2p_llm_tunnel.Serve.Respond.{
  Chunk, bytes, broken, response, Client, upstream_request, handle_request,
}
use p2p_llm_tunnel.Serve.Stream.{body_frames, body_of, failure_frames, handle_request-Emits}
use p2p_llm_tunnel.Proxy.Utf8.{from_utf8_lossy}
use p2p_llm_tunnel.Proxy.Router.{
  StreamEvent, headers, body, failed, end, Router, Action, frame, run_reader,
}
use p2p_llm_tunnel.Proxy.Delivery.{action_events, events_in, events_of, is_last, Owns, IsForeign}
use p2p_llm_tunnel.Proxy.Streams.{run_reader_delivers}
use p2p_llm_tunnel.Proxy.Answer.{
  Silence, HttpLibrary, streaming, all_accepted, hop_by_hop, status_or_bad_gateway, finish_request,
}
use p2p_llm_tunnel.Proxy.Client.{bodies, Stays, finish_request_streams}
use p2p_llm_tunnel.Tunnel.Woven.{Woven, done, ours, other}

-- An action that holds no event for the stream.
abbrev pub IsSilent : Serde → ℕ → Action → Type 0
IsSilent serde id a = action_events serde id a ≡ []

pub events_in-Woven :
    (serde : Serde) (id : ℕ) {fs : List Bytes} {actions : List Action}
    → Woven (λ f. frame f) (IsSilent serde id) fs actions
    → events_in serde id actions ≡ events_in serde id (map (λ f. frame f) fs)
unfolding events_in
events_in-Woven serde id done = refl
events_in-Woven serde id (ours {f} w) =
    ap (λ t. action_events serde id (frame f) ++ t) (events_in-Woven serde id w)
events_in-Woven serde id (other i e w) = rw e (events_in-Woven serde id w)

-- The event that ends the response, and what comes behind it.
unfoldable pub last_event : List Chunk → StreamEvent
last_event [] = end
last_event (bytes b ∷ rest) = last_event rest
last_event (broken e ∷ rest) = failed (from_utf8_lossy (codes "upstream error: " ++ e))

unfoldable pub late_events : List Chunk → List StreamEvent
late_events [] = []
late_events (bytes b ∷ rest) = late_events rest
late_events (broken e ∷ rest) = end ∷ []

is_last-last_event : (chunks : List Chunk) → is_last (last_event chunks) ≡ true
unfolding last_event
is_last-last_event [] = refl
is_last-last_event (bytes b ∷ rest) = is_last-last_event rest
is_last-last_event (broken e ∷ rest) = refl

module _ (serde : Serde) (id : ℕ) (fits : IsU32 id) where
  events_of-headers :
      (h h' : ResponseHeaders)
      → h.stream_id ≡ id
      → h'.stream_id ≡ id
      → serde.response_from_slice (serde.response_to_vec h) ≡ some h'
      → action_events serde id (frame (encode (res_headers serde h))) ≡ headers h' ∷ []
  unfolding action_events
  events_of-headers h h' e e' parses =
      rw (decode-encode (res_headers serde h) (unfold res_headers in omega arith))
        (unfold res_headers in rw parses (ground arith))

  events_of-body :
      (p : Bytes) → action_events serde id (frame (encode (res_body id p))) ≡ body p ∷ []
  unfolding action_events
  events_of-body p =
      rw (decode-encode (res_body id p) (unfold res_body in fits)) (unfold res_body in ground arith)

  events_of-end : action_events serde id (frame (encode (res_end id))) ≡ end ∷ []
  unfolding action_events
  events_of-end =
      rw (decode-encode (res_end id) (unfold res_end in fits)) (unfold res_end in ground arith)

  events_of-error :
      (e : Bytes)
      → action_events serde id (frame (encode (error id e))) ≡ failed (from_utf8_lossy e) ∷ []
  unfolding action_events
  events_of-error e =
      rw (decode-encode (error id e) (unfold error in fits)) (unfold error in ground arith)

  events_in-tail :
      (chunks : List Chunk)
      → events_in serde id
          (map (λ f. frame f) (failure_frames id chunks ++ encode (res_end id) ∷ []))
        ≡ last_event chunks ∷ late_events chunks
  unfolding events_in failure_frames last_event late_events
  events_in-tail [] = rw events_of-end
  events_in-tail (bytes b ∷ rest) = events_in-tail rest
  events_in-tail (broken e ∷ rest) =
      rw (events_of-error (codes "upstream error: " ++ e), events_of-end)

  events_in-rest :
      (ps : List Bytes) (chunks : List Chunk)
      → events_in serde id (
          map
            (λ f. frame f)
            ((body_frames id ps ++ failure_frames id chunks) ++ encode (res_end id) ∷ []))
        ≡ bodies ps ++ last_event chunks ∷ late_events chunks
  unfolding events_in
  events_in-rest [] chunks = events_in-tail chunks
  events_in-rest (p ∷ ps) chunks = rw (events_of-body p, events_in-rest ps chunks)

  pub events_in-response :
      (h h' : ResponseHeaders) (ps : List Bytes) (chunks : List Chunk)
      → h.stream_id ≡ id
      → h'.stream_id ≡ id
      → serde.response_from_slice (serde.response_to_vec h) ≡ some h'
      → events_in serde id (
          map
            (λ f. frame f)
            (encode (res_headers serde h) ∷ (body_frames id ps ++ failure_frames id chunks)
              ++ encode (res_end id) ∷ []))
        ≡ headers h' ∷ (bodies ps ++ last_event chunks ∷ late_events chunks)
  events_in-response h h' ps chunks e e' parses =
      unfold events_in in
      rw (events_of-headers h h' e e' parses) (ap (λ t. headers h' ∷ t) (events_in-rest ps chunks))

bodies_go_on : (ps : List Bytes) → All (λ e. is_last e ≡ false) (bodies ps)
bodies_go_on [] = tt
bodies_go_on (p ∷ ps) = (refl, bodies_go_on ps)

-- The response that the server sends for a request.
abbrev pub answered_headers : RequestHeaders → ℕ → Fields → ResponseHeaders
answered_headers h status fields = record {
  stream_id = h.stream_id;
  status = status;
  headers = collect_headers [] fields;
}

-- The events of a response reach the HTTP client.
pub events_return :
    (serde : Serde) (id : ℕ) (h' : ResponseHeaders) (ps : List Bytes) (chunks : List Chunk)
    (actions : List Action) (r : Router) (tx : ℕ) (http : HttpLibrary) (takes : ℕ → Bool)
    (silence : Silence) (senders : HashMap ℕ ℕ)
    → events_in serde id actions
      ≡ headers h' ∷ (bodies ps ++ last_event chunks ∷ late_events chunks)
    → Owns id tx r
    → get r.pending id ≡ some tx
    → All (IsForeign id tx) actions
    → events_of tx r ≡ []
    → Stays takes
    → all_accepted http (without_names hop_by_hop h'.headers) ≡ true
    → let after = run_reader serde actions r in
      (finish_request http takes id (events_of tx after) silence senders ≡ (
        senders,
        streaming
            (status_or_bad_gateway (http.status_from_u16 h'.status))
            (without_names hop_by_hop h'.headers)
            ps,
      ))
      × (get after.pending id ≡ none)
events_return serde id h' ps chunks actions r tx http takes silence senders split owns here foreign
      fresh stays accepted =
    let (seen, gone) =
      run_reader_delivers id tx serde actions r (headers h' ∷ bodies ps) (last_event chunks)
        (late_events chunks) owns here foreign split (refl, bodies_go_on ps)
        (is_last-last_event chunks) in
    let arrived =
      seen ∙ ap (λ t. t ++ ((headers h' ∷ bodies ps) ++ last_event chunks ∷ [])) fresh in
    (
      rw arrived (
          finish_request_streams http takes id h' ps (last_event chunks) [] silence senders stays
            (is_last-last_event chunks) accepted),
      gone,
    )

module _ (serde : Serde) (client : Client) (upstream_url prefix : Bytes) where
  -- A response of the upstream, on a channel that takes every frame: however the frames that the
  -- server sends are mixed on arrival with other frames and with what other requests of the proxy do,
  -- the HTTP client gets the status and the headers as they parse, less the hop-by-hop ones, and then
  -- pieces that are the bytes of the upstream in order, up to where it broke off, if it did. The
  -- sender of the stream has left the map. The stream id has to fit in 32 bits, the JSON of the
  -- headers has to parse to headers with that id, the client has to stay, and the response builder
  -- has to accept the headers.
  pub response_returns :
      (h : RequestHeaders) (request_body method : Bytes) (status : ℕ) (fields : Fields)
      (chunks : List Chunk) (c : Channel) (fs : List Bytes) (actions : List Action) (r : Router)
      (tx : ℕ) (h' : ResponseHeaders) (http : HttpLibrary) (takes : ℕ → Bool) (silence : Silence)
      (senders : HashMap ℕ ℕ)
      → client.parse_method h.method ≡ some method
      → client.execute (upstream_request method upstream_url prefix h request_body)
        ≡ response status fields chunks
      → IsOpen c
      → IsU32 h.stream_id
      → serde.response_from_slice (serde.response_to_vec (answered_headers h status fields))
        ≡ some h'
      → h'.stream_id ≡ h.stream_id
      → (handle_request serde client upstream_url prefix h request_body c).1.sent ≡ c.sent ++ fs
      → Woven (λ f. frame f) (IsSilent serde h.stream_id) fs actions
      → Owns h.stream_id tx r
      → get r.pending h.stream_id ≡ some tx
      → All (IsForeign h.stream_id tx) actions
      → events_of tx r ≡ []
      → Stays takes
      → all_accepted http (without_names hop_by_hop h'.headers) ≡ true
      → let after = run_reader serde actions r in
        (ps : List Bytes) × (finish_request http takes h.stream_id
            (events_of tx after)
            silence
            senders
          ≡ (
            senders,
            streaming
                (status_or_bad_gateway (http.status_from_u16 h'.status))
                (without_names hop_by_hop h'.headers)
                ps,
          ))
        × (concat ps ≡ body_of chunks)
        × All IsPiece ps
        × (get after.pending h.stream_id ≡ none)
  response_returns h request_body method status fields chunks c fs actions r tx h' http takes
        silence senders parses_method answers o fits parses same new w owns here foreign fresh stays
        accepted =
      let id = h.stream_id in
      let (ps, emits, whole, pieces) =
        handle_request-Emits serde client upstream_url prefix h request_body method status fields
          chunks parses_method answers in
      let frames = append_cancel_left c.sent _ _ (sym new ∙ Emits-open c emits o) in
      let split =
        events_in-Woven serde id w
        ∙ ap (λ t. events_in serde id (map (λ f. frame f) t)) frames
        ∙ events_in-response serde id fits (answered_headers h status fields) h' ps chunks refl same
            parses in
      let (answer, gone) =
        events_return serde id h' ps chunks actions r tx http takes silence senders split owns here
          foreign fresh stays accepted in
      (ps, answer, whole, pieces, gone)
