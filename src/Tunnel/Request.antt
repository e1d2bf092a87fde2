-- ===== src/Tunnel/Request.antt =====
-- A request on its way from the HTTP client of the proxy to the task of the server that handles it.
use p2p_llm_tunnel.Prelude.{
  ℕ, ◌≡◌, refl, sym, ap, ◌∙◌, List, [], ◌∷◌, ◌++◌, true, none, some, map, All, nat_eq, arith, get,
}
use p2p_llm_tunnel.Protocol.{Bytes, Serde, IsU32, RequestHeaders}
use mathlib.Core.Path.{ap₂}
use mathlib.Core.List.{append_cancel_left}
use p2p_llm_tunnel.Protocol.Build.{req_headers, req_body, req_end}
use p2p_llm_tunnel.Protocol.Frame.{encode}
use p2p_llm_tunnel.Protocol.RoundTrip.{decode-encode}
use p2p_llm_tunnel.Channel.{IsOpen}
use p2p_llm_tunnel.Proxy.Request.{Incoming, Proxy, request_headers, begin_request}
use p2p_llm_tunnel.Proxy.Upload.{body_frames, begin_request_sends}
use p2p_llm_tunnel.Serve.Run.{Server, Input, message, serve_loop}
use p2p_llm_tunnel.Serve.Keyed.{IsKeyed}
use p2p_llm_tunnel.Serve.Assembly.{begin, add, finish, part_of, parts_of, tasks_of}
use p2p_llm_tunnel.Serve.Requests.{IsHarmless, serve_loop_assembles}
use p2p_llm_tunnel.Tunnel.Woven.{Woven, done, ours, other}

-- An input with no part in the stream.
abbrev pub IsSilent : Serde → ℕ → Input → Type 0
IsSilent serde id i = part_of serde id i ≡ []

pub parts_of-Woven :
    (serde : Serde) (id : ℕ) {fs : List Bytes} {inputs : List Input}
    → Woven (λ f. message f) (IsSilent serde id) fs inputs
    → parts_of serde id inputs ≡ parts_of serde id (map (λ f. message f) fs)
unfolding parts_of
parts_of-Woven serde id done = refl
parts_of-Woven serde id (ours {f} w) =
    ap (λ t. part_of serde id (message f) ++ t) (parts_of-Woven serde id w)
parts_of-Woven serde id (other i e w) = rw e (parts_of-Woven serde id w)

module _ (serde : Serde) (id : ℕ) (fits : IsU32 id) where
  part_of-headers :
      (h h' : RequestHeaders)
      → h.stream_id ≡ id
      → h'.stream_id ≡ id
      → serde.request_from_slice (serde.request_to_vec h) ≡ some h'
      → part_of serde id (message (encode (req_headers serde h))) ≡ begin h' ∷ []
  unfolding part_of
  part_of-headers h h' e e' parses =
      rw (decode-encode (req_headers serde h) (unfold req_headers in omega arith))
        (unfold req_headers in rw parses (ground arith))

  part_of-body : (p : Bytes) → part_of serde id (message (encode (req_body id p))) ≡ add p ∷ []
  unfolding part_of
  part_of-body p =
      rw (decode-encode (req_body id p) (unfold req_body in fits)) (unfold req_body in ground arith)

  part_of-end : part_of serde id (message (encode (req_end id))) ≡ finish ∷ []
  unfolding part_of
  part_of-end =
      rw (decode-encode (req_end id) (unfold req_end in fits)) (unfold req_end in ground arith)

  parts_of-rest :
      (ps : List Bytes)
      → parts_of serde id (map (λ f. message f) (body_frames id ps ++ encode (req_end id) ∷ []))
        ≡ map add ps ++ finish ∷ []
  unfolding parts_of
  parts_of-rest [] = rw part_of-end
  parts_of-rest (p ∷ ps) = rw (part_of-body p, parts_of-rest ps)

  pub parts_of-request :
      (h h' : RequestHeaders) (ps : List Bytes)
      → h.stream_id ≡ id
      → h'.stream_id ≡ id
      → serde.request_from_slice (serde.request_to_vec h) ≡ some h'
      → parts_of serde id (
          map
            (λ f. message f)
            (encode (req_headers serde h) ∷ (body_frames id ps ++ encode (req_end id) ∷ [])))
        ≡ begin h' ∷ (map add ps ++ finish ∷ [])
  parts_of-request h h' ps e e' parses =
      unfold parts_of in
      rw (part_of-headers h h' e e' parses) (ap (λ t. begin h' ∷ t) (parts_of-rest ps))

-- A request whose body could be read, on a channel that takes every frame: however the frames that the
-- proxy sends are mixed on arrival with frames that have no part in their stream, the server starts
-- exactly one task for the stream, with the headers as they parse and with the whole body, keeps
-- nothing of the request, and goes on. The JSON of the headers has to parse to headers with the same
-- stream id, the id has to fit in 32 bits, and no input may end the loop.
pub request_arrives :
    (serde : Serde) (req : Incoming) (tx : ℕ) (p : Proxy) (body : Bytes) (h : RequestHeaders)
    (fs : List Bytes) (inputs : List Input) (s : Server)
    → p.tunnel_ready ≡ true
    → req.collected ≡ some body
    → IsOpen p.channel
    → IsU32 p.stream_counter
    → serde.request_from_slice (serde.request_to_vec (request_headers req p.stream_counter))
      ≡ some h
    → h.stream_id ≡ p.stream_counter
    → (begin_request serde req tx p).0.channel.sent ≡ p.channel.sent ++ fs
    → Woven (λ f. message f) (IsSilent serde h.stream_id) fs inputs
    → IsKeyed s
    → All (IsHarmless serde) inputs
    → let t = serve_loop serde inputs s in
      (t.1 ≡ none)
      × (get t.0.pending_requests h.stream_id ≡ none)
      × (tasks_of h.stream_id t.0 ≡ tasks_of h.stream_id s ++ (h, body) ∷ [])
request_arrives serde req tx p body h fs inputs s ready read o fits parses same new w v harmless =
    let (ps, waits, sent, whole, pieces, senders) =
      begin_request_sends serde req tx p body ready read o in
    let frames = append_cancel_left p.channel.sent _ _ (sym new ∙ sent) in
    let parts =
      parts_of-Woven serde h.stream_id w
      ∙ ap₂ (λ k t. parts_of serde k (map (λ f. message f) t)) same frames
      ∙ parts_of-request serde p.stream_counter fits (request_headers req p.stream_counter) h ps
          (unfold request_headers in refl) same parses in
    rw (← whole) (serve_loop_assembles serde inputs s h ps v harmless parts)
