-- ===== src/Tunnel/Truncation.antt =====
-- A request whose body tunnel/src/proxy.rs could send in part only, as tunnel/src/serve.rs takes it.
use mathlib.Core.Path.{ap₂}
use mathlib.Core.List.{append_cancel_left}
use p2p_llm_tunnel.Prelude.{
  ℕ, suc, ◌+◌, ◌*◌, ◌<◌, ◌≡◌, refl, sym, ap, ◌∙◌, List, [], ◌∷◌, ◌++◌, true, none, some, map, All,
  length, take, nat_eq, get,
}
use p2p_llm_tunnel.Protocol.{Bytes, Serde, IsU32, max_body_chunk}
use p2p_llm_tunnel.Proxy.Request.{Incoming, Proxy, waiting, request_headers, begin_request}
use p2p_llm_tunnel.Proxy.Truncated.{TakesOnly, begin_request_stops}
use p2p_llm_tunnel.Serve.Run.{Server, Input, message, serve_loop}
use p2p_llm_tunnel.Serve.Keyed.{IsKeyed}
use p2p_llm_tunnel.Serve.Assembly.{parts_of, tasks_of}
use p2p_llm_tunnel.Serve.Requests.{IsHarmless, serve_loop_assembles}
use p2p_llm_tunnel.Tunnel.Woven.{Woven}
use p2p_llm_tunnel.Tunnel.Request.{IsSilent, parts_of-Woven, parts_of-request}
use p2p_llm_tunnel.Tunnel.Requests.{RequestsParse}

-- A piece of a body that cannot be sent is not reported. If the channel takes the headers and `n` pieces,
-- refuses the next piece, and takes the frame that follows, the handler goes on to wait for a response;
-- and however the frames that it sent are mixed on arrival with frames that have no part in their stream
-- and end no loop, the server starts exactly one task for the stream, with the headers as they parse
-- and the bytes of the `n` pieces for the whole body, though there are more, and keeps nothing of the
-- request. The id has to fit in 32 bits, and the JSON of the headers to parse to headers with that id.
pub begin_request_truncates :
    (serde : Serde) (json : RequestsParse serde) (req : Incoming) (tx : ℕ) (p : Proxy)
    (body : Bytes) (n : ℕ) (fs : List Bytes) (inputs : List Input) (s : Server)
    → p.tunnel_ready ≡ true
    → req.collected ≡ some body
    → n * max_body_chunk < length body
    → p.channel.outcomes p.channel.calls ≡ true
    → TakesOnly p.channel.outcomes (suc p.channel.calls) n
    → p.channel.outcomes (suc (n + suc p.channel.calls)) ≡ true
    → IsU32 p.stream_counter
    → (begin_request serde req tx p).0.channel.sent ≡ p.channel.sent ++ fs
    → Woven (λ f. message f) (IsSilent serde p.stream_counter) fs inputs
    → IsKeyed s
    → All (IsHarmless serde) inputs
    → let id = p.stream_counter in
      let t = serve_loop serde inputs s in
      ((begin_request serde req tx p).1 ≡ waiting id)
      × (t.1 ≡ none)
      × (get t.0.pending_requests id ≡ none)
      × (tasks_of id t.0
          ≡ tasks_of id s
            ++ ((json (request_headers req id)).0, take (n * max_body_chunk) body) ∷ [])
begin_request_truncates serde json req tx p body n fs inputs s ready read some_left first pieces
      last fits new w v harmless =
    let id = p.stream_counter in
    let (h, parses, same') = json (request_headers req id) in
    let same : h.stream_id ≡ id = same' ∙ (unfold request_headers in refl) in
    let (ps, waits, sent, front) =
      begin_request_stops serde req tx p body n ready read some_left first pieces last in
    let frames = append_cancel_left p.channel.sent _ _ (sym new ∙ sent) in
    let parts =
      ap (λ k. parts_of serde k inputs) same
      ∙ parts_of-Woven serde id w
      ∙ ap (λ t. parts_of serde id (map (λ f. message f) t)) frames
      ∙ parts_of-request serde id fits (request_headers req id) h ps
          (unfold request_headers in refl) same parses in
    let done = serve_loop_assembles serde inputs s h ps v harmless parts in
    (
      waits,
      done.0,
      ap (λ k. get (serve_loop serde inputs s).0.pending_requests k) (sym same) ∙ done.1,
      ap (λ k. tasks_of k (serve_loop serde inputs s).0) (sym same)
          ∙ done.2
          ∙ ap₂ (λ k b. tasks_of k s ++ (h, b) ∷ []) same front,
    )
