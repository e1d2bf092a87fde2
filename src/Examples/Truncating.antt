-- ===== src/Examples/Truncating.antt =====
-- A request of tunnel/src/proxy.rs that loses its body, at concrete inputs.
use p2p_llm_tunnel.Prelude.{
  ◌≡◌, refl, List, [], ◌∷◌, ◌++◌, All, none, map, codes, arith, get, nat_eq,
}
use p2p_llm_tunnel.Protocol.{Bytes}
use p2p_llm_tunnel.Protocol.Build.{req_headers, req_end}
use p2p_llm_tunnel.Protocol.Frame.{encode, decode, from_u8, get_u32, put_u32, as_u8}
use p2p_llm_tunnel.Channel.{attempt}
use p2p_llm_tunnel.Proxy.Request.{begin_request, waiting, request_headers}
use p2p_llm_tunnel.Serve.Run.{Input, message, serve_loop}
use p2p_llm_tunnel.Serve.Requests.{IsHarmless}
use p2p_llm_tunnel.Serve.Assembly.{tasks_of}
use p2p_llm_tunnel.Tunnel.Woven.{Woven, done, ours, other}
use p2p_llm_tunnel.Tunnel.Request.{IsSilent}
use p2p_llm_tunnel.Tunnel.Truncation.{begin_request_truncates}
use p2p_llm_tunnel.Examples.{get_models, idle_server}
use p2p_llm_tunnel.Examples.Tasks.{id_serde, asked}
use p2p_llm_tunnel.Examples.Proxying.{flaky_proxy}
use p2p_llm_tunnel.Examples.Exchanging.{id_serde_requests, idle-IsKeyed, empty-IsIdle}

abbrev frames : List Bytes
frames = (10 ∷ 0 ∷ 0 ∷ 0 ∷ 1 ∷ 1 ∷ []) ∷ (12 ∷ 0 ∷ 0 ∷ 0 ∷ 1 ∷ []) ∷ []

abbrev inputs : List Input
inputs = message [] ∷ map (λ f. message f) frames

sent_in_part : (begin_request id_serde get_models 7 flaky_proxy).0.channel.sent ≡ frames
unfolding begin_request attempt encode as_u8 put_u32 req_headers req_end
sent_in_part = refl

inputs-Woven : Woven (λ f. message f) (IsSilent id_serde 1) frames inputs
inputs-Woven = other (message []) (empty-IsIdle.0 1) (ours (ours done))

inputs-IsHarmless : All (IsHarmless id_serde) inputs
unfolding decode from_u8 get_u32
inputs-IsHarmless = (empty-IsIdle.1, (λ m d t e. cc, (λ m d t e. cc, tt)))

begin_request_truncates_example :
    let t = serve_loop id_serde inputs idle_server in
    ((begin_request id_serde get_models 7 flaky_proxy).1 ≡ waiting 1)
    × (t.1 ≡ none)
    × (get t.0.pending_requests 1 ≡ none)
    × (tasks_of 1 t.0 ≡ tasks_of 1 idle_server ++ (asked 1, []) ∷ [])
unfolding id_serde_requests request_headers
begin_request_truncates_example =
    begin_request_truncates id_serde id_serde_requests get_models 7 flaky_proxy (codes "hi") 0
      frames inputs idle_server refl refl (omega arith) refl refl refl (omega arith) sent_in_part
      inputs-Woven idle-IsKeyed inputs-IsHarmless
