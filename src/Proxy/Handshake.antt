-- ===== src/Proxy/Handshake.antt =====
-- tunnel/src/proxy.rs: the handshake of `run_proxy`, and the flag that it sets.
use p2p_llm_tunnel.Prelude.{[], true, Result, ok, err}
use p2p_llm_tunnel.Protocol.{Serde, agree, Agree}
use p2p_llm_tunnel.Protocol.Build
use p2p_llm_tunnel.Protocol.Build.{new_hello}
use p2p_llm_tunnel.Protocol.Frame.{encode}
use p2p_llm_tunnel.Channel.{
  Channel, Error, Received, Send, receive_payload, parsed, lift, send, ◌>>=◌, ◌>>◌,
}
use p2p_llm_tunnel.Proxy.Request.{Proxy}

-- HELLO is sent, and AGREE is waited for.
unfoldable pub proxy_handshake : Serde → Received → Send Agree
unfolding receive_payload
proxy_handshake serde received = do
  send (encode (Build.hello serde new_hello))
  payload ← lift (receive_payload agree received)
  lift (parsed (serde.agree_from_slice payload))

abbrev pub after_handshake : Result Error Agree × Channel → Result Error Proxy
after_handshake (ok a, c) =
    ok (record { tunnel_ready = true; stream_counter = 1; pending = []; channel = c })
after_handshake (err e, c) = err e

-- The state in which `run_proxy` starts its tasks, or the error that it returns with.
unfoldable pub start_proxy : Serde → Received → Channel → Result Error Proxy
unfolding proxy_handshake
start_proxy serde received c = after_handshake (proxy_handshake serde received c)
