-- ===== src/Tunnel/Handshake.antt =====
-- The handshake: HELLO of tunnel/src/proxy.rs, AGREE of tunnel/src/serve.rs.
use p2p_llm_tunnel.Prelude.{
  suc, ◌≡◌, refl, List, [], ◌∷◌, ◌++◌, some, ok, codes, true, arith, bytes_eqb, keep_if, contains,
}
use p2p_llm_tunnel.Protocol.{Serde, hello, agree, Hello, Agree, protocol_version, TunnelMessage}
use p2p_llm_tunnel.Protocol.Build
use p2p_llm_tunnel.Protocol.Build.{new_hello}
use p2p_llm_tunnel.Protocol.Frame.{as_u8, encode}
use p2p_llm_tunnel.Protocol.Negotiate.{from_hello}
use p2p_llm_tunnel.Protocol.RoundTrip.{decode-encode}
use p2p_llm_tunnel.Channel.{Channel, frame, receive_payload, send, IsOpen}
use p2p_llm_tunnel.Proxy.Handshake.{start_proxy}
use p2p_llm_tunnel.Serve.Run.{Input, serve_loop, run_serve, start}

abbrev pub agreed : Agree
agreed = record { version = protocol_version; features = codes "sse" ∷ [] }

from_hello-new_hello : from_hello new_hello ≡ ok agreed
unfolding from_hello new_hello keep_if contains bytes_eqb
from_hello-new_hello = refl

receive_hello :
    (serde : Serde) (h : Hello)
    → receive_payload hello (frame (encode (Build.hello serde h))) ≡ ok (serde.hello_to_vec h)
unfolding receive_payload as_u8
receive_hello serde h =
    rw (decode-encode (Build.hello serde h) (unfold Build.hello in omega arith))
      (unfold Build.hello in refl)

receive_agree :
    (serde : Serde) (a : Agree)
    → receive_payload agree (frame (encode (Build.agree serde a))) ≡ ok (serde.agree_to_vec a)
unfolding receive_payload as_u8
receive_agree serde a =
    rw (decode-encode (Build.agree serde a) (unfold Build.agree in omega arith))
      (unfold Build.agree in refl)

abbrev pub after_send : Channel → TunnelMessage → Channel
after_send c m = record c { sent = c.sent ++ encode m ∷ []; calls = suc c.calls }

-- On channels that take every frame, the HELLO that the proxy sends brings the server into its loop
-- with an AGREE as its first frame, and that AGREE brings the proxy into its ready state: both agree
-- on the current version and on the feature sse. The JSON of the two messages has to parse back.
pub handshake_completes :
    (serde : Serde) (c d : Channel) (inputs : List Input)
    → IsOpen c
    → IsOpen d
    → serde.hello_from_slice (serde.hello_to_vec new_hello) ≡ some new_hello
    → serde.agree_from_slice (serde.agree_to_vec agreed) ≡ some agreed
    → (run_serve serde (frame (encode (Build.hello serde new_hello))) inputs c
        ≡ serve_loop serde inputs (start true (after_send c (Build.agree serde agreed))))
      × (start_proxy serde (frame (encode (Build.agree serde agreed))) d
          ≡ ok (record {
            tunnel_ready = true;
            stream_counter = 1;
            pending = [];
            channel = after_send d (Build.hello serde new_hello);
          }))
unfolding run_serve start_proxy send
handshake_completes serde c d inputs o o' hello_parses agree_parses = (
  rw (receive_hello serde new_hello, hello_parses, from_hello-new_hello, o c.calls),
  rw (o' d.calls, receive_agree serde agreed, agree_parses),
)
