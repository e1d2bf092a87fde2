-- ===== src/Examples/Running.antt =====
-- tunnel/src/main.rs and the keepalive tasks at concrete inputs.
use p2p_llm_tunnel.Prelude.{◌≡◌, refl, List, [], ◌∷◌, none, false, codes, All}
use p2p_llm_tunnel.Protocol.Build.{ping, pong}
use p2p_llm_tunnel.Protocol.Frame.{encode}
use p2p_llm_tunnel.Channel.{no_sender}
use p2p_llm_tunnel.Channel.Keepalive.{keepalive}
use p2p_llm_tunnel.Serve.Run.{message, step}
use p2p_llm_tunnel.Proxy.Router.{frame, act}
use p2p_llm_tunnel.Retry.{slept, returned, by_user, run_with_retry, backoff}
use p2p_llm_tunnel.Main.{Command, proxy, World, Attempt, interrupted, attempt, main, run_once}
use p2p_llm_tunnel.Tunnel.Keepalive.{IsKeepalive, pings, sends, keepalive_background}
use p2p_llm_tunnel.Examples.{test_serde, open_channel, idle_server, one_stream}
use p2p_llm_tunnel.Examples.Meeting.{no_turn, eager}

-- The signaling server is not there.
abbrev pub unreached : World
unreached = record {
  signaling_opens = false;
  pc = eager;
  has_channel = false;
  signals = [];
  arms = [];
  already_open = false;
  notified = false;
  handshake = no_sender;
  inputs = [];
  bound = false;
  connections = [];
  channel = open_channel;
}

abbrev pub consumer : Command
consumer = proxy (codes "wss://s") (codes "room") (codes "127.0.0.1:8000") no_turn

abbrev attempts : List Attempt
attempts = attempt unreached slept ∷ attempt unreached slept ∷ interrupted ∷ []

main_runs : main test_serde consumer attempts ≡ (2 ∷ 4 ∷ [], returned by_user)
unfolding main run_with_retry backoff run_once
main_runs = refl

keepalive_background_example :
    ((keepalive 2 open_channel).sent ≡ encode ping ∷ encode ping ∷ [])
    × All (IsKeepalive test_serde) (pings 2)
    × IsKeepalive test_serde (encode pong)
    × (step test_serde (message (encode ping)) idle_server
        ≡ (record idle_server { channel = sends open_channel }, none))
    × (act test_serde (frame (encode ping)) one_stream
        ≡ record one_stream { channel = sends open_channel })
    × (step test_serde (message (encode pong)) idle_server ≡ (idle_server, none))
    × (act test_serde (frame (encode pong)) one_stream ≡ one_stream)
keepalive_background_example =
    keepalive_background test_serde 2 open_channel idle_server one_stream (λ n. refl) (λ n. refl)
      (λ n. refl)
