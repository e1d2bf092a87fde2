-- ===== src/Examples/Starting.antt =====
-- Two programs of tunnel/src/main.rs that come up, at concrete inputs.
use p2p_llm_tunnel.Prelude.{
  ℕ, ◌≡◌, refl, List, [], ◌∷◌, ◌++◌, All, map, some, true, false, get, bytes_eq, nat_eq, drop,
  codes, arith,
}
use p2p_llm_tunnel.Protocol.Build
use p2p_llm_tunnel.Protocol.Frame.{encode, decode}
use p2p_llm_tunnel.Protocol.RoundTrip.{decode-encode}
use p2p_llm_tunnel.Channel
use p2p_llm_tunnel.Channel.{setup_failed, wait_ends}
use p2p_llm_tunnel.Serve.Run.{message, serve_loop}
use p2p_llm_tunnel.Serve.Requests.{IsHarmless}
use p2p_llm_tunnel.Proxy.Listen.{accepted}
use p2p_llm_tunnel.Tunnel.Session.{hello_frame, agree_frame, served}
use p2p_llm_tunnel.Signaling.{IncomingSignal}
use p2p_llm_tunnel.SignalServer.{SignalServer, join, run_server, nobody}
use p2p_llm_tunnel.SignalServer
use p2p_llm_tunnel.SignalServer.Pairs.{all_open, heard}
use p2p_llm_tunnel.Retry.{slept, attempting}
use p2p_llm_tunnel.Main.{
  Command, serve, World, Attempt, interrupted, attempt, stage_of, listening, serving, run_once,
  main,
}
use p2p_llm_tunnel.Main.Up.{HandshakeParses, Holds, Fails, side_of}
use p2p_llm_tunnel.Meeting.Talk.{said_by, as_event}
use p2p_llm_tunnel.Meeting.Programs.{hearing, programs_come_up}
use p2p_llm_tunnel.Examples.Meeting.{no_turn, eager-Works}
use p2p_llm_tunnel.Examples.Tasks.{id_serde}
use p2p_llm_tunnel.Examples.{open_channel}
use p2p_llm_tunnel.Examples.Running.{unreached, consumer}
use p2p_llm_tunnel.Examples.Connecting.{first_id, second_id, lines, one_two, other_id}

abbrev provider : Command
provider = serve (codes "wss://s") (codes "room") (codes "http://a") (codes "/") no_turn

abbrev consuming : World
consuming = record unreached {
  signaling_opens = true;
  already_open = true;
  handshake = Channel.frame (agree_frame id_serde);
  bound = true;
  connections = accepted 3 ∷ accepted 4 ∷ [];
}

abbrev providing : World
providing = record unreached {
  signaling_opens = true;
  notified = true;
  handshake = Channel.frame (hello_frame id_serde);
  inputs = message (encode Build.ping) ∷ message [] ∷ [];
}

id_serde-HandshakeParses : HandshakeParses id_serde
id_serde-HandshakeParses = record { hello = refl; agree = refl }

ping-IsHarmless : IsHarmless id_serde (message (encode Build.ping))
unfolding Build.ping
ping-IsHarmless m decodes headers refused = let whole = decode-encode Build.ping (omega arith) in cc

empty-IsHarmless : IsHarmless id_serde (message [])
unfolding decode
empty-IsHarmless m decodes headers refused = cc

consuming-Holds : Holds id_serde consumer consuming
unfolding wait_ends
consuming-Holds = record {
  reached = refl;
  opens = refl;
  takes = λ n. refl;
  lasts = (refl, refl, (tt, (tt, tt)));
}

providing-Holds : Holds id_serde provider providing
unfolding wait_ends
providing-Holds = record {
  reached = refl;
  opens = refl;
  takes = λ n. refl;
  lasts = (refl, (ping-IsHarmless, (empty-IsHarmless, tt)));
}

-- The signaling server was not there twice.
abbrev failures : List Attempt
failures = attempt unreached slept ∷ attempt unreached slept ∷ []

failures-Fails : All (Fails id_serde consumer) failures
unfolding run_once
failures-Fails = ((setup_failed, refl), ((setup_failed, refl), tt))

programs_come_up_example :
    (t : SignalServer) × (log : List (ℕ × IncomingSignal)) × (run_server
        (SignalServer.message all_open first_id 1 (join (some (codes "room")))
          ∷ SignalServer.message all_open second_id 2 (join (some (codes "room")))
          ∷ map (as_event 1 2) lines)
        nobody
      ≡ some t)
    × (t.sent ≡ [] ++ log)
    × (let up = hearing false (heard 1 log) (drop 2 (heard 1 log)) [] consuming in
        (stage_of id_serde consumer up ≡ listening (3 ∷ 4 ∷ []))
        × ((main id_serde consumer (failures ++ attempt up slept ∷ [])).1 ≡ attempting 2))
    × (let up' = hearing true (heard 2 log) (drop 1 (heard 2 log)) [] providing in
        (stage_of id_serde provider up'
          ≡ serving (serve_loop id_serde providing.inputs (served id_serde open_channel)).0)
        × ((main id_serde provider (attempt up' slept ∷ interrupted ∷ [])).1 ≡ attempting 0))
unfolding get said_by side_of
programs_come_up_example =
    programs_come_up id_serde consumer provider consuming providing failures [] []
      (interrupted ∷ []) slept slept 1 2 first_id second_id 114 (codes "oom") nobody lines
      (codes "offer") (codes "answer") (codes "c1" ∷ []) (codes "c2" ∷ []) (codes "d1" ∷ []) [] []
      [] id_serde-HandshakeParses failures-Fails tt consuming-Holds providing-Holds one_two other_id
      refl refl refl eager-Works eager-Works refl refl refl refl
