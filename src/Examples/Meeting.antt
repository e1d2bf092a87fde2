-- ===== src/Examples/Meeting.antt =====
-- tunnel/src/rtc.rs and the client of tunnel/src/signaling.rs at concrete inputs.
use mathlib.Core.List.{filter_map}
use p2p_llm_tunnel.Prelude.{
  ◌≡◌, refl, List, [], ◌∷◌, Option, none, some, Bool, true, false, ok, codes,
}
use p2p_llm_tunnel.Protocol.{Bytes}
use p2p_llm_tunnel.Signaling.{OutgoingSignal, join, bye, IncomingSignal}
use p2p_llm_tunnel.Signaling.Client.{SignalingClient, drop_client, run_writer}
use p2p_llm_tunnel.Signaling.Client
use p2p_llm_tunnel.Signaling.Writer.{send_all, signals_arrive}
use p2p_llm_tunnel.Rtc.{TurnConfig, PeerConnection}
use p2p_llm_tunnel.Rtc.Establish.{
  Event, signal, fresh, establish_as_offerer, establish_as_answerer, established, add_ice_candidate,
}
use p2p_llm_tunnel.Rtc.Rounds.{Accounts, establish-Accounts}
use p2p_llm_tunnel.Rtc.Exchange.{Works}
use p2p_llm_tunnel.Examples.{open_channel}

abbrev pub no_turn : TurnConfig
no_turn = record { url = none; username = none; password = none }

abbrev pub eager : PeerConnection
eager = record {
  register_default_codecs = true;
  register_default_interceptors = true;
  create = λ mode servers. true;
  create_data_channel = true;
  local_offer = some (codes "offer");
  parse_ice_candidate = λ c. some c;
  set_remote_description = λ s. true;
  add_ice_candidate = λ c. true;
  local_answer = some (codes "answer");
  signaling_open = true;
}

abbrev trickle : List (Event × Bool)
trickle =
    (signal (some (IncomingSignal.candidate (codes "b") (codes "c1"))), false)
    ∷ (signal (some (IncomingSignal.answer (codes "b") (codes "sdp"))), false)
    ∷ (signal (some (IncomingSignal.candidate (codes "b") (codes "c2"))), true)
    ∷ []

offer_runs :
    establish_as_offerer eager no_turn trickle
    ≡ established (record fresh {
      remote_desc_set = true;
      remote = codes "sdp" ∷ [];
      added = codes "c1" ∷ codes "c2" ∷ [];
      sent = OutgoingSignal.offer (codes "offer") ∷ [];
    })
unfolding establish_as_offerer add_ice_candidate
offer_runs = refl

establish-Accounts_example :
    Accounts eager
      (establish_as_offerer eager no_turn)
      []
      trickle
      (establish_as_offerer eager no_turn trickle)
    × Accounts eager
        (establish_as_answerer eager no_turn true)
        []
        trickle
        (establish_as_answerer eager no_turn true trickle)
establish-Accounts_example = establish-Accounts eager no_turn true trickle

pub eager-Works : Works eager no_turn
eager-Works = record {
  registers = refl;
  intercepts = refl;
  creates = refl;
  makes_channel = refl;
  sets = λ sdp. refl;
  adds = λ c. refl;
  signals = refl;
}

-- Offers do not serialize.
abbrev to_json : OutgoingSignal → Option Bytes
to_json (join room) = some room
to_json bye = some (codes "bye")
to_json (OutgoingSignal.offer sdp) = none
to_json (OutgoingSignal.answer sdp) = some sdp
to_json (OutgoingSignal.candidate c) = some c

abbrev room : Bytes
room = codes "room"

signals_arrive_example :
    (client : SignalingClient) × ((Client.connect to_json room [] open_channel).0 ≡ ok client)
    × ((run_writer to_json
          (drop_client (send_all (OutgoingSignal.candidate (codes "c") ∷ []) client)).queue
          (Client.connect to_json room [] open_channel).1).sent
        ≡ room ∷ codes "c" ∷ codes "bye" ∷ [])
unfolding filter_map
signals_arrive_example =
    (signals_arrive to_json room [] (OutgoingSignal.candidate (codes "c") ∷ []) open_channel room
      refl (λ n. refl)).0
