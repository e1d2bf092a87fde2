-- ===== src/Examples/Connecting.antt =====
-- Two peers of tunnel/src/rtc.rs that connect through signal-server/src/index.ts, at concrete inputs.
use mathlib.Core.List.{filter_map}
use p2p_llm_tunnel.Prelude.{
  ℕ, ◌≡◌, ◌≢◌, refl, List, [], ◌∷◌, ◌++◌, map, some, true, false, get, bytes_eq, nat_eq, drop,
  codes,
}
use p2p_llm_tunnel.Protocol.{Bytes}
use p2p_llm_tunnel.Signaling.{OutgoingSignal, IncomingSignal, joined, peer_joined}
use p2p_llm_tunnel.SignalServer.{SignalServer, join, message, run_server, nobody}
use p2p_llm_tunnel.SignalServer.Pairs.{all_open, heard, IsFull}
use p2p_llm_tunnel.Rtc.Role.{joining, role, determine_role}
use p2p_llm_tunnel.Meeting.Room.{room_pairs}
use p2p_llm_tunnel.Rtc.Establish.{established}
use p2p_llm_tunnel.Rtc.Connect.{linking, connect}
use p2p_llm_tunnel.Rtc.Exchange.{late}
use p2p_llm_tunnel.Meeting.Talk.{offer, answer, candidate, Line, as_heard, said_by, as_event}
use p2p_llm_tunnel.Meeting.Through.{arrivals, peers_connect}
use p2p_llm_tunnel.Examples.Meeting.{no_turn, eager, eager-Works}

abbrev pub first_id : Bytes
first_id = 1 ∷ []

abbrev pub second_id : Bytes
second_id = 2 ∷ []

-- The second peer's candidate comes before its answer, and the first peer's before and after its offer.
abbrev pub lines : List Line
lines =
    (true, candidate (codes "c1"))
    ∷ (true, offer (codes "offer"))
    ∷ (false, candidate (codes "d1"))
    ∷ (true, candidate (codes "c2"))
    ∷ (false, answer (codes "answer"))
    ∷ []

pub one_two : ◌≢◌ {A = ℕ} 1 2
one_two = cc

pub other_id : first_id ≢ second_id
other_id = cc

peers_connect_example :
    (t : SignalServer) × (log : List (ℕ × IncomingSignal)) × (run_server
        (message all_open first_id 1 (join (some (codes "room")))
          ∷ message all_open second_id 2 (join (some (codes "room")))
          ∷ map (as_event 1 2) lines)
        nobody
      ≡ some t)
    × (t.sent ≡ [] ++ log)
    × (connect eager no_turn false (heard 1 log) (arrivals (drop 2 (heard 1 log)) [])
        ≡ linking (
            established (
              late (codes "answer") (codes "d1" ∷ []) (OutgoingSignal.offer (codes "offer") ∷ []))))
    × (connect eager no_turn true (heard 2 log) (arrivals (drop 1 (heard 2 log)) [])
        ≡ linking (
            established (
              late
                (codes "offer")
                (codes "c1" ∷ codes "c2" ∷ [])
                (OutgoingSignal.answer (codes "answer") ∷ []))))
unfolding get said_by filter_map
peers_connect_example =
    peers_connect 1 2 first_id second_id 114 (codes "oom") nobody lines eager eager no_turn no_turn
      (codes "offer") (codes "answer") (codes "c1" ∷ []) (codes "c2" ∷ []) (codes "d1" ∷ []) [] []
      [] one_two other_id refl refl refl eager-Works eager-Works refl refl refl refl

room_pairs_example :
    (t : SignalServer) × (log : List (ℕ × IncomingSignal)) × (run_server
        (message all_open first_id 1 (join (some (codes "room")))
          ∷ message all_open second_id 2 (join (some (codes "room")))
          ∷ map (as_event 1 2) lines)
        nobody
      ≡ some t)
    × (t.sent ≡ [] ++ log)
    × (heard 1 log
        ≡ some (joined first_id [])
          ∷ some (peer_joined second_id)
          ∷ map (λ x. some (as_heard second_id x)) (said_by false lines))
    × (heard 2 log
        ≡ some (joined second_id (first_id ∷ []))
          ∷ map (λ x. some (as_heard first_id x)) (said_by true lines))
    × ((k : ℕ) → 1 ≢ k → 2 ≢ k → heard k log ≡ [])
    × (determine_role (heard 1 log) joining ≡ role true)
    × (determine_role (heard 2 log) joining ≡ role false)
    × IsFull (codes "room") t
unfolding get
room_pairs_example =
    room_pairs 1 2 first_id second_id 114 (codes "oom") nobody lines one_two other_id refl refl refl
