-- ===== src/Examples/Rooms.antt =====
-- signal-server/src/index.ts at concrete inputs: two connections join one room.
use p2p_llm_tunnel.Prelude.{
  ℕ, ◌≡◌, ◌≢◌, refl, List, [], ◌∷◌, some, bytes_eqb, bytes_eq, nat_eq, contains, get, insert, codes,
}
use p2p_llm_tunnel.Protocol.{Bytes}
use p2p_llm_tunnel.Signaling.{joined, peer_joined}
use p2p_llm_tunnel.SignalServer.{
  SignalServer, join, candidate, ServerEvent, message, close, run_server, nobody,
}
use p2p_llm_tunnel.SignalServer.Rooms.{RoomsFit, run_server-RoomsFit}
use p2p_llm_tunnel.SignalServer.Throws.{AreProper, run_server_goes_on}
use p2p_llm_tunnel.SignalServer.Pairs.{all_open, entered, hears}

abbrev first_id : Bytes
first_id = 1 ∷ []

abbrev second_id : Bytes
second_id = 2 ∷ []

abbrev joins : List ServerEvent
joins =
    message all_open first_id 1 (join (some (codes "room")))
    ∷ message all_open second_id 2 (join (some (codes "room")))
    ∷ []

-- The first hears of itself, the second of both, and the first of the second.
abbrev both_in : SignalServer
both_in = hears 1 (peer_joined second_id) (
    hears 2 (joined second_id (first_id ∷ [])) (
      entered 2 second_id (codes "room") (first_id ∷ [])
        (hears 1 (joined first_id []) (entered 1 first_id (codes "room") [] nobody))))

joins_run : run_server joins nobody ≡ some both_in
unfolding run_server insert get bytes_eqb
joins_run = refl

run_server-RoomsFit_example : RoomsFit both_in.rooms
run_server-RoomsFit_example = run_server-RoomsFit joins both_in joins_run

one_two : ◌≢◌ {A = ℕ} 1 2
one_two = cc

other_id : first_id ≢ second_id
other_id = cc

-- The first peer joins, sends a candidate to nobody, and leaves with an error and a close.
abbrev visit : List ServerEvent
visit =
    message all_open first_id 1 (join (some (codes "room")))
    ∷ message all_open second_id 1 (candidate (codes "c"))
    ∷ close all_open 1
    ∷ close all_open 1
    ∷ []

visit-AreProper : AreProper [] [] visit
unfolding AreProper contains bytes_eqb
visit-AreProper = (refl, refl, λ e. cc, (refl, refl, λ e. cc, tt))

run_server_goes_on_example : (t : SignalServer) × (run_server visit nobody ≡ some t)
run_server_goes_on_example = run_server_goes_on visit visit-AreProper
