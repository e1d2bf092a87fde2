-- ===== src/Meeting/Programs.antt =====
-- Two programs of tunnel/src/main.rs, and the server of signal-server/src/index.ts between them.
use p2p_llm_tunnel.Prelude.{
  ℕ, ◌%◌, ◌^◌, ◌≡◌, ◌≢◌, List, ◌∷◌, ◌++◌, All, length, map, drop, Bool, true, false, Option, some,
  none, bytes_eq, nat_eq, get,
}
use p2p_llm_tunnel.Protocol.{Bytes, Serde}
use p2p_llm_tunnel.Signaling.{IncomingSignal}
use p2p_llm_tunnel.SignalServer.{SignalServer, join, message, run_server}
use p2p_llm_tunnel.SignalServer.Pairs.{all_open, heard}
use p2p_llm_tunnel.Rtc.Connect.{Arm}
use p2p_llm_tunnel.Rtc.Exchange.{Works}
use p2p_llm_tunnel.Retry.{Pause, attempting}
use p2p_llm_tunnel.Main.{
  Command, serve, proxy, turn_config, World, stage_of, Attempt, attempt, main,
}
use p2p_llm_tunnel.Main.Up.{
  HandshakeParses, Lasts, Holds, Fails, side_of, stage_of-side_of, main_stays,
}
use p2p_llm_tunnel.Meeting.Talk.{offer, answer, Line, said_by, as_event}
use p2p_llm_tunnel.Meeting.Through.{arrivals, with_description, peers_connect}

-- An attempt that hears the signals, of which the first ones settle the role, and takes those left. `received` says
-- whether a data channel comes in from the other side.
abbrev pub hearing :
    Bool
    → List (Option IncomingSignal)
    → List (Option IncomingSignal)
    → List (Arm × Bool)
    → World
    → World
hearing received signals left rest w = record w {
  has_channel = received;
  signals = signals;
  arms = arrivals left rest;
}

module _ (serde : Serde) (received : Bool) (signals left : List (Option IncomingSignal))
    (rest : List (Arm × Bool)) where
  Lasts-hearing :
      (cmd : Command) (w : World)
      → Lasts serde cmd w
      → Lasts serde cmd (hearing received signals left rest w)
  Lasts-hearing (serve signal room upstream advertise turn) w l = l
  Lasts-hearing (proxy signal room address turn) w l = l

  Holds-hearing :
      (cmd : Command) (w : World)
      → Holds serde cmd w
      → Holds serde cmd (hearing received signals left rest w)
  Holds-hearing cmd w h = record {
    reached = h.reached;
    opens = h.opens;
    takes = h.takes;
    lasts = Lasts-hearing cmd w h.lasts;
  }

-- Two programs, each after any number of attempts that failed, join an empty room and send each other,
-- in any order between them, one an offer and the other an answer, each among ICE candidates. Then the
-- server runs through, and with what each program hears from it, the attempt of each comes to the side
-- that its command starts: a server that is behind its handshake and has taken, in its loop, all frames
-- that have arrived, or a proxy that is behind its handshake, listens, and has accepted all connections.
-- Each program stays in that attempt, and no later round comes. The attempts are counted in 32
-- bits. The connections are new to the server and their UUIDs differ, every call of the peer connections
-- succeeds, the data channels open once the signals are there and take every frame, the messages of the
-- handshake arrive and parse back, and nothing that comes later ends either side.
pub programs_come_up :
    (serde : Serde) (cmd cmd' : Command) (w w' : World)
    (earlier later earlier' later' : List Attempt) (pause pause' : Pause) (ws ws' : ℕ)
    (u u' : Bytes) (c : ℕ) (cs : Bytes) (s : SignalServer) (lines : List Line) (sdp reply : Bytes)
    (before after before' after' : List Bytes) (rest rest' : List (Arm × Bool))
    → HandshakeParses serde
    → All (Fails serde cmd) earlier
    → All (Fails serde cmd') earlier'
    → Holds serde cmd w
    → Holds serde cmd' w'
    → ws ≢ ws'
    → u ≢ u'
    → get s.ids ws ≡ none
    → get s.ids ws' ≡ none
    → get s.rooms (c ∷ cs) ≡ none
    → Works w.pc (turn_config cmd)
    → Works w'.pc (turn_config cmd')
    → w.pc.local_offer ≡ some sdp
    → w'.pc.local_answer ≡ some reply
    → said_by true lines ≡ with_description before (offer sdp) after
    → said_by false lines ≡ with_description before' (answer reply) after'
    → (t : SignalServer) × (log : List (ℕ × IncomingSignal)) × (run_server
          (message all_open u ws (join (some (c ∷ cs)))
            ∷ message all_open u' ws' (join (some (c ∷ cs)))
            ∷ map (as_event ws ws') lines)
          s
        ≡ some t)
      × (t.sent ≡ s.sent ++ log)
      × (let up = hearing false (heard ws log) (drop 2 (heard ws log)) rest w in
          (stage_of serde cmd up ≡ side_of serde cmd up)
          × ((main serde cmd (earlier ++ attempt up pause ∷ later)).1
              ≡ attempting (length earlier % 2 ^ 32)))
      × (let up' = hearing true (heard ws' log) (drop 1 (heard ws' log)) rest' w' in
          (stage_of serde cmd' up' ≡ side_of serde cmd' up')
          × ((main serde cmd' (earlier' ++ attempt up' pause' ∷ later')).1
              ≡ attempting (length earlier' % 2 ^ 32)))
programs_come_up serde cmd cmd' w w' earlier later earlier' later' pause pause' ws ws' u u' c cs s
      lines sdp reply before after before' after' rest rest' parses fails fails' holds holds' apart
      ne i i' r works works' offers answers first second =
    let (t, log, runs, sent, links, links') =
      peers_connect ws ws' u u' c cs s lines w.pc w'.pc (turn_config cmd) (turn_config cmd') sdp
        reply before after before' after' rest rest' apart ne i i' r works works' offers answers
        first second in
    let held = Holds-hearing serde _ _ _ _ cmd w holds in
    let held' = Holds-hearing serde _ _ _ _ cmd' w' holds' in
    (
      t,
      log,
      runs,
      sent,
      (
        stage_of-side_of serde parses cmd _ _ held links,
        main_stays serde parses cmd earlier later _ pause _ fails held links,
      ),
      (
        stage_of-side_of serde parses cmd' _ _ held' links',
        main_stays serde parses cmd' earlier' later' _ pause' _ fails' held' links',
      ),
    )
