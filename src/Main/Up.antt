-- ===== src/Main/Up.antt =====
-- The program of tunnel/src/main.rs when an attempt goes well: it stays in that attempt.
use p2p_llm_tunnel.Prelude.{
  ℕ, ◌+◌, ◌%◌, ◌^◌, ◌<◌, ◌≡◌, refl, sym, append-nil, append_assoc, ap, ◌∙◌, List, [], ◌∷◌, ◌++◌,
  All, length, true, none, some, err, arith, le→ltb,
}
use p2p_llm_tunnel.Protocol.{Serde}
use p2p_llm_tunnel.Protocol.Build.{new_hello}
use p2p_llm_tunnel.Channel
use p2p_llm_tunnel.Channel.{Error, wait_ends, IsOpen}
use p2p_llm_tunnel.Serve.Run.{Outcome, serve_loop}
use p2p_llm_tunnel.Serve.Requests.{IsHarmless, serve_loop-slot}
use p2p_llm_tunnel.Proxy.Listen.{ListenEvent, accepted, listen, listen_loop, run_proxy}
use p2p_llm_tunnel.Tunnel.Handshake.{agreed, handshake_completes}
use p2p_llm_tunnel.Tunnel.Session.{hello_frame, agree_frame, served, served-IsKeyed}
use p2p_llm_tunnel.Rtc.Establish.{Negotiation, established}
use p2p_llm_tunnel.Rtc.Connect.{linking, connect}
use p2p_llm_tunnel.Retry.{max_retries, Pause, slept, Round, failed, attempting, run_with_retry}
use p2p_llm_tunnel.Retry
use p2p_llm_tunnel.Main.{
  Command, serve, proxy, turn_config, World, Stage, serving, listening, future_of, serve_stage,
  proxy_stage, when_reached, after_connect, run_side, stage_of, run_once, Attempt, interrupted,
  attempt, round_of, rounds_of, main,
}

abbrev pub IsAccepted : ListenEvent → Type 0
IsAccepted (accepted stream) = Unit
IsAccepted _ = ⊥

-- Nothing that comes over the data channel, or to the listener, ends the side that the command starts.
abbrev pub Lasts : Serde → Command → World → Type 0
Lasts serde (serve signal room upstream advertise turn) w =
    (w.handshake ≡ Channel.frame (hello_frame serde)) × All (IsHarmless serde) w.inputs
Lasts serde (proxy signal room address turn) w =
    (w.handshake ≡ Channel.frame (agree_frame serde))
    × (w.bound ≡ true)
    × All IsAccepted w.connections

-- The signaling server is there, the data channel opens, takes every frame, and lasts.
pub record Holds (serde : Serde) (cmd : Command) (w : World) : Type 0 where
  pub reached : w.signaling_opens ≡ true
  pub opens : wait_ends w.already_open w.notified ≡ true
  pub takes : IsOpen w.channel
  pub lasts : Lasts serde cmd w

-- The JSON of the two messages of the handshake parses back.
pub record HandshakeParses (serde : Serde) : Type 0 where
  pub hello : serde.hello_from_slice (serde.hello_to_vec new_hello) ≡ some new_hello
  pub agree : serde.agree_from_slice (serde.agree_to_vec agreed) ≡ some agreed

-- A round that fails, with a pause that is slept through.
abbrev pub Fails : Serde → Command → Attempt → Type 0
Fails serde cmd (attempt w slept) = (e : Error) × (run_once serde cmd w ≡ some (err e))
Fails serde cmd _ = ⊥

serve_stage-serving : (o : Outcome) → o.1 ≡ none → serve_stage o ≡ serving o.0
serve_stage-serving (s, none) e = refl
serve_stage-serving (s, some x) e = cc

-- The connections that were accepted, in order.
unfoldable pub accepted_of : List ListenEvent → List ℕ
accepted_of [] = []
accepted_of (accepted stream ∷ rest) = stream ∷ accepted_of rest
accepted_of (_ ∷ rest) = accepted_of rest

-- What the side of a command is doing: the server is behind its handshake and has taken all that has
-- arrived; the proxy is listening and has taken all connections.
unfoldable pub side_of : Serde → Command → World → Stage
unfolding accepted_of
side_of serde (serve signal room upstream advertise turn) w =
    serving (serve_loop serde w.inputs (served serde w.channel)).0
side_of serde (proxy signal room address turn) w = listening (accepted_of w.connections)

listen_loop_on :
    (events : List ListenEvent) (connections : List ℕ)
    → All IsAccepted events
    → listen_loop events connections ≡ (connections ++ accepted_of events, none)
unfolding listen_loop accepted_of
listen_loop_on [] connections h = ap (λ k. (k, none)) (sym (append-nil connections))
listen_loop_on (accepted stream ∷ rest) connections h =
    listen_loop_on rest (connections ++ stream ∷ []) h.1
    ∙ ap (λ k. (k, none)) (append_assoc connections (stream ∷ []) (accepted_of rest))
listen_loop_on (ListenEvent.disconnected ∷ rest) connections h = elim h.0 [ ]
listen_loop_on (ListenEvent.accept_failed ∷ rest) connections h = elim h.0 [ ]

module _ (serde : Serde) (parses : HandshakeParses serde) where
  run_side-side_of :
      (cmd : Command) (w : World) → Holds serde cmd w → run_side serde cmd w ≡ side_of serde cmd w
  unfolding run_side run_proxy listen side_of
  run_side-side_of (serve signal room upstream advertise turn) w h =
      let shaken =
        (handshake_completes serde w.channel w.channel w.inputs h.takes h.takes parses.hello
          parses.agree).0 in
      let s = served serde w.channel in
      let on = (serve_loop-slot serde 0 w.inputs s (served-IsKeyed serde _) h.lasts.1).0 in
      rw (h.opens, h.lasts.0, shaken) (serve_stage-serving (serve_loop serde w.inputs s) on)
  run_side-side_of (proxy signal room address turn) w h =
      let shaken =
        (handshake_completes serde w.channel w.channel w.inputs h.takes h.takes parses.hello
          parses.agree).1 in
      rw (h.opens, h.lasts.0, h.lasts.1, shaken)
        (ap proxy_stage (listen_loop_on w.connections [] h.lasts.2))

  -- An attempt whose data channel is there has come to its side.
  pub stage_of-side_of :
      (cmd : Command) (w : World) (n : Negotiation)
      → Holds serde cmd w
      → connect w.pc (turn_config cmd) w.has_channel w.signals w.arms ≡ linking (established n)
      → stage_of serde cmd w ≡ side_of serde cmd w
  unfolding stage_of
  stage_of-side_of cmd w n h e =
      ap
        (λ b. when_reached b (
          after_connect (run_side serde cmd w)
            (connect w.pc (turn_config cmd) w.has_channel w.signals w.arms)))
        h.reached
      ∙ ap (after_connect (run_side serde cmd w)) e
      ∙ run_side-side_of cmd w h

  side_of-none : (cmd : Command) (w : World) → future_of (side_of serde cmd w) ≡ none
  unfolding side_of
  side_of-none (serve signal room upstream advertise turn) w = refl
  side_of-none (proxy signal room address turn) w = refl

  -- Whatever failed before, the loop stays in the attempt that holds.
  run_with_retry_stays :
      (cmd : Command) (earlier later : List Attempt) (w : World) (pause : Pause) (n : ℕ)
      → n < 2 ^ 32
      → All (Fails serde cmd) earlier
      → run_once serde cmd w ≡ none
      → (run_with_retry max_retries (rounds_of serde cmd (earlier ++ attempt w pause ∷ later)) n).1
        ≡ attempting ((n + length earlier) % 2 ^ 32)
  unfolding run_with_retry rounds_of round_of
  run_with_retry_stays cmd [] later w pause n fits h up = rw up (ap attempting (omega arith))
  run_with_retry_stays cmd (attempt x slept ∷ earlier) later w pause n fits h up =
      let next = (n + 1) % 2 ^ 32 in
      rw (h.0.1, le→ltb max_retries next (omega arith))
        (run_with_retry_stays cmd earlier later w pause next (omega arith) h.1 up
          ∙ ap attempting (omega arith))
  run_with_retry_stays cmd (attempt x Retry.interrupted ∷ earlier) later w pause n fits h up =
      elim h.0 [ ]
  run_with_retry_stays cmd (interrupted ∷ earlier) later w pause n fits h up = elim h.0 [ ]

  pub main_stays :
      (cmd : Command) (earlier later : List Attempt) (w : World) (pause : Pause) (n : Negotiation)
      → All (Fails serde cmd) earlier
      → Holds serde cmd w
      → connect w.pc (turn_config cmd) w.has_channel w.signals w.arms ≡ linking (established n)
      → (main serde cmd (earlier ++ attempt w pause ∷ later)).1
        ≡ attempting (length earlier % 2 ^ 32)
  unfolding main
  main_stays cmd earlier later w pause n fails h e =
      run_with_retry_stays cmd earlier later w pause 0 (omega arith) fails
        (unfold run_once in ap future_of (stage_of-side_of cmd w n h e) ∙ side_of-none cmd w)
      ∙ ap attempting (omega arith)
