-- ===== src/Meeting/Through.antt =====
-- Two peers that join a room and connect by what the server passes on.
use mathlib.Core.List.{filter_map}
use mathlib.Core.Path.{ap₂}
use p2p_llm_tunnel.Prelude.{
  ℕ, ◌≡◌, ◌≢◌, refl, ap, ◌∙◌, List, [], ◌∷◌, ◌++◌, append_assoc, map, map-append, keep_if-append,
  drop, Bool, true, false, Option, none, some, ◌==◌, nat_eq, bytes_eq, get,
}
use p2p_llm_tunnel.Protocol.{Bytes}
use p2p_llm_tunnel.Signaling.{OutgoingSignal, IncomingSignal, joined, peer_joined}
use p2p_llm_tunnel.SignalServer.{SignalServer, join, message, run_server, bind, handle, ServerEvent}
use p2p_llm_tunnel.SignalServer.Pairs.{
  all_open, heard, heard-first, heard-second, joins_run, joins-Paired, two_in,
}
use p2p_llm_tunnel.Rtc.{TurnConfig, PeerConnection}
use p2p_llm_tunnel.Rtc.Establish.{Event, signal, notified, established}
use p2p_llm_tunnel.Rtc.Connect.{Arm, recv, success, events_of, linking, connect}
use p2p_llm_tunnel.Rtc.Exchange.{Works, hears, late, meeting, peers_meet}
use p2p_llm_tunnel.Meeting.Talk.{
  Talk, offer, answer, candidate, as_heard, Line, said_by, as_event, passed, lines_pass,
  heard_first, heard_second,
}

-- A peer takes as many signals as are listed, and then its data channel opens.
unfoldable pub arrivals : List (Option IncomingSignal) → List (Arm × Bool) → List (Arm × Bool)
arrivals signals rest = map (λ s. (recv, false)) signals ++ (success, true) ∷ rest

unfoldable taking : List (Option IncomingSignal) → List (Event × Bool) → List (Event × Bool)
taking signals rest = map (λ s. (signal s, false)) signals ++ (notified, true) ∷ rest

events_of-arrivals :
    (signals : List (Option IncomingSignal)) (rest : List (Arm × Bool))
    → events_of signals (arrivals signals rest) ≡ taking signals (events_of [] rest)
unfolding events_of arrivals taking
events_of-arrivals [] rest = refl
events_of-arrivals (s ∷ signals) rest =
    ap (λ t. (signal s, false) ∷ t) (events_of-arrivals signals rest)

-- A description among candidates.
abbrev pub with_description : List Bytes → Talk → List Bytes → List Talk
with_description cs d ds = map candidate cs ++ d ∷ map candidate ds

candidates_heard :
    (peer : Bytes) (cs : List Bytes) (rest : List (Event × Bool))
    → map (λ s. (signal s, false)) (map (λ t. some (as_heard peer t)) (map candidate cs)) ++ rest
      ≡ map (hears peer) cs ++ rest
candidates_heard peer [] rest = refl
candidates_heard peer (c ∷ cs) rest = ap (λ r. hears peer c ∷ r) (candidates_heard peer cs rest)

taking-meeting :
    (peer : Bytes) (cs : List Bytes) (d : Talk) (ds : List Bytes) (rest : List (Event × Bool))
    → taking (map (λ t. some (as_heard peer t)) (with_description cs d ds)) rest
      ≡ meeting peer (signal (some (as_heard peer d))) cs ds rest
unfolding taking
taking-meeting peer [] d ds rest =
    ap (λ r. (signal (some (as_heard peer d)), false) ∷ r)
      (candidates_heard peer ds ((notified, true) ∷ rest))
taking-meeting peer (c ∷ cs) d ds rest =
    ap (λ r. hears peer c ∷ r) (taking-meeting peer cs d ds rest)

pub heard-append :
    (ws : ℕ) (a b : List (ℕ × IncomingSignal)) → heard ws (a ++ b) ≡ heard ws a ++ heard ws b
unfolding heard
heard-append ws a b =
    ap (map (λ (e : ℕ × IncomingSignal). some e.1))
      (keep_if-append (λ (e : ℕ × IncomingSignal). e.0 == ws) a b)
    ∙ map-append _ _ _

run_server-append :
    (a b : List ServerEvent) (s : SignalServer)
    → run_server (a ++ b) s ≡ bind (run_server a s) (run_server b)
unfolding run_server
run_server-append [] b s = refl
run_server-append (e ∷ a) b s = then_rest (handle e s) (run_server-append a b)
  where
    then_rest :
        (o : Option SignalServer)
        → ((t : SignalServer) → run_server (a ++ b) t ≡ bind (run_server a t) (run_server b))
        → bind o (run_server (a ++ b)) ≡ bind (bind o (run_server a)) (run_server b)
    then_rest none h = refl
    then_rest (some t) h = h t

module _ (ws ws' : ℕ) (u u' : Bytes) (c : ℕ) (cs : Bytes) (s : SignalServer) (apart : ws ≢ ws')
    (ne : u ≢ u') (i : get s.ids ws ≡ none) (i' : get s.ids ws' ≡ none)
    (r : get s.rooms (c ∷ cs) ≡ none) (lines : List Line) where
  abbrev pub joins : List ServerEvent
  joins =
      message all_open u ws (join (some (c ∷ cs)))
      ∷ message all_open u' ws' (join (some (c ∷ cs)))
      ∷ []

  abbrev pub hellos : List (ℕ × IncomingSignal)
  hellos = (ws, joined u []) ∷ (ws', joined u' (u ∷ [])) ∷ (ws, peer_joined u') ∷ []

  abbrev pub room : Bytes
  room = c ∷ cs

  abbrev pub new : List (ℕ × IncomingSignal)
  new = hellos ++ map (passed ws ws' u u' room apart ne) lines

  unfoldable pub joined_state : SignalServer
  joined_state = two_in ws ws' u u' c cs s apart ne i i' r

  pub said_run :
      run_server (joins ++ map (as_event ws ws') lines) s
      ≡ some (record joined_state { sent = s.sent ++ new })
  unfolding joined_state
  said_run =
      run_server-append joins (map (as_event ws ws') lines) s
      ∙ ap (λ o. bind o (run_server (map (as_event ws ws') lines)))
          (joins_run ws ws' u u' c cs s apart ne i i' r)
      ∙ lines_pass ws ws' u u' room apart ne lines joined_state
          (joins-Paired ws ws' u u' c cs s apart ne i i' r)
      ∙ ap (λ log. some (record joined_state { sent = log }))
          (append_assoc ((s.sent ++ (ws, joined u []) ∷ []) ++ (ws', joined u' (u ∷ [])) ∷ [])
              ((ws, peer_joined u') ∷ []) (map (passed ws ws' u u' room apart ne) lines)
            ∙ append_assoc (s.sent ++ (ws, joined u []) ∷ []) ((ws', joined u' (u ∷ [])) ∷ []) _
            ∙ append_assoc s.sent ((ws, joined u []) ∷ []) _)

  pub first_hears :
      heard ws new
      ≡ some (joined u [])
        ∷ some (peer_joined u')
        ∷ map (λ t. some (as_heard u' t)) (said_by false lines)
  first_hears =
      heard-append ws hellos (map (passed ws ws' u u' room apart ne) lines)
      ∙ ap₂ (λ a b. a ++ b)
          (heard-first ws ws' (joined u []) (joined u' (u ∷ [])) (peer_joined u') apart)
          (heard_first ws ws' u u' room apart ne lines)

  pub second_hears :
      heard ws' new
      ≡ some (joined u' (u ∷ [])) ∷ map (λ t. some (as_heard u t)) (said_by true lines)
  second_hears =
      heard-append ws' hellos (map (passed ws ws' u u' room apart ne) lines)
      ∙ ap₂ (λ a b. a ++ b)
          (heard-second ws ws' (joined u []) (joined u' (u ∷ [])) (peer_joined u') apart)
          (heard_second ws ws' u u' room apart ne lines)

-- Two peers that join an empty room, and then send each other, in any order between them, one an offer
-- and the other an answer, each among ICE candidates. The server runs through, and what either hears
-- from it is enough to connect: the first settles to make the offer and the second to answer it, and
-- both return from `connect` with the description that the other sent set, and no other, their own sent,
-- and every candidate of the other that parses added, in the order in which it was sent, whether it came before the
-- description or after it. The connections are new to the server and their UUIDs differ, every call of
-- their peer connections succeeds, and their data channels open once the signals are there.
pub peers_connect :
    (ws ws' : ℕ) (u u' : Bytes) (c : ℕ) (cs : Bytes) (s : SignalServer) (lines : List Line)
    (p q : PeerConnection) (turn turn' : TurnConfig) (sdp reply : Bytes)
    (before after before' after' : List Bytes) (rest rest' : List (Arm × Bool))
    → ws ≢ ws'
    → u ≢ u'
    → get s.ids ws ≡ none
    → get s.ids ws' ≡ none
    → get s.rooms (c ∷ cs) ≡ none
    → Works p turn
    → Works q turn'
    → p.local_offer ≡ some sdp
    → q.local_answer ≡ some reply
    → said_by true lines ≡ with_description before (offer sdp) after
    → said_by false lines ≡ with_description before' (answer reply) after'
    → (t : SignalServer) × (log : List (ℕ × IncomingSignal)) × (run_server
          (message all_open u ws (join (some (c ∷ cs)))
            ∷ message all_open u' ws' (join (some (c ∷ cs)))
            ∷ map (as_event ws ws') lines)
          s
        ≡ some t)
      × (t.sent ≡ s.sent ++ log)
      × (connect p turn false (heard ws log) (arrivals (drop 2 (heard ws log)) rest)
          ≡ linking (
              established (
                late reply
                  (filter_map p.parse_ice_candidate before'
                    ++ filter_map p.parse_ice_candidate after')
                  (OutgoingSignal.offer sdp ∷ []))))
      × (connect q turn' true (heard ws' log) (arrivals (drop 1 (heard ws' log)) rest')
          ≡ linking (
              established (
                late sdp
                  (filter_map q.parse_ice_candidate before
                    ++ filter_map q.parse_ice_candidate after)
                  (OutgoingSignal.answer reply ∷ []))))
peers_connect ws ws' u u' c cs s lines p q turn turn' sdp reply before after before' after' rest
      rest' apart ne i i' r w w' offers answers first second =
    let hears_first = first_hears ws ws' u u' c cs s apart ne i i' r lines in
    let hears_second = second_hears ws ws' u u' c cs s apart ne i i' r lines in
    let hears_of = λ (peer : Bytes) (ts : List Talk). map (λ t. some (as_heard peer t)) ts in
    let left = hears_of u' (said_by false lines) in
    let left' = hears_of u (said_by true lines) in
    let met =
      peers_meet p q turn turn' u u' sdp reply before' after' before after (events_of [] rest)
        (events_of [] rest') left left' (arrivals left rest) (arrivals left' rest') w w' offers
        answers
        (events_of-arrivals left rest
          ∙ ap (λ ts. taking (hears_of u' ts) (events_of [] rest)) second
          ∙ taking-meeting u' before' (answer reply) after' (events_of [] rest))
        (events_of-arrivals left' rest'
          ∙ ap (λ ts. taking (hears_of u ts) (events_of [] rest')) first
          ∙ taking-meeting u before (offer sdp) after (events_of [] rest')) in
    (
      _,
      new ws ws' u u' c cs s apart ne i i' r lines,
      said_run ws ws' u u' c cs s apart ne i i' r lines,
      refl,
      rw hears_first met.0,
      rw hears_second met.1,
    )
