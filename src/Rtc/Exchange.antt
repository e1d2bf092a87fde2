-- ===== src/Rtc/Exchange.antt =====
-- Two peers of tunnel/src/rtc.rs that meet in a room and hear each other.
use mathlib.Core.List.{filter_map, filter_map-cons-none, filter_map-cons-some}
use p2p_llm_tunnel.Prelude.{
  ◌≡◌, refl, sym, ap, ◌∙◌, List, [], ◌∷◌, ◌++◌, append-nil, append_assoc, map, Bool, true, false,
  Option, none, some, ok, inl, inr, Option-cases, arith,
}
use p2p_llm_tunnel.Protocol.{Bytes}
use p2p_llm_tunnel.Signaling.{OutgoingSignal, IncomingSignal, joined, peer_joined}
use p2p_llm_tunnel.Rtc.{TurnConfig, disabled, PeerConnection}
use p2p_llm_tunnel.Rtc.Establish.{
  Negotiation, add_ice_candidate, apply_candidates, apply_buffered_candidates, on_candidate,
  on_description, send_answer, Event, signal, notified, Progress, established, waiting, check_open,
  offerer_round, answerer_round, then_wait, run_rounds, begin_rounds, start_offerer,
  create_peer_connection, ice_servers, take_channel, establish_as_offerer, establish_as_answerer,
}
use p2p_llm_tunnel.Rtc.Candidates.{parsed_of}
use p2p_llm_tunnel.Rtc.Connect.{Arm, events_of, linking, connect}

-- A candidate of the other peer arrives, and the data channel is not open.
abbrev pub hears : Bytes → Bytes → Event × Bool
hears peer c = (signal (some (IncomingSignal.candidate peer c)), false)

-- Every call of the peer connection succeeds, and the signaling connection stays.
pub record Works (pc : PeerConnection) (turn : TurnConfig) : Type 0 where
  pub registers : pc.register_default_codecs ≡ true
  pub intercepts : pc.register_default_interceptors ≡ true
  pub creates : pc.create disabled (ice_servers turn) ≡ true
  pub makes_channel : pc.create_data_channel ≡ true
  pub sets : (sdp : Bytes) → pc.set_remote_description sdp ≡ true
  pub adds : (c : Bytes) → pc.add_ice_candidate c ≡ true
  pub signals : pc.signaling_open ≡ true

abbrev pub early : List Bytes → List OutgoingSignal → Negotiation
early cs sent = record {
  remote_desc_set = false;
  buffered_candidates = cs;
  remote = [];
  added = [];
  sent = sent;
}

abbrev pub late : Bytes → List Bytes → List OutgoingSignal → Negotiation
late sdp cs sent = record {
  remote_desc_set = true;
  buffered_candidates = [];
  remote = sdp ∷ [];
  added = cs;
  sent = sent;
}

-- The events of a peer: candidates, the description of the other side, candidates, and the channel.
abbrev pub meeting :
    Bytes → Event → List Bytes → List Bytes → List (Event × Bool) → List (Event × Bool)
meeting peer description cs ds rest =
    map (hears peer) cs ++ (description, false) ∷ (map (hears peer) ds ++ (notified, true) ∷ rest)

module _ (pc : PeerConnection) (turn : TurnConfig) (w : Works pc turn) (peer : Bytes) where
  abbrev parsed : List Bytes → List Bytes
  parsed = filter_map pc.parse_ice_candidate

  apply_candidates-late :
      (sdp : Bytes) (cs ds : List Bytes) (sent : List OutgoingSignal)
      → apply_candidates pc cs (late sdp ds sent) ≡ ok (late sdp (ds ++ cs) sent)
  unfolding apply_candidates add_ice_candidate
  apply_candidates-late sdp [] ds sent = ap (λ t. ok (late sdp t sent)) (sym (append-nil ds))
  apply_candidates-late sdp (c ∷ cs) ds sent = rw (w.adds c) (
      apply_candidates-late sdp cs (ds ++ c ∷ []) sent
      ∙ ap (λ t. ok (late sdp t sent)) (append_assoc ds (c ∷ []) cs))

  on_description-early :
      (sdp : Bytes) (cs : List Bytes) (sent : List OutgoingSignal)
      → on_description pc sdp (early cs sent) ≡ ok (late sdp cs sent)
  unfolding on_description apply_buffered_candidates
  on_description-early sdp cs sent = rw (w.sets sdp) (apply_candidates-late sdp cs [] sent)

  parsed-cons :
      (c : Bytes) (cs : List Bytes)
      → parsed (c ∷ cs) ≡ parsed_of (pc.parse_ice_candidate c) ++ parsed cs
  unfolding parsed_of
  parsed-cons c cs = elim (Option-cases (pc.parse_ice_candidate c)) [
    | inl e ↦ filter_map-cons-none pc.parse_ice_candidate c cs e ∙ (rw e)
    | inr (d, e) ↦ filter_map-cons-some pc.parse_ice_candidate c cs e ∙ (rw e)
  ]

  abbrev Keeps : (List Bytes → Negotiation) → Type 0
  Keeps hold =
      (o : Option Bytes) (ds : List Bytes)
      → check_open false (on_candidate pc o (hold ds)) ≡ waiting (hold (ds ++ parsed_of o))

  early-Keeps : (sent : List OutgoingSignal) → Keeps (λ ds. early ds sent)
  unfolding on_candidate check_open parsed_of
  early-Keeps sent none ds = ap (λ t. waiting (early t sent)) (sym (append-nil ds))
  early-Keeps sent (some c) ds = refl

  late-Keeps : (sdp : Bytes) (sent : List OutgoingSignal) → Keeps (λ ds. late sdp ds sent)
  unfolding on_candidate check_open parsed_of add_ice_candidate
  late-Keeps sdp sent none ds = ap (λ t. waiting (late sdp t sent)) (sym (append-nil ds))
  late-Keeps sdp sent (some c) ds = rw (w.adds c)

  abbrev Hears : (Event × Bool → Negotiation → Progress) → Type 0
  Hears step =
      (c : Bytes) (n : Negotiation)
      → step (hears peer c) n ≡ check_open false (on_candidate pc (pc.parse_ice_candidate c) n)

  rounds_candidates :
      (step : Event × Bool → Negotiation → Progress) (hold : List Bytes → Negotiation)
      → Hears step
      → Keeps hold
      → (cs ds : List Bytes) (rest : List (Event × Bool))
      → run_rounds step (map (hears peer) cs ++ rest) (hold ds)
        ≡ run_rounds step rest (hold (ds ++ parsed cs))
  unfolding run_rounds
  rounds_candidates step hold h k [] ds rest =
      unfold filter_map in ap (λ t. run_rounds step rest (hold t)) (sym (append-nil ds))
  rounds_candidates step hold h k (c ∷ cs) ds rest =
      ap (then_wait (run_rounds step (map (hears peer) cs ++ rest)))
        (h c (hold ds) ∙ k (pc.parse_ice_candidate c) ds)
      ∙ rounds_candidates step hold h k cs (ds ++ parsed_of (pc.parse_ice_candidate c)) rest
      ∙ ap (λ t. run_rounds step rest (hold t))
          (append_assoc ds (parsed_of (pc.parse_ice_candidate c)) (parsed cs)
            ∙ ap (λ t. ds ++ t) (sym (parsed-cons c cs)))

  met :
      (step : Event × Bool → Negotiation → Progress) (description : Event) (sdp : Bytes)
      (cs ds : List Bytes) (rest : List (Event × Bool)) (before after : List OutgoingSignal)
      → Hears step
      → ((es : List Bytes)
          → step (description, false) (early es before) ≡ waiting (late sdp es after))
      → ((n : Negotiation) → step (notified, true) n ≡ established n)
      → run_rounds step (meeting peer description cs ds rest) (early [] before)
        ≡ established (late sdp (parsed cs ++ parsed ds) after)
  met step description sdp cs ds rest before after h d o =
      let more = map (hears peer) ds ++ (notified, true) ∷ rest in
      rounds_candidates step (λ t. early t before) h (early-Keeps before) cs []
        ((description, false) ∷ more)
      ∙ unfold run_rounds in
        ap (then_wait (run_rounds step more)) (d (parsed cs))
        ∙ rounds_candidates step (λ t. late sdp t after) h (late-Keeps sdp after) ds (parsed cs)
            ((notified, true) ∷ rest)
        ∙ unfold run_rounds in ap (then_wait (run_rounds step rest)) (o _)

create_peer_connection-Works :
    (p : PeerConnection) (turn : TurnConfig)
    → Works p turn
    → create_peer_connection p turn ≡ ok (early [] [])
unfolding create_peer_connection
create_peer_connection-Works p turn w = ground (arith, w.registers, w.intercepts, w.creates)

hears_offerer :
    (p : PeerConnection) (other c : Bytes) (n : Negotiation)
    → offerer_round p (hears other c) n
      ≡ check_open false (on_candidate p (p.parse_ice_candidate c) n)
unfolding offerer_round
hears_offerer p other c n = refl

hears_answerer :
    (p : PeerConnection) (other c : Bytes) (n : Negotiation)
    → answerer_round p (hears other c) n
      ≡ check_open false (on_candidate p (p.parse_ice_candidate c) n)
unfolding answerer_round
hears_answerer p other c n = refl

start_offerer-Works :
    (p : PeerConnection) (turn : TurnConfig) (sdp : Bytes)
    → Works p turn
    → p.local_offer ≡ some sdp
    → start_offerer p turn ≡ ok (early [] (OutgoingSignal.offer sdp ∷ []))
unfolding start_offerer
start_offerer-Works p turn sdp w offers =
    ground (arith, w.registers, w.intercepts, w.creates, w.makes_channel, w.signals)

answer_offer :
    (q : PeerConnection) (turn : TurnConfig) (w : Works q turn) (me sdp reply : Bytes)
    (es : List Bytes)
    → q.local_answer ≡ some reply
    → answerer_round q (signal (some (IncomingSignal.offer me sdp)), false) (early es [])
      ≡ waiting (late sdp es (OutgoingSignal.answer reply ∷ []))
unfolding answerer_round
answer_offer q turn w me sdp reply es answers =
    rw (on_description-early q turn w me sdp es [], answers) (unfold send_answer in rw w.signals)

take_answer :
    (p : PeerConnection) (turn : TurnConfig) (w : Works p turn) (other reply : Bytes)
    (sent : List OutgoingSignal) (es : List Bytes)
    → offerer_round p (signal (some (IncomingSignal.answer other reply)), false) (early es sent)
      ≡ waiting (late reply es sent)
unfolding offerer_round
take_answer p turn w other reply sent es =
    rw (on_description-early p turn w other reply es sent) refl

offerer_meets :
    (p : PeerConnection) (turn : TurnConfig) (w : Works p turn) (other sdp reply : Bytes)
    (cs ds : List Bytes) (rest : List (Event × Bool))
    → p.local_offer ≡ some sdp
    → establish_as_offerer p turn
        (meeting other (signal (some (IncomingSignal.answer other reply))) cs ds rest)
      ≡ established (
          late reply
            (filter_map p.parse_ice_candidate cs ++ filter_map p.parse_ice_candidate ds)
            (OutgoingSignal.offer sdp ∷ []))
unfolding establish_as_offerer
offerer_meets p turn w other sdp reply cs ds rest offers =
    let answer : Event = signal (some (IncomingSignal.answer other reply)) in
    let sent : List OutgoingSignal = OutgoingSignal.offer sdp ∷ [] in
    ap (begin_rounds (run_rounds (offerer_round p) (meeting other answer cs ds rest)))
      (start_offerer-Works p turn sdp w offers)
    ∙ met p turn w other (offerer_round p) answer reply cs ds rest sent sent (hears_offerer p other)
        (take_answer p turn w other reply _) (λ n. unfold offerer_round in refl)

answerer_meets :
    (q : PeerConnection) (turn : TurnConfig) (w : Works q turn) (me sdp reply : Bytes)
    (cs ds : List Bytes) (rest : List (Event × Bool))
    → q.local_answer ≡ some reply
    → establish_as_answerer q turn true
        (meeting me (signal (some (IncomingSignal.offer me sdp))) cs ds rest)
      ≡ established (
          late sdp
            (filter_map q.parse_ice_candidate cs ++ filter_map q.parse_ice_candidate ds)
            (OutgoingSignal.answer reply ∷ []))
unfolding establish_as_answerer
answerer_meets q turn w me sdp reply cs ds rest answers =
    let offer : Event = signal (some (IncomingSignal.offer me sdp)) in
    let rounds = run_rounds (answerer_round q) (meeting me offer cs ds rest) in
    ap (λ r. take_channel true (begin_rounds rounds r)) (create_peer_connection-Works q turn w)
    ∙ ap (take_channel true) (
        met q turn w me (answerer_round q) offer sdp cs ds rest []
          (OutgoingSignal.answer reply ∷ []) (hears_answerer q me)
          (λ es. answer_offer q turn w me sdp reply es answers)
          (λ n. unfold answerer_round in refl))

-- Two peers meet in an empty room, each hears of the other, and every call of their peer connections
-- succeeds. Then the first makes the offer and the second answers it, and both functions return with
-- the description that the other side sent set, and no other, the one description sent, and, in order, all candidates added
-- that have arrived and parse, whether they came before the description or after it.
pub peers_meet :
    (p q : PeerConnection) (turn turn' : TurnConfig) (me other sdp reply : Bytes)
    (cs ds es fs : List Bytes) (rest rest' : List (Event × Bool))
    (more more' : List (Option IncomingSignal)) (arms arms' : List (Arm × Bool))
    → Works p turn
    → Works q turn'
    → p.local_offer ≡ some sdp
    → q.local_answer ≡ some reply
    → events_of more arms
      ≡ meeting other (signal (some (IncomingSignal.answer other reply))) cs ds rest
    → events_of more' arms' ≡ meeting me (signal (some (IncomingSignal.offer me sdp))) es fs rest'
    → (connect p turn false (some (joined me []) ∷ some (peer_joined other) ∷ more) arms
        ≡ linking (
            established (
              late reply
                (filter_map p.parse_ice_candidate cs ++ filter_map p.parse_ice_candidate ds)
                (OutgoingSignal.offer sdp ∷ []))))
      × (connect q turn' true (some (joined other (me ∷ [])) ∷ more') arms'
          ≡ linking (
              established (
                late sdp
                  (filter_map q.parse_ice_candidate es ++ filter_map q.parse_ice_candidate fs)
                  (OutgoingSignal.answer reply ∷ []))))
unfolding connect
peers_meet p q turn turn' me other sdp reply cs ds es fs rest rest' more more' arms arms' w w'
      offers answers seen seen' =
    (
      ap (λ t. linking (establish_as_offerer p turn t)) seen
          ∙ ap linking (offerer_meets p turn w other sdp reply cs ds rest offers),
      ap (λ t. linking (establish_as_answerer q turn' true t)) seen'
          ∙ ap linking (answerer_meets q turn' w' me sdp reply es fs rest' answers),
    )
