-- ===== src/Rtc/Rounds.antt =====
-- The loops of tunnel/src/rtc.rs over any sequence of events.
use mathlib.Core.Path.{subst}
use p2p_llm_tunnel.Prelude.{
  ◌≡◌, refl, sym, ap, ◌∙◌, List, [], ◌∷◌, ◌++◌, append-nil, append_assoc, Bool, true, false, Result,
  ok, err, arith,
}
use p2p_llm_tunnel.Protocol.{Bytes}
use p2p_llm_tunnel.Rtc.{RtcError, TurnConfig, PeerConnection}
use p2p_llm_tunnel.Rtc.Establish.{
  Negotiation, Event, Progress, established, failed, waiting, offerer_round, answerer_round,
  then_wait, run_rounds, fresh, begin_rounds, start_offerer, create_peer_connection,
  establish_as_offerer, take_channel, establish_as_answerer,
}
use p2p_llm_tunnel.Rtc.Candidates.{
  IsOrdered, known, candidates_of, all_candidates, Holds, Reached, Gained, offerer-Gained,
  answerer-Gained,
}

-- What a loop that is run on some events has come to. If it waits for more, it has in order the candidates
-- of all events. If it is done, there is an event that it was waiting for behind others, with which it is
-- done, and it has the candidates of the events up to this one.
abbrev pub Accounts :
    PeerConnection
    → (List (Event × Bool) → Progress)
    → List Bytes
    → List (Event × Bool)
    → Progress
    → Type 0
Accounts pc run cs events (waiting m) = IsOrdered m × (known m ≡ cs ++ all_candidates pc events)
Accounts pc run cs events (established m) =
    IsOrdered m
    × (used : List (Event × Bool)) × (e : Event × Bool) × (rest : List (Event × Bool))
    × (l : Negotiation) × (events ≡ used ++ e ∷ rest)
    × (run used ≡ waiting l)
    × (run (used ++ e ∷ []) ≡ established m)
    × (known m ≡ cs ++ all_candidates pc (used ++ e ∷ []))
Accounts pc run cs events (failed x) = Unit

module _ (pc : PeerConnection) (step : Event × Bool → Negotiation → Progress) where
  abbrev From : Negotiation → List (Event × Bool) → Progress → Type 0
  From n = Accounts pc (λ es. run_rounds step es n) (known n)

  carry :
      (e : Event × Bool) (n m : Negotiation) (l : List Bytes) (es : List (Event × Bool))
      → known m ≡ known n ++ candidates_of pc e
      → l ≡ known m ++ all_candidates pc es
      → l ≡ known n ++ all_candidates pc (e ∷ es)
  unfolding all_candidates
  carry e n m l es k total =
      total
      ∙ ap (λ t. t ++ all_candidates pc es) k
      ∙ append_assoc (known n) (candidates_of pc e) (all_candidates pc es)

  carried :
      (e : Event × Bool) (rest : List (Event × Bool)) (n m : Negotiation) (p : Progress)
      → step e n ≡ waiting m
      → known m ≡ known n ++ candidates_of pc e
      → From m rest p
      → From n (e ∷ rest) p
  unfolding run_rounds
  carried e rest n m (waiting l) s k (v, total) = (v, carry e n m (known l) rest k total)
  carried e rest n m (established l) s k (v, used, f, unused, w, split, on, ends, total) = (
    v,
    e ∷ used,
    f,
    unused,
    w,
    ap (λ t. e ∷ t) split,
    ap (then_wait (run_rounds step used)) s ∙ on,
    ap (then_wait (run_rounds step (used ++ f ∷ []))) s ∙ ends,
    carry e n m (known l) (used ++ f ∷ []) k total,
  )
  carried e rest n m (failed x) s k h = tt

  continued :
      (e : Event × Bool) (rest : List (Event × Bool)) (n : Negotiation) (p : Progress)
      → step e n ≡ p
      → Reached (Gained (candidates_of pc e) n) p
      → ((m : Negotiation) → IsOrdered m → From m rest (run_rounds step rest m))
      → From n (e ∷ rest) (then_wait (run_rounds step rest) p)
  unfolding run_rounds all_candidates
  continued e rest n (established l) s h k =
      (h.0, [], e, rest, n, refl, refl, ap (then_wait (run_rounds step [])) s, rw append-nil h.1)
  continued e rest n (waiting l) s h k = carried e rest n l (run_rounds step rest l) s h.1 (k l h.0)
  continued e rest n (failed x) s h k = tt

  run_rounds-Accounts :
      ((e : Event × Bool) (n : Negotiation)
        → IsOrdered n
        → Reached (Gained (candidates_of pc e) n) (step e n))
      → (events : List (Event × Bool)) (n : Negotiation) → IsOrdered n
      → From n events (run_rounds step events n)
  unfolding run_rounds all_candidates
  run_rounds-Accounts keep [] n v = (v, sym (append-nil (known n)))
  run_rounds-Accounts keep (e ∷ rest) n v =
      continued e rest n (step e n) refl (keep e n v) (run_rounds-Accounts keep rest)

fresh-IsOrdered : IsOrdered fresh
fresh-IsOrdered = record { early = λ h. refl; late = λ h. refl }

taken :
    (pc : PeerConnection) (run : List (Event × Bool) → Progress) (b : Bool)
    (events : List (Event × Bool)) (p : Progress)
    → Accounts pc run [] events p
    → Accounts pc (λ es. take_channel b (run es)) [] events (take_channel b p)
unfolding take_channel
taken pc run false events (established n) h = tt
taken pc run true events (established n) (v, used, e, rest, l, split, on, ends, total) =
    (v, used, e, rest, l, split, ap (take_channel true) on, ap (take_channel true) ends, total)
taken pc run false events (waiting n) h = h
taken pc run true events (waiting n) h = h
taken pc run false events (failed e) h = tt
taken pc run true events (failed e) h = tt

-- From a start at which nothing is known.
begun :
    (pc : PeerConnection) (step : Event × Bool → Negotiation → Progress)
    (r : Result RtcError Negotiation) (events : List (Event × Bool))
    → Holds (λ n. IsOrdered n × (known n ≡ [])) r
    → ((n : Negotiation) → IsOrdered n → From pc step n events (run_rounds step events n))
    → let run : List (Event × Bool) → Progress = λ es. begin_rounds (run_rounds step es) r in
      Accounts pc run [] events (run events)
begun pc step (ok n) events h f =
    subst (λ cs. Accounts pc (λ es. run_rounds step es n) cs events (run_rounds step events n)) h.1
      (f n h.0)
begun pc step (err e) events h f = tt

start_offerer-Holds :
    (pc : PeerConnection) (turn : TurnConfig)
    → Holds (λ n. IsOrdered n × (known n ≡ [])) (start_offerer pc turn)
unfolding start_offerer
start_offerer-Holds pc turn = ground (arith, fresh-IsOrdered)

create_peer_connection-Holds :
    (pc : PeerConnection) (turn : TurnConfig)
    → Holds (λ n. IsOrdered n × (known n ≡ [])) (create_peer_connection pc turn)
unfolding create_peer_connection
create_peer_connection-Holds pc turn = ground (arith, fresh-IsOrdered)

-- Unless they fail, both functions lose no candidate: those added to the peer connection and those
-- still buffered are together, in order, the candidates that parse among the signals taken, which are
-- all of them while the function waits for more, and those up to the event with which it returns. None is
-- added before the description of the other side, and none is left waiting after it.
pub establish-Accounts :
    (pc : PeerConnection) (turn : TurnConfig) (received : Bool) (events : List (Event × Bool))
    → Accounts pc (establish_as_offerer pc turn) [] events (establish_as_offerer pc turn events)
      × Accounts pc
          (establish_as_answerer pc turn received)
          []
          events
          (establish_as_answerer pc turn received events)
unfolding establish_as_offerer establish_as_answerer
establish-Accounts pc turn received events = (
  begun pc (offerer_round pc) _ events (start_offerer-Holds pc turn)
      (run_rounds-Accounts pc (offerer_round pc) (λ e n v. offerer-Gained pc n v e) events),
  taken pc _ received events _ (
      begun pc (answerer_round pc) _ events (create_peer_connection-Holds pc turn)
        (run_rounds-Accounts pc (answerer_round pc) (λ e n v. answerer-Gained pc n v e) events)),
)
