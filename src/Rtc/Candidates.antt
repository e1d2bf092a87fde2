-- ===== src/Rtc/Candidates.antt =====
-- tunnel/src/rtc.rs loses no ICE candidate and gives none to the peer connection too early.
use p2p_llm_tunnel.Prelude.{
  ◌≡◌, refl, sym, List, [], ◌∷◌, ◌++◌, append-nil, append_assoc, Bool, true, false, Option, none,
  some, Result, ok, err, ◌>>=◌, if◌then◌else◌, Bool-cases, inl, inr,
}
use p2p_llm_tunnel.Protocol.{Bytes}
use p2p_llm_tunnel.Signaling.{IncomingSignal}
use p2p_llm_tunnel.Rtc.{RtcError, PeerConnection}
use p2p_llm_tunnel.Rtc.Establish.{
  Negotiation, add_ice_candidate, apply_candidates, on_candidate, on_description, send_answer,
  Event, signal, notified, pc_failed, Progress, established, failed, waiting, check_open,
  offerer_round, answerer_round,
}

-- Candidates wait exactly while there is no description, and none is added before.
pub record IsOrdered (n : Negotiation) : Type 0 where
  pub early : n.remote_desc_set ≡ false → n.added ≡ []
  pub late : n.remote_desc_set ≡ true → n.buffered_candidates ≡ []

-- The candidates that have arrived and parse, in order.
abbrev pub known : Negotiation → List Bytes
known n = n.added ++ n.buffered_candidates

unfoldable pub parsed_of : Option Bytes → List Bytes
parsed_of none = []
parsed_of (some c) = c ∷ []

unfoldable pub candidates_of : PeerConnection → Event × Bool → List Bytes
unfolding parsed_of
candidates_of pc (signal (some (IncomingSignal.candidate peer c)), o) =
    parsed_of (pc.parse_ice_candidate c)
candidates_of pc _ = []

unfoldable pub all_candidates : PeerConnection → List (Event × Bool) → List Bytes
unfolding candidates_of
all_candidates pc [] = []
all_candidates pc (e ∷ rest) = candidates_of pc e ++ all_candidates pc rest

-- A result that is a state meets a condition.
abbrev pub Holds : (Negotiation → Type 0) → Result RtcError Negotiation → Type 0
Holds P (ok n) = P n
Holds P (err e) = Unit

abbrev pub Reached : (Negotiation → Type 0) → Progress → Type 0
Reached P (established n) = P n
Reached P (waiting n) = P n
Reached P (failed e) = Unit

-- The state is ordered, and the candidates known are those before and `cs`.
abbrev pub Gained : List Bytes → Negotiation → Negotiation → Type 0
Gained cs n m = IsOrdered m × (known m ≡ known n ++ cs)

apply_candidates-Holds :
    (pc : PeerConnection) (cs : List Bytes) (n : Negotiation)
    → n.remote_desc_set ≡ true
    → n.buffered_candidates ≡ []
    → Holds
        (λ m. (m.added ≡ n.added ++ cs) × (m.remote_desc_set ≡ true) × (m.buffered_candidates ≡ []))
        (apply_candidates pc cs n)
unfolding apply_candidates add_ice_candidate
apply_candidates-Holds pc [] n d b = (sym (append-nil n.added), d, b)
apply_candidates-Holds pc (c ∷ cs) n d b = elim (Bool-cases (pc.add_ice_candidate c)) [
  | inr refused ↦ rw refused tt
  | inl taken ↦ rw taken (
      rw (← append_assoc n.added (c ∷ []) cs)
        (apply_candidates-Holds pc cs (record n { added = n.added ++ c ∷ [] }) d b))
]

add-Gained :
    (pc : PeerConnection) (c : Bytes) (n : Negotiation)
    → n.remote_desc_set ≡ true
    → n.buffered_candidates ≡ []
    → Holds (Gained (c ∷ []) n) (add_ice_candidate pc c n)
unfolding add_ice_candidate
add-Gained pc c n d b = elim (Bool-cases (pc.add_ice_candidate c)) [
  | inr refused ↦ rw refused tt
  | inl taken ↦ rw taken (
    record { early = λ h. cc (d, h); late = λ h. b },
    cc (b, append-nil (n.added ++ c ∷ []), append-nil n.added),
  )
]

place-Gained :
    (pc : PeerConnection) (c : Bytes) (n : Negotiation) (b : Bool)
    → n.remote_desc_set ≡ b
    → IsOrdered n
    → Holds (Gained (c ∷ []) n) (
        if b
        then add_ice_candidate pc c n
        else ok (record n { buffered_candidates = n.buffered_candidates ++ c ∷ [] }))
place-Gained pc c n true d v = add-Gained pc c n d (v.late d)
place-Gained pc c n false d v = (
  record { early = λ h. v.early d; late = λ h. cc (d, h) },
  sym (append_assoc n.added n.buffered_candidates (c ∷ [])),
)

on_candidate-Gained :
    (pc : PeerConnection) (o : Option Bytes) (n : Negotiation)
    → IsOrdered n
    → Holds (Gained (parsed_of o) n) (on_candidate pc o n)
unfolding on_candidate parsed_of
on_candidate-Gained pc none n v = (v, sym (append-nil _))
on_candidate-Gained pc (some c) n v = place-Gained pc c n n.remote_desc_set refl v

Gained-all :
    (n : Negotiation) (r : Result RtcError Negotiation)
    → Holds
        (λ m.
          (m.added ≡ n.added ++ n.buffered_candidates)
          × (m.remote_desc_set ≡ true)
          × (m.buffered_candidates ≡ []))
        r
    → Holds (Gained [] n) r
Gained-all n (ok m) h = (
  record { early = λ e. cc (h.1, e); late = λ e. h.2 },
  cc (h.0, h.2, append-nil m.added, append-nil (known n)),
)
Gained-all n (err e) h = tt

on_description-Gained :
    (pc : PeerConnection) (sdp : Bytes) (n : Negotiation)
    → Holds (Gained [] n) (on_description pc sdp n)
unfolding on_description
on_description-Gained pc sdp n = elim (Bool-cases (pc.set_remote_description sdp)) [
  | inr refused ↦ rw refused tt
  | inl taken ↦ rw taken (
      Gained-all n _ (
        apply_candidates-Holds pc n.buffered_candidates
          (record n {
            remote_desc_set = true;
            remote = n.remote ++ sdp ∷ [];
            buffered_candidates = [];
          })
          refl refl))
]

answer-Gained :
    (pc : PeerConnection) (o : Option Bytes) (n : Negotiation) (r : Result RtcError Negotiation)
    → Holds (Gained [] n) r
    → Holds (Gained [] n) (r >>= send_answer pc o)
unfolding send_answer
answer-Gained pc o n (err e) h = tt
answer-Gained pc none n (ok m) h = tt
answer-Gained pc (some sdp) n (ok m) h = elim (Bool-cases pc.signaling_open) [
  | inr refused ↦ rw refused tt
  | inl taken ↦ rw taken (record { early = h.0.early; late = h.0.late }, h.1)
]

checked :
    (P : Negotiation → Type 0) (o : Bool) (r : Result RtcError Negotiation)
    → Holds P r
    → Reached P (check_open o r)
unfolding check_open
checked P o (err e) h = tt
checked P true (ok m) h = h
checked P false (ok m) h = h

module _ (pc : PeerConnection) (n : Negotiation) (v : IsOrdered n) where
  unchanged : Gained [] n n
  unchanged = (v, sym (append-nil (known n)))

  pub offerer-Gained :
      (e : Event × Bool) → Reached (Gained (candidates_of pc e) n) (offerer_round pc e n)
  unfolding offerer_round candidates_of
  offerer-Gained (signal (some (IncomingSignal.answer p sdp)), o) =
      checked _ o _ (on_description-Gained pc sdp n)
  offerer-Gained (signal (some (IncomingSignal.candidate p c)), o) =
      checked _ o _ (on_candidate-Gained pc (pc.parse_ice_candidate c) n v)
  offerer-Gained (signal (some (IncomingSignal.peer_left p)), o) = tt
  offerer-Gained (signal (some (IncomingSignal.error m)), o) = tt
  offerer-Gained (signal none, o) = tt
  offerer-Gained (pc_failed, o) = tt
  offerer-Gained (notified, o) = checked _ o (ok n) unchanged
  offerer-Gained (signal (some _), o) = checked _ o (ok n) unchanged

  pub answerer-Gained :
      (e : Event × Bool) → Reached (Gained (candidates_of pc e) n) (answerer_round pc e n)
  unfolding answerer_round candidates_of
  answerer-Gained (signal (some (IncomingSignal.offer p sdp)), o) =
      checked _ o _ (answer-Gained pc pc.local_answer n _ (on_description-Gained pc sdp n))
  answerer-Gained (signal (some (IncomingSignal.candidate p c)), o) =
      checked _ o _ (on_candidate-Gained pc (pc.parse_ice_candidate c) n v)
  answerer-Gained (signal (some (IncomingSignal.peer_left p)), o) = tt
  answerer-Gained (signal (some (IncomingSignal.error m)), o) = tt
  answerer-Gained (signal none, o) = tt
  answerer-Gained (pc_failed, o) = tt
  answerer-Gained (notified, o) = unchanged
  answerer-Gained (signal (some _), o) = checked _ o (ok n) unchanged
