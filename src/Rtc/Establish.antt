-- ===== src/Rtc/Establish.antt =====
-- tunnel/src/rtc.rs: the loops of `establish_as_offerer` and `establish_as_answerer`, from the point
-- where their handlers are set up.
use p2p_llm_tunnel.Prelude.{
  List, [], ◌∷◌, ◌++◌, Bool, true, false, Option, none, some, Result, ok, err, ◌>>=◌, if◌then◌else◌,
  codes,
}
use p2p_llm_tunnel.Protocol.{Bytes}
use p2p_llm_tunnel.Signaling.{OutgoingSignal, IncomingSignal}
use p2p_llm_tunnel.Rtc.{
  RtcError, not_created, no_offer, TurnConfig, IceServer, connection_lost, peer_left_early,
  ice_failed, bad_description, bad_candidate, no_answer, signaling_closed, no_data_channel,
  signaling_error, disabled, PeerConnection,
}

-- The variables of the loops, and what they have put out, oldest first: the descriptions of the other
-- side and the candidates that the peer connection was given, and the offers and answers sent.
pub record Negotiation : Type 0 where
  pub remote_desc_set : Bool
  pub buffered_candidates : List Bytes
  pub remote : List Bytes
  pub added : List Bytes
  pub sent : List OutgoingSignal

-- `pc.add_ice_candidate(candidate).await?`
unfoldable pub add_ice_candidate :
    PeerConnection → Bytes → Negotiation → Result RtcError Negotiation
add_ice_candidate pc c n =
    if pc.add_ice_candidate c
    then ok (record n { added = n.added ++ c ∷ [] })
    else err bad_candidate

-- The loop of `apply_buffered_candidates` over what `drain` yields.
unfoldable pub apply_candidates :
    PeerConnection → List Bytes → Negotiation → Result RtcError Negotiation
apply_candidates pc [] n = ok n
apply_candidates pc (c ∷ rest) n = add_ice_candidate pc c n >>= apply_candidates pc rest

unfoldable pub apply_buffered_candidates :
    PeerConnection → Negotiation → Result RtcError Negotiation
unfolding apply_candidates
apply_buffered_candidates pc n =
    apply_candidates pc n.buffered_candidates (record n { buffered_candidates = [] })

-- The arm for a candidate: one that does not parse is skipped.
unfoldable pub on_candidate :
    PeerConnection → Option Bytes → Negotiation → Result RtcError Negotiation
on_candidate pc none n = ok n
on_candidate pc (some c) n =
    if n.remote_desc_set
    then add_ice_candidate pc c n
    else ok (record n { buffered_candidates = n.buffered_candidates ++ c ∷ [] })

-- The description of the other side is set, and the candidates that waited for it are added.
unfoldable pub on_description : PeerConnection → Bytes → Negotiation → Result RtcError Negotiation
unfolding apply_buffered_candidates
on_description pc sdp n =
    if pc.set_remote_description sdp
    then apply_buffered_candidates pc
        (record n { remote_desc_set = true; remote = n.remote ++ sdp ∷ [] })
    else err bad_description

unfoldable pub send_answer :
    PeerConnection → Option Bytes → Negotiation → Result RtcError Negotiation
send_answer pc none n = err no_answer
send_answer pc (some sdp) n =
    if pc.signaling_open
    then ok (record n { sent = n.sent ++ OutgoingSignal.answer sdp ∷ [] })
    else err signaling_closed

unfoldable pub offerer_signal :
    PeerConnection → Option IncomingSignal → Negotiation → Result RtcError Negotiation
unfolding on_description on_candidate
offerer_signal pc (some (IncomingSignal.answer peer sdp)) n = on_description pc sdp n
offerer_signal pc (some (IncomingSignal.candidate peer c)) n =
    on_candidate pc (pc.parse_ice_candidate c) n
offerer_signal pc (some (IncomingSignal.peer_left peer)) n = err peer_left_early
offerer_signal pc (some (IncomingSignal.error message)) n = err (signaling_error message)
offerer_signal pc none n = err connection_lost
offerer_signal pc (some _) n = ok n

unfoldable pub answerer_signal :
    PeerConnection → Option IncomingSignal → Negotiation → Result RtcError Negotiation
unfolding on_description on_candidate send_answer
answerer_signal pc (some (IncomingSignal.offer peer sdp)) n =
    on_description pc sdp n >>= send_answer pc pc.local_answer
answerer_signal pc (some (IncomingSignal.candidate peer c)) n =
    on_candidate pc (pc.parse_ice_candidate c) n
answerer_signal pc (some (IncomingSignal.peer_left peer)) n = err peer_left_early
answerer_signal pc (some (IncomingSignal.error message)) n = err (signaling_error message)
answerer_signal pc none n = err connection_lost
answerer_signal pc (some _) n = ok n

-- The arms of `select!`. `notified` is the arm for success: `pc_connected` for the offerer, which then
-- polls for five seconds, `dc_opened` for the answerer.
pub data Event : Type 0 where
  signal : Option IncomingSignal → Event
  notified : Event
  pc_failed : Event

-- The loop has ended, or goes on.
pub data Progress : Type 0 where
  established : Negotiation → Progress
  failed : RtcError → Progress
  waiting : Negotiation → Progress

-- The test at the end of a round.
unfoldable pub check_open : Bool → Result RtcError Negotiation → Progress
check_open dc_open (err e) = failed e
check_open dc_open (ok n) = if dc_open then established n else waiting n

-- One round, and whether the data channel is open when the round is over (for the offerer's arm of
-- success: within the five seconds, or then).
unfoldable pub offerer_round : PeerConnection → Event × Bool → Negotiation → Progress
unfolding offerer_signal check_open
offerer_round pc (signal s, dc_open) n = check_open dc_open (offerer_signal pc s n)
offerer_round pc (notified, dc_open) n = check_open dc_open (ok n)
offerer_round pc (pc_failed, dc_open) n = failed ice_failed

-- For the answerer, whether a data channel was received and is open.
unfoldable pub answerer_round : PeerConnection → Event × Bool → Negotiation → Progress
unfolding answerer_signal check_open
answerer_round pc (signal s, dc_open) n = check_open dc_open (answerer_signal pc s n)
answerer_round pc (notified, dc_open) n = established n
answerer_round pc (pc_failed, dc_open) n = failed ice_failed

abbrev pub then_wait : (Negotiation → Progress) → Progress → Progress
then_wait k (waiting n) = k n
then_wait k p = p

unfoldable pub run_rounds :
    (Event × Bool → Negotiation → Progress) → List (Event × Bool) → Negotiation → Progress
run_rounds step [] n = waiting n
run_rounds step (e ∷ rest) n = then_wait (run_rounds step rest) (step e n)

abbrev pub fresh : Negotiation
fresh = record {
  remote_desc_set = false;
  buffered_candidates = [];
  remote = [];
  added = [];
  sent = [];
}

-- `unwrap_or_default` at a `String`.
unfoldable pub unwrap_or_default : Option Bytes → Bytes
unwrap_or_default none = []
unwrap_or_default (some text) = text

unfoldable pub turn_servers : Option Bytes → TurnConfig → List IceServer
unfolding unwrap_or_default
turn_servers none turn = []
turn_servers (some url) turn =
    record {
      urls = url ∷ [];
      username = unwrap_or_default turn.username;
      credential = unwrap_or_default turn.password;
    }
    ∷ []

unfoldable pub ice_servers : TurnConfig → List IceServer
unfolding turn_servers
ice_servers turn =
    record { urls = codes "stun:stun.l.google.com:19302" ∷ []; username = []; credential = [] }
    ∷ turn_servers turn.url turn

unfoldable pub create_peer_connection : PeerConnection → TurnConfig → Result RtcError Negotiation
unfolding ice_servers
create_peer_connection pc turn =
    if pc.register_default_codecs
    then if pc.register_default_interceptors
      then if pc.create disabled (ice_servers turn) then ok fresh else err not_created
      else err not_created
    else err not_created

unfoldable pub create_data_channel : PeerConnection → Negotiation → Result RtcError Negotiation
create_data_channel pc n = if pc.create_data_channel then ok n else err not_created

unfoldable pub send_offer :
    PeerConnection → Option Bytes → Negotiation → Result RtcError Negotiation
send_offer pc none n = err no_offer
send_offer pc (some sdp) n =
    if pc.signaling_open
    then ok (record n { sent = n.sent ++ OutgoingSignal.offer sdp ∷ [] })
    else err signaling_closed

-- What comes before the loop of the offerer.
unfoldable pub start_offerer : PeerConnection → TurnConfig → Result RtcError Negotiation
unfolding create_peer_connection create_data_channel send_offer
start_offerer pc turn =
    create_peer_connection pc turn >>= create_data_channel pc >>= send_offer pc pc.local_offer

abbrev pub begin_rounds : (Negotiation → Progress) → Result RtcError Negotiation → Progress
begin_rounds k (ok n) = k n
begin_rounds k (err e) = failed e

unfoldable pub establish_as_offerer : PeerConnection → TurnConfig → List (Event × Bool) → Progress
unfolding run_rounds offerer_round start_offerer
establish_as_offerer pc turn events =
    begin_rounds (run_rounds (offerer_round pc) events) (start_offerer pc turn)

-- `dc_holder` holds a data channel or not at the end.
unfoldable pub take_channel : Bool → Progress → Progress
take_channel false (established n) = failed no_data_channel
take_channel received p = p

unfoldable pub establish_as_answerer :
    PeerConnection → TurnConfig → Bool → List (Event × Bool) → Progress
unfolding run_rounds answerer_round take_channel create_peer_connection
establish_as_answerer pc turn received events =
    take_channel received
      (begin_rounds (run_rounds (answerer_round pc) events) (create_peer_connection pc turn))
