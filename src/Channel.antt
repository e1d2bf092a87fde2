-- ===== src/Channel.antt =====
-- The errors of the tunnel, and the data channel as its users see it: `RTCDataChannel::send` takes
-- the bytes or fails. Which calls fail is not up to this code: the n-th call succeeds if
-- `outcomes n` says so. The crate `webrtc` is not part of the repository.
pub mod Emits
pub mod Writes
pub mod Total
pub mod Keepalive
use p2p_llm_tunnel.Prelude.{
  ℕ, suc, ◌+◌, ◌≡◌, Bool, true, false, List, [], ◌∷◌, ◌++◌, Result, ok, err, if◌then◌else◌, Option,
  none, some, ◌==◌, nat_eq,
}
use p2p_llm_tunnel.Protocol.{Bytes, MessageType, TunnelMessage}
use p2p_llm_tunnel.Protocol.Frame.{DecodeError, as_u8, decode}
use p2p_llm_tunnel.Protocol.Negotiate.{NegotiateError}

-- What an `anyhow::Error` of the tunnel stands for. `stuck` is none of them: it marks a loop of the
-- model that ran out of fuel, which none does.
pub data Error : Type 0 where
  handshake_timeout closed_before_handshake bad_json : Error
  send_failed connection_failed channel_closed bad_method listen_failed setup_failed stuck : Error
  bad_frame : DecodeError → Error
  unexpected : MessageType → Error
  handshake_failed : NegotiateError → Error

pub record Channel : Type 0 where
  pub sent : List Bytes
  pub outcomes : ℕ → Bool
  pub calls : ℕ

-- A computation that uses the channel and may fail.
abbrev pub Send : Type 0 → Type 0
Send A = Channel → Result Error A × Channel

abbrev pub and_then :
    {A B : Type 0} → (A → Send B) → Channel → Result Error A → Result Error B × Channel
and_then f c (ok a) = f a c
and_then f c (err e) = (err e, c)

infixl 5 ◌>>=◌ ◌>>◌
abbrev pub ◌>>=◌ : {A B : Type 0} → Send A → (A → Send B) → Send B
◌>>=◌ m f c = and_then f (m c).1 (m c).0

abbrev pub ◌>>◌ : {B : Type 0} → Send (Unit {0}) → Send B → Send B
m >> k = m >>= λ _. k

abbrev pub pure : {A : Type 0} → A → Send A
pure a c = (ok a, c)

abbrev pub fail : {A : Type 0} → Error → Send A
fail e c = (err e, c)

abbrev pub called : Bytes → Channel → Bool → Channel
called frame c true = record c { sent = c.sent ++ frame ∷ []; calls = suc c.calls }
called frame c false = record c { calls = suc c.calls }

-- A result that is at hand, under `?`.
abbrev pub lift : {A : Type 0} → Result Error A → Send A
lift r c = (r, c)

-- One call of `send`, and whether it succeeded.
unfoldable pub attempt : Bytes → Send Bool
attempt frame c = (ok (c.outcomes c.calls), called frame c (c.outcomes c.calls))

abbrev pub require : Bool → Send (Unit {0})
require true = pure tt
require false = fail send_failed

-- `dc.send(&frame).await?`
unfoldable pub send : Bytes → Send (Unit {0})
unfolding attempt
send frame = attempt frame >>= require

-- No call of `send` fails.
abbrev pub IsOpen : Channel → Type 0
IsOpen c = (n : ℕ) → c.outcomes n ≡ true

-- How a wait for the next message of the peer ends, under `timeout`.
pub data Received : Type 0 where
  timed_out : Received
  no_sender : Received
  frame : Bytes → Received

unfoldable pub payload_of : MessageType → Result DecodeError TunnelMessage → Result Error Bytes
payload_of expected (err e) = err (bad_frame e)
payload_of expected (ok m) =
    if as_u8 m.msg_type == as_u8 expected then ok m.payload else err (unexpected m.msg_type)

-- The first message of the handshake: `recv` under a timeout of five minutes, `decode`, and the test
-- of the type. The result is the payload.
unfoldable pub receive_payload : MessageType → Received → Result Error Bytes
unfolding payload_of
receive_payload expected timed_out = err handshake_timeout
receive_payload expected no_sender = err closed_before_handshake
receive_payload expected (frame bytes) = payload_of expected (decode bytes)

-- `serde_json::from_slice(&payload)?`
abbrev pub parsed : {A : Type 0} → Option A → Result Error A
parsed none = err bad_json
parsed (some a) = ok a

-- The wait at the start of `run_serve` and of `run_proxy`: the data channel is open already, or
-- `connected` is notified during the wait. If neither, the wait does not end.
unfoldable pub wait_ends : Bool → Bool → Bool
wait_ends true notified = true
wait_ends false notified = notified
