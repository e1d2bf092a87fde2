-- ===== src/Protocol/RoundTrip.antt =====
-- The frame codec of tunnel/src/protocol.rs, both ways, and the frames that it refuses.
use p2p_llm_tunnel.Prelude.{
  ℕ, ◌≤◌, ◌<◌, ◌≡◌, ◌↔◌, refl, ap, ◌∙◌, inl, inr, [], ◌∷◌, some, ok, length, get_or, take, drop,
  All, arith, Option-cases,
}
use p2p_llm_tunnel.Protocol.{Bytes, IsByte, IsU32, MessageType, hello, TunnelMessage}
use p2p_llm_tunnel.Protocol.Frame.{as_u8, from_u8, put_u32, get_u32, encode, decode}

pub from_u8-as_u8 : (t : MessageType) → from_u8 (as_u8 t) ≡ some t
unfolding from_u8 as_u8
from_u8-as_u8 hello = refl
from_u8-as_u8 _ = refl

as_u8-from_u8 : (v : ℕ) {t : MessageType} → from_u8 v ≡ some t → as_u8 t ≡ v
unfolding from_u8 as_u8
as_u8-from_u8 v h = ground arith

get_u32-put_u32 : (n : ℕ) → IsU32 n → get_u32 (put_u32 n) ≡ n
unfolding get_u32 put_u32
get_u32-put_u32 n h = omega arith

put_u32-get_u32 :
    (a b c d : ℕ)
    → IsByte a
    → IsByte b
    → IsByte c
    → IsByte d
    → put_u32 (get_u32 (a ∷ b ∷ c ∷ d ∷ [])) ≡ a ∷ b ∷ c ∷ d ∷ []
unfolding get_u32 put_u32
put_u32-get_u32 a b c d ha hb hc hd = ground arith

decode-cons :
    (v a b c d : ℕ) (p : Bytes) {t : MessageType}
    → from_u8 v ≡ some t
    → decode (v ∷ a ∷ b ∷ c ∷ d ∷ p)
      ≡ ok (record { msg_type = t; stream_id = get_u32 (a ∷ b ∷ c ∷ d ∷ []); payload = p })
unfolding decode
decode-cons v a b c d p h = ground arith

-- A frame decodes to the message that was encoded, whatever the payload, if the stream id fits in
-- 32 bits.
pub decode-encode : (m : TunnelMessage) → IsU32 m.stream_id → decode (encode m) ≡ ok m
unfolding encode put_u32
decode-encode m h =
    decode-cons _ _ _ _ _ m.payload (from_u8-as_u8 m.msg_type)
    ∙ ap (λ id. ok (record m { stream_id = id })) (unfold put_u32 in get_u32-put_u32 m.stream_id h)

encode-decode_cons :
    (v a b c d : ℕ) (p : Bytes) (m : TunnelMessage)
    → IsByte a
    → IsByte b
    → IsByte c
    → IsByte d
    → decode (v ∷ a ∷ b ∷ c ∷ d ∷ p) ≡ ok m
    → encode m ≡ v ∷ a ∷ b ∷ c ∷ d ∷ p
unfolding encode decode
encode-decode_cons v a b c d p m ha hb hc hd h = elim (Option-cases (from_u8 v)) [
  | inl e ↦ ground arith
  | inr (t, e) ↦ ground (arith, as_u8-from_u8 v {t = t} e, put_u32-get_u32 a b c d ha hb hc hd)
]

short_fails :
    {A : Type 0} (bytes : Bytes) {m : TunnelMessage} → length bytes < 5 → decode bytes ≡ ok m → A
unfolding decode
short_fails bytes h e = absurd (ground arith)

tagged :
    (bytes : Bytes)
    → (m : TunnelMessage) × (decode bytes ≡ ok m)
    → (5 ≤ length bytes) × (t : MessageType) × (as_u8 t ≡ get_or bytes 0 0)
unfolding decode
tagged bytes (m, e) = elim (Option-cases (from_u8 (get_or bytes 0 0))) [
  | inl x ↦ absurd (ground arith)
  | inr (t, x) ↦ (ground arith, t, as_u8-from_u8 (get_or bytes 0 0) x)
]

typed :
    (bytes : Bytes)
    → 5 ≤ length bytes
    → (t : MessageType) → as_u8 t ≡ get_or bytes 0 0
    → (m : TunnelMessage) × (decode bytes ≡ ok m)
unfolding decode
typed bytes h t e = (
  record {
    msg_type = t;
    stream_id = get_u32 (take 4 (drop 1 bytes));
    payload = drop 4 (drop 1 bytes);
  },
  ground (arith, from_u8-as_u8 t),
)

-- A byte string that decodes is the encoding of its message: every frame is canonical, so two
-- frames with one message are the same bytes.
pub encode-decode :
    (bytes : Bytes) {m : TunnelMessage} → All IsByte bytes → decode bytes ≡ ok m → encode m ≡ bytes
encode-decode [] h e = short_fails [] (omega arith) e
encode-decode (v ∷ []) h e = short_fails (v ∷ []) (omega arith) e
encode-decode (v ∷ a ∷ []) h e = short_fails (v ∷ a ∷ []) (omega arith) e
encode-decode (v ∷ a ∷ b ∷ []) h e = short_fails (v ∷ a ∷ b ∷ []) (omega arith) e
encode-decode (v ∷ a ∷ b ∷ c ∷ []) h e = short_fails (v ∷ a ∷ b ∷ c ∷ []) (omega arith) e
encode-decode (v ∷ a ∷ b ∷ c ∷ d ∷ p) {m} h e =
    encode-decode_cons v a b c d p m h.1.0 h.1.1.0 h.1.1.1.0 h.1.1.1.1.0 e

-- A byte string is accepted exactly when it is as long as the header, and its first byte is the tag
-- of some message type.
pub decode_accepts :
    (bytes : Bytes)
    → ((m : TunnelMessage) × (decode bytes ≡ ok m))
      ↔ ((5 ≤ length bytes) × (t : MessageType) × (as_u8 t ≡ get_or bytes 0 0))
decode_accepts bytes = (tagged bytes, λ w. typed bytes w.0 w.1 w.2)
