-- ===== src/Protocol/Wire.antt =====
-- The messages and the frames of tunnel/src/protocol.rs as two types, and the codec between them.
use std.Equiv.{Iso, IsEquiv, iso_to_equiv}
use mathlib.Core.HLevel.{Σ_prop_path, ×_prop}
use native.Mathlib.Bridge.{le_prop}
use native.Mathlib.Nat.{ℕ_set}
use mathlib.Core.List.{foldl}
use p2p_llm_tunnel.Prelude.{
  ℕ, ◌≤◌, ◌≡◌, refl, sym, ap, ◌∙◌, List, [], ◌∷◌, ok, some, length, get_or, take, drop, ◌+◌, ◌*◌,
  ◌%◌, ◌^◌, All, arith,
}
use p2p_llm_tunnel.Protocol.{Bytes, IsByte, IsU32, MessageType, hello, TunnelMessage}
use p2p_llm_tunnel.Protocol.Frame.{as_u8, from_u8, put_u32, get_u32, encode, decode}
use p2p_llm_tunnel.Protocol.RoundTrip.{decode-encode, encode-decode, decode_accepts, from_u8-as_u8}

-- The messages that Rust's types admit.
abbrev pub IsMessage : TunnelMessage → Type 0
IsMessage m = IsU32 m.stream_id × All IsByte m.payload

-- Bytes with room for a header, the first of which is the tag of a message type.
abbrev pub IsFrame : Bytes → Type 0
IsFrame b = All IsByte b × (5 ≤ length b) × (t : MessageType) × (as_u8 t ≡ get_or b 0 0)

abbrev pub Message : Type 0
Message = (m : TunnelMessage) × IsMessage m

abbrev pub Frame : Type 0
Frame = (b : Bytes) × IsFrame b

All-prop :
    {A : Type 0} (P : A → Type 0) → ((a : A) → IsProp (P a)) → (xs : List A) → IsProp (All P xs)
All-prop P h [] = λ x y. refl
All-prop P h (x ∷ xs) = ×_prop (h x) (All-prop P h xs)

tag_prop : (v : ℕ) → IsProp ((t : MessageType) × (as_u8 t ≡ v))
tag_prop v (t, e) (t', e') =
    let same : some t ≡ some t' =
      sym (from_u8-as_u8 t) ∙ ap from_u8 (e ∙ sym e') ∙ from_u8-as_u8 t' in
    Σ_prop_path (λ t. ℕ_set _ _) cc

IsMessage-prop : (m : TunnelMessage) → IsProp (IsMessage m)
IsMessage-prop m = ×_prop le_prop (All-prop IsByte (λ b. le_prop) m.payload)

IsFrame-prop : (b : Bytes) → IsProp (IsFrame b)
IsFrame-prop b (h, room, t, e) (h', room', t', e') =
    let same = tag_prop (get_or b 0 0) (t, e) (t', e') in
    λ i. (All-prop IsByte (λ b. le_prop) b h h' i, le_prop room room' i, (same i).0, (same i).1)

tag-IsByte : (t : MessageType) → IsByte (as_u8 t)
unfolding as_u8
tag-IsByte hello = omega arith
tag-IsByte _ = omega arith

encode-IsFrame : (m : TunnelMessage) → All IsByte m.payload → IsFrame (encode m)
unfolding encode put_u32
encode-IsFrame m h = (
  (tag-IsByte m.msg_type, (omega arith, (omega arith, (omega arith, (omega arith, h))))),
  omega arith,
  m.msg_type,
  refl,
)

foldl-IsU32 :
    (xs : Bytes) (acc : ℕ) → IsU32 acc → IsU32 (foldl (λ acc b. (acc * 256 + b) % 2 ^ 32) acc xs)
foldl-IsU32 [] acc h = h
foldl-IsU32 (x ∷ xs) acc h = foldl-IsU32 xs ((acc * 256 + x) % 2 ^ 32) (omega arith)

decode-IsU32 : (b : Bytes) {m : TunnelMessage} → decode b ≡ ok m → IsU32 m.stream_id
unfolding decode get_u32
decode-IsU32 b {m} e =
    let fits = foldl-IsU32 (take 4 (drop 1 b)) 0 (omega arith) in ground (arith, fits)

payload-IsByte : (m : TunnelMessage) → All IsByte (encode m) → All IsByte m.payload
unfolding encode put_u32
payload-IsByte m h = h.1.1.1.1.1

decoded : (f : Frame) → (m : TunnelMessage) × (decode f.0 ≡ ok m)
decoded (b, (h, room, t, e)) = (decode_accepts b).1 (room, t, e)

encode-decoded : (f : Frame) → encode (decoded f).0 ≡ f.0
encode-decoded f = encode-decode f.0 f.1.0 (decoded f).1

pub to_frame : Message → Frame
to_frame (m, (fits, bytes)) = (encode m, encode-IsFrame m bytes)

to_message : Frame → Message
to_message f = (
  (decoded f).0,
  (decode-IsU32 f.0 (decoded f).1, payload-IsByte (decoded f).0 (rw (encode-decoded f) f.1.0)),
)

decoded-encode : (m : Message) → (decoded (to_frame m)).0 ≡ m.0
unfolding to_frame
decoded-encode m =
    let same : ok (decoded (to_frame m)).0 ≡ ok m.0 =
      sym (decoded (to_frame m)).1 ∙ decode-encode m.0 m.1.0 in
    cc

wire_iso : Iso Message Frame
unfolding to_frame to_message
wire_iso = record {
  fun = to_frame;
  inv = to_message;
  rinv = λ f. Σ_prop_path IsFrame-prop (encode-decoded f);
  linv = λ m. Σ_prop_path IsMessage-prop (decoded-encode m);
}

-- `encode` is an equivalence between the messages whose stream id fits in 32 bits and whose payload is
-- bytes, and the byte strings that are as long as the header and begin with the tag of a message type,
-- and `decode` undoes it: the two types are the same, and every such byte string is one message.
pub to_frame-IsEquiv : IsEquiv to_frame × ((m : Message) → decode (to_frame m).0 ≡ ok m.0)
unfolding wire_iso to_frame
to_frame-IsEquiv = ((iso_to_equiv wire_iso).1, λ m. decode-encode m.0 m.1.0)
