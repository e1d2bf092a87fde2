-- ===== src/Serve/Assembly.antt =====
-- The loop of tunnel/src/serve.rs seen from one stream: frames of other streams, of other types and
-- frames that do not decode change nothing, whatever the order in which they arrive.
use p2p_llm_tunnel.Prelude.{
  ℕ, ◌≡◌, refl, List, [], ◌∷◌, ◌++◌, Option, none, some, Result, ok, err, append-nil, get,
  get-insert, get-remove, ◌==◌, nat_eq, keep_if, keep_if-append, if◌then◌else◌, arith,
}
use p2p_llm_tunnel.Protocol.{
  Bytes, Serde, MessageType, req_headers, req_body, req_end, RequestHeaders, TunnelMessage,
}
use p2p_llm_tunnel.Protocol.Frame.{DecodeError, decode}
use p2p_llm_tunnel.Serve.Run.{
  Pending, Server, Input, disconnected, closed, message, on_req_headers, on_req_body, on_req_end,
  dispatch, on_decoded, step,
}
use p2p_llm_tunnel.Serve.Keyed.{IsKeyed}

-- What a frame contributes to the request of one stream.
pub data Part : Type 0 where
  begin : RequestHeaders → Part
  add : Bytes → Part
  finish : Part

only_for : ℕ → ℕ → Part → List Part
only_for id k p = if k == id then p ∷ [] else []

headers_part : ℕ → Option RequestHeaders → List Part
unfolding only_for
headers_part id none = []
headers_part id (some h) = only_for id h.stream_id (begin h)

typed_part : Serde → ℕ → MessageType → TunnelMessage → List Part
unfolding only_for headers_part
typed_part serde id req_headers m = headers_part id (serde.request_from_slice m.payload)
typed_part serde id req_body m = only_for id m.stream_id (add m.payload)
typed_part serde id req_end m = only_for id m.stream_id finish
typed_part serde id _ m = []

decoded_part : Serde → ℕ → Result DecodeError TunnelMessage → List Part
unfolding typed_part
decoded_part serde id (err e) = []
decoded_part serde id (ok m) = typed_part serde id m.msg_type m

unfoldable pub part_of : Serde → ℕ → Input → List Part
unfolding decoded_part
part_of serde id (message bytes) = decoded_part serde id (decode bytes)
part_of serde id _ = []

unfoldable pub parts_of : Serde → ℕ → List Input → List Part
unfolding part_of
parts_of serde id [] = []
parts_of serde id (i ∷ rest) = part_of serde id i ++ parts_of serde id rest

-- One stream on its own: the request that is being put together, and those handed over.
pub record Slot : Type 0 where
  pub pending : Option Pending
  pub handed : List Pending

unfoldable pub assemble : Part → Slot → Slot
assemble (begin h) s = record s { pending = some (h, []) }
assemble (add b) s = elim s.pending [
  | none ↦ s
  | some (h, body) ↦ record s { pending = some (h, body ++ b) }
]
assemble finish s = elim s.pending [
  | none ↦ s
  | some r ↦ record { pending = none; handed = s.handed ++ r ∷ [] }
]

unfoldable pub assemble_all : List Part → Slot → Slot
unfolding assemble
assemble_all [] s = s
assemble_all (p ∷ ps) s = assemble_all ps (assemble p s)

-- The tasks that were started for a stream.
abbrev pub tasks_of : ℕ → Server → List Pending
tasks_of id s = keep_if (λ r. r.0.stream_id == id) s.spawned

-- The server as one stream sees it.
unfoldable pub slot : ℕ → Server → Slot
slot id s = record { pending = get s.pending_requests id; handed = tasks_of id s }

module _ (id : ℕ) (s : Server) (v : IsKeyed s) where
  on_req_headers-slot :
      (o : Option RequestHeaders)
      → slot id (on_req_headers o s).0 ≡ assemble_all (headers_part id o) (slot id s)
  unfolding on_req_headers assemble_all headers_part slot
  on_req_headers-slot none = refl
  on_req_headers-slot (some h) =
      ground (arith, get-insert s.pending_requests h.stream_id (h, []) id)

  on_req_body-slot :
      (k : ℕ) (o : Option Pending) (b : Bytes)
      → get s.pending_requests k ≡ o
      → slot id (on_req_body o k b s).0 ≡ assemble_all (only_for id k (add b)) (slot id s)
  unfolding on_req_body assemble_all only_for slot
  on_req_body-slot k none b e = ground arith
  on_req_body-slot k (some (h, body)) b e =
      ground (arith, get-insert s.pending_requests k (h, body ++ b) id)

  on_req_end-slot :
      (k : ℕ) (o : Option Pending)
      → get s.pending_requests k ≡ o
      → slot id (on_req_end o k s).0 ≡ assemble_all (only_for id k finish) (slot id s)
  unfolding on_req_end assemble_all only_for slot keep_if
  on_req_end-slot k none e = ground arith
  on_req_end-slot k (some r) e = ground (
    arith,
    get-remove s.pending_requests k id,
    v.keyed k {r = r} e,
    keep_if-append (λ (t : Pending). t.0.stream_id == id) s.spawned (r ∷ []),
    append-nil (keep_if (λ (t : Pending). t.0.stream_id == id) s.spawned),
  )

  dispatch-slot :
      (serde : Serde) (t : MessageType) (m : TunnelMessage)
      → slot id (dispatch serde t m s).0 ≡ assemble_all (typed_part serde id t m) (slot id s)
  unfolding dispatch typed_part
  dispatch-slot serde req_headers m = on_req_headers-slot (serde.request_from_slice m.payload)
  dispatch-slot serde req_body m = on_req_body-slot m.stream_id _ m.payload refl
  dispatch-slot serde req_end m = on_req_end-slot m.stream_id _ refl
  dispatch-slot serde _ m = unfold assemble_all slot in refl

  decoded-slot :
      (serde : Serde) (d : Result DecodeError TunnelMessage)
      → slot id (on_decoded serde d s).0 ≡ assemble_all (decoded_part serde id d) (slot id s)
  unfolding on_decoded decoded_part
  decoded-slot serde (err e) = unfold assemble_all slot in refl
  decoded-slot serde (ok m) = dispatch-slot serde m.msg_type m

  pub step-slot :
      (serde : Serde) (i : Input)
      → slot id (step serde i s).0 ≡ assemble_all (part_of serde id i) (slot id s)
  unfolding step part_of
  step-slot serde disconnected = unfold assemble_all slot in refl
  step-slot serde closed = unfold assemble_all slot in refl
  step-slot serde (message bytes) = decoded-slot serde (decode bytes)
