-- ===== src/Proxy/Delivery.antt =====
-- The reader of tunnel/src/proxy.rs seen from one stream, between its registration and its last
-- event: what other streams send, register and remove plays no part.
use p2p_llm_tunnel.Prelude.{
  ℕ, ◌≡◌, ◌≢◌, refl, List, [], ◌∷◌, ◌++◌, Bool, true, false, Option, none, some, Result, ok, err,
  map, map-append, append-nil, get, get-insert, get-remove, ◌==◌, nat_eq, keep_if, keep_if-append,
  if◌then◌else◌, arith,
}
use p2p_llm_tunnel.Protocol.{
  Serde, MessageType, ResponseHeaders, TunnelMessage, res_headers, res_body, res_end, error, ping,
}
use p2p_llm_tunnel.Protocol.Frame.{DecodeError, decode}
use p2p_llm_tunnel.Proxy.Utf8.{from_utf8_lossy}
use p2p_llm_tunnel.Proxy.Router.{
  StreamEvent, headers, body, failed, end, Router, deliver, deliver_last, on_res_headers, route,
  on_decoded, Action, frame, register, unregister, act,
}

only_for : ℕ → ℕ → StreamEvent → List StreamEvent
only_for id k e = if k == id then e ∷ [] else []

headers_events : ℕ → Option ResponseHeaders → List StreamEvent
unfolding only_for
headers_events id none = []
headers_events id (some h) = only_for id h.stream_id (headers h)

typed_events : Serde → ℕ → MessageType → TunnelMessage → List StreamEvent
unfolding only_for headers_events
typed_events serde id res_headers m = headers_events id (serde.response_from_slice m.payload)
typed_events serde id res_body m = only_for id m.stream_id (body m.payload)
typed_events serde id res_end m = only_for id m.stream_id end
typed_events serde id error m = only_for id m.stream_id (failed (from_utf8_lossy m.payload))
typed_events serde id _ m = []

decoded_events : Serde → ℕ → Result DecodeError TunnelMessage → List StreamEvent
unfolding typed_events
decoded_events serde id (err e) = []
decoded_events serde id (ok m) = typed_events serde id m.msg_type m

-- The events that an action holds for a stream.
unfoldable pub action_events : Serde → ℕ → Action → List StreamEvent
unfolding decoded_events
action_events serde id (frame bytes) = decoded_events serde id (decode bytes)
action_events serde id _ = []

unfoldable pub events_in : Serde → ℕ → List Action → List StreamEvent
unfolding action_events
events_in serde id [] = []
events_in serde id (a ∷ rest) = action_events serde id a ++ events_in serde id rest

abbrev pub is_last : StreamEvent → Bool
is_last (failed e) = true
is_last end = true
is_last _ = false

-- What the receiver of a channel was sent.
unfoldable pub events_of : ℕ → Router → List StreamEvent
events_of tx r = map (λ e. e.1) (keep_if (λ e. e.0 == tx) r.delivered)

pub record Slot : Type 0 where
  pub sender : Option ℕ
  pub seen : List StreamEvent

unfoldable pub receive : ℕ → StreamEvent → Slot → Slot
receive tx e s = elim s.sender [
  | none ↦ s
  | some t ↦ record {
    sender = if is_last e then none else some t;
    seen = s.seen ++ (if t == tx then e ∷ [] else []);
  }
]

unfoldable pub receive_all : ℕ → List StreamEvent → Slot → Slot
unfolding receive
receive_all tx [] s = s
receive_all tx (e ∷ es) s = receive_all tx es (receive tx e s)

unfoldable pub slot : ℕ → ℕ → Router → Slot
slot id tx r = record { sender = get r.pending id; seen = events_of tx r }

-- The sender stands under no other stream.
pub record Owns (id tx : ℕ) (r : Router) : Type 0 where
  pub owned : (k : ℕ) → get r.pending k ≡ some tx → k ≡ id

-- Other requests register under other ids and channels, and remove other ids.
abbrev pub IsForeign : ℕ → ℕ → Action → Type 0
IsForeign id tx (frame bytes) = Unit
IsForeign id tx (register k t) = (k ≢ id) × (t ≢ tx)
IsForeign id tx (unregister k) = k ≢ id

events_of-append :
    (tx t : ℕ) (e : StreamEvent) (log : List (ℕ × StreamEvent))
    → map (λ x. x.1) (keep_if (λ x. x.0 == tx) (log ++ (t, e) ∷ []))
      ≡ map (λ x. x.1) (keep_if (λ x. x.0 == tx) log) ++ (if t == tx then e ∷ [] else [])
unfolding keep_if
events_of-append tx t e log =
    rw (keep_if-append (λ (x : ℕ × StreamEvent). x.0 == tx) log ((t, e) ∷ []), map-append)
      (ground arith)

module _ (id tx : ℕ) (r : Router) (o : Owns id tx r) where
  deliver-slot :
      (k : ℕ) (t : Option ℕ) (e : StreamEvent)
      → get r.pending k ≡ t
      → is_last e ≡ false
      → slot id tx (deliver t e r) ≡ receive_all tx (only_for id k e) (slot id tx r)
  unfolding deliver receive_all only_for slot events_of
  deliver-slot k none e h last = ground arith
  deliver-slot k (some t) e h last =
      ground (arith, events_of-append tx t e r.delivered, o.owned k, append-nil (events_of tx r))

  deliver_last-slot :
      (k : ℕ) (t : Option ℕ) (e : StreamEvent)
      → get r.pending k ≡ t
      → is_last e ≡ true
      → slot id tx (deliver_last t k e r) ≡ receive_all tx (only_for id k e) (slot id tx r)
  unfolding deliver_last receive_all only_for slot events_of
  deliver_last-slot k none e h last = ground arith
  deliver_last-slot k (some t) e h last = ground (
    arith,
    events_of-append tx t e r.delivered,
    o.owned k,
    get-remove r.pending k id,
    append-nil (events_of tx r),
  )

  on_res_headers-slot :
      (h : Option ResponseHeaders)
      → slot id tx (on_res_headers h r) ≡ receive_all tx (headers_events id h) (slot id tx r)
  unfolding on_res_headers headers_events
  on_res_headers-slot none = unfold receive_all in refl
  on_res_headers-slot (some h) = deliver-slot h.stream_id _ (headers h) refl refl

  route-slot :
      (serde : Serde) (t : MessageType) (m : TunnelMessage)
      → slot id tx (route serde t m r) ≡ receive_all tx (typed_events serde id t m) (slot id tx r)
  unfolding route typed_events
  route-slot serde res_headers m = on_res_headers-slot (serde.response_from_slice m.payload)
  route-slot serde res_body m = deliver-slot m.stream_id _ (body m.payload) refl refl
  route-slot serde res_end m = deliver_last-slot m.stream_id _ end refl refl
  route-slot serde error m = deliver_last-slot m.stream_id _ (failed _) refl refl
  route-slot serde ping m = unfold receive_all slot events_of in refl
  route-slot serde _ m = unfold receive_all in refl

  decoded-slot :
      (serde : Serde) (d : Result DecodeError TunnelMessage)
      → slot id tx (on_decoded serde d r)
        ≡ receive_all tx (decoded_events serde id d) (slot id tx r)
  unfolding on_decoded decoded_events
  decoded-slot serde (err e) = unfold receive_all in refl
  decoded-slot serde (ok m) = route-slot serde m.msg_type m

  pub act-slot :
      (serde : Serde) (a : Action)
      → IsForeign id tx a
      → slot id tx (act serde a r) ≡ receive_all tx (action_events serde id a) (slot id tx r)
  unfolding act action_events
  act-slot serde (frame bytes) f = decoded-slot serde (decode bytes)
  act-slot serde (register k t) f =
      unfold receive_all slot events_of in ground (arith, get-insert r.pending k t id)
  act-slot serde (unregister k) f =
      unfold receive_all slot events_of in ground (arith, get-remove r.pending k id)
