-- ===== src/Proxy/Streams.antt =====
-- What a registered stream receives from the reader of tunnel/src/proxy.rs.
use p2p_llm_tunnel.Prelude.{
  ℕ, ◌≡◌, refl, sym, ap, ◌∙◌, List, [], ◌∷◌, ◌++◌, Bool, true, false, Option, none, some, Result,
  ok, err, get, get-insert, get-remove, nat_eq, if◌then◌else◌, All, arith, append_assoc,
}
use p2p_llm_tunnel.Protocol.{
  Serde, MessageType, ResponseHeaders, TunnelMessage, res_headers, res_body, res_end, error, ping,
}
use p2p_llm_tunnel.Protocol.Frame.{DecodeError, decode}
use p2p_llm_tunnel.Proxy.Router.{
  StreamEvent, Router, deliver, deliver_last, on_res_headers, route, on_decoded, Action, frame,
  register, unregister, act, run_reader,
}
use p2p_llm_tunnel.Proxy.Delivery.{
  action_events, events_in, is_last, events_of, Slot, receive, receive_all, slot, Owns, IsForeign,
  act-slot,
}

module _ (id tx : ℕ) where
  deliver-Owns :
      (t : Option ℕ) (e : StreamEvent) {r : Router} → Owns id tx r → Owns id tx (deliver t e r)
  unfolding deliver
  deliver-Owns none e o = o
  deliver-Owns (some t) e o = record { owned = o.owned }

  deliver_last-Owns :
      (t : Option ℕ) (k : ℕ) (e : StreamEvent) {r : Router}
      → Owns id tx r
      → Owns id tx (deliver_last t k e r)
  unfolding deliver_last
  deliver_last-Owns none k e o = o
  deliver_last-Owns (some t) k e {r} o = record {
    owned = λ j h. ground (arith, get-remove r.pending k j, o.owned j);
  }

  on_res_headers-Owns :
      (h : Option ResponseHeaders) {r : Router} → Owns id tx r → Owns id tx (on_res_headers h r)
  unfolding on_res_headers
  on_res_headers-Owns none o = o
  on_res_headers-Owns (some h) o = deliver-Owns _ _ o

  route-Owns :
      (serde : Serde) (t : MessageType) (m : TunnelMessage) {r : Router}
      → Owns id tx r
      → Owns id tx (route serde t m r)
  unfolding route
  route-Owns serde res_headers m o = on_res_headers-Owns _ o
  route-Owns serde res_body m o = deliver-Owns _ _ o
  route-Owns serde res_end m o = deliver_last-Owns _ _ _ o
  route-Owns serde error m o = deliver_last-Owns _ _ _ o
  route-Owns serde ping m o = record { owned = o.owned }
  route-Owns serde _ m o = o

  decoded-Owns :
      (serde : Serde) (d : Result DecodeError TunnelMessage) {r : Router}
      → Owns id tx r
      → Owns id tx (on_decoded serde d r)
  unfolding on_decoded
  decoded-Owns serde (err e) o = o
  decoded-Owns serde (ok m) o = route-Owns serde m.msg_type m o

  act-Owns :
      (serde : Serde) (a : Action) {r : Router}
      → IsForeign id tx a
      → Owns id tx r
      → Owns id tx (act serde a r)
  unfolding act
  act-Owns serde (frame bytes) f o = decoded-Owns serde (decode bytes) o
  act-Owns serde (register k t) {r} f o = record {
    owned = λ j h. ground (arith, get-insert r.pending k t j, o.owned j);
  }
  act-Owns serde (unregister k) {r} f o = record {
    owned = λ j h. ground (arith, get-remove r.pending k j, o.owned j);
  }

  receive_all-append :
      (ps qs : List StreamEvent) (s : Slot)
      → receive_all tx (ps ++ qs) s ≡ receive_all tx qs (receive_all tx ps s)
  unfolding receive_all
  receive_all-append [] qs s = refl
  receive_all-append (p ∷ ps) qs s = receive_all-append ps qs (receive tx p s)

  -- What the reader does for a stream is what the frames of that stream do alone, in their order,
  -- whatever frames of others, registrations and removals of others come between.
  pub run_reader-slot :
      (serde : Serde) (actions : List Action) (r : Router)
      → Owns id tx r
      → All (IsForeign id tx) actions
      → slot id tx (run_reader serde actions r)
        ≡ receive_all tx (events_in serde id actions) (slot id tx r)
  unfolding run_reader events_in
  run_reader-slot serde [] r o f = unfold receive_all in refl
  run_reader-slot serde (a ∷ rest) r o f =
      run_reader-slot serde rest (act serde a r) (act-Owns serde a f.0 o) f.1
      ∙ ap (receive_all tx (events_in serde id rest)) (act-slot id tx r o serde a f.0)
      ∙ sym (receive_all-append (action_events serde id a) (events_in serde id rest) (slot id tx r))

  receive_none :
      (es : List StreamEvent) (seen : List StreamEvent)
      → receive_all tx es (record { sender = none; seen = seen })
        ≡ record { sender = none; seen = seen }
  unfolding receive_all
  receive_none [] seen = refl
  receive_none (e ∷ es) seen = receive_none es seen

  receive_one :
      (e : StreamEvent) (seen : List StreamEvent) (b : Bool)
      → is_last e ≡ b
      → receive tx e (record { sender = some tx; seen = seen })
        ≡ record { sender = if b then none else some tx; seen = seen ++ e ∷ [] }
  unfolding receive
  receive_one e seen b h = ground arith

  receive_until :
      (es : List StreamEvent) (last : StreamEvent) (rest seen : List StreamEvent)
      → All (λ e. is_last e ≡ false) es
      → is_last last ≡ true
      → receive_all tx (es ++ last ∷ rest) (record { sender = some tx; seen = seen })
        ≡ record { sender = none; seen = seen ++ (es ++ last ∷ []) }
  unfolding receive_all
  receive_until [] last rest seen h k =
      ap (receive_all tx rest) (receive_one last seen true k)
      ∙ receive_none rest (seen ++ last ∷ [])
  receive_until (e ∷ es) last rest seen h k =
      ap (receive_all tx (es ++ last ∷ rest)) (receive_one e seen false h.0)
      ∙ receive_until es last rest (seen ++ e ∷ []) h.1 k
      ∙ ap (λ t. record { sender = none; seen = t }) (append_assoc seen (e ∷ []) (es ++ last ∷ []))

  -- A registered stream receives its frames in order up to the first that ends it, an error or an end,
  -- and that one; nothing after it, whatever comes. Its sender then has left the map.
  pub run_reader_delivers :
      (serde : Serde) (actions : List Action) (r : Router) (es : List StreamEvent)
      (last : StreamEvent) (rest : List StreamEvent)
      → Owns id tx r
      → get r.pending id ≡ some tx
      → All (IsForeign id tx) actions
      → events_in serde id actions ≡ es ++ last ∷ rest
      → All (λ e. is_last e ≡ false) es
      → is_last last ≡ true
      → (events_of tx (run_reader serde actions r) ≡ events_of tx r ++ (es ++ last ∷ []))
        × (get (run_reader serde actions r).pending id ≡ none)
  unfolding slot
  run_reader_delivers serde actions r es last rest o here f split h k =
      let whole =
        run_reader-slot serde actions r o f
        ∙ ap (λ q. receive_all tx q (slot id tx r)) split
        ∙ ap
            (λ s. receive_all tx (es ++ last ∷ rest) (record { sender = s; seen = events_of tx r }))
            here
        ∙ receive_until es last rest (events_of tx r) h k in
      (ap (λ (x : Slot). x.seen) whole, ap (λ (x : Slot). x.sender) whole)
