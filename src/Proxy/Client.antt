-- ===== src/Proxy/Client.antt =====
-- What the HTTP client of tunnel/src/proxy.rs gets for the events of its stream.
use p2p_llm_tunnel.Prelude.{
  ℕ, suc, ◌≡◌, refl, sym, ap, List, [], ◌∷◌, ◌++◌, Bool, true, none, ok, HashMap, get, get-remove,
  remove, append-nil, some, codes, nat_eq, ◌==◌, map, if◌then◌else◌,
}
use p2p_llm_tunnel.Protocol.{Bytes, ResponseHeaders}
use p2p_llm_tunnel.Http.{without_names}
use p2p_llm_tunnel.Proxy.Router.{StreamEvent, headers, body, failed, end}
use p2p_llm_tunnel.Proxy.Delivery.{is_last}
use p2p_llm_tunnel.Proxy.Request.{Full}
use p2p_llm_tunnel.Proxy.Answer.{
  Silence, timed_out, closed, await_headers, forward_body, HttpLibrary, full, streaming,
  all_accepted, hop_by_hop, status_or_bad_gateway, finish_request,
}

abbrev pub bodies : List Bytes → List StreamEvent
bodies = map λ b. body b

-- The HTTP client stays: the channel of the body takes every chunk.
abbrev pub Stays : (ℕ → Bool) → Type 0
Stays takes = (n : ℕ) → takes n ≡ true

forward_body-bodies :
    (takes : ℕ → Bool) (n : ℕ) (ps : List Bytes) (last : StreamEvent) (rest : List StreamEvent)
    → Stays takes
    → is_last last ≡ true
    → forward_body takes n (bodies ps ++ last ∷ rest) ≡ ps
unfolding forward_body
forward_body-bodies takes n [] end rest s h = refl
forward_body-bodies takes n [] (failed e) rest s h = refl
forward_body-bodies takes n [] (headers x) rest s h = cc
forward_body-bodies takes n [] (body b) rest s h = cc
forward_body-bodies takes n (p ∷ ps) last rest s h =
    rw (s n) (ap (λ t. p ∷ t) (forward_body-bodies takes (suc n) ps last rest s h))

-- Body chunks that come before the headers are dropped.
await_headers-bodies :
    (early : List Bytes) (h : ResponseHeaders) (rest : List StreamEvent) (silence : Silence)
    → await_headers (bodies early ++ headers h ∷ rest) silence ≡ ok (h, rest)
unfolding await_headers
await_headers-bodies [] h rest silence = refl
await_headers-bodies (b ∷ early) h rest silence = await_headers-bodies early h rest silence

-- A stream with headers, chunks and a last event is a response with the status, the headers that are
-- not hop-by-hop, and the chunks in order, whatever comes behind the last event. The map of senders
-- is left alone.
pub finish_request_streams :
    (http : HttpLibrary) (takes : ℕ → Bool) (id : ℕ) (h : ResponseHeaders) (ps : List Bytes)
    (last : StreamEvent) (rest : List StreamEvent) (silence : Silence) (senders : HashMap ℕ ℕ)
    → Stays takes
    → is_last last ≡ true
    → all_accepted http (without_names hop_by_hop h.headers) ≡ true
    → finish_request http takes id (headers h ∷ (bodies ps ++ last ∷ rest)) silence senders ≡ (
      senders,
      streaming
          (status_or_bad_gateway (http.status_from_u16 h.status))
          (without_names hop_by_hop h.headers)
          ps,
    )
unfolding finish_request
finish_request_streams http takes id h ps last rest silence senders s l a =
    rw (a, forward_body-bodies takes 0 ps last rest s l)

-- The client cannot tell a response that broke off from one that is complete: an error event behind
-- the headers gives the same response as an end event at its place.
pub finish_request_truncates :
    (http : HttpLibrary) (takes : ℕ → Bool) (id : ℕ) (h : ResponseHeaders) (es : List StreamEvent)
    (e : Bytes) (silence : Silence) (senders : HashMap ℕ ℕ)
    → finish_request http takes id (headers h ∷ (es ++ failed e ∷ [])) silence senders
      ≡ finish_request http takes id (headers h ∷ (es ++ end ∷ [])) silence senders
unfolding finish_request
finish_request_truncates http takes id h es e silence senders = rw (same 0 es)
  where
    same :
        (n : ℕ) (es : List StreamEvent)
        → forward_body takes n (es ++ failed e ∷ []) ≡ forward_body takes n (es ++ end ∷ [])
    same n [] = refl
    same n (headers x ∷ es) = same n es
    same n (body b ∷ es) = rw (same (suc n) es)
    same n (failed x ∷ es) = refl
    same n (end ∷ es) = refl

-- The answers of the proxy itself.
abbrev pub bad_gateway : Bytes → Full
bad_gateway why = record {
  status = 502;
  content_type = some (codes "text/plain");
  text = codes "Tunnel error: " ++ why;
}

abbrev pub gateway_timeout : Full
gateway_timeout = record {
  status = 504;
  content_type = none;
  text = codes "Tunnel response timeout";
}

await_headers-early :
    (early : List Bytes) (rest : List StreamEvent) (silence : Silence)
    → await_headers (bodies early ++ rest) silence ≡ await_headers rest silence
unfolding await_headers
await_headers-early [] rest silence = refl
await_headers-early (b ∷ early) rest silence = await_headers-early early rest silence

-- A stream that has no headers, whatever chunks of a body it has: behind an error the answer is status
-- 502 with that error, behind an end and behind a channel that was closed it is status 502 with a text
-- that says so, and after a minute with nothing it is status 504. In each case the sender of the request
-- leaves the map. What comes behind the error or the end makes no difference.
pub finish_request_fails :
    (http : HttpLibrary) (takes : ℕ → Bool) (id : ℕ) (early : List Bytes) (e : Bytes)
    (rest : List StreamEvent) (silence : Silence) (senders : HashMap ℕ ℕ)
    → (finish_request http takes id (bodies early ++ failed e ∷ rest) silence senders
        ≡ (remove senders id, full (bad_gateway e)))
      × (finish_request http takes id (bodies early ++ end ∷ rest) silence senders
          ≡ (remove senders id, full (bad_gateway (codes "response ended before headers"))))
      × (finish_request http takes id (bodies early) closed senders
          ≡ (remove senders id, full (bad_gateway (codes "stream channel closed before headers"))))
      × (finish_request http takes id (bodies early) timed_out senders
          ≡ (remove senders id, full gateway_timeout))
      × ((k : ℕ) → get (remove senders id) k ≡ (if id == k then none else get senders k))
unfolding finish_request
finish_request_fails http takes id early e rest silence senders =
    let alone = sym (append-nil (bodies early)) in
    (
      rw (await_headers-early early (failed e ∷ rest) silence) (unfold await_headers in refl),
      rw (await_headers-early early (end ∷ rest) silence) (unfold await_headers in refl),
      rw (alone, await_headers-early early [] closed) (unfold await_headers in refl),
      rw (alone, await_headers-early early [] timed_out) (unfold await_headers in refl),
      λ k. get-remove senders id k,
    )
