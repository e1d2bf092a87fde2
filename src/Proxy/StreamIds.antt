-- ===== src/Proxy/StreamIds.antt =====
-- The stream ids that the handlers of tunnel/src/proxy.rs take from their shared counter, for
-- requests that are begun one after another.
use p2p_llm_tunnel.Prelude.{
  ℕ, ◌+◌, ◌^◌, ◌<◌, ◌≤◌, ◌≡◌, refl, inl, inr, List, [], ◌∷◌, ◌++◌, Bool, true, false, Option, none,
  some, Bool-cases, arith, length, ok, insert, nat_eq, ◌%◌,
}
use p2p_llm_tunnel.Protocol.{Bytes, Serde}
use p2p_llm_tunnel.Channel.{Channel, attempt}
use p2p_llm_tunnel.Proxy.Request.{
  Incoming, Proxy, Begun, answered, waiting, after_headers, with_body, begin_request,
}

abbrev id_of : Begun → List ℕ
id_of (waiting id) = id ∷ []
id_of (answered a) = []

unfoldable pub ids_of : Serde → List (Incoming × ℕ) → Proxy → List ℕ
ids_of serde [] p = []
ids_of serde ((req, tx) ∷ rest) p =
    let q = begin_request serde req tx p in id_of q.1 ++ ids_of serde rest q.0

-- Each is above those before it, and the first is at least the bound.
abbrev pub IsRising : ℕ → List ℕ → Type 0
IsRising low [] = Unit
IsRising low (id ∷ ids) = (low ≤ id) × IsRising (id + 1) ids

IsRising-le : (low low' : ℕ) (ids : List ℕ) → low ≤ low' → IsRising low' ids → IsRising low ids
IsRising-le low low' [] h r = tt
IsRising-le low low' (id ∷ ids) h r = (omega (arith, r.0), r.1)

-- What one request does to the counter.
abbrev Takes : ℕ → Proxy × Begun → Type 0
Takes c (q, answered a) = (c ≤ q.stream_counter) × (q.stream_counter ≤ c + 1)
Takes c (q, waiting id) = (id ≡ c) × (q.stream_counter ≡ c + 1)

module _ (serde : Serde) (req : Incoming) (id tx : ℕ) where
  after_headers-Takes :
      (body : Bytes) (p : Proxy) (sent : Bool) (c : Channel)
      → p.stream_counter ≡ id + 1
      → Takes id (after_headers id body p (ok sent, c))
  unfolding after_headers
  after_headers-Takes body p true c h = (refl, h)
  after_headers-Takes body p false c h = (omega arith, omega arith)

  with_body-Takes :
      (read : Option Bytes) (p : Proxy)
      → p.stream_counter ≡ id + 1
      → Takes id (with_body serde req id tx read p)
  unfolding with_body attempt
  with_body-Takes none p h = (omega arith, omega arith)
  with_body-Takes (some body) p h =
      after_headers-Takes body (record p { pending = insert p.pending id tx }) _ _ h

begin_request-Takes :
    (serde : Serde) (req : Incoming) (tx : ℕ) (p : Proxy)
    → p.stream_counter + 1 < 2 ^ 32
    → Takes p.stream_counter (begin_request serde req tx p)
unfolding begin_request
begin_request-Takes serde req tx p h = elim (Bool-cases p.tunnel_ready) [
  | inr off ↦ rw off (omega arith, omega arith)
  | inl on ↦ rw on (
      with_body-Takes serde req p.stream_counter tx req.collected
        (record p { tunnel_ready = true; stream_counter = (p.stream_counter + 1) % 2 ^ 32 })
        (omega arith))
]

rises_on :
    (serde : Serde) (rest : List (Incoming × ℕ)) (low : ℕ) (r : Proxy × Begun)
    → Takes low r
    → IsRising r.0.stream_counter (ids_of serde rest r.0)
    → IsRising low (id_of r.1 ++ ids_of serde rest r.0)
rises_on serde rest low (q, answered a) t ih = IsRising-le _ _ _ t.0 ih
rises_on serde rest low (q, waiting id) t ih = (omega arith, IsRising-le _ _ _ (omega arith) ih)

Takes-le : (low : ℕ) (r : Proxy × Begun) → Takes low r → r.0.stream_counter ≤ low + 1
Takes-le low (q, answered a) t = t.1
Takes-le low (q, waiting id) t = omega arith

-- As long as the counter does not wrap around, no two requests that wait for a response have the same
-- stream id, however sending went: the ids rise strictly from the counter on.
pub ids_of-IsRising :
    (serde : Serde) (reqs : List (Incoming × ℕ)) (p : Proxy)
    → p.stream_counter + length reqs < 2 ^ 32
    → IsRising p.stream_counter (ids_of serde reqs p)
unfolding ids_of
ids_of-IsRising serde [] p h = tt
ids_of-IsRising serde ((req, tx) ∷ rest) p h =
    let taken = begin_request-Takes serde req tx p (omega arith) in
    let q = begin_request serde req tx p in
    rises_on serde rest p.stream_counter q taken
      (ids_of-IsRising serde rest q.0 (omega (arith, Takes-le _ q taken)))
