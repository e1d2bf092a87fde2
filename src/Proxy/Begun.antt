-- ===== src/Proxy/Begun.antt =====
-- The state that the handlers of tunnel/src/proxy.rs share, after requests that were begun one after
-- another on a channel that takes every frame.
use p2p_llm_tunnel.Prelude.{
  ℕ, ◌+◌, ◌^◌, ◌<◌, ◌≤◌, ◌≡◌, ◌≢◌, refl, sym, ap, ◌∙◌, inl, inr, List, [], ◌∷◌, ◌++◌, true, some,
  Option-cases, Bool-cases, All, arith, length, get, insert, get-insert, ◌==◌, HashMap, nat_eq,
}
use p2p_llm_tunnel.Protocol.{Bytes, Serde}
use p2p_llm_tunnel.Channel.{Channel, attempt, IsOpen}
use p2p_llm_tunnel.Proxy.Request.{Incoming, Proxy, send_rest, with_body, begin_request}
use p2p_llm_tunnel.Proxy.Upload.{send_rest-Writes}

-- A request, and the channel that is made for its events.
abbrev pub Opened : Type 0
Opened = Incoming × ℕ

unfoldable pub begin_all : Serde → List Opened → Proxy → Proxy
begin_all serde [] p = p
begin_all serde ((req, tx) ∷ rest) p = begin_all serde rest (begin_request serde req tx p).0

-- The stream ids that the requests get, from a value of the counter on.
unfoldable pub numbered : ℕ → List Opened → List (Incoming × ℕ)
numbered k [] = []
numbered k ((req, tx) ∷ rest) = (req, k) ∷ numbered (k + 1) rest

-- Ready for the next request, under the id.
pub record Serving (k : ℕ) (p : Proxy) : Type 0 where
  pub ready : p.tunnel_ready ≡ true
  pub counter : p.stream_counter ≡ k
  pub takes : IsOpen p.channel

-- No request has the channel.
abbrev pub IsUnused : ℕ → Proxy → Type 0
IsUnused tx p = (k : ℕ) → get p.pending k ≢ some tx

add_zero : (k : ℕ) → k + 0 ≡ k
add_zero k = omega arith

send_rest-IsOpen : (id : ℕ) (body : Bytes) (c : Channel) → IsOpen c → IsOpen (send_rest id body c).1
send_rest-IsOpen id body c o n =
    let writes = (send_rest-Writes id body).1 in rw (writes.on_open c o).same_outcomes (o n)

insert-unused :
    (pending : HashMap ℕ ℕ) (id tx tx' : ℕ)
    → tx ≢ tx'
    → ((k : ℕ) → get pending k ≢ some tx')
    → (k : ℕ) → get (insert pending id tx) k ≢ some tx'
insert-unused pending id tx tx' ne unused k e =
    let found = get-insert pending id tx k in
    elim (Bool-cases (id == k)) [
      | inl same ↦ let at_k : some tx ≡ some tx' = sym (rw same at found) ∙ e in ne cc
      | inr other ↦ unused k (sym (rw other at found) ∙ e)
    ]

module _ (serde : Serde) (req : Incoming) (tx k : ℕ) (p : Proxy) (v : Serving k p)
    (fits : k + 1 < 2 ^ 32) where
  begin_request-Serving : Serving (k + 1) (begin_request serde req tx p).0
  unfolding begin_request with_body attempt
  begin_request-Serving = elim (Option-cases req.collected) [
    | inl e ↦
        rw (v.ready, e)
          (record { ready = refl; counter = rw v.counter (omega arith); takes = v.takes })
    | inr (body, e) ↦
        rw (v.ready, e, v.takes p.channel.calls)
          (record {
            ready = refl;
            counter = rw v.counter (omega arith);
            takes = send_rest-IsOpen p.stream_counter body _ v.takes;
          })
  ]

  begin_request-IsUnused :
      (tx' : ℕ) → tx ≢ tx' → IsUnused tx' p → IsUnused tx' (begin_request serde req tx p).0
  unfolding begin_request with_body attempt
  begin_request-IsUnused tx' ne unused j = elim (Option-cases req.collected) [
    | inl e ↦ rw (v.ready, e) (unused j)
    | inr (body, e) ↦
        rw (v.ready, e, v.takes p.channel.calls)
          (insert-unused p.pending p.stream_counter tx tx' ne unused j)
  ]

pub begin_all-Serving :
    (serde : Serde) (reqs : List Opened) (k : ℕ) (p : Proxy)
    → Serving k p
    → k + length reqs < 2 ^ 32
    → Serving (k + length reqs) (begin_all serde reqs p)
unfolding begin_all
begin_all-Serving serde [] k p v h = rw (add_zero k) v
begin_all-Serving serde ((req, tx) ∷ rest) k p v h =
    let more =
      begin_all-Serving serde rest (k + 1) (begin_request serde req tx p).0
        (begin_request-Serving serde req tx k p v (omega arith)) (omega arith) in
    let same : k + 1 + length rest ≡ k + length ((req, tx) ∷ rest) = omega arith in rw (← same) more

pub begin_all-IsUnused :
    (serde : Serde) (reqs : List Opened) (k : ℕ) (p : Proxy) (tx : ℕ)
    → Serving k p
    → k + length reqs < 2 ^ 32
    → All (λ (x : Opened). x.1 ≢ tx) reqs
    → IsUnused tx p
    → IsUnused tx (begin_all serde reqs p)
unfolding begin_all
begin_all-IsUnused serde [] k p tx v h others u = u
begin_all-IsUnused serde ((req, tx') ∷ rest) k p tx v h others u =
    begin_all-IsUnused serde rest (k + 1) (begin_request serde req tx' p).0 tx
      (begin_request-Serving serde req tx' k p v (omega arith)) (omega arith) others.1
      (begin_request-IsUnused serde req tx' k p v (omega arith) tx others.0 u)

pub numbered-append :
    (k : ℕ) (before after : List Opened)
    → numbered k (before ++ after) ≡ numbered k before ++ numbered (k + length before) after
unfolding numbered
numbered-append k [] after = rw (add_zero k)
numbered-append k ((req, tx) ∷ before) after =
    let same : k + 1 + length before ≡ k + length ((req, tx) ∷ before) = omega arith in
    ap (λ t. (req, k) ∷ t) (numbered-append (k + 1) before after ∙ (rw same))

-- The ids lie between the counter and where it ends.
pub numbered-between :
    (k low high : ℕ) (reqs : List Opened)
    → low ≤ k
    → k + length reqs ≤ high
    → All (λ (t : Incoming × ℕ). (low ≤ t.1) × (t.1 < high)) (numbered k reqs)
unfolding numbered
numbered-between k low high [] h h' = tt
numbered-between k low high ((req, tx) ∷ rest) h h' =
    ((h, omega arith), numbered-between (k + 1) low high rest (omega arith) (omega arith))
