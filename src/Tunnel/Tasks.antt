-- ===== src/Tunnel/Tasks.antt =====
-- The tasks that the server has started, when nothing but requests has reached it.
use p2p_llm_tunnel.Prelude.{
  ℕ, ◌^◌, ◌≤◌, ◌≡◌, refl, ap, ◌∙◌, inl, inr, List, [], ◌∷◌, Bool, false, All, map, Bool-cases,
  keep_if, get, ◌==◌, nat_eq, ltb, matches_self, arith,
}
use p2p_llm_tunnel.Protocol.{Bytes, Serde, IsU32}
use p2p_llm_tunnel.Channel.{Channel}
use p2p_llm_tunnel.Serve.Run.{Pending, Input, message, serve_loop, start}
use p2p_llm_tunnel.Serve.Keyed.{IsKeyed}
use p2p_llm_tunnel.Serve.Assembly.{parts_of, slot, Slot, assemble_all}
use p2p_llm_tunnel.Serve.Requests.{IsHarmless, serve_loop-slot}
use p2p_llm_tunnel.Tunnel.Woven.{Woven}
use p2p_llm_tunnel.Tunnel.Exchange.{cons_ne_nil}
use p2p_llm_tunnel.Tunnel.Shuffle.{Interleaved, Interleaved-All}
use p2p_llm_tunnel.Tunnel.Request.{IsSilent}
use p2p_llm_tunnel.Tunnel.Requests.{
  Sending, request_frames, RequestsParse, IsIdle, IsOtherRequest, Woven-All, All-IsSilent,
  All-IsHarmless,
}

silent_parts :
    (serde : Serde) (id : ℕ) (inputs : List Input)
    → All (IsSilent serde id) inputs
    → parts_of serde id inputs ≡ []
unfolding parts_of
silent_parts serde id [] h = refl
silent_parts serde id (i ∷ rest) h = rw h.0 (silent_parts serde id rest h.1)

keep_if-nil :
    {A : Type 0} (p : A → Bool) (x : A) (xs : List A)
    → keep_if p (x ∷ xs) ≡ []
    → (p x ≡ false) × (keep_if p xs ≡ [])
unfolding keep_if
keep_if-nil p x xs e = elim (Bool-cases (p x)) [
  | inl kept ↦
      let more : x ∷ keep_if p xs ≡ [] = rw kept at e in absurd (cons_ne_nil x (keep_if p xs) more)
  | inr gone ↦ (gone, rw gone at e)
]

-- If no task has an id that is too large, all ids fit.
ids_fit :
    (ts : List Pending)
    → ((id : ℕ) → 2 ^ 32 ≤ id → keep_if (λ (t : Pending). t.0.stream_id == id) ts ≡ [])
    → All (λ (t : Pending). IsU32 t.0.stream_id) ts
ids_fit [] h = tt
ids_fit (t ∷ ts) h = (head, ids_fit ts (λ id large. (keep_if-nil _ t ts (h id large)).1))
  where
    head : IsU32 t.0.stream_id
    head = elim (Bool-cases (ltb t.0.stream_id (2 ^ 32))) [
      | inl fits ↦ ground arith
      | inr large ↦
          let differs = (keep_if-nil _ t ts (h t.0.stream_id (ground arith))).0 in
          let same = matches_self t.0.stream_id in ground arith
    ]

module _ (serde : Serde) (json : RequestsParse serde) where
  others_than :
      (id : ℕ) (ts : List Sending)
      → 2 ^ 32 ≤ id
      → All (λ t. IsU32 t.1) ts
      → All (IsOtherRequest id) ts
  others_than id [] large h = tt
  others_than id (t ∷ ts) large h = ((h.0, λ e. omega (arith, h.0)), others_than id ts large h.1)

  -- The ids of the tasks that requests alone have started fit in 32 bits.
  pub tasks-IsU32 :
      (ts : List Sending) (ins : List Bytes) (inputs : List Input) (ping_task : Bool) (c : Channel)
      → All (λ t. IsU32 t.1) ts
      → Interleaved (map (request_frames serde) ts) ins
      → Woven (λ f. message f) (IsIdle serde) ins inputs
      → All (λ t. IsU32 t.0.stream_id) (serve_loop serde inputs (start ping_task c)).0.spawned
  unfolding get slot assemble_all keep_if
  tasks-IsU32 ts ins inputs ping_task c fit mixed woven =
      let harmless =
        Woven-All (λ f. message f) (IsIdle serde) (IsHarmless serde) (λ i q. q.1) woven
          (Interleaved-All (λ f. IsHarmless serde (message f)) mixed
            (All-IsHarmless serde json (2 ^ 32) ts (others_than (2 ^ 32) ts (omega arith) fit))) in
      let keyed : IsKeyed (start ping_task c) = record { keyed = λ k e. cc } in
      ids_fit _ (λ id large.
        let silent =
          Woven-All (λ f. message f) (IsIdle serde) (IsSilent serde id) (λ i q. q.0 id) woven
            (Interleaved-All (λ f. IsSilent serde id (message f)) mixed
              (All-IsSilent serde json id ts (others_than id ts large fit))) in
        let same = (serve_loop-slot serde id inputs (start ping_task c) keyed harmless).1 in
        ap (λ (x : Slot). x.handed)
          (same
            ∙ ap (λ q. assemble_all q (slot id (start ping_task c)))
                (silent_parts serde id inputs silent)))
