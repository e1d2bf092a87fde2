-- ===== src/Proxy/Truncated.antt =====
-- `handle_proxy_request` of tunnel/src/proxy.rs when a frame of the body cannot be sent.
use mathlib.Core.Path.{ap₂}
use mathlib.Core.List.{append_cancel_right}
use p2p_llm_tunnel.Prelude.{
  ℕ, zero, suc, ◌+◌, ◌*◌, ◌<◌, ◌≤◌, min, ◌≡◌, refl, sym, ap, ◌∙◌, List, [], ◌∷◌, ◌++◌, Bool, true,
  false, ok, some, concat, length, take, drop, take-append-drop, lt→ltb, arith, append_assoc,
  append-nil,
}
use p2p_llm_tunnel.Protocol.{Bytes, Serde, max_body_chunk}
use p2p_llm_tunnel.Protocol.Build.{req_headers, req_body, req_end}
use p2p_llm_tunnel.Protocol.Frame.{encode}
use p2p_llm_tunnel.Channel.{Channel, attempt}
use p2p_llm_tunnel.Http.{slice}
use p2p_llm_tunnel.Http.Laws.{slice-append-drop}
use p2p_llm_tunnel.Proxy.Request.{
  Incoming, Proxy, waiting, send_pieces, send_rest, request_headers, begin_request,
}
use p2p_llm_tunnel.Proxy.Upload.{body_frames}

-- From a call on, `n` frames are taken and the next is refused.
abbrev pub TakesOnly : (ℕ → Bool) → ℕ → ℕ → Type 0
TakesOnly outcomes call zero = outcomes call ≡ false
TakesOnly outcomes call (suc n) = (outcomes call ≡ true) × TakesOnly outcomes (suc call) n

send_pieces_stops :
    (fuel id : ℕ) (body : Bytes) (offset n : ℕ) (c : Channel)
    → length body ≤ offset + fuel
    → offset + n * max_body_chunk < length body
    → TakesOnly c.outcomes c.calls n
    → (ps : List Bytes) × (send_pieces fuel id body offset c
        ≡ (ok tt, record c { sent = c.sent ++ body_frames id ps; calls = suc (n + c.calls) }))
      × (concat ps ++ drop (offset + n * max_body_chunk) body ≡ drop offset body)
unfolding send_pieces attempt
send_pieces_stops zero id body offset n c k more t = absurd (omega arith)
send_pieces_stops (suc fuel) id body offset zero c k more t =
    rw (lt→ltb offset (length body) (omega arith), send_pieces, t)
      (
        [],
        ap₂ (λ x k. (ok tt, record c { sent = x; calls = suc k })) (sym (append-nil c.sent))
            (omega arith),
        ap (λ k. drop k body) (omega arith),
      )
send_pieces_stops (suc fuel) id body offset (suc n) c k more t =
    let end = min (offset + max_body_chunk) (length body) in
    let e : end ≡ offset + max_body_chunk = omega arith in
    let p = slice body offset end in
    let next : Channel = record c {
      sent = c.sent ++ encode (req_body id p) ∷ [];
      calls = suc c.calls;
    } in
    let (ps, last, whole) =
      send_pieces_stops fuel id body end n next (omega arith) (omega arith) t.1 in
    rw (lt→ltb offset (length body) (omega arith), send_pieces, t.0)
      (
        p ∷ ps,
        last
            ∙ ap₂ (λ x k. (ok tt, record c { sent = x; calls = suc k }))
                (append_assoc c.sent (encode (req_body id p) ∷ []) (body_frames id ps))
                (omega arith),
        append_assoc p (concat ps) _
            ∙ ap (λ t. p ++ t) (ap (λ k. concat ps ++ drop k body) (omega arith) ∙ whole)
            ∙ slice-append-drop body offset end (omega arith),
      )

send_rest_stops :
    (id : ℕ) (body : Bytes) (n : ℕ) (c : Channel)
    → n * max_body_chunk < length body
    → TakesOnly c.outcomes c.calls n
    → c.outcomes (suc (n + c.calls)) ≡ true
    → (ps : List Bytes) × ((send_rest id body c).1.sent
        ≡ c.sent ++ (body_frames id ps ++ encode (req_end id) ∷ []))
      × (concat ps ≡ take (n * max_body_chunk) body)
unfolding send_rest attempt
send_rest_stops id body n c some_left pieces last =
    let (ps, stops, whole) =
      send_pieces_stops (length body) id body 0 n c (omega arith) (omega arith) pieces in
    (
      ps,
      rw (stops, last) (append_assoc c.sent (body_frames id ps) (encode (req_end id) ∷ [])),
      append_cancel_right _ _ (drop (n * max_body_chunk) body) (
          ap (λ k. concat ps ++ drop k body) (omega arith)
          ∙ whole
          ∙ sym (take-append-drop (n * max_body_chunk) body)),
    )

-- The frames of a request whose channel takes the headers and `n` pieces of the body, refuses the next
-- piece, and takes what comes then: the headers, `n` pieces, and the end.
pub begin_request_stops :
    (serde : Serde) (req : Incoming) (tx : ℕ) (p : Proxy) (body : Bytes) (n : ℕ)
    → p.tunnel_ready ≡ true
    → req.collected ≡ some body
    → n * max_body_chunk < length body
    → p.channel.outcomes p.channel.calls ≡ true
    → TakesOnly p.channel.outcomes (suc p.channel.calls) n
    → p.channel.outcomes (suc (n + suc p.channel.calls)) ≡ true
    → let id = p.stream_counter in
      let q = begin_request serde req tx p in
      (ps : List Bytes) × (q.1 ≡ waiting id)
      × (q.0.channel.sent
          ≡ p.channel.sent
            ++ (encode (req_headers serde (request_headers req id))
                ∷ (body_frames id ps ++ encode (req_end id) ∷ [])))
      × (concat ps ≡ take (n * max_body_chunk) body)
unfolding begin_request attempt
begin_request_stops serde req tx p body n ready read some_left first pieces last =
    let id = p.stream_counter in
    let headers = encode (req_headers serde (request_headers req id)) in
    let c : Channel = record p.channel {
      sent = p.channel.sent ++ headers ∷ [];
      calls = suc p.channel.calls;
    } in
    let (ps, sent, whole) = send_rest_stops id body n c some_left pieces last in
    rw (ready, read, first)
      (
        ps,
        refl,
        sent
            ∙ append_assoc p.channel.sent (headers ∷ [])
                (body_frames id ps ++ encode (req_end id) ∷ []),
        whole,
      )
