-- ===== src/Serve/Requests.antt =====
-- Requests that the loop of tunnel/src/serve.rs puts together and hands over.
use p2p_llm_tunnel.Prelude.{
  ℕ, ◌≡◌, ◌≢◌, refl, sym, ap, ◌∙◌, List, [], ◌∷◌, ◌++◌, none, some, Result, ok, err, nat_eq, All,
  arith, map, concat, append-nil, append_assoc, get,
}
use p2p_llm_tunnel.Protocol.{
  Bytes, Serde, MessageType, req_headers, req_body, req_end, RequestHeaders, TunnelMessage,
}
use p2p_llm_tunnel.Protocol.Frame.{DecodeError, decode}
use p2p_llm_tunnel.Channel.{Error, bad_json}
use p2p_llm_tunnel.Serve.Run.{
  Pending, Server, Input, disconnected, closed, message, Outcome, on_req_headers, dispatch,
  on_decoded, step, resume, serve_loop,
}
use p2p_llm_tunnel.Serve.Keyed.{IsKeyed, step-IsKeyed}
use p2p_llm_tunnel.Serve.Assembly.{
  Part, begin, add, finish, part_of, parts_of, Slot, assemble, assemble_all, slot, tasks_of,
  step-slot,
}

-- An input that does not end the loop: any frame, but request headers have to parse.
abbrev pub IsHarmless : Serde → Input → Type 0
IsHarmless serde (message bytes) =
    (m : TunnelMessage)
    → decode bytes ≡ ok m
    → m.msg_type ≡ req_headers
    → serde.request_from_slice m.payload ≢ none
IsHarmless serde _ = ⊥

dispatch_continues :
    (serde : Serde) (t : MessageType) (m : TunnelMessage) (s : Server)
    → (t ≡ req_headers → serde.request_from_slice m.payload ≢ none)
    → (dispatch serde t m s).1 ≡ none
unfolding dispatch
dispatch_continues serde req_headers m s h = unfold on_req_headers in ground (arith, h refl)
dispatch_continues serde req_body m s h = ground arith
dispatch_continues serde req_end m s h = ground arith
dispatch_continues serde _ m s h = refl

decoded_continues :
    (serde : Serde) (d : Result DecodeError TunnelMessage) (s : Server)
    → ((m : TunnelMessage)
        → d ≡ ok m
        → m.msg_type ≡ req_headers
        → serde.request_from_slice m.payload ≢ none)
    → (on_decoded serde d s).1 ≡ none
unfolding on_decoded
decoded_continues serde (err e) s h = refl
decoded_continues serde (ok m) s h = dispatch_continues serde m.msg_type m s (h m refl)

step_continues :
    (serde : Serde) (i : Input) (s : Server) → IsHarmless serde i → (step serde i s).1 ≡ none
unfolding step
step_continues serde disconnected s h = elim h [ ]
step_continues serde closed s h = elim h [ ]
step_continues serde (message bytes) s h = decoded_continues serde (decode bytes) s h

resume-none : (k : Server → Outcome) (o : Outcome) → o.1 ≡ none → resume k o ≡ k o.0
resume-none k (s, none) e = refl
resume-none k (s, some x) e = cc

assemble_all-append :
    (ps qs : List Part) (s : Slot) → assemble_all (ps ++ qs) s ≡ assemble_all qs (assemble_all ps s)
unfolding assemble_all
assemble_all-append [] qs s = refl
assemble_all-append (p ∷ ps) qs s = assemble_all-append ps qs (assemble p s)

-- While no input ends it, the loop goes on, and what it does for a stream is what the frames of that
-- stream do alone, in their order: no frame of another stream has a part in it.
pub serve_loop-slot :
    (serde : Serde) (id : ℕ) (inputs : List Input) (s : Server)
    → IsKeyed s
    → All (IsHarmless serde) inputs
    → ((serve_loop serde inputs s).1 ≡ none)
      × (slot id (serve_loop serde inputs s).0
          ≡ assemble_all (parts_of serde id inputs) (slot id s))
unfolding serve_loop parts_of
serve_loop-slot serde id [] s v h = (refl, unfold assemble_all in refl)
serve_loop-slot serde id (i ∷ rest) s v h =
    let (goes_on, same) =
      serve_loop-slot serde id rest (step serde i s).0 (step-IsKeyed serde i v) h.1 in
    rw (resume-none (serve_loop serde rest) (step serde i s) (step_continues serde i s h.0)) (
      goes_on,
      same
          ∙ ap (assemble_all (parts_of serde id rest)) (step-slot id s v serde i)
          ∙ sym (assemble_all-append (part_of serde id i) (parts_of serde id rest) (slot id s)),
    )

assemble_adds :
    (h : RequestHeaders) (body : Bytes) (ps : List Bytes) (handed : List Pending)
    → assemble_all
        (map add ps ++ finish ∷ [])
        (record { pending = some (h, body); handed = handed })
      ≡ record { pending = none; handed = handed ++ (h, body ++ concat ps) ∷ [] }
unfolding assemble_all
assemble_adds h body [] handed = rw append-nil
assemble_adds h body (p ∷ ps) handed = assemble_adds h (body ++ p) ps handed ∙ (rw append_assoc)

-- Whatever frames come between, a stream whose own frames are headers, pieces of a body and an end
-- gets exactly one task, with those headers and the pieces joined in order, and leaves no request
-- pending. The loop goes on, as long as no input ends it.
pub serve_loop_assembles :
    (serde : Serde) (inputs : List Input) (s : Server) (h : RequestHeaders) (ps : List Bytes)
    → IsKeyed s
    → All (IsHarmless serde) inputs
    → parts_of serde h.stream_id inputs ≡ begin h ∷ (map add ps ++ finish ∷ [])
    → let t = serve_loop serde inputs s in
      (t.1 ≡ none)
      × (get t.0.pending_requests h.stream_id ≡ none)
      × (tasks_of h.stream_id t.0 ≡ tasks_of h.stream_id s ++ (h, concat ps) ∷ [])
unfolding slot assemble_all
serve_loop_assembles serde inputs s h ps v harmless parts =
    let (goes_on, same) = serve_loop-slot serde h.stream_id inputs s v harmless in
    let whole =
      same
      ∙ ap (λ q. assemble_all q (slot h.stream_id s)) parts
      ∙ assemble_adds h [] ps (tasks_of h.stream_id s) in
    (goes_on, ap (λ (x : Slot). x.pending) whole, ap (λ (x : Slot). x.handed) whole)

stops_at :
    (serde : Serde) (i : Input) (rest : List Input) (e : Error) (s : Server)
    → step serde i s ≡ (s, some e)
    → serve_loop serde (i ∷ rest) s ≡ (s, some e)
unfolding serve_loop
stops_at serde i rest e s h = rw h

bad_headers :
    (serde : Serde) (bytes : Bytes) {m : TunnelMessage} (s : Server)
    → decode bytes ≡ ok m
    → m.msg_type ≡ req_headers
    → serde.request_from_slice m.payload ≡ none
    → step serde (message bytes) s ≡ (s, some bad_json)
unfolding step dispatch on_req_headers
bad_headers serde bytes s d t j = rw d (rw t (rw j))

-- One frame with request headers that do not parse ends the loop for all streams: it returns with an
-- error, whatever follows is not read, and the state is the one before, so that the keepalive task
-- is not stopped.
pub serve_loop_bad_json :
    (serde : Serde) (inputs : List Input) (bytes : Bytes) (m : TunnelMessage) (rest : List Input)
    (s : Server)
    → All (IsHarmless serde) inputs
    → decode bytes ≡ ok m
    → m.msg_type ≡ req_headers
    → serde.request_from_slice m.payload ≡ none
    → serve_loop serde (inputs ++ message bytes ∷ rest) s
      ≡ ((serve_loop serde inputs s).0, some bad_json)
unfolding serve_loop
serve_loop_bad_json serde [] bytes m rest s h d t j =
    stops_at serde (message bytes) rest bad_json s (bad_headers serde bytes s d t j)
serve_loop_bad_json serde (i ∷ inputs) bytes m rest s h d t j =
    let next = step serde i s in
    let on = step_continues serde i s h.0 in
    resume-none (serve_loop serde (inputs ++ message bytes ∷ rest)) next on
    ∙ serve_loop_bad_json serde inputs bytes m rest next.0 h.1 d t j
    ∙ ap (λ (o : Outcome). (o.0, some bad_json))
        (sym (resume-none (serve_loop serde inputs) next on))
