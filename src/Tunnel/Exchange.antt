-- ===== src/Tunnel/Exchange.antt =====
-- One exchange over the whole tunnel: a request on its way to the server, the tasks that answer, and
-- the response on its way back.
use p2p_llm_tunnel.Prelude.{
  ℕ, ◌≡◌, ◌≢◌, refl, sym, ap, ◌∙◌, List, [], ◌∷◌, ◌++◌, Bool, true, false, none, some, inl, inr,
  map, concat, All, nat_eq, ◌==◌, arith, get, keep_if, HashMap, Bool-cases, if◌then◌else◌,
}
use p2p_llm_tunnel.Protocol.{Bytes, Serde, IsU32, RequestHeaders, ResponseHeaders}
use p2p_llm_tunnel.Channel.{IsOpen}
use p2p_llm_tunnel.Http.{Fields, without_names}
use p2p_llm_tunnel.Http.Laws.{IsPiece}
use p2p_llm_tunnel.Serve.Respond.{Chunk, Client, response, upstream_request}
use p2p_llm_tunnel.Serve.Stream.{body_of}
use p2p_llm_tunnel.Serve.Run.{Pending, Server, Input, message, serve_loop}
use p2p_llm_tunnel.Serve.Keyed.{IsKeyed}
use p2p_llm_tunnel.Serve.Assembly.{tasks_of}
use p2p_llm_tunnel.Proxy.Request.{Incoming, Proxy, request_headers, begin_request}
use p2p_llm_tunnel.Proxy.Upload.{begin_request_sends}
use p2p_llm_tunnel.Proxy.Router.{Router, Action, frame, run_reader}
use p2p_llm_tunnel.Proxy.Delivery.{events_of, Owns, IsForeign}
use p2p_llm_tunnel.Proxy.Answer.{
  Silence, HttpLibrary, streaming, all_accepted, hop_by_hop, status_or_bad_gateway, finish_request,
}
use p2p_llm_tunnel.Proxy.Client.{Stays}
use p2p_llm_tunnel.Tunnel.Woven.{Woven}
use p2p_llm_tunnel.Tunnel.Shuffle.{Interleaved}
use p2p_llm_tunnel.Tunnel.Requests.{
  Sending, request_frames, RequestsParse, IsIdle, IsOtherRequest, requests_arrive_together,
}
use p2p_llm_tunnel.Tunnel.Response.{answered_headers}
use p2p_llm_tunnel.Tunnel.Together.{
  frames_of, ResponsesParse, IsBackground, IsOtherTask, responses_return_together,
}

pub cons_ne_nil : {A : Type 0} (x : A) (xs : List A) → x ∷ xs ≢ []
cons_ne_nil x xs e = cc

module _ {A : Type 0} (p : A → Bool) (Q : A → Type 0) where
  -- The element stands in the list, and the test holds of no other one.
  record Alone (a : A) (xs : List A) : Type 0 where
    before : List A
    after : List A
    splits : xs ≡ before ++ a ∷ after
    others_before : All (λ x. Q x × (p x ≡ false)) before
    others_after : All (λ x. Q x × (p x ≡ false)) after

  keep_if-none : (xs : List A) → All Q xs → keep_if p xs ≡ [] → All (λ x. Q x × (p x ≡ false)) xs
  unfolding keep_if
  keep_if-none [] q e = tt
  keep_if-none (x ∷ xs) q e = elim (Bool-cases (p x)) [
    | inl kept ↦
        let more : x ∷ keep_if p xs ≡ [] = rw kept at e in
        elim (cons_ne_nil x (keep_if p xs) more) [ ]
    | inr gone ↦ ((q.0, gone), keep_if-none xs q.1 (rw gone at e))
  ]

  keep_if-Alone : (a : A) (xs : List A) → All Q xs → keep_if p xs ≡ a ∷ [] → Alone a xs
  unfolding keep_if
  keep_if-Alone a [] q e = elim (cons_ne_nil a [] (sym e)) [ ]
  keep_if-Alone a (x ∷ xs) q e = elim (Bool-cases (p x)) [
    | inl kept ↦
        let one : x ∷ keep_if p xs ≡ a ∷ [] = rw kept at e in
        let same : x ≡ a = cc in
        let rest : keep_if p xs ≡ [] = cc in
        record {
          before = [];
          after = xs;
          splits = ap (λ y. y ∷ xs) same;
          others_before = tt;
          others_after = keep_if-none xs q.1 rest;
        }
    | inr gone ↦
        let alone = keep_if-Alone a xs q.1 (rw gone at e) in
        record {
          before = x ∷ alone.before;
          after = alone.after;
          splits = ap (λ ys. x ∷ ys) alone.splits;
          others_before = ((q.0, gone), alone.others_before);
          others_after = alone.others_after;
        }
  ]

-- In a list of tasks with stream ids that fit, with one task of the stream.
only_task :
    (id : ℕ) (t : Pending) (s : Server)
    → All (λ r. IsU32 r.0.stream_id) s.spawned
    → tasks_of id s ≡ t ∷ []
    → (before : List Pending) × (after : List Pending) × (s.spawned ≡ before ++ t ∷ after)
      × All (IsOtherTask id) before
      × All (IsOtherTask id) after
only_task id t s fits e =
    let alone =
      keep_if-Alone (λ r. r.0.stream_id == id) (λ r. IsU32 r.0.stream_id) t s.spawned fits e in
    (
      alone.before,
      alone.after,
      alone.splits,
      others alone.before alone.others_before,
      others alone.after alone.others_after,
    )
  where
    others :
        (ts : List Pending)
        → All (λ r. IsU32 r.0.stream_id × ((r.0.stream_id == id) ≡ false)) ts
        → All (IsOtherTask id) ts
    others [] h = tt
    others (r ∷ ts) h = ((h.0.0, λ e. ground arith), others ts h.1)

-- A channel that no other stream has is the sender of the stream that it is put in for.
registered :
    (pending pending' : HashMap ℕ ℕ) (id tx : ℕ) (r : Router)
    → ((k : ℕ) → get pending' k ≡ (if id == k then some tx else get pending k))
    → ((k : ℕ) → get pending k ≢ some tx)
    → r.pending ≡ pending'
    → (get r.pending id ≡ some tx) × Owns id tx r
registered pending pending' id tx r found unused shared = (
  rw shared (found id ∙ ground arith),
  record {
    owned = λ k e.
        let at_k = found k in
        let here : get pending' k ≡ some tx = rw shared at e in ground (arith, unused k);
  },
)

-- The headers that the server parses.
abbrev pub received : (serde : Serde) → RequestsParse serde → Incoming → ℕ → RequestHeaders
received serde json req id = (json (request_headers req id)).0

-- The headers that the proxy parses.
abbrev pub returned :
    (serde : Serde) → ResponsesParse serde → RequestHeaders → ℕ → Fields → ResponseHeaders
returned serde json h status fields = (json (answered_headers h status fields)).0

module _ (serde : Serde) (json : RequestsParse serde) (json' : ResponsesParse serde)
    (client : Client) (upstream_url prefix : Bytes) where
  -- One request among any number, over the whole tunnel, on channels that take every frame. The
  -- handlers of the proxy send their requests at the same time, and the tasks of the server answer at
  -- the same time; the frames of either side are interleaved in any way, and mixed with frames that
  -- belong to no stream and end no loop. Then for a request whose body could be read, and which the
  -- upstream answers when it is forwarded, the HTTP client gets the status and the headers of that
  -- answer as they parse, less the hop-by-hop ones, and pieces that are the bytes of the upstream in
  -- order, up to where it broke off, if it did; and its sender has left the map. The stream ids are
  -- different and fit in 32 bits, the server has had no request under this id, the sender is a new
  -- channel, JSON of headers parses to headers with the same id, the client stays, and the response
  -- builder accepts the headers.
  pub request_answered :
      (req : Incoming) (tx : ℕ) (p : Proxy) (body : Bytes) (before after : List Sending)
      (ins : List Bytes) (inputs : List Input) (s : Server) (method : Bytes) (status : ℕ)
      (fields : Fields) (chunks : List Chunk) (out : List Bytes) (actions : List Action)
      (r : Router) (http : HttpLibrary) (takes : ℕ → Bool) (silence : Silence)
      (senders : HashMap ℕ ℕ)
      → p.tunnel_ready ≡ true
      → req.collected ≡ some body
      → IsOpen p.channel
      → IsU32 p.stream_counter
      → All (IsOtherRequest p.stream_counter) before
      → All (IsOtherRequest p.stream_counter) after
      → Interleaved (map (request_frames serde) (before ++ (req, p.stream_counter) ∷ after)) ins
      → Woven (λ f. message f) (IsIdle serde) ins inputs
      → IsKeyed s
      → tasks_of p.stream_counter s ≡ []
      → All (λ t. IsU32 t.0.stream_id) (serve_loop serde inputs s).0.spawned
      → let h = received serde json req p.stream_counter in
        let h' = returned serde json' h status fields in
        client.parse_method h.method ≡ some method
        → client.execute (upstream_request method upstream_url prefix h body)
          ≡ response status fields chunks
        → Interleaved
            (map (frames_of serde client upstream_url prefix) (serve_loop serde inputs s).0.spawned)
            out
        → Woven (λ f. frame f) (IsBackground serde) out actions
        → ((k : ℕ) → get p.pending k ≢ some tx)
        → r.pending ≡ (begin_request serde req tx p).0.pending
        → events_of tx r ≡ []
        → All (IsForeign p.stream_counter tx) actions
        → Stays takes
        → all_accepted http (without_names hop_by_hop h'.headers) ≡ true
        → let after = run_reader serde actions r in
          let h = received serde json req p.stream_counter in
          let h' = returned serde json' h status fields in
          (ps : List Bytes) × (finish_request http takes p.stream_counter
              (events_of tx after)
              silence
              senders
            ≡ (
              senders,
              streaming
                  (status_or_bad_gateway (http.status_from_u16 h'.status))
                  (without_names hop_by_hop h'.headers)
                  ps,
            ))
          × (concat ps ≡ body_of chunks)
          × All IsPiece ps
          × (get after.pending p.stream_counter ≡ none)
  request_answered req tx p body before after ins inputs s method status fields chunks out actions r
        http takes silence senders ready read o fits others_before others_after requests arrive
        keyed idle small parses_method answers responses woven unused shared fresh foreign stays
        accepted =
      let (h, parses, same') = json (request_headers req p.stream_counter) in
      let same : h.stream_id ≡ p.stream_counter = same' ∙ (unfold request_headers in refl) in
      let arrived =
        requests_arrive_together serde json before after req p.stream_counter body ins inputs s fits
          read others_before others_after requests arrive keyed in
      let (tasks_before, tasks_after, splits, small_before, small_after) =
        only_task p.stream_counter (h, body) (serve_loop serde inputs s).0 small
          (arrived.2 ∙ ap (λ ts. ts ++ (h, body) ∷ []) idle) in
      let (here, owns) =
        registered p.pending (begin_request serde req tx p).0.pending p.stream_counter tx r
          (begin_request_sends serde req tx p body ready read o).5 unused shared in
      let (ps, answer, whole, pieces, gone) =
        responses_return_together serde json' client upstream_url prefix tasks_before tasks_after h
          body method status fields chunks out actions r tx http takes silence senders
          (rw same fits) (rw same small_before) (rw same small_after) parses_method answers
          (rw splits at responses) woven (rw same owns) (rw same here) (rw same foreign) fresh stays
          accepted in
      let end = run_reader serde actions r in
      (
        ps,
        ap (λ k. finish_request http takes k (events_of tx end) silence senders) (sym same)
            ∙ answer,
        whole,
        pieces,
        ap (λ k. get end.pending k) (sym same) ∙ gone,
      )
