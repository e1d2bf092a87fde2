-- ===== src/Tunnel/Session.antt =====
-- A whole session over one data channel: the handshake, requests one after another, and an answer.
use p2p_llm_tunnel.Prelude.{
  ℕ, ◌+◌, ◌^◌, ◌<◌, ◌≤◌, ◌≡◌, ◌≢◌, refl, ◌∙◌, List, [], ◌∷◌, ◌++◌, Bool, true, some, none, ok, All,
  map, length, length-append, concat, HashMap, get, keep_if, nat_eq, arith,
}
use p2p_llm_tunnel.Protocol.{Bytes, Serde, IsU32}
use p2p_llm_tunnel.Protocol.Build
use p2p_llm_tunnel.Protocol.Build.{new_hello}
use p2p_llm_tunnel.Protocol.Frame.{encode}
use p2p_llm_tunnel.Channel
use p2p_llm_tunnel.Channel.{Channel, IsOpen}
use p2p_llm_tunnel.Http.{Fields, without_names}
use p2p_llm_tunnel.Http.Laws.{IsPiece}
use p2p_llm_tunnel.Serve.Respond.{Chunk, Client, response, upstream_request}
use p2p_llm_tunnel.Serve.Stream.{body_of}
use p2p_llm_tunnel.Serve.Run.{Server, Input, message, run_serve, start}
use p2p_llm_tunnel.Serve.Keyed.{IsKeyed}
use p2p_llm_tunnel.Proxy.Request.{Incoming, Proxy, begin_request}
use p2p_llm_tunnel.Proxy.Handshake.{start_proxy}
use p2p_llm_tunnel.Proxy.Begun.{
  Opened, begin_all, numbered, Serving, IsUnused, begin_all-Serving, begin_all-IsUnused,
  numbered-append, numbered-between,
}
use p2p_llm_tunnel.Proxy.Router.{Router, Action, frame, run_reader}
use p2p_llm_tunnel.Proxy.Delivery.{events_of, IsForeign}
use p2p_llm_tunnel.Proxy.Answer.{
  Silence, HttpLibrary, streaming, all_accepted, hop_by_hop, status_or_bad_gateway, finish_request,
}
use p2p_llm_tunnel.Proxy.Client.{Stays}
use p2p_llm_tunnel.Tunnel.Woven.{Woven}
use p2p_llm_tunnel.Tunnel.Shuffle.{Interleaved}
use p2p_llm_tunnel.Tunnel.Handshake.{agreed, after_send, handshake_completes}
use p2p_llm_tunnel.Tunnel.Requests.{
  Sending, request_frames, RequestsParse, IsIdle, IsOtherRequest, requests_arrive_together,
}
use p2p_llm_tunnel.Tunnel.Together.{frames_of, ResponsesParse, IsBackground}
use p2p_llm_tunnel.Tunnel.Tasks.{tasks-IsU32}
use p2p_llm_tunnel.Tunnel.Exchange.{received, returned, request_answered}

-- The proxy behind its handshake, with its HELLO sent.
abbrev pub opened : Serde → Channel → Proxy
opened serde d = record {
  tunnel_ready = true;
  stream_counter = 1;
  pending = [];
  channel = after_send d (Build.hello serde new_hello);
}

-- The first messages of the two sides.
abbrev pub hello_frame : Serde → Bytes
hello_frame serde = encode (Build.hello serde new_hello)

abbrev pub agree_frame : Serde → Bytes
agree_frame serde = encode (Build.agree serde agreed)

-- The server behind its handshake.
abbrev pub served : Serde → Channel → Server
served serde c = start true (after_send c (Build.agree serde agreed))

opened-Serving : (serde : Serde) (d : Channel) → IsOpen d → Serving 1 (opened serde d)
opened-Serving serde d o = record { ready = refl; counter = refl; takes = o }

opened-IsUnused : (serde : Serde) (d : Channel) (tx : ℕ) → IsUnused tx (opened serde d)
unfolding get
opened-IsUnused serde d tx k e = cc

pub served-IsKeyed : (serde : Serde) (c : Channel) → IsKeyed (served serde c)
unfolding get
served-IsKeyed serde c = record { keyed = λ k e. cc }

below :
    (id : ℕ) (ts : List Sending)
    → id < 2 ^ 32
    → All (λ t. (1 ≤ t.1) × (t.1 < id)) ts
    → All (IsOtherRequest id) ts
below id [] h b = tt
below id (t ∷ ts) h b = ((omega (arith, b.0.1), λ e. omega (arith, b.0.1)), below id ts h b.1)

above :
    (id high : ℕ) (ts : List Sending)
    → high ≤ 2 ^ 32
    → All (λ t. (id + 1 ≤ t.1) × (t.1 < high)) ts
    → All (IsOtherRequest id) ts
above id high [] h b = tt
above id high (t ∷ ts) h b =
    ((omega (arith, b.0.1), λ e. omega (arith, b.0.0)), above id high ts h b.1)

fit :
    (high : ℕ) (ts : List Sending)
    → high ≤ 2 ^ 32
    → All (λ t. (1 ≤ t.1) × (t.1 < high)) ts
    → All (λ t. IsU32 t.1) ts
fit high [] h b = tt
fit high (t ∷ ts) h b = (omega (arith, b.0.1), fit high ts h b.1)

module _ (serde : Serde) (json : RequestsParse serde) (json' : ResponsesParse serde)
    (client : Client) (upstream_url prefix : Bytes) where
  -- A session from its start, on channels that take every frame. The two sides shake hands. Requests
  -- are begun one after another, their handlers send them at the same time, and the tasks of the server
  -- answer at the same time; on either way the frames are interleaved in any order, and mixed with frames
  -- that belong to no stream and end no loop. Then the proxy is ready after the handshake, the loop of
  -- the server goes on, and any of the requests whose body could be read, and which the upstream answers
  -- when it is forwarded, is answered: the HTTP client gets the status and the headers as they parse, less
  -- the hop-by-hop ones, and pieces that are the bytes of the upstream in order, up to where it broke
  -- off, if it did; and its sender has left the map. The counter does not wrap around, no earlier request
  -- has the same channel for its events, the JSON of the handshake parses back and that of headers to
  -- headers with the same id, the client stays, and the response builder accepts the headers.
  pub session_answers :
      (c d : Channel) (before : List Opened) (req : Incoming) (tx : ℕ) (after : List Opened)
      (body : Bytes) (ins : List Bytes) (inputs : List Input) (method : Bytes) (status : ℕ)
      (fields : Fields) (chunks : List Chunk) (out : List Bytes) (actions : List Action)
      (r : Router) (http : HttpLibrary) (takes : ℕ → Bool) (silence : Silence)
      (senders : HashMap ℕ ℕ)
      → IsOpen c
      → IsOpen d
      → serde.hello_from_slice (serde.hello_to_vec new_hello) ≡ some new_hello
      → serde.agree_from_slice (serde.agree_to_vec agreed) ≡ some agreed
      → length (before ++ (req, tx) ∷ after) + 1 < 2 ^ 32
      → req.collected ≡ some body
      → All (λ (x : Opened). x.1 ≢ tx) before
      → Interleaved (map (request_frames serde) (numbered 1 (before ++ (req, tx) ∷ after))) ins
      → Woven (λ f. message f) (IsIdle serde) ins inputs
      → let id = 1 + length before in
        let p = begin_all serde before (opened serde d) in
        let served = run_serve serde (Channel.frame (hello_frame serde)) inputs c in
        let h = received serde json req id in
        let h' = returned serde json' h status fields in
        client.parse_method h.method ≡ some method
        → client.execute (upstream_request method upstream_url prefix h body)
          ≡ response status fields chunks
        → Interleaved (map (frames_of serde client upstream_url prefix) served.0.spawned) out
        → Woven (λ f. frame f) (IsBackground serde) out actions
        → r.pending ≡ (begin_request serde req tx p).0.pending
        → events_of tx r ≡ []
        → All (IsForeign id tx) actions
        → Stays takes
        → all_accepted http (without_names hop_by_hop h'.headers) ≡ true
        → let end = run_reader serde actions r in
          let id = 1 + length before in
          let h = received serde json req id in
          let h' = returned serde json' h status fields in
          (start_proxy serde (Channel.frame (agree_frame serde)) d ≡ ok (opened serde d))
          × ((run_serve serde (Channel.frame (hello_frame serde)) inputs c).1 ≡ none)
          × (ps : List Bytes) × (finish_request http takes id (events_of tx end) silence senders ≡ (
            senders,
            streaming
                (status_or_bad_gateway (http.status_from_u16 h'.status))
                (without_names hop_by_hop h'.headers)
                ps,
          ))
          × (concat ps ≡ body_of chunks)
          × All IsPiece ps
          × (get end.pending id ≡ none)
  session_answers c d before req tx after body ins inputs method status fields chunks out actions r
        http takes silence senders o o' hello_parses agree_parses small read others requests arrive
        parses_method answers responses woven shared fresh foreign stays accepted =
      let id = 1 + length before in
      let p = begin_all serde before (opened serde d) in
      let small' : 1 + length before + length after + 1 < 2 ^ 32 =
        omega (arith, length-append before ((req, tx) ∷ after)) in
      let v =
        begin_all-Serving serde before 1 (opened serde d) (opened-Serving serde d o')
          (omega arith) in
      let unused =
        begin_all-IsUnused serde before 1 (opened serde d) tx (opened-Serving serde d o')
          (omega arith) others (opened-IsUnused serde d tx) in
      let (shaken, ready) = handshake_completes serde c d inputs o o' hello_parses agree_parses in
      let numbers : numbered 1 (before ++ (req, tx) ∷ after)
          ≡ numbered 1 before ++ (req, id) ∷ numbered (id + 1) after =
        numbered-append 1 before ((req, tx) ∷ after) ∙ (unfold numbered in refl) in
      let ids_before = numbered-between 1 1 id before (omega arith) (omega arith) in
      let ids_after =
        numbered-between (id + 1) (id + 1) (2 ^ 32) after (omega arith) (omega arith) in
      let ids =
        fit (2 ^ 32) _ (omega arith) (
          numbered-between 1 1 (2 ^ 32) (before ++ (req, tx) ∷ after) (omega arith)
            (omega arith)) in
      let small_ids =
        tasks-IsU32 serde json _ ins inputs true (after_send c (Build.agree serde agreed)) ids
          requests arrive in
      let small_id : IsU32 id = omega arith in
      let low = below id (numbered 1 before) small_id ids_before in
      let high = above id (2 ^ 32) (numbered (id + 1) after) (omega arith) ids_after in
      let mixed = rw numbers at requests in
      let arrived =
        requests_arrive_together serde json (numbered 1 before) (numbered (id + 1) after) req id
          body ins inputs (served serde c) small_id read low high mixed arrive
          (served-IsKeyed serde c) in
      let answered =
        request_answered serde json json' client upstream_url prefix req tx p body
          (numbered 1 before) (numbered (id + 1) after) ins inputs (served serde c) method status
          fields chunks out actions r http takes silence senders v.ready read v.takes
          (rw v.counter small_id) (rw v.counter low) (rw v.counter high) (rw v.counter mixed) arrive
          (served-IsKeyed serde c) (unfold keep_if in refl) small_ids (rw v.counter parses_method)
          (rw v.counter answers) (rw shaken at responses) woven unused shared fresh
          (rw v.counter foreign) stays (rw v.counter accepted) in
      let (ps, answer, whole, pieces, gone) = rw v.counter at answered in
      (ready, rw shaken arrived.0, ps, answer, whole, pieces, gone)
