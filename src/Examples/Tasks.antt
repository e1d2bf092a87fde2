-- ===== src/Examples/Tasks.antt =====
-- Two tasks of tunnel/src/serve.rs that answer at the same time.
use p2p_llm_tunnel.Prelude.{
  ℕ, ◌≡◌, ◌≢◌, refl, List, [], ◌∷◌, ◌++◌, Option, none, some, true, err, codes, concat, map, All,
  arith, get, nat_eq, keep_if,
}
use p2p_llm_tunnel.Protocol.{Bytes, Serde, RequestHeaders, ResponseHeaders}
use p2p_llm_tunnel.Protocol.Build.{res_headers, res_body, res_end, ping}
use p2p_llm_tunnel.Protocol.Frame.{encode, decode, from_u8, get_u32, put_u32, as_u8}
use p2p_llm_tunnel.Channel.{attempt, send, stuck}
use p2p_llm_tunnel.Http.{slice, without_names}
use p2p_llm_tunnel.Http.Laws.{IsPiece}
use p2p_llm_tunnel.Serve.Respond.{Chunk, bytes, Client, response, handle_request}
use p2p_llm_tunnel.Serve.Stream.{body_of}
use p2p_llm_tunnel.Proxy.Router.{Action, frame, unregister, run_reader}
use p2p_llm_tunnel.Proxy.Delivery.{action_events, events_of, Owns}
use p2p_llm_tunnel.Proxy.Request.{send_rest}
use p2p_llm_tunnel.Proxy.Answer.{
  timed_out, all_accepted, hop_by_hop, status_or_bad_gateway, finish_request, streaming,
}
use p2p_llm_tunnel.Protocol.Build.{new_hello}
use p2p_llm_tunnel.Tunnel.Handshake.{agreed}
use p2p_llm_tunnel.Tunnel.Woven.{Woven, done, ours, other}
use p2p_llm_tunnel.Tunnel.Shuffle.{Shuffle, both_done, left, right, Interleaved, nobody, joins}
use p2p_llm_tunnel.Tunnel.Together.{
  frames_of, ResponsesParse, IsBackground, responses_return_together,
}
use p2p_llm_tunnel.Tunnel.Termination.{loops_end}
use p2p_llm_tunnel.Examples.{models, test_serde, one_stream, lenient, open_channel, unreachable}

-- A codec that keeps the stream id of response headers.
abbrev parse_id : Bytes → Option ResponseHeaders
parse_id [] = none
parse_id (id ∷ rest) = some (record { stream_id = id; status = 200; headers = [] })

-- The headers of a request with the id, which are all that arrives.
abbrev pub asked : ℕ → RequestHeaders
asked id = record { stream_id = id; method = codes "GET"; path = codes "/m"; headers = [] }

abbrev parse_request : Bytes → Option RequestHeaders
parse_request [] = none
parse_request (id ∷ rest) = some (asked id)

abbrev pub id_serde : Serde
id_serde = record test_serde {
  hello_from_slice = λ b. some new_hello;
  agree_from_slice = λ b. some agreed;
  request_to_vec = λ h. h.stream_id ∷ [];
  request_from_slice = parse_request;
  response_to_vec = λ h. h.stream_id ∷ [];
  response_from_slice = parse_id;
}

unfoldable pub id_serde_parses : ResponsesParse id_serde
id_serde_parses h = (record { stream_id = h.stream_id; status = 200; headers = [] }, refl, refl)

abbrev pub two_chunks : List Chunk
two_chunks = bytes (codes "a") ∷ bytes (codes "bc") ∷ []

abbrev pub upstream : Client
upstream = record { parse_method = λ m. some m; execute = λ r. response 200 [] two_chunks }

abbrev second : RequestHeaders
second = record models { stream_id = 2 }

abbrev pub frames_for : ℕ → List Bytes
frames_for id =
    (20 ∷ 0 ∷ 0 ∷ 0 ∷ id ∷ id ∷ [])
    ∷ (21 ∷ 0 ∷ 0 ∷ 0 ∷ id ∷ codes "a")
    ∷ (21 ∷ 0 ∷ 0 ∷ 0 ∷ id ∷ codes "bc")
    ∷ (22 ∷ 0 ∷ 0 ∷ 0 ∷ id ∷ [])
    ∷ []

sends_of :
    (frames_of id_serde upstream (codes "http://a") (codes "/") (models, []) ≡ frames_for 1)
    × (frames_of id_serde upstream (codes "http://a") (codes "/") (second, []) ≡ frames_for 2)
unfolding frames_of handle_request send attempt slice encode as_u8 put_u32 res_headers res_body
    res_end
sends_of = (refl, refl)

abbrev pub mixed : List Bytes
mixed =
    (20 ∷ 0 ∷ 0 ∷ 0 ∷ 2 ∷ 2 ∷ [])
    ∷ (20 ∷ 0 ∷ 0 ∷ 0 ∷ 1 ∷ 1 ∷ [])
    ∷ (21 ∷ 0 ∷ 0 ∷ 0 ∷ 1 ∷ codes "a")
    ∷ (21 ∷ 0 ∷ 0 ∷ 0 ∷ 2 ∷ codes "a")
    ∷ (21 ∷ 0 ∷ 0 ∷ 0 ∷ 2 ∷ codes "bc")
    ∷ (22 ∷ 0 ∷ 0 ∷ 0 ∷ 2 ∷ [])
    ∷ (21 ∷ 0 ∷ 0 ∷ 0 ∷ 1 ∷ codes "bc")
    ∷ (22 ∷ 0 ∷ 0 ∷ 0 ∷ 1 ∷ [])
    ∷ []

pub alone : Shuffle (frames_for 2) [] (frames_for 2)
alone = left (left (left (left both_done)))

mixed_tasks :
    Interleaved
      (map
        (frames_of id_serde upstream (codes "http://a") (codes "/"))
        ([] ++ (models, []) ∷ (second, []) ∷ []))
      mixed
mixed_tasks =
    rw (sends_of.0, sends_of.1)
      (joins (joins nobody alone)
        (right (left (left (right (right (right (left (left both_done)))))))))

-- The frames, a ping of the server's keepalive task, and a request that leaves.
abbrev pub actions : List Action
actions = frame (encode ping) ∷ unregister 9 ∷ map (λ f. frame f) mixed

ping-IsBackground : IsBackground id_serde (frame (encode ping))
unfolding action_events decode from_u8 get_u32 encode as_u8 put_u32 ping
ping-IsBackground id = refl

unregister-IsBackground : IsBackground id_serde (unregister 9)
unfolding action_events
unregister-IsBackground id = refl

pub actions-Woven : Woven (λ f. frame f) (IsBackground id_serde) mixed actions
actions-Woven = other (frame (encode ping)) ping-IsBackground (
    other (unregister 9) unregister-IsBackground
      (ours (ours (ours (ours (ours (ours (ours (ours done)))))))))

one_stream-Owns : Owns 1 7 one_stream
unfolding get
one_stream-Owns = record { owned = λ k h. ground arith }

one_stream_ready : (get one_stream.pending 1 ≡ some 7) × (events_of 7 one_stream ≡ [])
unfolding get events_of keep_if
one_stream_ready = (refl, refl)

nine-ne-one : ◌≢◌ {A = ℕ} 9 1
nine-ne-one e = omega arith

two-ne-one : ◌≢◌ {A = ℕ} 2 1
two-ne-one e = omega arith

nothing_refused : all_accepted lenient (without_names hop_by_hop []) ≡ true
unfolding all_accepted without_names keep_if
nothing_refused = refl

responses_return_together_example :
    let after = run_reader id_serde actions one_stream in
    (ps : List Bytes) × (finish_request lenient (λ n. true) 1 (events_of 7 after) timed_out []
      ≡ ([], streaming (status_or_bad_gateway (some 200)) (without_names hop_by_hop []) ps))
    × (concat ps ≡ body_of two_chunks)
    × All IsPiece ps
    × (get after.pending 1 ≡ none)
unfolding id_serde_parses
responses_return_together_example =
    responses_return_together id_serde id_serde_parses upstream (codes "http://a") (codes "/") []
      ((second, []) ∷ []) models [] (codes "GET") 200 [] two_chunks mixed actions one_stream 7
      lenient (λ n. true) timed_out [] (omega arith) tt ((omega arith, two-ne-one), tt) refl refl
      mixed_tasks actions-Woven one_stream-Owns one_stream_ready.0
      (tt, (nine-ne-one, (tt, (tt, (tt, (tt, (tt, (tt, (tt, (tt, tt)))))))))) one_stream_ready.1
      (λ n. refl) nothing_refused

loops_end_example :
    ((handle_request test_serde unreachable (codes "http://a") (codes "/") models [] open_channel).0
      ≢ err stuck)
    × ((send_rest 1 (codes "hi") open_channel).0 ≢ err stuck)
loops_end_example =
    loops_end test_serde unreachable (codes "http://a") (codes "/") models [] 1 (codes "hi")
      open_channel
