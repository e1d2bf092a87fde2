-- ===== src/Examples/Exchanging.antt =====
-- Two requests at the same time, from tunnel/src/proxy.rs to tunnel/src/serve.rs and back.
use p2p_llm_tunnel.Prelude.{
  ℕ, ◌≡◌, ◌≢◌, refl, List, [], ◌∷◌, ◌++◌, none, some, true, ok, codes, concat, map, All, arith, get,
  insert, remove, nat_eq, keep_if,
}
use p2p_llm_tunnel.Protocol.{Bytes, IsU32}
use p2p_llm_tunnel.Protocol.Build.{req_headers, req_body, req_end, res_headers, res_body, res_end}
use p2p_llm_tunnel.Protocol.Frame.{encode, decode, from_u8, get_u32, put_u32, as_u8}
use p2p_llm_tunnel.Protocol.Build
use p2p_llm_tunnel.Channel
use p2p_llm_tunnel.Channel.{Channel, attempt, send}
use p2p_llm_tunnel.Http.{slice, without_names}
use p2p_llm_tunnel.Http.Laws.{IsPiece}
use p2p_llm_tunnel.Serve.Assembly.{part_of, tasks_of}
use p2p_llm_tunnel.Serve.Respond.{handle_request}
use p2p_llm_tunnel.Serve.Stream.{body_of}
use p2p_llm_tunnel.Serve.Run.{Input, message, step, serve_loop, run_serve, start, Pending}
use p2p_llm_tunnel.Serve.Keyed.{IsKeyed}
use p2p_llm_tunnel.Proxy.Router.{run_reader}
use p2p_llm_tunnel.Proxy.Delivery.{events_of}
use p2p_llm_tunnel.Proxy.Request.{begin_request, request_headers}
use p2p_llm_tunnel.Proxy.Answer.{
  timed_out, all_accepted, hop_by_hop, status_or_bad_gateway, finish_request, streaming,
}
use p2p_llm_tunnel.Tunnel.Woven.{Woven, done, ours, other}
use p2p_llm_tunnel.Tunnel.Shuffle.{both_done, left, right, Interleaved, nobody, joins}
use p2p_llm_tunnel.Tunnel.Requests.{request_frames, RequestsParse, IsIdle, requests_arrive_together}
use p2p_llm_tunnel.Tunnel.Together.{frames_of}
use p2p_llm_tunnel.Tunnel.Session.{opened, hello_frame, agree_frame, session_answers}
use p2p_llm_tunnel.Tunnel.Handshake.{agreed, after_send, handshake_completes}
use p2p_llm_tunnel.Proxy.Begun.{begin_all, numbered}
use p2p_llm_tunnel.Proxy.Handshake.{start_proxy}
use p2p_llm_tunnel.Tunnel.Exchange.{request_answered}
use p2p_llm_tunnel.Examples.{
  open_channel, get_models, ready_proxy, one_stream, lenient, idle_server,
}
use p2p_llm_tunnel.Examples.Tasks.{
  asked, id_serde, id_serde_parses, two_chunks, upstream, frames_for, mixed, alone, actions,
  actions-Woven,
}

unfoldable pub id_serde_requests : RequestsParse id_serde
id_serde_requests h = (asked h.stream_id, refl, refl)

abbrev request_for : ℕ → List Bytes
request_for id =
    (10 ∷ 0 ∷ 0 ∷ 0 ∷ id ∷ id ∷ [])
    ∷ (11 ∷ 0 ∷ 0 ∷ 0 ∷ id ∷ codes "hi")
    ∷ (12 ∷ 0 ∷ 0 ∷ 0 ∷ id ∷ [])
    ∷ []

requests_of :
    (request_frames id_serde (get_models, 1) ≡ request_for 1)
    × (request_frames id_serde (get_models, 2) ≡ request_for 2)
unfolding request_frames begin_request attempt slice encode as_u8 put_u32 req_headers req_body
    req_end
requests_of = (refl, refl)

abbrev mixed_in : List Bytes
mixed_in =
    (10 ∷ 0 ∷ 0 ∷ 0 ∷ 2 ∷ 2 ∷ [])
    ∷ (10 ∷ 0 ∷ 0 ∷ 0 ∷ 1 ∷ 1 ∷ [])
    ∷ (11 ∷ 0 ∷ 0 ∷ 0 ∷ 1 ∷ codes "hi")
    ∷ (11 ∷ 0 ∷ 0 ∷ 0 ∷ 2 ∷ codes "hi")
    ∷ (12 ∷ 0 ∷ 0 ∷ 0 ∷ 1 ∷ [])
    ∷ (12 ∷ 0 ∷ 0 ∷ 0 ∷ 2 ∷ [])
    ∷ []

mixed_requests :
    Interleaved
      (map (request_frames id_serde) ([] ++ (get_models, 1) ∷ (get_models, 2) ∷ []))
      mixed_in
mixed_requests =
    rw (requests_of.0, requests_of.1)
      (joins (joins nobody (left (left (left both_done))))
        (right (left (left (right (left (right both_done)))))))

-- The frames, and a message that is too short for one.
abbrev inputs : List Input
inputs = message [] ∷ map (λ f. message f) mixed_in

pub empty-IsIdle : IsIdle id_serde (message [])
unfolding part_of decode
empty-IsIdle = (λ id. refl, λ m d t e. cc)

inputs-Woven : Woven (λ f. message f) (IsIdle id_serde) mixed_in inputs
inputs-Woven = other (message []) empty-IsIdle (ours (ours (ours (ours (ours (ours done))))))

pub idle-IsKeyed : IsKeyed idle_server
unfolding get
idle-IsKeyed = record { keyed = λ k e. cc }

two_ne_one : ◌≢◌ {A = ℕ} 2 1
two_ne_one e = omega arith

requests_arrive_together_example :
    let t = serve_loop id_serde inputs idle_server in
    (t.1 ≡ none)
    × (get t.0.pending_requests 1 ≡ none)
    × (tasks_of 1 t.0 ≡ tasks_of 1 idle_server ++ (asked 1, codes "hi") ∷ [])
unfolding request_headers id_serde_requests
requests_arrive_together_example =
    requests_arrive_together id_serde id_serde_requests [] ((get_models, 2) ∷ []) get_models 1
      (codes "hi") mixed_in inputs idle_server (omega arith) refl tt ((omega arith, two_ne_one), tt)
      mixed_requests inputs-Woven idle-IsKeyed

spawns :
    (serve_loop id_serde inputs idle_server).0.spawned
    ≡ (asked 1, codes "hi") ∷ (asked 2, codes "hi") ∷ []
unfolding serve_loop step decode from_u8 get_u32 get insert remove
spawns = refl

answers_of :
    (frames_of id_serde upstream (codes "http://a") (codes "/") (asked 1, codes "hi")
      ≡ frames_for 1)
    × (frames_of id_serde upstream (codes "http://a") (codes "/") (asked 2, codes "hi")
        ≡ frames_for 2)
unfolding frames_of handle_request send attempt slice encode as_u8 put_u32 res_headers res_body
    res_end
answers_of = (refl, refl)

mixed_answers :
    Interleaved
      (map
        (frames_of id_serde upstream (codes "http://a") (codes "/"))
        (serve_loop id_serde inputs idle_server).0.spawned)
      mixed
mixed_answers =
    rw (spawns, answers_of.0, answers_of.1)
      (joins (joins nobody alone)
        (right (left (left (right (right (right (left (left both_done)))))))))

ids_fit :
    All (λ (t : Pending). IsU32 t.0.stream_id) (serve_loop id_serde inputs idle_server).0.spawned
ids_fit = rw spawns (omega arith, (omega arith, tt))

nothing_handed : tasks_of 1 idle_server ≡ []
unfolding keep_if
nothing_handed = refl

seven_unused : (k : ℕ) → get ready_proxy.pending k ≢ some 7
unfolding get
seven_unused k e = cc

one_stream_registered :
    one_stream.pending ≡ (begin_request id_serde get_models 7 ready_proxy).0.pending
unfolding begin_request insert attempt
one_stream_registered = refl

nothing_yet : events_of 7 one_stream ≡ []
unfolding events_of keep_if
nothing_yet = refl

nine_ne_one : ◌≢◌ {A = ℕ} 9 1
nine_ne_one e = omega arith

nothing_refused : all_accepted lenient (without_names hop_by_hop []) ≡ true
unfolding all_accepted without_names keep_if
nothing_refused = refl

request_answered_example :
    let after = run_reader id_serde actions one_stream in
    (ps : List Bytes) × (finish_request lenient (λ n. true) 1 (events_of 7 after) timed_out []
      ≡ ([], streaming (status_or_bad_gateway (some 200)) (without_names hop_by_hop []) ps))
    × (concat ps ≡ body_of two_chunks)
    × All IsPiece ps
    × (get after.pending 1 ≡ none)
unfolding id_serde_requests id_serde_parses
request_answered_example =
    request_answered id_serde id_serde_requests id_serde_parses upstream (codes "http://a")
      (codes "/") get_models 7 ready_proxy (codes "hi") [] ((get_models, 2) ∷ []) mixed_in inputs
      idle_server (codes "GET") 200 [] two_chunks mixed actions one_stream lenient (λ n. true)
      timed_out [] refl refl (λ n. refl) (omega arith) tt ((omega arith, two_ne_one), tt)
      mixed_requests inputs-Woven idle-IsKeyed nothing_handed ids_fit refl refl mixed_answers
      actions-Woven seven_unused one_stream_registered nothing_yet
      (tt, (nine_ne_one, (tt, (tt, (tt, (tt, (tt, (tt, (tt, (tt, tt)))))))))) (λ n. refl)
      nothing_refused

abbrev agreement : Channel
agreement = after_send open_channel (Build.agree id_serde agreed)

spawns_in_session :
    (serve_loop id_serde inputs (start true agreement)).0.spawned
    ≡ (asked 1, codes "hi") ∷ (asked 2, codes "hi") ∷ []
unfolding serve_loop step decode from_u8 get_u32 get insert remove
spawns_in_session = refl

shaken :
    run_serve id_serde (Channel.frame (hello_frame id_serde)) inputs open_channel
    ≡ serve_loop id_serde inputs (start true agreement)
shaken =
    (handshake_completes id_serde open_channel open_channel inputs (λ n. refl) (λ n. refl) refl
      refl).0

session_answers_mixed :
    Interleaved
      (map
        (frames_of id_serde upstream (codes "http://a") (codes "/"))
        (run_serve id_serde (Channel.frame (hello_frame id_serde)) inputs open_channel).0.spawned)
      mixed
session_answers_mixed =
    rw (shaken, spawns_in_session, answers_of.0, answers_of.1)
      (joins (joins nobody alone)
        (right (left (left (right (right (right (left (left both_done)))))))))

numbered_requests :
    Interleaved
      (map (request_frames id_serde) (numbered 1 ([] ++ (get_models, 7) ∷ (get_models, 8) ∷ [])))
      mixed_in
unfolding numbered
numbered_requests = mixed_requests

first_registered :
    one_stream.pending
    ≡ (begin_request id_serde get_models 7
        (begin_all id_serde [] (opened id_serde open_channel))).0.pending
unfolding begin_all begin_request insert attempt
first_registered = refl

session_answers_example :
    let after = run_reader id_serde actions one_stream in
    (start_proxy id_serde (Channel.frame (agree_frame id_serde)) open_channel
      ≡ ok (opened id_serde open_channel))
    × ((run_serve id_serde (Channel.frame (hello_frame id_serde)) inputs open_channel).1 ≡ none)
    × (ps : List Bytes) × (finish_request lenient (λ n. true) 1 (events_of 7 after) timed_out []
        ≡ ([], streaming (status_or_bad_gateway (some 200)) (without_names hop_by_hop []) ps))
    × (concat ps ≡ body_of two_chunks)
    × All IsPiece ps
    × (get after.pending 1 ≡ none)
unfolding id_serde_requests id_serde_parses
session_answers_example =
    session_answers id_serde id_serde_requests id_serde_parses upstream (codes "http://a")
      (codes "/") open_channel open_channel [] get_models 7 ((get_models, 8) ∷ []) (codes "hi")
      mixed_in inputs (codes "GET") 200 [] two_chunks mixed actions one_stream lenient (λ n. true)
      timed_out [] (λ n. refl) (λ n. refl) refl refl (omega arith) refl tt numbered_requests
      inputs-Woven refl refl session_answers_mixed actions-Woven first_registered nothing_yet
      (tt, (nine_ne_one, (tt, (tt, (tt, (tt, (tt, (tt, (tt, (tt, tt)))))))))) (λ n. refl)
      nothing_refused
