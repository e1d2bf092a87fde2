-- ===== src/Examples/Proxying.antt =====
-- tunnel/src/proxy.rs at concrete inputs.
use p2p_llm_tunnel.Prelude.{
  ℕ, ◌≡◌, ◌≢◌, refl, List, [], ◌∷◌, ◌++◌, none, some, Bool, true, false, codes, concat, All,
  HashMap, arith, get, remove, nat_eq, bytes_eq, bytes_eqb, keep_if, contains, if◌then◌else◌, ◌==◌,
  not,
}
use p2p_llm_tunnel.Protocol.{Bytes}
use p2p_llm_tunnel.Protocol.Build.{req_headers, req_end}
use p2p_llm_tunnel.Protocol.Frame.{from_u8, get_u32, encode, decode}
use p2p_llm_tunnel.Channel.{attempt}
use p2p_llm_tunnel.Http.{without_names, to_lowercase}
use p2p_llm_tunnel.Http.Laws.{IsPiece}
use p2p_llm_tunnel.Proxy.Router.{
  headers, body, failed, end, Action, frame, register, unregister, run_reader,
}
use p2p_llm_tunnel.Proxy.Delivery.{
  action_events, events_in, events_of, receive_all, slot, Owns, IsForeign,
}
use p2p_llm_tunnel.Proxy.Streams.{run_reader-slot, run_reader_delivers}
use p2p_llm_tunnel.Proxy.Request.{
  Incoming, Proxy, answered, waiting, begin_request, request_headers, not_sent,
}
use p2p_llm_tunnel.Proxy.Answer.{
  timed_out, closed, all_accepted, hop_by_hop, finish_request, status_or_bad_gateway, streaming,
  full,
}
use p2p_llm_tunnel.Proxy.Upload.{body_frames, begin_request_sends, begin_request-answered}
use p2p_llm_tunnel.Proxy.StreamIds.{IsRising, ids_of, ids_of-IsRising}
use p2p_llm_tunnel.Proxy.Client.{
  bodies, bad_gateway, gateway_timeout, finish_request_streams, finish_request_truncates,
  finish_request_fails,
}
use p2p_llm_tunnel.Examples.{test_serde, found, get_models, ready_proxy, one_stream, lenient}

-- Headers, another request, a piece, a piece of another stream, the end, and a late piece.
abbrev actions : List Action
actions =
    frame (20 ∷ 0 ∷ 0 ∷ 0 ∷ 1 ∷ codes "{}")
    ∷ register 2 8
    ∷ frame (21 ∷ 0 ∷ 0 ∷ 0 ∷ 1 ∷ codes "he")
    ∷ frame (21 ∷ 0 ∷ 0 ∷ 0 ∷ 2 ∷ codes "no")
    ∷ frame (22 ∷ 0 ∷ 0 ∷ 0 ∷ 1 ∷ [])
    ∷ frame (21 ∷ 0 ∷ 0 ∷ 0 ∷ 1 ∷ codes "late")
    ∷ unregister 2
    ∷ []

actions_events :
    events_in test_serde 1 actions
    ≡ (headers found ∷ body (codes "he") ∷ []) ++ end ∷ (body (codes "late") ∷ [])
unfolding events_in action_events decode from_u8 get_u32
actions_events = refl

one_stream-Owns : Owns 1 7 one_stream
unfolding get
one_stream-Owns = record { owned = λ k h. ground arith }

two-ne-one : ◌≢◌ {A = ℕ} 2 1
two-ne-one e = omega arith

eight-ne-seven : ◌≢◌ {A = ℕ} 8 7
eight-ne-seven e = omega arith

actions-IsForeign : All (IsForeign 1 7) actions
actions-IsForeign = (tt, ((two-ne-one, eight-ne-seven), (tt, (tt, (tt, (tt, (two-ne-one, tt)))))))

run_reader_delivers_example :
    (events_of 7 (run_reader test_serde actions one_stream)
      ≡ events_of 7 one_stream ++ ((headers found ∷ body (codes "he") ∷ []) ++ end ∷ []))
    × (get (run_reader test_serde actions one_stream).pending 1 ≡ none)
unfolding get
run_reader_delivers_example =
    run_reader_delivers 1 7 test_serde actions one_stream (headers found ∷ body (codes "he") ∷ [])
      end (body (codes "late") ∷ []) one_stream-Owns refl actions-IsForeign actions_events
      (refl, (refl, tt)) refl

run_reader-slot_example :
    slot 1 7 (run_reader test_serde actions one_stream)
    ≡ receive_all 7 (events_in test_serde 1 actions) (slot 1 7 one_stream)
run_reader-slot_example =
    run_reader-slot 1 7 test_serde actions one_stream one_stream-Owns actions-IsForeign

begin_request_sends_example :
    let q = begin_request test_serde get_models 7 ready_proxy in
    (ps : List Bytes) × (q.1 ≡ waiting 1)
    × (q.0.channel.sent
        ≡ []
          ++ (encode (req_headers test_serde (request_headers get_models 1))
              ∷ (body_frames 1 ps ++ encode (req_end 1) ∷ [])))
    × (concat ps ≡ codes "hi")
    × All IsPiece ps
    × ((k : ℕ) → get q.0.pending k ≡ (if 1 == k then some 7 else get [] k))
begin_request_sends_example =
    begin_request_sends test_serde get_models 7 ready_proxy (codes "hi") refl refl (λ n. refl)

-- A channel on which no call succeeds.
abbrev deaf_proxy : Proxy
deaf_proxy = record ready_proxy { channel = record { sent = []; outcomes = λ n. false; calls = 0 } }

refused_at_once : (begin_request test_serde get_models 7 deaf_proxy).1 ≡ answered not_sent
unfolding begin_request attempt
refused_at_once = refl

begin_request-answered_example :
    get (begin_request test_serde get_models 7 deaf_proxy).0.pending 1 ≡ get (deaf_proxy.pending) 1
unfolding get
begin_request-answered_example =
    begin_request-answered test_serde get_models 7 deaf_proxy refused_at_once refl 1

-- The second call fails.
abbrev flaky : ℕ → Bool
flaky n = not (n == 1)

abbrev pub flaky_proxy : Proxy
flaky_proxy = record ready_proxy { channel = record { sent = []; outcomes = flaky; calls = 0 } }

found_kept : without_names hop_by_hop found.headers ≡ (codes "x-id", codes "7") ∷ []
unfolding without_names to_lowercase keep_if contains bytes_eqb
found_kept = refl

found_accepted : all_accepted lenient (without_names hop_by_hop found.headers) ≡ true
unfolding all_accepted
found_accepted = rw found_kept refl

finish_request_streams_example :
    finish_request lenient
      (λ n. true)
      1
      (headers found ∷ (bodies (codes "a" ∷ codes "b" ∷ []) ++ failed (codes "x") ∷ end ∷ []))
      timed_out
      []
    ≡ ([], streaming 200 (without_names hop_by_hop found.headers) (codes "a" ∷ codes "b" ∷ []))
unfolding status_or_bad_gateway
finish_request_streams_example =
    finish_request_streams lenient (λ n. true) 1 found (codes "a" ∷ codes "b" ∷ [])
      (failed (codes "x")) (end ∷ []) timed_out [] (λ n. refl) refl found_accepted

finish_request_truncates_example :
    finish_request lenient
      (λ n. true)
      1
      (headers found ∷ (body (codes "a") ∷ failed (codes "x") ∷ []))
      timed_out
      []
    ≡ finish_request lenient
        (λ n. true)
        1
        (headers found ∷ (body (codes "a") ∷ end ∷ []))
        timed_out
        []
finish_request_truncates_example =
    finish_request_truncates lenient (λ n. true) 1 found (body (codes "a") ∷ []) (codes "x")
      timed_out []

abbrev others : HashMap ℕ ℕ
others = (1, 7) ∷ []

finish_request_fails_example :
    (finish_request lenient
        (λ n. true)
        1
        (bodies (codes "a" ∷ []) ++ failed (codes "x") ∷ [])
        timed_out
        others
      ≡ (remove others 1, full (bad_gateway (codes "x"))))
    × (finish_request lenient (λ n. true) 1 (bodies (codes "a" ∷ []) ++ end ∷ []) timed_out others
        ≡ (remove others 1, full (bad_gateway (codes "response ended before headers"))))
    × (finish_request lenient (λ n. true) 1 (bodies (codes "a" ∷ [])) closed others
        ≡ (remove others 1, full (bad_gateway (codes "stream channel closed before headers"))))
    × (finish_request lenient (λ n. true) 1 (bodies (codes "a" ∷ [])) timed_out others
        ≡ (remove others 1, full gateway_timeout))
    × ((k : ℕ) → get (remove others 1) k ≡ (if 1 == k then none else get others k))
finish_request_fails_example =
    finish_request_fails lenient (λ n. true) 1 (codes "a" ∷ []) (codes "x") [] timed_out others

-- Two requests on the channel that fails at its second call.
abbrev two_requests : List (Incoming × ℕ)
two_requests = (get_models, 7) ∷ (get_models, 8) ∷ []

two_ids : ids_of test_serde two_requests flaky_proxy ≡ 1 ∷ 2 ∷ []
unfolding ids_of begin_request attempt
two_ids = refl

ids_of-IsRising_example : IsRising 1 (ids_of test_serde two_requests flaky_proxy)
ids_of-IsRising_example = ids_of-IsRising test_serde two_requests flaky_proxy (omega arith)
