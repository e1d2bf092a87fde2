-- ===== src/Examples/Refusing.antt =====
-- Two requests that the upstream of tunnel/src/serve.rs refuses, at concrete inputs.
use p2p_llm_tunnel.Prelude.{
  ℕ, ◌≡◌, ◌≢◌, refl, List, [], ◌∷◌, ◌++◌, Option, none, some, true, codes, map, arith, get, nat_eq,
  keep_if,
}
use p2p_llm_tunnel.Protocol.{Bytes, Serde, RequestHeaders, ResponseHeaders}
use p2p_llm_tunnel.Protocol.Build.{res_headers, res_body, res_end}
use p2p_llm_tunnel.Protocol.Frame.{encode, put_u32, as_u8}
use p2p_llm_tunnel.Channel.{attempt, send}
use p2p_llm_tunnel.Http.{without_names}
use p2p_llm_tunnel.Serve.Respond.{handle_request}
use p2p_llm_tunnel.Proxy.Router.{Action, frame, unregister, run_reader}
use p2p_llm_tunnel.Proxy.Delivery.{action_events, events_of, Owns}
use p2p_llm_tunnel.Proxy.Answer.{
  timed_out, all_accepted, hop_by_hop, status_or_bad_gateway, finish_request, streaming,
}
use p2p_llm_tunnel.Tunnel.Woven.{Woven, done, ours, other}
use p2p_llm_tunnel.Tunnel.Shuffle.{both_done, left, right, Interleaved, nobody, joins}
use p2p_llm_tunnel.Tunnel.Together.{frames_of, ResponsesParse, IsBackground}
use p2p_llm_tunnel.Tunnel.Refusals.{refusals_return}
use p2p_llm_tunnel.Examples.{models, test_serde, one_stream, lenient, unreachable}

-- A codec that keeps the stream id and the status of response headers.
abbrev parse_status : Bytes → Option ResponseHeaders
parse_status (id ∷ status ∷ rest) = some (record { stream_id = id; status = status; headers = [] })
parse_status _ = none

abbrev status_serde : Serde
status_serde = record test_serde {
  response_to_vec = λ h. h.stream_id ∷ h.status ∷ [];
  response_from_slice = parse_status;
}

unfoldable status_serde_parses : ResponsesParse status_serde
status_serde_parses h =
    (record { stream_id = h.stream_id; status = h.status; headers = [] }, refl, refl)

abbrev second : RequestHeaders
second = record models { stream_id = 2 }

abbrev refusal_for : ℕ → List Bytes
refusal_for id =
    (20 ∷ 0 ∷ 0 ∷ 0 ∷ id ∷ id ∷ 502 ∷ [])
    ∷ (21 ∷ 0 ∷ 0 ∷ 0 ∷ id ∷ codes "Bad Gateway: refused")
    ∷ (22 ∷ 0 ∷ 0 ∷ 0 ∷ id ∷ [])
    ∷ []

refusals_of :
    (frames_of status_serde unreachable (codes "http://a") (codes "/") (models, []) ≡ refusal_for 1)
    × (frames_of status_serde unreachable (codes "http://a") (codes "/") (second, [])
        ≡ refusal_for 2)
unfolding frames_of handle_request send attempt encode as_u8 put_u32 res_headers res_body res_end
refusals_of = (refl, refl)

abbrev mixed : List Bytes
mixed =
    (20 ∷ 0 ∷ 0 ∷ 0 ∷ 2 ∷ 2 ∷ 502 ∷ [])
    ∷ (20 ∷ 0 ∷ 0 ∷ 0 ∷ 1 ∷ 1 ∷ 502 ∷ [])
    ∷ (21 ∷ 0 ∷ 0 ∷ 0 ∷ 1 ∷ codes "Bad Gateway: refused")
    ∷ (21 ∷ 0 ∷ 0 ∷ 0 ∷ 2 ∷ codes "Bad Gateway: refused")
    ∷ (22 ∷ 0 ∷ 0 ∷ 0 ∷ 1 ∷ [])
    ∷ (22 ∷ 0 ∷ 0 ∷ 0 ∷ 2 ∷ [])
    ∷ []

mixed_refusals :
    Interleaved
      (map
        (frames_of status_serde unreachable (codes "http://a") (codes "/"))
        ([] ++ (models, []) ∷ (second, []) ∷ []))
      mixed
mixed_refusals =
    rw (refusals_of.0, refusals_of.1)
      (joins (joins nobody (left (left (left both_done))))
        (right (left (left (right (left (right both_done)))))))

-- The frames, and a request that leaves.
abbrev actions : List Action
actions = unregister 9 ∷ map (λ f. frame f) mixed

leaving-IsBackground : IsBackground status_serde (unregister 9)
unfolding action_events
leaving-IsBackground id = refl

refusals-Woven : Woven (λ f. frame f) (IsBackground status_serde) mixed actions
refusals-Woven =
    other (unregister 9) leaving-IsBackground (ours (ours (ours (ours (ours (ours done))))))

first-Owns : Owns 1 7 one_stream
unfolding get
first-Owns = record { owned = λ k h. ground arith }

first_waits : (get one_stream.pending 1 ≡ some 7) × (events_of 7 one_stream ≡ [])
unfolding get events_of keep_if
first_waits = (refl, refl)

not_one : ◌≢◌ {A = ℕ} 9 1
not_one e = omega arith

two_not_one : ◌≢◌ {A = ℕ} 2 1
two_not_one e = omega arith

no_fields_refused : all_accepted lenient (without_names hop_by_hop []) ≡ true
unfolding all_accepted without_names keep_if
no_fields_refused = refl

refusals_return_example :
    let after = run_reader status_serde actions one_stream in
    (finish_request lenient (λ n. true) 1 (events_of 7 after) timed_out [] ≡ (
      [],
      streaming
          (status_or_bad_gateway (some 502))
          (without_names hop_by_hop [])
          (codes "Bad Gateway: refused" ∷ []),
    ))
    × (get after.pending 1 ≡ none)
unfolding status_serde_parses
refusals_return_example =
    refusals_return status_serde status_serde_parses unreachable (codes "http://a") (codes "/") []
      ((second, []) ∷ []) models [] (codes "GET") (codes "refused") mixed actions one_stream 7
      lenient (λ n. true) timed_out [] (omega arith) tt ((omega arith, two_not_one), tt) refl refl
      mixed_refusals refusals-Woven first-Owns first_waits.0
      (not_one, (tt, (tt, (tt, (tt, (tt, (tt, tt))))))) first_waits.1 (λ n. refl) no_fields_refused
