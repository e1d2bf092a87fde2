-- ===== src/Proxy/Answer.antt =====
-- tunnel/src/proxy.rs: the second half of `handle_proxy_request`: the wait for the headers, the
-- response, the task that forwards the body, and `StreamingBody`.
use p2p_llm_tunnel.Prelude.{
  ℕ, suc, List, [], ◌∷◌, ◌++◌, Bool, true, ◌&&◌, Option, none, some, Result, ok, err, HashMap,
  remove, nat_eq, codes, if◌then◌else◌,
}
use p2p_llm_tunnel.Protocol.{Bytes, ResponseHeaders}
use p2p_llm_tunnel.Http.{without_names}
use p2p_llm_tunnel.Proxy.Router.{StreamEvent, headers, body, failed, end}
use p2p_llm_tunnel.Proxy.Request.{Full}

-- How the wait for an event ends where none is left: a minute is over, or all senders are gone.
pub data Silence : Type 0 where
  timed_out closed : Silence

-- Why there are no headers.
pub data Failure : Type 0 where
  tunnel_error : Bytes → Failure
  response_timeout : Failure

-- `while let Some(event) = event_rx.recv().await`, under a timeout. The result has the headers and the
-- events that are left in the channel.
unfoldable pub await_headers :
    List StreamEvent → Silence → Result Failure (ResponseHeaders × List StreamEvent)
await_headers [] timed_out = err response_timeout
await_headers [] closed = err (tunnel_error (codes "stream channel closed before headers"))
await_headers (headers h ∷ rest) silence = ok (h, rest)
await_headers (failed e ∷ rest) silence = err (tunnel_error e)
await_headers (end ∷ rest) silence = err (tunnel_error (codes "response ended before headers"))
await_headers (body chunk ∷ rest) silence = await_headers rest silence

-- The task that forwards the body: the chunks that the channel of the body takes before the task
-- ends. `takes n` says whether the n-th is taken; one is refused once the HTTP client has gone.
unfoldable pub forward_body : (ℕ → Bool) → ℕ → List StreamEvent → List Bytes
forward_body takes n [] = []
forward_body takes n (body chunk ∷ rest) =
    let more = forward_body takes (suc n) rest in if takes n then chunk ∷ more else []
forward_body takes n (end ∷ rest) = []
forward_body takes n (failed e ∷ rest) = []
forward_body takes n (headers h ∷ rest) = forward_body takes n rest

-- One `poll_frame` of `StreamingBody`, given what `poll_recv` returns.
pub data Poll {ℓ} (A : Type ℓ) : Type ℓ where
  pending : Poll A
  ready : Option A → Poll A

unfoldable pub poll_frame : Poll Bytes → Poll (Result ⊥ Bytes)
poll_frame (ready (some chunk)) = ready (some (ok chunk))
poll_frame (ready none) = ready none
poll_frame pending = pending

-- `StatusCode::from_u16`, and the names and values that the response builder of the crate http
-- accepts.
pub record HttpLibrary : Type 0 where
  pub status_from_u16 : ℕ → Option ℕ
  pub is_header : Bytes → Bytes → Bool

-- The response to the HTTP client. `panicked` is `unwrap` on a builder that holds an error.
pub data Response : Type 0 where
  full : Full → Response
  streaming : ℕ → List (Bytes × Bytes) → List Bytes → Response
  panicked : Response

unfoldable pub all_accepted : HttpLibrary → List (Bytes × Bytes) → Bool
all_accepted http [] = true
all_accepted http ((k, v) ∷ rest) = http.is_header k v && all_accepted http rest

abbrev pub hop_by_hop : List Bytes
hop_by_hop = codes "transfer-encoding" ∷ codes "connection" ∷ []

unfoldable pub status_or_bad_gateway : Option ℕ → ℕ
status_or_bad_gateway none = 502
status_or_bad_gateway (some s) = s

unfoldable pub build_response :
    HttpLibrary → (ℕ → Bool) → ResponseHeaders → List StreamEvent → Response
unfolding status_or_bad_gateway all_accepted forward_body
build_response http takes h rest =
    let kept = without_names hop_by_hop h.headers in
    if all_accepted http kept
    then streaming (status_or_bad_gateway (http.status_from_u16 h.status)) kept
        (forward_body takes 0 rest)
    else panicked

-- The map of pending responses after the wait, and the response.
unfoldable pub conclude :
    HttpLibrary
    → (ℕ → Bool)
    → ℕ
    → Result Failure (ResponseHeaders × List StreamEvent)
    → HashMap ℕ ℕ
    → HashMap ℕ ℕ × Response
unfolding build_response
conclude http takes id (ok (h, rest)) senders = (senders, build_response http takes h rest)
conclude http takes id (err (tunnel_error e)) senders = (
  remove senders id,
  full (record {
    status = 502;
    content_type = some (codes "text/plain");
    text = codes "Tunnel error: " ++ e;
  }),
)
conclude http takes id (err response_timeout) senders = (
  remove senders id,
  full (record { status = 504; content_type = none; text = codes "Tunnel response timeout" }),
)

-- The half of the handler behind the sending, for the events that arrive on its channel.
unfoldable pub finish_request :
    HttpLibrary → (ℕ → Bool) → ℕ → List StreamEvent → Silence → HashMap ℕ ℕ → HashMap ℕ ℕ × Response
unfolding await_headers conclude
finish_request http takes id events silence senders =
    conclude http takes id (await_headers events silence) senders
