-- ===== src/Serve/Keyed.antt =====
-- The loop of tunnel/src/serve.rs keeps each request under the stream id of its headers.
use p2p_llm_tunnel.Prelude.{
  ℕ, ◌≡◌, refl, [], ◌++◌, Option, none, some, Result, ok, err, get, get-insert, get-remove, nat_eq,
  arith,
}
use p2p_llm_tunnel.Protocol.{
  Bytes, Serde, MessageType, ping, req_headers, req_body, req_end, RequestHeaders, TunnelMessage,
}
use p2p_llm_tunnel.Protocol.Frame.{DecodeError, decode}
use p2p_llm_tunnel.Serve.Run.{
  Pending, Server, Input, disconnected, closed, message, on_req_headers, on_req_body, on_req_end,
  dispatch, on_decoded, step,
}

-- Every request stands under the stream id of its headers.
pub record IsKeyed (s : Server) : Type 0 where
  pub keyed : (k : ℕ) {r : Pending} → get s.pending_requests k ≡ some r → r.0.stream_id ≡ k

-- Every round keeps the requests under their own ids.
on_req_headers-IsKeyed :
    (o : Option RequestHeaders) {s : Server} → IsKeyed s → IsKeyed (on_req_headers o s).0
unfolding on_req_headers
on_req_headers-IsKeyed none v = v
on_req_headers-IsKeyed (some h) {s} v = record {
  keyed = λ k {r} e.
      ground (arith, get-insert s.pending_requests h.stream_id (h, []) k, v.keyed k {r = r});
}

on_req_body-IsKeyed :
    (k : ℕ) (o : Option Pending) (b : Bytes) {s : Server}
    → get s.pending_requests k ≡ o
    → IsKeyed s
    → IsKeyed (on_req_body o k b s).0
unfolding on_req_body
on_req_body-IsKeyed k none b e v = v
on_req_body-IsKeyed k (some (h, body)) b {s} e v = record {
  keyed = λ j {r} x. ground (
    arith,
    get-insert s.pending_requests k (h, body ++ b) j,
    v.keyed j {r = r},
    v.keyed k {r = (h, body)},
  );
}

on_req_end-IsKeyed :
    (k : ℕ) (o : Option Pending) {s : Server}
    → get s.pending_requests k ≡ o
    → IsKeyed s
    → IsKeyed (on_req_end o k s).0
unfolding on_req_end
on_req_end-IsKeyed k none e v = v
on_req_end-IsKeyed k (some r) {s} e v = record {
  keyed = λ j {r = q} x. ground (arith, get-remove s.pending_requests k j, v.keyed j {r = q});
}

dispatch-IsKeyed :
    (serde : Serde) (t : MessageType) (m : TunnelMessage) {s : Server}
    → IsKeyed s
    → IsKeyed (dispatch serde t m s).0
unfolding dispatch
dispatch-IsKeyed serde req_headers m v =
    on_req_headers-IsKeyed (serde.request_from_slice m.payload) v
dispatch-IsKeyed serde req_body m v = on_req_body-IsKeyed m.stream_id _ m.payload refl v
dispatch-IsKeyed serde req_end m v = on_req_end-IsKeyed m.stream_id _ refl v
dispatch-IsKeyed serde ping m v = record { keyed = v.keyed }
dispatch-IsKeyed serde _ m v = v

decoded-IsKeyed :
    (serde : Serde) (d : Result DecodeError TunnelMessage) {s : Server}
    → IsKeyed s
    → IsKeyed (on_decoded serde d s).0
unfolding on_decoded
decoded-IsKeyed serde (err e) v = v
decoded-IsKeyed serde (ok m) v = dispatch-IsKeyed serde m.msg_type m v

pub step-IsKeyed : (serde : Serde) (i : Input) {s : Server} → IsKeyed s → IsKeyed (step serde i s).0
unfolding step
step-IsKeyed serde disconnected v = record { keyed = v.keyed }
step-IsKeyed serde closed v = record { keyed = v.keyed }
step-IsKeyed serde (message bytes) v = decoded-IsKeyed serde (decode bytes) v
