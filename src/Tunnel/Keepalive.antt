-- ===== src/Tunnel/Keepalive.antt =====
-- The pings of tunnel/src/serve.rs and tunnel/src/proxy.rs travel on the channel of the requests.
use p2p_llm_tunnel.Prelude.{
  ℕ, zero, suc, ◌≡◌, refl, sym, ◌∙◌, List, [], ◌∷◌, ◌++◌, append-nil, append_assoc, none, ok, All,
  arith,
}
use p2p_llm_tunnel.Protocol.{Bytes, Serde}
use p2p_llm_tunnel.Protocol.Build.{ping, pong}
use p2p_llm_tunnel.Protocol.Frame.{encode, decode}
use p2p_llm_tunnel.Protocol.RoundTrip.{decode-encode}
use p2p_llm_tunnel.Channel.{Channel, attempt, IsOpen}
use p2p_llm_tunnel.Channel.Keepalive.{keepalive}
use p2p_llm_tunnel.Serve.Run.{Server, message, step}
use p2p_llm_tunnel.Serve.Assembly.{part_of}
use p2p_llm_tunnel.Serve.Requests.{IsHarmless}
use p2p_llm_tunnel.Proxy.Router.{Router, frame, act}
use p2p_llm_tunnel.Proxy.Delivery.{action_events}

abbrev pub pings : ℕ → List Bytes
pings zero = []
pings (suc n) = encode ping ∷ pings n

-- A frame that is a ping or a pong plays no part in any request or response, and ends no loop.
abbrev pub IsKeepalive : Serde → Bytes → Type 0
IsKeepalive serde f =
    ((id : ℕ) → part_of serde id (message f) ≡ [])
    × ((id : ℕ) → action_events serde id (frame f) ≡ [])
    × IsHarmless serde (message f)

-- The channel after a pong.
abbrev pub sends : Channel → Channel
sends c = record c { sent = c.sent ++ encode pong ∷ []; calls = suc c.calls }

decode-ping : decode (encode ping) ≡ ok ping
decode-ping = decode-encode ping (unfold ping in omega arith)

decode-pong : decode (encode pong) ≡ ok pong
decode-pong = decode-encode pong (unfold pong in omega arith)

ping-IsKeepalive : (serde : Serde) → IsKeepalive serde (encode ping)
unfolding part_of action_events ping
ping-IsKeepalive serde =
    (λ id. rw decode-ping refl, λ id. rw decode-ping refl, λ m e t bad. cc (decode-ping))

pong-IsKeepalive : (serde : Serde) → IsKeepalive serde (encode pong)
unfolding part_of action_events pong
pong-IsKeepalive serde =
    (λ id. rw decode-pong refl, λ id. rw decode-pong refl, λ m e t bad. cc (decode-pong))

pings-IsKeepalive : (serde : Serde) (n : ℕ) → All (IsKeepalive serde) (pings n)
pings-IsKeepalive serde zero = tt
pings-IsKeepalive serde (suc n) = (ping-IsKeepalive serde, pings-IsKeepalive serde n)

keepalive-pings :
    (ticks : ℕ) (c : Channel) → IsOpen c → (keepalive ticks c).sent ≡ c.sent ++ pings ticks
unfolding keepalive attempt
keepalive-pings zero c o = sym (append-nil c.sent)
keepalive-pings (suc ticks) c o =
    let next : Channel = record c { sent = c.sent ++ encode ping ∷ []; calls = suc c.calls } in
    rw (o c.calls)
      (keepalive-pings ticks next o ∙ append_assoc c.sent (encode ping ∷ []) (pings ticks))

-- While the channel takes frames, the keepalive task sends one ping for each tick. A ping has no part
-- in any request or response and ends no loop. The side that gets it answers with one pong and keeps
-- the rest of its state. The pong has no part in anything either, and the side that gets it sends
-- nothing and keeps all of its state, so that a ping comes to rest.
pub keepalive_background :
    (serde : Serde) (ticks : ℕ) (c : Channel) (s : Server) (r : Router)
    → IsOpen c
    → IsOpen s.channel
    → IsOpen r.channel
    → ((keepalive ticks c).sent ≡ c.sent ++ pings ticks)
      × All (IsKeepalive serde) (pings ticks)
      × IsKeepalive serde (encode pong)
      × (step serde (message (encode ping)) s ≡ (record s { channel = sends s.channel }, none))
      × (act serde (frame (encode ping)) r ≡ record r { channel = sends r.channel })
      × (step serde (message (encode pong)) s ≡ (s, none))
      × (act serde (frame (encode pong)) r ≡ r)
unfolding step act attempt ping pong
keepalive_background serde ticks c s r o o' o'' = (
  keepalive-pings ticks c o,
  pings-IsKeepalive serde ticks,
  pong-IsKeepalive serde,
  rw (decode-ping, o' s.channel.calls),
  rw (decode-ping, o'' r.channel.calls),
  rw decode-pong,
  rw decode-pong,
)
