-- ===== src/Proxy/Listen.antt =====
-- tunnel/src/proxy.rs: the rest of `run_proxy`, behind the handshake: the listener and its loop.
use p2p_llm_tunnel.Prelude.{
  ℕ, List, [], ◌∷◌, ◌++◌, Bool, Option, none, some, Result, ok, err, if◌then◌else◌,
}
use p2p_llm_tunnel.Protocol.{Serde}
use p2p_llm_tunnel.Channel.{Channel, Error, connection_failed, listen_failed, Received}
use p2p_llm_tunnel.Proxy.Request.{Proxy}
use p2p_llm_tunnel.Proxy.Handshake.{start_proxy}

-- The arms of `select!`. A connection is a number.
pub data ListenEvent : Type 0 where
  disconnected : ListenEvent
  accept_failed : ListenEvent
  accepted : ℕ → ListenEvent

-- The connections for which a task was spawned, and the error with which the loop has returned.
abbrev pub Listening : Type 0
Listening = List ℕ × Option Error

unfoldable pub listen_loop : List ListenEvent → List ℕ → Listening
listen_loop [] connections = (connections, none)
listen_loop (disconnected ∷ rest) connections = (connections, some connection_failed)
listen_loop (accept_failed ∷ rest) connections = (connections, some listen_failed)
listen_loop (accepted stream ∷ rest) connections = listen_loop rest (connections ++ stream ∷ [])

-- `parse` and `bind`, by whether they succeed, and then the loop.
unfoldable pub listen : Bool → List ListenEvent → Result Error Proxy → Listening
unfolding listen_loop
listen bound events (ok p) = if bound then listen_loop events [] else ([], some listen_failed)
listen bound events (err e) = ([], some e)

unfoldable pub run_proxy : Serde → Received → Bool → List ListenEvent → Channel → Listening
unfolding start_proxy listen
run_proxy serde received bound events c = listen bound events (start_proxy serde received c)
