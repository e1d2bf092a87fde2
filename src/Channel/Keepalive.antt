-- ===== src/Channel/Keepalive.antt =====
-- The keepalive tasks of tunnel/src/serve.rs and tunnel/src/proxy.rs, which are the same.
use p2p_llm_tunnel.Prelude.{ℕ, zero, suc, Bool, true, Result, ok}
use p2p_llm_tunnel.Protocol.Build.{ping}
use p2p_llm_tunnel.Protocol.Frame.{encode}
use p2p_llm_tunnel.Channel.{Channel, Error, attempt}

abbrev pub unless_lost : (Channel → Channel) → Result Error Bool × Channel → Channel
unless_lost rest (ok true, c) = rest c
unless_lost rest (_, c) = c

-- So many ticks of the interval: each sends a ping, and one that is not taken ends the task.
unfoldable pub keepalive : ℕ → Channel → Channel
keepalive zero c = c
keepalive (suc ticks) c = unless_lost (keepalive ticks) (attempt (encode ping) c)
