-- ===== src/Channel/Total.antt =====
-- Computations on the channel whose loops all come to their end: whatever the calls of `send` return,
-- the result is not the one that marks a loop without fuel.
use p2p_llm_tunnel.Prelude.{◌≢◌, Bool, true, false, Result, ok, err}
use p2p_llm_tunnel.Protocol.{Bytes}
use p2p_llm_tunnel.Channel.{
  Error, stuck, Channel, Send, and_then, ◌>>=◌, pure, fail, attempt, require, called, send,
}

pub record IsTotal {A : Type 0} (m : Send A) : Type 0 where
  pub ends : (c : Channel) → (m c).0 ≢ err stuck

pub IsTotal-pure : {A : Type 0} (a : A) → IsTotal (pure a)
IsTotal-pure a = record { ends = λ c e. cc }

pub IsTotal-fail : {A : Type 0} {x : Error} → x ≢ stuck → IsTotal (fail {A = A} x)
IsTotal-fail h = record { ends = λ c e. h (cc) }

pub IsTotal-attempt : (f : Bytes) → IsTotal (attempt f)
unfolding attempt
IsTotal-attempt f = record { ends = λ c e. cc }

required : (f : Bytes) (c : Channel) (b : Bool) → (require b (called f c b)).0 ≢ err stuck
required f c true e = cc
required f c false e = cc

pub IsTotal-send : (f : Bytes) → IsTotal (send f)
unfolding send
IsTotal-send f = record { ends = λ c. required f c (c.outcomes c.calls) }

bound :
    {A B : Type 0} (f : A → Send B) (c : Channel) (r : Result Error A)
    → r ≢ err stuck
    → ((a : A) → IsTotal (f a))
    → (and_then f c r).0 ≢ err stuck
bound f c (ok a) h k = (k a).ends c
bound f c (err x) h k = λ e. h (cc)

pub IsTotal-bind :
    {A B : Type 0} {m : Send A} {f : A → Send B}
    → IsTotal m
    → ((a : A) → IsTotal (f a))
    → IsTotal (m >>= f)
IsTotal-bind {m} {f} h k = record { ends = λ c. bound f (m c).1 (m c).0 (h.ends c) k }
