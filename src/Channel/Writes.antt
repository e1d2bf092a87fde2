-- ===== src/Channel/Writes.antt =====
-- What a computation returns and sends on a channel where no call of `send` fails.
use p2p_llm_tunnel.Prelude.{
  ◌≡◌, refl, sym, ap, ◌∙◌, true, List, [], ◌∷◌, ◌++◌, append-nil, append_assoc, Result, ok,
}
use p2p_llm_tunnel.Protocol.{Bytes}
use p2p_llm_tunnel.Channel.{Error, Channel, Send, and_then, ◌>>=◌, pure, attempt, IsOpen}
use p2p_llm_tunnel.Channel.Emits.{Emits, Sent, all, part}

pub record Written {A : Type 0} (c : Channel) (a : A) (fs : List Bytes)
    (r : Result Error A × Channel) : Type 0 where
  pub result : r.0 ≡ ok a
  pub record_of_sent : r.1.sent ≡ c.sent ++ fs
  pub same_outcomes : r.1.outcomes ≡ c.outcomes

pub record Writes {A : Type 0} (m : Send A) (a : A) (fs : List Bytes) : Type 0 where
  pub on_open : (c : Channel) → IsOpen c → Written c a fs (m c)

pub Writes-pure : {A : Type 0} (a : A) → Writes (pure a) a []
Writes-pure a = record {
  on_open = λ c o. record {
    result = refl;
    record_of_sent = sym (append-nil c.sent);
    same_outcomes = refl;
  };
}

pub Writes-attempt : (f : Bytes) → Writes (attempt f) true (f ∷ [])
unfolding attempt
Writes-attempt f = record {
  on_open =
      λ c o. rw (o c.calls) (record { result = refl; record_of_sent = refl; same_outcomes = refl });
}

Written-bind :
    {A B : Type 0} (f : A → Send B) (c d : Channel) {r : Result Error A} {a : A} {b : B}
    (fs : List Bytes) {gs : List Bytes}
    → r ≡ ok a
    → d.sent ≡ c.sent ++ fs
    → d.outcomes ≡ c.outcomes
    → IsOpen c
    → Writes (f a) b gs
    → Written c b (fs ++ gs) (and_then f d r)
Written-bind f c d fs {gs} e s k o w =
    let rest = w.on_open d (λ n. rw k (o n)) in
    rw e (record {
      result = rest.result;
      record_of_sent = rest.record_of_sent ∙ ap (λ t. t ++ gs) s ∙ append_assoc c.sent fs gs;
      same_outcomes = rest.same_outcomes ∙ k;
    })

pub Writes-bind :
    {A B : Type 0} {m : Send A} (f : A → Send B) {a : A} {b : B} {fs gs : List Bytes}
    → Writes m a fs
    → Writes (f a) b gs
    → Writes (m >>= f) b (fs ++ gs)
Writes-bind {m} f {fs} h k = record {
  on_open = λ c o.
      let w = h.on_open c o in
      Written-bind f c (m c).1 fs w.result w.record_of_sent w.same_outcomes o k;
}

sent_all :
    {A : Type 0} {fs : List Bytes} {c d : Channel} {r : Result Error A} {a : A}
    → Sent fs c d r
    → r ≡ ok a
    → d.sent ≡ c.sent ++ fs
sent_all (all a e) h = e
sent_all (part e gs q p) h = cc

-- What emits `fs` sends all of `fs` on an open channel.
pub Emits-open :
    {A : Type 0} {m : Send A} {fs : List Bytes} (c : Channel)
    → Emits m fs
    → IsOpen c
    → (m c).1.sent ≡ c.sent ++ fs
Emits-open c h o = sent_all (h.sends c) (h.succeeds c o).1
