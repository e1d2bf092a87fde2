-- ===== src/Channel/Emits.antt =====
-- What a computation puts on the channel. A computation that emits `fs` sends a prefix of `fs`, all
-- of it if it succeeds, and it succeeds if no call of `send` fails.
use p2p_llm_tunnel.Prelude.{
  ◌≡◌, refl, sym, ap, ◌∙◌, Bool, true, false, List, [], ◌∷◌, ◌++◌, append-nil, append_assoc, Result,
  ok, err, IsPrefixOf,
}
use p2p_llm_tunnel.Protocol.{Bytes}
use p2p_llm_tunnel.Channel.{
  Error, Channel, Send, and_then, called, require, ◌>>=◌, pure, send, send_failed, IsOpen,
}

-- The new part of the record of frames sent.
pub data Sent {A : Type 0} (fs : List Bytes) (c d : Channel) : Result Error A → Type 0 where
  all : (a : A) → d.sent ≡ c.sent ++ fs → Sent fs c d (ok a)
  part :
      (e : Error) (gs : List Bytes) → d.sent ≡ c.sent ++ gs → IsPrefixOf gs fs → Sent fs c d (err e)

pub record Emits {A : Type 0} (m : Send A) (fs : List Bytes) : Type 0 where
  pub keeps : (c : Channel) → (m c).1.outcomes ≡ c.outcomes
  pub sends : (c : Channel) → Sent fs c (m c).1 (m c).0
  pub succeeds : (c : Channel) → IsOpen c → (a : A) × ((m c).0 ≡ ok a)

IsPrefixOf-refl {ℓ} : {A : Type ℓ} (xs : List A) → IsPrefixOf xs xs
IsPrefixOf-refl [] = IsPrefixOf.nil
IsPrefixOf-refl (x ∷ xs) = IsPrefixOf.cons (IsPrefixOf-refl xs)

IsPrefixOf-right {ℓ} :
    {A : Type ℓ} {xs ys : List A} (zs : List A) → IsPrefixOf xs ys → IsPrefixOf xs (ys ++ zs)
IsPrefixOf-right zs IsPrefixOf.nil = IsPrefixOf.nil
IsPrefixOf-right zs (IsPrefixOf.cons p) = IsPrefixOf.cons (IsPrefixOf-right zs p)

IsPrefixOf-left {ℓ} :
    {A : Type ℓ} (xs : List A) {ys zs : List A}
    → IsPrefixOf ys zs
    → IsPrefixOf (xs ++ ys) (xs ++ zs)
IsPrefixOf-left [] p = p
IsPrefixOf-left (x ∷ xs) p = IsPrefixOf.cons (IsPrefixOf-left xs p)

pub Emits-pure : {A : Type 0} (a : A) → Emits (pure a) []
Emits-pure a = record {
  keeps = λ c. refl;
  sends = λ c. all a (sym (append-nil c.sent));
  succeeds = λ c o. (a, refl);
}

attempted :
    (f : Bytes) (c : Channel) (b : Bool)
    → Sent (f ∷ []) c (require b (called f c b)).1 (require b (called f c b)).0
attempted f c true = all tt refl
attempted f c false = part send_failed [] (sym (append-nil c.sent)) IsPrefixOf.nil

attempted_outcomes :
    (f : Bytes) (c : Channel) (b : Bool) → (require b (called f c b)).1.outcomes ≡ c.outcomes
attempted_outcomes f c true = refl
attempted_outcomes f c false = refl

pub Emits-send : (f : Bytes) → Emits (send f) (f ∷ [])
unfolding send
Emits-send f = record {
  keeps = λ c. attempted_outcomes f c (c.outcomes c.calls);
  sends = λ c. attempted f c (c.outcomes c.calls);
  succeeds = λ c o. (tt, rw (o c.calls));
}

-- What is sent after `fs` comes behind it.
Sent-after :
    {A : Type 0} (fs : List Bytes) {gs : List Bytes} (c d x : Channel) {r : Result Error A}
    → d.sent ≡ c.sent ++ fs
    → Sent gs d x r
    → Sent (fs ++ gs) c x r
Sent-after fs {gs} c d x h (all a e) = all a (e ∙ ap (λ t. t ++ gs) h ∙ append_assoc c.sent fs gs)
Sent-after fs {gs} c d x h (part e hs q p) =
    part e (fs ++ hs) (q ∙ ap (λ t. t ++ hs) h ∙ append_assoc c.sent fs hs) (IsPrefixOf-left fs p)

Sent-bind :
    {A B : Type 0} {f : A → Send B} {fs gs : List Bytes} (c d : Channel) {r : Result Error A}
    → ((a : A) → Emits (f a) gs)
    → Sent fs c d r
    → Sent (fs ++ gs) c (and_then f d r).1 (and_then f d r).0
Sent-bind {f} {fs} c d k (all a e) = Sent-after fs c d (f a d).1 e ((k a).sends d)
Sent-bind {gs} c d k (part e hs q p) = part e hs q (IsPrefixOf-right gs p)

then_outcomes :
    {A B : Type 0} {f : A → Send B} {gs : List Bytes} (d : Channel) (r : Result Error A)
    → ((a : A) → Emits (f a) gs)
    → (and_then f d r).1.outcomes ≡ d.outcomes
then_outcomes d (ok a) k = (k a).keeps d
then_outcomes d (err e) k = refl

then_succeeds :
    {A B : Type 0} {f : A → Send B} {gs : List Bytes} (d : Channel) {r : Result Error A}
    → ((a : A) → Emits (f a) gs)
    → IsOpen d
    → (a : A) × (r ≡ ok a)
    → (b : B) × ((and_then f d r).0 ≡ ok b)
then_succeeds d k o (a, e) = rw e ((k a).succeeds d o)

pub Emits-bind :
    {A B : Type 0} {m : Send A} {f : A → Send B} {fs gs : List Bytes}
    → Emits m fs
    → ((a : A) → Emits (f a) gs)
    → Emits (m >>= f) (fs ++ gs)
Emits-bind {m} {f} h k = record {
  keeps = λ c. then_outcomes (m c).1 (m c).0 k ∙ h.keeps c;
  sends = λ c. Sent-bind c (m c).1 k (h.sends c);
  succeeds = λ c o. then_succeeds (m c).1 k (λ n. rw (h.keeps c) (o n)) (h.succeeds c o);
}
