-- ===== src/Protocol/Negotiate.antt =====
-- tunnel/src/protocol.rs: `Agree::from_hello`, the choice of version and features.
use p2p_llm_tunnel.Prelude.{
  sym, ap, ◌∙◌, ℕ, ◌≤◌, min, max, ◌≡◌, ◌↔◌, not, List, [], ◌∷◌, Result, ok, err, ltb, if◌then◌else◌,
  codes, ◌==◌, bytes_eq, bytes_eqb_iff, keep_if, contains, arith,
}
use p2p_llm_tunnel.Protocol.{Bytes, Hello, Agree, protocol_version, protocol_name}

pub data NegotiateError : Type 0 where
  unknown_protocol : Bytes → NegotiateError
  no_compatible_version : ℕ → ℕ → ℕ → ℕ → NegotiateError

abbrev pub our_min : ℕ
our_min = 1

abbrev pub our_max : ℕ
our_max = protocol_version

abbrev pub our_features : List Bytes
our_features = codes "sse" ∷ []

unfoldable pub from_hello : Hello → Result NegotiateError Agree
from_hello h =
    let overlap_min = max h.min_version our_min in
    let overlap_max = min h.max_version our_max in
    if not (h.proto == protocol_name)
    then err (unknown_protocol h.proto)
    else if ltb overlap_max overlap_min
    then err (no_compatible_version h.min_version h.max_version our_min our_max)
    else ok
        (record { version = overlap_max; features = keep_if (contains our_features) h.features })

-- Both sides speak version v.
abbrev pub IsCommon : Hello → ℕ → Type 0
IsCommon h v = (h.min_version ≤ v) × (v ≤ h.max_version) × (our_min ≤ v) × (v ≤ our_max)

-- An answer to a HELLO that names the protocol: the highest version that both sides speak, and the
-- features of the other side that this one offers too, in its order.
pub record IsAgreement (h : Hello) (a : Agree) : Type 0 where
  pub named : h.proto ≡ protocol_name
  pub common : IsCommon h a.version
  pub highest : (v : ℕ) → IsCommon h v → v ≤ a.version
  pub features : a.features ≡ keep_if (contains our_features) h.features

from_hello-IsAgreement : (h : Hello) (a : Agree) → from_hello h ≡ ok a → IsAgreement h a
unfolding from_hello
from_hello-IsAgreement h a e = record {
  named = ground (arith, bytes_eqb_iff h.proto protocol_name);
  common = ground arith;
  highest = λ v c. ground arith;
  features = ground arith;
}

from_hello_accepts :
    (h : Hello) (v : ℕ)
    → h.proto ≡ protocol_name
    → IsCommon h v
    → (a : Agree) × (from_hello h ≡ ok a)
unfolding from_hello
from_hello_accepts h v n c = (
  record {
    version = min h.max_version our_max;
    features = keep_if (contains our_features) h.features;
  },
  ground (arith, bytes_eqb_iff h.proto protocol_name),
)

Agree-ext : {a b : Agree} → a.version ≡ b.version → a.features ≡ b.features → a ≡ b
Agree-ext e f = λ i. record { version = e i; features = f i }

IsAgreement-unique : (h : Hello) (a b : Agree) → IsAgreement h a → IsAgreement h b → a ≡ b
IsAgreement-unique h a b x y =
    let up = y.highest a.version x.common in
    let down = x.highest b.version y.common in Agree-ext (omega arith) (x.features ∙ sym y.features)

-- A HELLO is answered with an AGREE exactly when this is what the two sides have in common: the HELLO
-- names the protocol, the version is the highest that both speak, and the features are those that both
-- offer. It is answered at all exactly when it names the protocol and both speak some version.
pub from_hello_lem :
    (h : Hello) (a : Agree)
    → ((from_hello h ≡ ok a) ↔ IsAgreement h a)
      × (((b : Agree) × (from_hello h ≡ ok b))
          ↔ ((h.proto ≡ protocol_name) × (v : ℕ) × IsCommon h v))
from_hello_lem h a = (
  (
    from_hello-IsAgreement h a,
    λ x.
        let (b, e) = from_hello_accepts h a.version x.named x.common in
        e ∙ ap ok (IsAgreement-unique h b a (from_hello-IsAgreement h b e) x),
  ),
  (
    λ w. let x = from_hello-IsAgreement h w.0 w.1 in (x.named, w.0.version, x.common),
    λ c. from_hello_accepts h c.1 c.0 c.2,
  ),
)
