-- ===== src/Signaling/Reader.antt =====
-- What the reader task of tunnel/src/signaling.rs passes on.
use mathlib.Core.List.{filter_map, filter_map-cons-none, filter_map-cons-some}
use p2p_llm_tunnel.Prelude.{
  ◌≡◌, refl, List, [], ◌∷◌, ◌++◌, Option, All, Option-cases, inl, inr, ap, sym, ◌∙◌,
}
use p2p_llm_tunnel.Protocol.{Bytes}
use p2p_llm_tunnel.Signaling.{
  IncomingSignal, WsItem, text, close, failure, other, pass_on, read_signals,
}

abbrev pub texts : List WsItem → List Bytes
texts [] = []
texts (text t ∷ rest) = t ∷ texts rest
texts (_ ∷ rest) = texts rest

-- An item after which the task reads on, and one that ends it.
abbrev pub GoesOn : WsItem → Type 0
GoesOn (text t) = Unit
GoesOn other = Unit
GoesOn _ = ⊥

abbrev pub Stops : WsItem → Type 0
Stops close = Unit
Stops failure = Unit
Stops _ = ⊥

-- Up to the first close or error, the texts that parse are passed on in order, and the others are
-- skipped; nothing behind it is passed on.
pub read_signals_lem :
    (parse : Bytes → Option IncomingSignal) (items : List WsItem) (last : WsItem)
    (rest : List WsItem)
    → All GoesOn items
    → Stops last
    → read_signals parse (items ++ last ∷ rest) ≡ filter_map parse (texts items)
unfolding read_signals
read_signals_lem parse [] (text t) rest h s = elim s [ ]
read_signals_lem parse [] other rest h s = elim s [ ]
read_signals_lem parse [] close rest h s = unfold filter_map in refl
read_signals_lem parse [] failure rest h s = unfold filter_map in refl
read_signals_lem parse (close ∷ items) last rest h s = elim h.0 [ ]
read_signals_lem parse (failure ∷ items) last rest h s = elim h.0 [ ]
read_signals_lem parse (other ∷ items) last rest h s = read_signals_lem parse items last rest h.1 s
read_signals_lem parse (text t ∷ items) last rest h s =
    let ih = read_signals_lem parse items last rest h.1 s in
    elim (Option-cases (parse t)) [
      | inl e ↦ rw (e, pass_on) (ih ∙ sym (filter_map-cons-none parse t (texts items) e))
      | inr (x, e) ↦
          rw (e, pass_on) (ap (λ l. x ∷ l) ih ∙ sym (filter_map-cons-some parse t (texts items) e))
    ]
