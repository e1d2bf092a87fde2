-- ===== src/Meeting/Room.antt =====
-- A room of signal-server/src/index.ts with two peers of tunnel/src/rtc.rs in it.
use mathlib.Core.Path.{ap₂}
use p2p_llm_tunnel.Prelude.{
  ℕ, ◌≡◌, ◌≢◌, refl, ◌∙◌, List, [], ◌∷◌, ◌++◌, map, true, false, none, some, nat_eq, bytes_eq, get,
  keep_if, matches_ne,
}
use p2p_llm_tunnel.Protocol.{Bytes}
use p2p_llm_tunnel.Signaling.{IncomingSignal, joined, peer_joined}
use p2p_llm_tunnel.SignalServer.{SignalServer, join, message, run_server}
use p2p_llm_tunnel.SignalServer.Pairs.{all_open, heard, IsFull, Paired-IsFull, joins-Paired}
use p2p_llm_tunnel.Rtc.Role.{joining, role, determine_role}
use p2p_llm_tunnel.Meeting.Talk.{Line, as_heard, said_by, as_event, lines-Paired, heard_by_others}
use p2p_llm_tunnel.Meeting.Through.{
  new, joined_state, hellos, said_run, first_hears, second_hears, heard-append,
}

hellos-others :
    (ws ws' k : ℕ) (a b d : IncomingSignal)
    → ws ≢ k
    → ws' ≢ k
    → heard k ((ws, a) ∷ (ws', b) ∷ (ws, d) ∷ []) ≡ []
unfolding heard keep_if
hellos-others ws ws' k a b d h h' = rw (matches_ne ws k h, matches_ne ws' k h') refl

-- Two connections that have no peer id join an empty room, one after the other, with different UUIDs,
-- and then send offers, answers and candidates, any number of them, each of the two any of them, in any
-- order, while all connections are open. The server runs through. The first hears that it is alone, then
-- of the second, and then what the second sends, and the second hears of the first, and then what the
-- first sends, each in the order in which it was sent and with the sender's id; no one else hears
-- anything. From these signals the first peer of tunnel/src/rtc.rs settles to make the offer and the
-- second to answer it. And a third connection that asks to join, at any such time, is refused, and
-- nothing else changes.
pub room_pairs :
    (ws ws' : ℕ) (u u' : Bytes) (c : ℕ) (cs : Bytes) (s : SignalServer) (lines : List Line)
    → ws ≢ ws'
    → u ≢ u'
    → get s.ids ws ≡ none
    → get s.ids ws' ≡ none
    → get s.rooms (c ∷ cs) ≡ none
    → (t : SignalServer) × (log : List (ℕ × IncomingSignal)) × (run_server
          (message all_open u ws (join (some (c ∷ cs)))
            ∷ message all_open u' ws' (join (some (c ∷ cs)))
            ∷ map (as_event ws ws') lines)
          s
        ≡ some t)
      × (t.sent ≡ s.sent ++ log)
      × (heard ws log
          ≡ some (joined u [])
            ∷ some (peer_joined u')
            ∷ map (λ x. some (as_heard u' x)) (said_by false lines))
      × (heard ws' log
          ≡ some (joined u' (u ∷ [])) ∷ map (λ x. some (as_heard u x)) (said_by true lines))
      × ((k : ℕ) → ws ≢ k → ws' ≢ k → heard k log ≡ [])
      × (determine_role (heard ws log) joining ≡ role true)
      × (determine_role (heard ws' log) joining ≡ role false)
      × IsFull (c ∷ cs) t
unfolding determine_role joined_state
room_pairs ws ws' u u' c cs s lines apart ne i i' r =
    let hears_first = first_hears ws ws' u u' c cs s apart ne i i' r lines in
    let hears_second = second_hears ws ws' u u' c cs s apart ne i i' r lines in
    let log = new ws ws' u u' c cs s apart ne i i' r lines in
    (
      _,
      log,
      said_run ws ws' u u' c cs s apart ne i i' r lines,
      refl,
      hears_first,
      hears_second,
      λ k h h'.
          heard-append k (hellos ws ws' u u' c cs s apart ne i i' r lines) _
          ∙ ap₂ (λ a b. a ++ b) (hellos-others ws ws' k _ _ _ h h')
              (heard_by_others ws ws' u u' (c ∷ cs) apart ne k lines h h'),
      rw hears_first refl,
      rw hears_second refl,
      Paired-IsFull ws ws' u u' c cs _ (
          lines-Paired ws ws' u u' (c ∷ cs) apart ne
            (joins-Paired ws ws' u u' c cs s apart ne i i' r) (s.sent ++ log)),
    )
