-- ===== src/Meeting/Talk.antt =====
-- What two paired peers of signal-server/src/index.ts send to each other, message by message.
use p2p_llm_tunnel.Prelude.{
  ℕ, ◌≡◌, ◌≢◌, refl, sym, ap, ◌∙◌, List, [], ◌∷◌, ◌++◌, append-nil, append_assoc, map, Bool, true,
  false, some, nat_eq, keep_if, matches_self, matches_ne,
}
use p2p_llm_tunnel.Protocol.{Bytes}
use p2p_llm_tunnel.Signaling.{IncomingSignal}
use p2p_llm_tunnel.SignalServer.{
  SignalMessage, SignalServer, ServerEvent, message, handle, on_message, run_server, bind,
}
use p2p_llm_tunnel.SignalServer
use p2p_llm_tunnel.SignalServer.Pairs.{all_open, Paired, relay_first, relay_second, heard}

-- The messages that the server passes on.
pub data Talk : Type 0 where
  offer answer candidate : Bytes → Talk

abbrev pub as_message : Talk → SignalMessage
as_message (offer sdp) = SignalServer.offer sdp
as_message (answer sdp) = SignalServer.answer sdp
as_message (candidate c) = SignalServer.candidate c

abbrev pub as_heard : Bytes → Talk → IncomingSignal
as_heard peer (offer sdp) = IncomingSignal.offer peer sdp
as_heard peer (answer sdp) = IncomingSignal.answer peer sdp
as_heard peer (candidate c) = IncomingSignal.candidate peer c

-- Who says it: the first peer or the second.
abbrev pub Line : Type 0
Line = Bool × Talk

-- What one of the two says, in order.
unfoldable pub said_by : Bool → List Line → List Talk
said_by who [] = []
said_by true ((true, t) ∷ rest) = t ∷ said_by true rest
said_by true ((false, t) ∷ rest) = said_by true rest
said_by false ((true, t) ∷ rest) = said_by false rest
said_by false ((false, t) ∷ rest) = t ∷ said_by false rest

module _ (ws ws' : ℕ) where
  abbrev pub as_event : Line → ServerEvent
  as_event (true, t) = message all_open [] ws (as_message t)
  as_event (false, t) = message all_open [] ws' (as_message t)

module _ (ws ws' : ℕ) (u u' room : Bytes) (apart : ws ≢ ws') (ne : u ≢ u') where
  abbrev pub passed : Line → ℕ × IncomingSignal
  passed (true, t) = (ws', as_heard u t)
  passed (false, t) = (ws, as_heard u' t)

  pub lines-Paired :
      {t : SignalServer}
      → Paired ws ws' u u' room t
      → (log : List (ℕ × IncomingSignal)) → Paired ws ws' u u' room (record t { sent = log })
  lines-Paired p log = record {
    first_id = p.first_id;
    second_id = p.second_id;
    first_peer = p.first_peer;
    second_peer = p.second_peer;
    both = p.both;
  }

  handle-line :
      (l : Line) (t : SignalServer)
      → Paired ws ws' u u' room t
      → handle (as_event ws ws' l) t ≡ some (record t { sent = t.sent ++ passed l ∷ [] })
  unfolding handle on_message
  handle-line (true, offer sdp) t p =
      relay_first ws ws' u u' room t ne p (λ id. IncomingSignal.offer id sdp)
  handle-line (true, answer sdp) t p =
      relay_first ws ws' u u' room t ne p (λ id. IncomingSignal.answer id sdp)
  handle-line (true, candidate c) t p =
      relay_first ws ws' u u' room t ne p (λ id. IncomingSignal.candidate id c)
  handle-line (false, offer sdp) t p =
      relay_second ws ws' u u' room t ne p (λ id. IncomingSignal.offer id sdp)
  handle-line (false, answer sdp) t p =
      relay_second ws ws' u u' room t ne p (λ id. IncomingSignal.answer id sdp)
  handle-line (false, candidate c) t p =
      relay_second ws ws' u u' room t ne p (λ id. IncomingSignal.candidate id c)

  pub lines_pass :
      (lines : List Line) (t : SignalServer)
      → Paired ws ws' u u' room t
      → run_server (map (as_event ws ws') lines) t
        ≡ some (record t { sent = t.sent ++ map passed lines })
  unfolding run_server
  lines_pass [] t p = ap (λ log. some (record t { sent = log })) (sym (append-nil t.sent))
  lines_pass (l ∷ lines) t p =
      let next : SignalServer = record t { sent = t.sent ++ passed l ∷ [] } in
      ap (λ o. bind o (run_server (map (as_event ws ws') lines))) (handle-line l t p)
      ∙ lines_pass lines next (lines-Paired p (t.sent ++ passed l ∷ []))
      ∙ ap (λ log. some (record t { sent = log }))
          (append_assoc t.sent (passed l ∷ []) (map passed lines))

  pub heard_first :
      (lines : List Line)
      → heard ws (map passed lines) ≡ map (λ t. some (as_heard u' t)) (said_by false lines)
  unfolding heard keep_if said_by
  heard_first [] = refl
  heard_first ((true, t) ∷ lines) = rw (matches_ne ws' ws (λ e. apart (sym e))) (heard_first lines)
  heard_first ((false, t) ∷ lines) =
      rw (matches_self ws) (ap (λ r. some (as_heard u' t) ∷ r) (heard_first lines))

  pub heard_second :
      (lines : List Line)
      → heard ws' (map passed lines) ≡ map (λ t. some (as_heard u t)) (said_by true lines)
  unfolding heard keep_if said_by
  heard_second [] = refl
  heard_second ((true, t) ∷ lines) =
      rw (matches_self ws') (ap (λ r. some (as_heard u t) ∷ r) (heard_second lines))
  heard_second ((false, t) ∷ lines) = rw (matches_ne ws ws' apart) (heard_second lines)

  pub heard_by_others :
      (k : ℕ) (lines : List Line) → ws ≢ k → ws' ≢ k → heard k (map passed lines) ≡ []
  unfolding heard keep_if
  heard_by_others k [] h h' = refl
  heard_by_others k ((true, t) ∷ lines) h h' =
      rw (matches_ne ws' k h') (heard_by_others k lines h h')
  heard_by_others k ((false, t) ∷ lines) h h' =
      rw (matches_ne ws k h) (heard_by_others k lines h h')
