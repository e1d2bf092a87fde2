-- ===== src/SignalServer/Throws.antt =====
-- Whether a handler of signal-server/src/index.ts throws at `peers.get(peerId)!`.
use p2p_llm_tunnel.Prelude.{
  ℕ, ◌≡◌, ◌≢◌, refl, List, [], ◌∷◌, Bool, false, Option, none, some, get, bytes_eq, nat_eq,
  contains,
}
use p2p_llm_tunnel.Protocol.{Bytes}
use p2p_llm_tunnel.SignalServer.{
  SignalMessage, invalid, null, join, offer, answer, candidate, bye, unknown, SignalServer, bind,
  on_bye, on_message, on_close, ServerEvent, message, close, handle, run_server, nobody,
}
use p2p_llm_tunnel.SignalServer.Logs.{send_error-Logs}
use p2p_llm_tunnel.SignalServer.Known.{
  Sound, Goes, one_more, logged, on_join-Sound, relay-Goes, on_bye-Sound, on_close-Sound,
}

-- Each event comes with a UUID that none before it had, on a connection that has not closed, and its
-- message is not the JSON value `null`.
unfoldable pub AreProper : List Bytes → List ℕ → List ServerEvent → Type 0
AreProper used closed [] = Unit
AreProper used closed (message ready uuid ws msg ∷ rest) =
    (contains used uuid ≡ false)
    × (contains closed ws ≡ false)
    × (msg ≢ null)
    × AreProper (uuid ∷ used) closed rest
AreProper used closed (close ready ws ∷ rest) = AreProper used (ws ∷ closed) rest

on_message-Goes :
    (ready : ℕ → Bool) (used : List Bytes) (closed : List ℕ) (s : SignalServer)
    → Sound used closed s
    → (uuid : Bytes) (ws : ℕ) (msg : SignalMessage) → contains used uuid ≡ false
    → contains closed ws ≡ false
    → msg ≢ null
    → Goes (uuid ∷ used) closed (on_message ready uuid ws msg s)
unfolding on_message
on_message-Goes ready used closed s v uuid ws invalid new live ne =
    logged ready used closed s v uuid (send_error-Logs ready ws _ s)
on_message-Goes ready used closed s v uuid ws null new live ne = ne refl
on_message-Goes ready used closed s v uuid ws (join room) new live ne =
    on_join-Sound ready used closed s v uuid ws (get s.ids ws) room new
on_message-Goes ready used closed s v uuid ws (offer sdp) new live ne =
    relay-Goes ready used closed s v uuid ws (get s.ids ws) _ refl live
on_message-Goes ready used closed s v uuid ws (answer sdp) new live ne =
    relay-Goes ready used closed s v uuid ws (get s.ids ws) _ refl live
on_message-Goes ready used closed s v uuid ws (candidate c) new live ne =
    relay-Goes ready used closed s v uuid ws (get s.ids ws) _ refl live
on_message-Goes ready used closed s v uuid ws bye new live ne =
    let t = on_bye ready ws (get s.ids ws) s in
    one_more ready used closed t (on_bye-Sound ready used closed s v uuid ws (get s.ids ws) refl)
      uuid
on_message-Goes ready used closed s v uuid ws unknown new live ne =
    logged ready used closed s v uuid (send_error-Logs ready ws _ s)

go_on :
    (used : List Bytes) (closed : List ℕ) (events : List ServerEvent) (o : Option SignalServer)
    → Goes used closed o
    → ((t : SignalServer)
        → Sound used closed t
        → (r : SignalServer) × (run_server events t ≡ some r))
    → (r : SignalServer) × (bind o (run_server events) ≡ some r)
go_on used closed events none g k = elim g [ ]
go_on used closed events (some t) g k = k t g

run_server-Goes :
    (events : List ServerEvent) (used : List Bytes) (closed : List ℕ) (s : SignalServer)
    → AreProper used closed events
    → Sound used closed s
    → (r : SignalServer) × (run_server events s ≡ some r)
unfolding AreProper run_server handle
run_server-Goes [] used closed s h v = (s, refl)
run_server-Goes (message ready uuid ws msg ∷ rest) used closed s h v =
    go_on (uuid ∷ used) closed rest (on_message ready uuid ws msg s)
      (on_message-Goes ready used closed s v uuid ws msg h.0 h.1 h.2)
      (λ t. run_server-Goes rest (uuid ∷ used) closed t h.3)
run_server-Goes (close ready ws ∷ rest) used closed s h v =
    run_server-Goes rest used (ws ∷ closed) (on_close ready (get s.ids ws) s) h
      (on_close-Sound ready used closed s v ws (get s.ids ws) refl)

-- Whatever the peers send and whichever connections close, no handler throws: a peer that relays a
-- message is always known, also when the other peer of its room has left. Each message comes with a UUID
-- that is new, on a connection that has not closed, and is not the JSON value `null`, at which the
-- handler does throw.
pub run_server_goes_on :
    (events : List ServerEvent)
    → AreProper [] [] events
    → (t : SignalServer) × (run_server events nobody ≡ some t)
unfolding get
run_server_goes_on events h =
    run_server-Goes events [] [] nobody h
      (record { known = λ ws u e. cc; was_used = λ ws u e. cc; apart = λ ws ws' u e e'. cc })
