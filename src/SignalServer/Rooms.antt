-- ===== src/SignalServer/Rooms.antt =====
-- The size of the rooms of signal-server/src/index.ts.
use p2p_llm_tunnel.Prelude.{
  ℕ, ◌≤◌, ◌<◌, ◌≡◌, refl, ◌∙◌, List, [], ◌∷◌, ◌++◌, Bool, Option, none, some, HashMap, get, insert,
  remove, get-insert, get-remove, bytes_eq, nat_eq, length, length-append, leb, codes, arith,
  Bool-cases, inl, inr,
}
use p2p_llm_tunnel.Protocol.{Bytes}
use p2p_llm_tunnel.Signaling.{IncomingSignal, joined, peer_joined, peer_left}
use p2p_llm_tunnel.SignalServer.{
  Peer, SignalMessage, invalid, null, join, offer, answer, candidate, bye, unknown, SignalServer,
  max_room_size, send, send_error, notify, notify_all, bind, delete, shrink_room, leave_room,
  remove_known, remove_peer, enter, members, enter_room, on_join, get_other_peer, relay_from, relay,
  on_bye, on_message, on_close, ServerEvent, message, close, handle, run_server, nobody,
}

-- Every room that there is has one or two peers.
abbrev pub RoomsFit : HashMap Bytes (List Bytes) → Type 0
RoomsFit rooms =
    (room : Bytes) (ids : List Bytes)
    → get rooms room ≡ some ids
    → (0 < length ids) × (length ids ≤ max_room_size)

-- A handler that has not thrown leaves rooms that fit.
abbrev Fits : Option SignalServer → Type 0
Fits none = Unit
Fits (some t) = RoomsFit t.rooms

send-rooms :
    (ready : ℕ → Bool) (ws : ℕ) (msg : IncomingSignal) (s : SignalServer)
    → (send ready ws msg s).rooms ≡ s.rooms
unfolding send
send-rooms ready ws msg s = ground arith

notify-rooms :
    (ready : ℕ → Bool) (p : Option Peer) (msg : IncomingSignal) (s : SignalServer)
    → (notify ready p msg s).rooms ≡ s.rooms
unfolding notify
notify-rooms ready none msg s = refl
notify-rooms ready (some p) msg s = send-rooms ready p.ws msg s

notify_all-rooms :
    (ready : ℕ → Bool) (ids : List Bytes) (msg : IncomingSignal) (s : SignalServer)
    → (notify_all ready ids msg s).rooms ≡ s.rooms
unfolding notify_all
notify_all-rooms ready [] msg s = refl
notify_all-rooms ready (id ∷ rest) msg s =
    notify_all-rooms ready rest msg (notify ready (get s.peers id) msg s)
    ∙ notify-rooms ready (get s.peers id) msg s

length-delete-le : (ids : List Bytes) (id : Bytes) → length (delete ids id) ≤ length ids
unfolding delete
length-delete-le [] id = omega arith
length-delete-le (x ∷ xs) id = ground (arith, length-delete-le xs id)

insert-RoomsFit :
    (rooms : HashMap Bytes (List Bytes)) (room : Bytes) (ids : List Bytes)
    → RoomsFit rooms
    → (0 < length ids) × (length ids ≤ max_room_size)
    → RoomsFit (insert rooms room ids)
insert-RoomsFit rooms room ids h k r l e = ground (arith, get-insert rooms room ids r, h r l)

remove-RoomsFit :
    (rooms : HashMap Bytes (List Bytes)) (room : Bytes)
    → RoomsFit rooms
    → RoomsFit (remove rooms room)
remove-RoomsFit rooms room h r l e = ground (arith, get-remove rooms room r, h r l)

module _ (ready : ℕ → Bool) where
  shrink_room-RoomsFit :
      (id room : Bytes) (ids : List Bytes) (s : SignalServer)
      → RoomsFit s.rooms
      → length ids ≤ max_room_size
      → RoomsFit (shrink_room ready id room ids s).rooms
  unfolding shrink_room
  shrink_room-RoomsFit id room [] s h k = remove-RoomsFit s.rooms room h
  shrink_room-RoomsFit id room (x ∷ xs) s h k =
      rw
        (notify_all-rooms ready (x ∷ xs) (peer_left id)
          (record s { rooms = insert s.rooms room (x ∷ xs) }))
        (insert-RoomsFit s.rooms room (x ∷ xs) h (omega arith))

  leave_room-RoomsFit :
      (id room : Bytes) (o : Option (List Bytes)) (s : SignalServer)
      → get s.rooms room ≡ o
      → RoomsFit s.rooms
      → RoomsFit (leave_room ready id room o s).rooms
  unfolding leave_room
  leave_room-RoomsFit id room none s e h = h
  leave_room-RoomsFit id room (some ids) s e h =
      let fits = (h room ids e).1 in
      shrink_room-RoomsFit id room (delete ids id) s h (omega (arith, length-delete-le ids id))

  remove_known-RoomsFit :
      (id : Bytes) (o : Option Peer) (s : SignalServer)
      → RoomsFit s.rooms
      → RoomsFit (remove_known ready id o s).rooms
  unfolding remove_known
  remove_known-RoomsFit id none s h = h
  remove_known-RoomsFit id (some p) s h = leave_room-RoomsFit id p.room _ s refl h

  on_close-RoomsFit :
      (o : Option Bytes) (s : SignalServer) → RoomsFit s.rooms → RoomsFit (on_close ready o s).rooms
  unfolding on_close remove_peer
  on_close-RoomsFit none s h = h
  on_close-RoomsFit (some id) s h = remove_known-RoomsFit id (get s.peers id) s h

  on_bye-RoomsFit :
      (ws : ℕ) (o : Option Bytes) (s : SignalServer)
      → RoomsFit s.rooms
      → RoomsFit (on_bye ready ws o s).rooms
  unfolding on_bye remove_peer
  on_bye-RoomsFit ws none s h = h
  on_bye-RoomsFit ws (some id) s h = remove_known-RoomsFit id (get s.peers id) s h

  enter-RoomsFit :
      (uuid : Bytes) (ws : ℕ) (room : Bytes) (existing : List Bytes) (s : SignalServer)
      → RoomsFit s.rooms
      → length existing < max_room_size
      → RoomsFit (enter ready uuid ws room existing s).rooms
  unfolding enter
  enter-RoomsFit uuid ws room existing s h k =
      let t : SignalServer = record s {
        peers = insert s.peers uuid (record { ws = ws; room = room });
        rooms = insert s.rooms room (existing ++ uuid ∷ []);
        ids = insert s.ids ws uuid;
      } in
      rw
        (notify_all-rooms ready existing (peer_joined uuid) (send ready ws (joined uuid existing) t)
          ∙ send-rooms ready ws (joined uuid existing) t)
        (insert-RoomsFit s.rooms room (existing ++ uuid ∷ []) h (
          omega (arith, length-append {0} existing (uuid ∷ [])),
          omega (arith, length-append {0} existing (uuid ∷ [])),
        ))

  enter_room-RoomsFit :
      (uuid : Bytes) (ws : ℕ) (room : Bytes) (existing : List Bytes) (s : SignalServer)
      → RoomsFit s.rooms
      → RoomsFit (enter_room ready uuid ws room existing s).rooms
  unfolding enter_room
  enter_room-RoomsFit uuid ws room existing s h =
      elim (Bool-cases (leb max_room_size (length existing))) [
        | inl full ↦ rw full (unfold send_error in rw (send-rooms ready ws _ s) h)
        | inr some_room ↦ rw some_room (enter-RoomsFit uuid ws room existing s h (ground arith))
      ]

  error-RoomsFit :
      (ws : ℕ) (text : Bytes) (s : SignalServer)
      → RoomsFit s.rooms
      → RoomsFit (send_error ready ws text s).rooms
  unfolding send_error
  error-RoomsFit ws text s h = rw (send-rooms ready ws (IncomingSignal.error text) s) h

  on_join-RoomsFit :
      (uuid : Bytes) (ws : ℕ) (id room : Option Bytes) (s : SignalServer)
      → RoomsFit s.rooms
      → RoomsFit (on_join ready uuid ws id room s).rooms
  unfolding on_join
  on_join-RoomsFit uuid ws (some id) room s h = error-RoomsFit ws _ s h
  on_join-RoomsFit uuid ws none none s h = error-RoomsFit ws _ s h
  on_join-RoomsFit uuid ws none (some []) s h = error-RoomsFit ws _ s h
  on_join-RoomsFit uuid ws none (some (c ∷ cs)) s h =
      enter_room-RoomsFit uuid ws (c ∷ cs) (members (get s.rooms (c ∷ cs))) s h

  relay_from-Fits :
      (id : Bytes) (o : Option Peer) (msg : IncomingSignal) (s : SignalServer)
      → RoomsFit s.rooms
      → Fits (relay_from ready id o msg s)
  unfolding relay_from
  relay_from-Fits id none msg s h = tt
  relay_from-Fits id (some p) msg s h = rw (notify-rooms ready (get_other_peer id p.room s) msg s) h

  relay-Fits :
      (ws : ℕ) (o : Option Bytes) (msg : Bytes → IncomingSignal) (s : SignalServer)
      → RoomsFit s.rooms
      → Fits (relay ready ws o msg s)
  unfolding relay
  relay-Fits ws none msg s h = error-RoomsFit ws (codes "must join a room first") s h
  relay-Fits ws (some id) msg s h = relay_from-Fits id (get s.peers id) (msg id) s h

  on_message-Fits :
      (uuid : Bytes) (ws : ℕ) (msg : SignalMessage) (s : SignalServer)
      → RoomsFit s.rooms
      → Fits (on_message ready uuid ws msg s)
  unfolding on_message
  on_message-Fits uuid ws invalid s h = error-RoomsFit ws (codes "invalid JSON") s h
  on_message-Fits uuid ws null s h = tt
  on_message-Fits uuid ws (join room) s h = on_join-RoomsFit uuid ws (get s.ids ws) room s h
  on_message-Fits uuid ws (offer sdp) s h = relay-Fits ws (get s.ids ws) _ s h
  on_message-Fits uuid ws (answer sdp) s h = relay-Fits ws (get s.ids ws) _ s h
  on_message-Fits uuid ws (candidate c) s h = relay-Fits ws (get s.ids ws) _ s h
  on_message-Fits uuid ws bye s h = on_bye-RoomsFit ws (get s.ids ws) s h
  on_message-Fits uuid ws unknown s h = error-RoomsFit ws (codes "unknown message type") s h

handle-Fits : (e : ServerEvent) (s : SignalServer) → RoomsFit s.rooms → Fits (handle e s)
unfolding handle
handle-Fits (message ready uuid ws msg) s h = on_message-Fits ready uuid ws msg s h
handle-Fits (close ready ws) s h = on_close-RoomsFit ready (get s.ids ws) s h

bind-Fits :
    (k : SignalServer → Option SignalServer) (o : Option SignalServer)
    → Fits o
    → ((t : SignalServer) → RoomsFit t.rooms → Fits (k t))
    → Fits (bind o k)
bind-Fits k none h f = tt
bind-Fits k (some t) h f = f t h

run_server-Fits :
    (events : List ServerEvent) (s : SignalServer) → RoomsFit s.rooms → Fits (run_server events s)
unfolding run_server
run_server-Fits [] s h = h
run_server-Fits (e ∷ rest) s h =
    bind-Fits (run_server rest) (handle e s) (handle-Fits e s h) (run_server-Fits rest)

nobody-RoomsFit : RoomsFit nobody.rooms
unfolding get
nobody-RoomsFit room ids e = cc

-- From the start on, whatever messages arrive on whatever connections, and whichever close: every room
-- that there is has one or two peers. No more than two get in, and an empty room is taken away.
pub run_server-RoomsFit :
    (events : List ServerEvent) (t : SignalServer)
    → run_server events nobody ≡ some t
    → RoomsFit t.rooms
run_server-RoomsFit events t e = rw e at (run_server-Fits events nobody nobody-RoomsFit)
