-- ===== src/SignalServer.antt =====
-- signal-server/src/index.ts: the rooms in which two peers find each other. A connection is a number, a
-- peer id is the text of a UUID, and `ServerMessage` is the type that the client parses,
-- `IncomingSignal` of tunnel/src/signaling.rs. Which connections are open (`readyState`) is an argument,
-- and so is the UUID that a join makes.
pub mod Rooms
pub mod Pairs
pub mod Logs
pub mod Known
pub mod Throws
use p2p_llm_tunnel.Prelude.{
  ℕ, ◌≡◌, List, [], ◌∷◌, ◌++◌, Bool, true, false, Option, none, some, HashMap, get, insert, remove,
  ◌==◌, nat_eq, bytes_eq, length, ltb, leb, if◌then◌else◌, codes,
}
use p2p_llm_tunnel.Protocol.{Bytes}
use p2p_llm_tunnel.Signaling.{IncomingSignal, joined, peer_joined, peer_left}

pub record Peer : Type 0 where
  pub ws : ℕ
  pub room : Bytes

-- What `JSON.parse` yields, as far as the switch tells it apart: no JSON at all, the value `null`, which
-- has no field `type`, and a join whose room is a text or not.
pub data SignalMessage : Type 0 where
  invalid : SignalMessage
  null : SignalMessage
  join : Option Bytes → SignalMessage
  offer : Bytes → SignalMessage
  answer : Bytes → SignalMessage
  candidate : Bytes → SignalMessage
  bye : SignalMessage
  unknown : SignalMessage

-- `rooms` and `peers`; the variable `peer_id` of each connection that has one; and what was sent, oldest
-- first. A `Set` is a list in the order of insertion.
pub record SignalServer : Type 0 where
  pub rooms : HashMap Bytes (List Bytes)
  pub peers : HashMap Bytes Peer
  pub ids : HashMap ℕ Bytes
  pub sent : List (ℕ × IncomingSignal)

abbrev pub max_room_size : ℕ
max_room_size = 2

module _ (ready : ℕ → Bool) where
  unfoldable pub send : ℕ → IncomingSignal → SignalServer → SignalServer
  send ws msg s = if ready ws then record s { sent = s.sent ++ (ws, msg) ∷ [] } else s

  unfoldable pub send_error : ℕ → Bytes → SignalServer → SignalServer
  unfolding send
  send_error ws text s = send ws (IncomingSignal.error text) s

  unfoldable pub notify : Option Peer → IncomingSignal → SignalServer → SignalServer
  unfolding send
  notify none msg s = s
  notify (some p) msg s = send p.ws msg s

  -- `for (const id of ids) { const other = peers.get(id); if (other) send(other.ws, msg); }`
  unfoldable pub notify_all : List Bytes → IncomingSignal → SignalServer → SignalServer
  unfolding notify
  notify_all [] msg s = s
  notify_all (id ∷ rest) msg s = notify_all rest msg (notify (get s.peers id) msg s)

-- The first id of a set that is not the given one.
unfoldable pub first_other : Bytes → List Bytes → Option Bytes
first_other peer_id [] = none
first_other peer_id (id ∷ rest) =
    let more = first_other peer_id rest in if id == peer_id then more else some id

abbrev pub bind {ℓ κ} : {A : Type ℓ} {B : Type κ} → Option A → (A → Option B) → Option B
bind none f = none
bind (some a) f = f a

unfoldable pub get_other_peer : Bytes → Bytes → SignalServer → Option Peer
unfolding first_other
get_other_peer peer_id room s = bind (bind (get s.rooms room) (first_other peer_id)) (get s.peers)

-- `Set.delete`
unfoldable pub delete : List Bytes → Bytes → List Bytes
delete [] id = []
delete (x ∷ xs) id = let rest = delete xs id in if x == id then rest else x ∷ rest

abbrev pub forget : Bytes → SignalServer → SignalServer
forget peer_id s = record s { peers = remove s.peers peer_id }

abbrev pub members : Option (List Bytes) → List Bytes
members none = []
members (some ids) = ids

module _ (ready : ℕ → Bool) where
  unfoldable pub shrink_room : Bytes → Bytes → List Bytes → SignalServer → SignalServer
  unfolding notify_all
  shrink_room peer_id room [] s = record s { rooms = remove s.rooms room }
  shrink_room peer_id room (id ∷ rest) s =
      notify_all ready (id ∷ rest) (peer_left peer_id)
        (record s { rooms = insert s.rooms room (id ∷ rest) })

  unfoldable pub leave_room : Bytes → Bytes → Option (List Bytes) → SignalServer → SignalServer
  unfolding shrink_room delete
  leave_room peer_id room none s = s
  leave_room peer_id room (some room_peers) s =
      shrink_room peer_id room (delete room_peers peer_id) s

  unfoldable pub remove_known : Bytes → Option Peer → SignalServer → SignalServer
  unfolding leave_room
  remove_known peer_id none s = s
  remove_known peer_id (some p) s =
      forget peer_id (leave_room peer_id p.room (get s.rooms p.room) s)

  unfoldable pub remove_peer : Bytes → SignalServer → SignalServer
  unfolding remove_known
  remove_peer peer_id s = remove_known peer_id (get s.peers peer_id) s

  -- A join that is let in, with the peers that are there.
  unfoldable pub enter : Bytes → ℕ → Bytes → List Bytes → SignalServer → SignalServer
  unfolding send notify_all
  enter uuid ws room existing s = notify_all ready existing (peer_joined uuid) (
      send ready ws (joined uuid existing) (record s {
        peers = insert s.peers uuid (record { ws = ws; room = room });
        rooms = insert s.rooms room (existing ++ uuid ∷ []);
        ids = insert s.ids ws uuid;
      }))

  unfoldable pub enter_room : Bytes → ℕ → Bytes → List Bytes → SignalServer → SignalServer
  unfolding enter send_error
  enter_room uuid ws room existing s =
      if leb max_room_size (length existing)
      then send_error ready ws (codes "room '" ++ (room ++ codes "' is full (max 2)")) s
      else enter uuid ws room existing s

  unfoldable pub on_join : Bytes → ℕ → Option Bytes → Option Bytes → SignalServer → SignalServer
  unfolding enter_room send_error
  on_join uuid ws (some id) room s = send_error ready ws (codes "already joined a room") s
  on_join uuid ws none none s = send_error ready ws (codes "room name required") s
  on_join uuid ws none (some []) s = send_error ready ws (codes "room name required") s
  on_join uuid ws none (some (c ∷ cs)) s =
      enter_room uuid ws (c ∷ cs) (members (get s.rooms (c ∷ cs))) s

  -- `none` is a `TypeError` that nothing catches.
  unfoldable pub relay_from :
      Bytes → Option Peer → IncomingSignal → SignalServer → Option SignalServer
  unfolding notify get_other_peer
  relay_from peer_id none msg s = none
  relay_from peer_id (some p) msg s = some (notify ready (get_other_peer peer_id p.room s) msg s)

  unfoldable pub relay :
      ℕ → Option Bytes → (Bytes → IncomingSignal) → SignalServer → Option SignalServer
  unfolding relay_from send_error
  relay ws none msg s = some (send_error ready ws (codes "must join a room first") s)
  relay ws (some peer_id) msg s = relay_from peer_id (get s.peers peer_id) (msg peer_id) s

  unfoldable pub on_bye : ℕ → Option Bytes → SignalServer → SignalServer
  unfolding remove_peer
  on_bye ws none s = s
  on_bye ws (some peer_id) s = let t = remove_peer peer_id s in record t { ids = remove t.ids ws }

  unfoldable pub on_message : Bytes → ℕ → SignalMessage → SignalServer → Option SignalServer
  unfolding on_join relay on_bye send_error
  on_message uuid ws invalid s = some (send_error ready ws (codes "invalid JSON") s)
  on_message uuid ws null s = none
  on_message uuid ws (join room) s = some (on_join uuid ws (get s.ids ws) room s)
  on_message uuid ws (offer sdp) s = relay ws (get s.ids ws) (λ id. IncomingSignal.offer id sdp) s
  on_message uuid ws (answer sdp) s = relay ws (get s.ids ws) (λ id. IncomingSignal.answer id sdp) s
  on_message uuid ws (candidate c) s =
      relay ws (get s.ids ws) (λ id. IncomingSignal.candidate id c) s
  on_message uuid ws bye s = some (on_bye ws (get s.ids ws) s)
  on_message uuid ws unknown s = some (send_error ready ws (codes "unknown message type") s)

  -- The handlers of `close` and of `error`.
  unfoldable pub on_close : Option Bytes → SignalServer → SignalServer
  unfolding remove_peer
  on_close none s = s
  on_close (some peer_id) s = remove_peer peer_id s

-- What happens to the server, with the connections that are open then.
pub data ServerEvent : Type 0 where
  message : (ℕ → Bool) → Bytes → ℕ → SignalMessage → ServerEvent
  close : (ℕ → Bool) → ℕ → ServerEvent

unfoldable pub handle : ServerEvent → SignalServer → Option SignalServer
unfolding on_message on_close
handle (message ready uuid ws msg) s = on_message ready uuid ws msg s
handle (close ready ws) s = some (on_close ready (get s.ids ws) s)

unfoldable pub run_server : List ServerEvent → SignalServer → Option SignalServer
unfolding handle
run_server [] s = some s
run_server (e ∷ rest) s = bind (handle e s) (run_server rest)

abbrev pub nobody : SignalServer
nobody = record { rooms = []; peers = []; ids = []; sent = [] }
