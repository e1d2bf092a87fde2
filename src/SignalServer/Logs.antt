-- ===== src/SignalServer/Logs.antt =====
-- Which helpers of signal-server/src/index.ts leave `peers` and the ids of the connections as they are.
use p2p_llm_tunnel.Prelude.{
  ℕ, ◌≡◌, ◌≢◌, refl, sym, ◌∙◌, List, [], ◌∷◌, Bool, Option, none, some, get, insert,
  get-remove_other, bytes_eq, nat_eq, arith,
}
use p2p_llm_tunnel.Protocol.{Bytes}
use p2p_llm_tunnel.Signaling.{IncomingSignal, peer_left}
use p2p_llm_tunnel.SignalServer.{
  Peer, SignalServer, send, send_error, notify, notify_all, delete, shrink_room, leave_room,
  remove_known, remove_peer,
}

-- The same peers, under the same connections.
pub record Logs (s t : SignalServer) : Type 0 where
  pub peers : t.peers ≡ s.peers
  pub ids : t.ids ≡ s.ids

pub Logs-trans : {s t r : SignalServer} → Logs s t → Logs t r → Logs s r
Logs-trans a b = record { peers = b.peers ∙ a.peers; ids = b.ids ∙ a.ids }

nothing_logged : (s : SignalServer) → Logs s s
nothing_logged s = record { peers = refl; ids = refl }

module _ (ready : ℕ → Bool) where
  pub send-Logs : (ws : ℕ) (msg : IncomingSignal) (s : SignalServer) → Logs s (send ready ws msg s)
  unfolding send
  send-Logs ws msg s = record { peers = ground arith; ids = ground arith }

  pub notify-Logs :
      (p : Option Peer) (msg : IncomingSignal) (s : SignalServer) → Logs s (notify ready p msg s)
  unfolding notify
  notify-Logs none msg s = nothing_logged s
  notify-Logs (some p) msg s = send-Logs p.ws msg s

  pub notify_all-Logs :
      (ids : List Bytes) (msg : IncomingSignal) (s : SignalServer)
      → Logs s (notify_all ready ids msg s)
  unfolding notify_all
  notify_all-Logs [] msg s = nothing_logged s
  notify_all-Logs (id ∷ rest) msg s =
      Logs-trans (notify-Logs (get s.peers id) msg s) (notify_all-Logs rest msg _)

  pub send_error-Logs :
      (ws : ℕ) (text : Bytes) (s : SignalServer) → Logs s (send_error ready ws text s)
  unfolding send_error
  send_error-Logs ws text s = send-Logs ws (IncomingSignal.error text) s

  leave_room-Logs :
      (id room : Bytes) (o : Option (List Bytes)) (s : SignalServer)
      → Logs s (leave_room ready id room o s)
  unfolding leave_room shrink_room
  leave_room-Logs id room none s = nothing_logged s
  leave_room-Logs id room (some ids) s = shrinks (delete ids id)
    where
      shrinks : (left : List Bytes) → Logs s (shrink_room ready id room left s)
      shrinks [] = record { peers = refl; ids = refl }
      shrinks (x ∷ xs) =
          Logs-trans (record { peers = refl; ids = refl })
            (notify_all-Logs (x ∷ xs) (peer_left id)
              (record s { rooms = insert s.rooms room (x ∷ xs) }))

  pub remove_peer-peers :
      (id u : Bytes) (s : SignalServer)
      → u ≢ id
      → get (remove_peer ready id s).peers u ≡ get s.peers u
  unfolding remove_peer remove_known
  remove_peer-peers id u s ne = known (get s.peers id)
    where
      known : (o : Option Peer) → get (remove_known ready id o s).peers u ≡ get s.peers u
      known none = refl
      known (some p) =
          let room_left = leave_room-Logs id p.room (get s.rooms p.room) s in
          rw room_left.peers (get-remove_other s.peers id u (λ e. ne (sym e)))

  pub remove_peer-ids : (id : Bytes) (s : SignalServer) → (remove_peer ready id s).ids ≡ s.ids
  unfolding remove_peer remove_known
  remove_peer-ids id s = known (get s.peers id)
    where
      known : (o : Option Peer) → (remove_known ready id o s).ids ≡ s.ids
      known none = refl
      known (some p) = (leave_room-Logs id p.room (get s.rooms p.room) s).ids
