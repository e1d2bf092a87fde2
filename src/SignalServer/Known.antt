-- ===== src/SignalServer/Known.antt =====
-- The peers of the connections of signal-server/src/index.ts, through each handler.
use p2p_llm_tunnel.Prelude.{
  ℕ, ◌≡◌, ◌≢◌, refl, sym, ap, ◌∙◌, List, [], ◌∷◌, ◌++◌, Bool, true, false, Option, none, some,
  HashMap, get, insert, remove, get-insert, get-remove, get-insert_self, get-insert_other,
  matches_self, ◌⊎◌, ◌==◌, bytes_eq, nat_eq, contains, leb, length, arith, Bool-cases, inl, inr,
}
use p2p_llm_tunnel.Protocol.{Bytes}
use p2p_llm_tunnel.Signaling.{IncomingSignal, joined, peer_joined}
use p2p_llm_tunnel.SignalServer.{
  Peer, SignalServer, max_room_size, send, remove_peer, enter, members, enter_room, on_join,
  get_other_peer, relay_from, relay, on_bye, on_close,
}
use p2p_llm_tunnel.SignalServer.Logs.{
  Logs, Logs-trans, send-Logs, notify-Logs, notify_all-Logs, send_error-Logs, remove_peer-peers,
  remove_peer-ids,
}

-- The connections with a peer id that have not closed are those of known peers, and no two have one id.
pub record Sound (used : List Bytes) (closed : List ℕ) (s : SignalServer) : Type 0 where
  pub known :
      (ws : ℕ) (u : Bytes)
      → get s.ids ws ≡ some u
      → contains closed ws ≡ false
      → (p : Peer) × (get s.peers u ≡ some p)
  pub was_used : (ws : ℕ) (u : Bytes) → get s.ids ws ≡ some u → contains used u ≡ true
  pub apart : (ws ws' : ℕ) (u : Bytes) → get s.ids ws ≡ some u → get s.ids ws' ≡ some u → ws ≡ ws'

Logs-Sound :
    {used : List Bytes} {closed : List ℕ} {s t : SignalServer}
    → Logs s t
    → Sound used closed s
    → Sound used closed t
Logs-Sound l v = record {
  known = λ ws u e. rw l.peers (v.known ws u (rw l.ids at e));
  was_used = λ ws u e. v.was_used ws u (rw l.ids at e);
  apart = λ ws ws' u e e'. v.apart ws ws' u (rw l.ids at e) (rw l.ids at e');
}

-- A state for an event that has not thrown, or none.
abbrev pub Goes : List Bytes → List ℕ → Option SignalServer → Type 0
Goes used closed none = ⊥
Goes used closed (some t) = Sound used closed t

none_ne_some : (u : Bytes) → ◌≢◌ {A = Option Bytes} none (some u)
none_ne_some u e = cc

still_open :
    (closed : List ℕ) (ws k : ℕ)
    → contains (ws ∷ closed) k ≡ false
    → (contains closed k ≡ false) × (k ≢ ws)
unfolding contains
still_open closed ws k e = (ground arith, ground arith)

kept_id :
    (ids : HashMap ℕ Bytes) (ws k : ℕ) (u : Bytes)
    → get (remove ids ws) k ≡ some u
    → (k ≢ ws) × (get ids k ≡ some u)
kept_id ids ws k u e =
    let found = get-remove ids ws k in
    elim (Bool-cases (ws == k)) [
      | inl same ↦
          let gone : none ≡ some u = sym (rw same at found) ∙ e in elim (none_ne_some u gone) [ ]
      | inr other ↦ ((λ same. ground (arith, nat_eq.agrees ws k)), sym (rw other at found) ∙ e)
    ]

module _ (ready : ℕ → Bool) (used : List Bytes) (closed : List ℕ) (s : SignalServer)
    (v : Sound used closed s) where
  peer_removed :
      (ws : ℕ) (u : Bytes) (closed' : List ℕ) (t : SignalServer)
      → get s.ids ws ≡ some u
      → t.peers ≡ (remove_peer ready u s).peers
      → ((k : ℕ) (x : Bytes) → get t.ids k ≡ some x → get s.ids k ≡ some x)
      → ((k : ℕ) (x : Bytes)
          → get t.ids k ≡ some x
          → contains closed' k ≡ false
          → (contains closed k ≡ false) × (k ≢ ws))
      → Sound used closed' t
  peer_removed ws u closed' t here peers older others = record {
    known = λ k x e o.
        let (live, other) = others k x e o in
        let ne : x ≢ u = λ same. other (v.apart k ws u (older k x e ∙ ap some same) here) in
        rw (peers, remove_peer-peers ready u x s ne) (v.known k x (older k x e) live);
    was_used = λ k x e. v.was_used k x (older k x e);
    apart = λ k k' x e e'. v.apart k k' x (older k x e) (older k' x e');
  }

  fresh_id : (uuid : Bytes) → contains used uuid ≡ false → (ws : ℕ) → get s.ids ws ≢ some uuid
  fresh_id uuid new ws e = let seen = v.was_used ws uuid e in cc

  pub one_more : (uuid : Bytes) → Sound (uuid ∷ used) closed s
  unfolding contains
  one_more uuid = record {
    known = v.known;
    was_used = λ ws u e. rw (v.was_used ws u e) (ground arith);
    apart = v.apart;
  }

  -- Whose id it is, after the connection has got one.
  whose :
      (uuid : Bytes) (ws k : ℕ) (u : Bytes)
      → get (insert s.ids ws uuid) k ≡ some u
      → ((ws ≡ k) × (uuid ≡ u)) ⊎ (get s.ids k ≡ some u)
  whose uuid ws k u e =
      let found = get-insert s.ids ws uuid k in
      elim (Bool-cases (ws == k)) [
        | inl same ↦
            let at_k : some uuid ≡ some u = sym (rw same at found) ∙ e in
            inl ((nat_eq.agrees ws k).0 same, cc)
        | inr other ↦ inr (sym (rw other at found) ∙ e)
      ]

  one_holder :
      (uuid : Bytes)
      → contains used uuid ≡ false
      → (ws k k' : ℕ) (u : Bytes) → ((ws ≡ k) × (uuid ≡ u)) ⊎ (get s.ids k ≡ some u)
      → ((ws ≡ k') × (uuid ≡ u)) ⊎ (get s.ids k' ≡ some u)
      → k ≡ k'
  one_holder uuid new ws k k' u (inl (a, same)) (inl (b, same')) = sym a ∙ b
  one_holder uuid new ws k k' u (inl (a, same)) (inr b) =
      elim (fresh_id uuid new k' (b ∙ ap some (sym same))) [ ]
  one_holder uuid new ws k k' u (inr a) (inl (b, same)) =
      elim (fresh_id uuid new k (a ∙ ap some (sym same))) [ ]
  one_holder uuid new ws k k' u (inr a) (inr b) = v.apart k k' u a b

  enter-Sound :
      (uuid : Bytes) (ws : ℕ) (room : Bytes) (existing : List Bytes)
      → contains used uuid ≡ false
      → Sound (uuid ∷ used) closed (enter ready uuid ws room existing s)
  unfolding enter contains
  enter-Sound uuid ws room existing new =
      let t : SignalServer = record s {
        peers = insert s.peers uuid (record { ws = ws; room = room });
        rooms = insert s.rooms room (existing ++ uuid ∷ []);
        ids = insert s.ids ws uuid;
      } in
      Logs-Sound
        (Logs-trans (send-Logs ready ws (joined uuid existing) t) (
          notify_all-Logs ready existing (peer_joined uuid)
            (send ready ws (joined uuid existing) t)))
        (record {
          known = λ k u e o. elim (whose uuid ws k u e) [
            | inl (at_k, same) ↦
                (_, ap (get (insert s.peers uuid _)) (sym same) ∙ get-insert_self s.peers uuid _)
            | inr before ↦
                let (p, there) = v.known k u before o in
                (
                  p,
                  get-insert_other s.peers uuid _ u
                        (λ e. fresh_id uuid new k (before ∙ ap some (sym e)))
                      ∙ there,
                )
          ];
          was_used = λ k u e. elim (whose uuid ws k u e) [
            | inl (at_k, same) ↦ rw (← same, matches_self uuid) refl
            | inr before ↦ rw (v.was_used k u before) (ground arith)
          ];
          apart = λ k k' u e e'.
              one_holder uuid new ws k k' u (whose uuid ws k u e) (whose uuid ws k' u e');
        })

  pub logged : (uuid : Bytes) {t : SignalServer} → Logs s t → Sound (uuid ∷ used) closed t
  logged uuid l = Logs-Sound l (one_more uuid)

  pub on_join-Sound :
      (uuid : Bytes) (ws : ℕ) (id room : Option Bytes)
      → contains used uuid ≡ false
      → Sound (uuid ∷ used) closed (on_join ready uuid ws id room s)
  unfolding on_join enter_room
  on_join-Sound uuid ws (some id) room new = logged uuid (send_error-Logs ready ws _ s)
  on_join-Sound uuid ws none none new = logged uuid (send_error-Logs ready ws _ s)
  on_join-Sound uuid ws none (some []) new = logged uuid (send_error-Logs ready ws _ s)
  on_join-Sound uuid ws none (some (c ∷ cs)) new =
      elim (Bool-cases (leb max_room_size (length (members (get s.rooms (c ∷ cs)))))) [
        | inl full ↦ rw full (logged uuid (send_error-Logs ready ws _ s))
        | inr some_room ↦
            rw some_room (enter-Sound uuid ws (c ∷ cs) (members (get s.rooms (c ∷ cs))) new)
      ]

  pub relay-Goes :
      (uuid : Bytes) (ws : ℕ) (o : Option Bytes) (msg : Bytes → IncomingSignal)
      → get s.ids ws ≡ o
      → contains closed ws ≡ false
      → Goes (uuid ∷ used) closed (relay ready ws o msg s)
  unfolding relay relay_from
  relay-Goes uuid ws none msg e live = logged uuid (send_error-Logs ready ws _ s)
  relay-Goes uuid ws (some u) msg e live =
      let (p, there) = v.known ws u e live in
      rw there (logged uuid (notify-Logs ready (get_other_peer u p.room s) (msg u) s))

  pub on_bye-Sound :
      (uuid : Bytes) (ws : ℕ) (o : Option Bytes)
      → get s.ids ws ≡ o
      → Sound used closed (on_bye ready ws o s)
  unfolding on_bye
  on_bye-Sound uuid ws none e = v
  on_bye-Sound uuid ws (some u) e =
      let same_ids = remove_peer-ids ready u s in
      let kept : (k : ℕ) (x : Bytes)
          → get (remove (remove_peer ready u s).ids ws) k ≡ some x
          → (k ≢ ws) × (get s.ids k ≡ some x) =
        λ k x h. rw same_ids at (kept_id (remove_peer ready u s).ids ws k x h) in
      peer_removed ws u closed _ e refl (λ k x h. (kept k x h).1)
        (λ k x h live. (live, (kept k x h).0))

  pub on_close-Sound :
      (ws : ℕ) (o : Option Bytes) → get s.ids ws ≡ o → Sound used (ws ∷ closed) (on_close ready o s)
  unfolding on_close
  on_close-Sound ws none e = record {
    known = λ k x h o. v.known k x h (still_open closed ws k o).0;
    was_used = v.was_used;
    apart = v.apart;
  }
  on_close-Sound ws (some u) e =
      let same_ids = remove_peer-ids ready u s in
      peer_removed ws u (ws ∷ closed) _ e refl (λ k x h. rw same_ids at h)
        (λ k x h o. still_open closed ws k o)
