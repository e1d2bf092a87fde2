-- ===== src/SignalServer/Pairs.antt =====
-- Two peers that join a room of signal-server/src/index.ts, and what tunnel/src/rtc.rs makes of what
-- they hear.
use p2p_llm_tunnel.Prelude.{
  ℕ, ◌≡◌, ◌≢◌, refl, sym, ap, ◌∙◌, List, [], ◌∷◌, ◌++◌, Bool, true, Option, none, some, get, insert,
  get-insert_self, get-insert_other, matches_self, matches_ne, ◌==◌, bytes_eq, nat_eq, map, keep_if,
  codes,
}
use p2p_llm_tunnel.Protocol.{Bytes}
use p2p_llm_tunnel.Signaling.{IncomingSignal, joined, peer_joined}
use p2p_llm_tunnel.SignalServer.{
  Peer, join, SignalServer, first_other, bind, enter_room, on_join, get_other_peer, relay,
  on_message, message, run_server,
}

abbrev pub all_open : ℕ → Bool
all_open ws = true

-- Two connections are the two peers of a room.
pub record Paired (ws ws' : ℕ) (u u' room : Bytes) (t : SignalServer) : Type 0 where
  pub first_id : get t.ids ws ≡ some u
  pub second_id : get t.ids ws' ≡ some u'
  pub first_peer : get t.peers u ≡ some (record { ws = ws; room = room })
  pub second_peer : get t.peers u' ≡ some (record { ws = ws'; room = room })
  pub both : get t.rooms room ≡ some (u ∷ u' ∷ [])

abbrev pub hears : ℕ → IncomingSignal → SignalServer → SignalServer
hears ws msg s = record s { sent = s.sent ++ (ws, msg) ∷ [] }

abbrev pub entered : ℕ → Bytes → Bytes → List Bytes → SignalServer → SignalServer
entered ws u room ids s = record s {
  peers = insert s.peers u (record { ws = ws; room = room });
  rooms = insert s.rooms room (ids ++ u ∷ []);
  ids = insert s.ids ws u;
}

join_first :
    (ws : ℕ) (u : Bytes) (c : ℕ) (cs : Bytes) (s : SignalServer)
    → get s.ids ws ≡ none
    → get s.rooms (c ∷ cs) ≡ none
    → on_message all_open u ws (join (some (c ∷ cs))) s
      ≡ some (hears ws (joined u []) (entered ws u (c ∷ cs) [] s))
unfolding on_message
join_first ws u c cs s i r = rw (i, on_join, r) refl

join_second :
    (ws' : ℕ) (u u' : Bytes) (c : ℕ) (cs : Bytes) (p : Peer) (s : SignalServer)
    → u' ≢ u
    → get s.ids ws' ≡ none
    → get s.rooms (c ∷ cs) ≡ some (u ∷ [])
    → get s.peers u ≡ some p
    → on_message all_open u' ws' (join (some (c ∷ cs))) s
      ≡ some (
          hears p.ws
            (peer_joined u')
            (hears ws' (joined u' (u ∷ [])) (entered ws' u' (c ∷ cs) (u ∷ []) s)))
unfolding on_message
join_second ws' u u' c cs p s ne i r q =
    let known : get (insert s.peers u' (record { ws = ws'; room = c ∷ cs })) u ≡ some p =
      get-insert_other s.peers u' _ u ne ∙ q in
    rw (i, on_join, r) (unfold enter_room in rw known refl)

module _ (ws ws' : ℕ) (u u' : Bytes) (c : ℕ) (cs : Bytes) (s : SignalServer) (apart : ws ≢ ws')
    (ne : u ≢ u') (i : get s.ids ws ≡ none) (i' : get s.ids ws' ≡ none)
    (r : get s.rooms (c ∷ cs) ≡ none) where
  abbrev pub room : Bytes
  room = c ∷ cs

  abbrev pub one_in : SignalServer
  one_in = hears ws (joined u []) (entered ws u room [] s)

  abbrev pub two_in : SignalServer
  two_in =
      hears ws (peer_joined u')
        (hears ws' (joined u' (u ∷ [])) (entered ws' u' room (u ∷ []) one_in))

  pub joins_run :
      run_server
        (message all_open u ws (join (some room)) ∷ message all_open u' ws' (join (some room)) ∷ [])
        s
      ≡ some two_in
  unfolding run_server
  joins_run =
      ap (λ o. bind o (run_server (message all_open u' ws' (join (some room)) ∷ [])))
        (join_first ws u c cs s i r)
      ∙ ap (λ o. bind o (run_server []))
          (join_second ws' u u' c cs (record { ws = ws; room = room }) one_in (λ e. ne (sym e))
            (get-insert_other s.ids ws u ws' apart ∙ i') (get-insert_self s.rooms room (u ∷ []))
            (get-insert_self s.peers u (record { ws = ws; room = room })))

  pub joins-Paired : Paired ws ws' u u' room two_in
  joins-Paired = record {
    first_id =
        get-insert_other one_in.ids ws' u' ws (λ e. apart (sym e)) ∙ get-insert_self s.ids ws u;
    second_id = get-insert_self one_in.ids ws' u';
    first_peer =
        get-insert_other one_in.peers u' _ u (λ e. ne (sym e)) ∙ get-insert_self s.peers u _;
    second_peer = get-insert_self one_in.peers u' _;
    both = get-insert_self one_in.rooms room (u ∷ u' ∷ []);
  }

first_other-second : (u u' : Bytes) → u ≢ u' → first_other u (u ∷ u' ∷ []) ≡ some u'
unfolding first_other
first_other-second u u' ne = rw (matches_self u, matches_ne u' u (λ e. ne (sym e)))

first_other-first : (u u' : Bytes) → u ≢ u' → first_other u' (u ∷ u' ∷ []) ≡ some u
unfolding first_other
first_other-first u u' ne = rw (matches_ne u u' ne)

module _ (ws ws' : ℕ) (u u' room : Bytes) (t : SignalServer) (ne : u ≢ u')
    (p : Paired ws ws' u u' room t) where
  other_of_first : get_other_peer u room t ≡ some (record { ws = ws'; room = room })
  unfolding get_other_peer
  other_of_first = rw (p.both, first_other-second u u' ne, p.second_peer)

  other_of_second : get_other_peer u' room t ≡ some (record { ws = ws; room = room })
  unfolding get_other_peer
  other_of_second = rw (p.both, first_other-first u u' ne, p.first_peer)

  pub relay_first :
      (msg : Bytes → IncomingSignal)
      → relay all_open ws (get t.ids ws) msg t ≡ some (hears ws' (msg u) t)
  unfolding relay
  relay_first msg = rw (p.first_id, relay, p.first_peer, other_of_first) refl

  pub relay_second :
      (msg : Bytes → IncomingSignal)
      → relay all_open ws' (get t.ids ws') msg t ≡ some (hears ws (msg u') t)
  unfolding relay
  relay_second msg = rw (p.second_id, relay, p.second_peer, other_of_second) refl

-- A third connection is told that the room is full, and nothing changes.
abbrev pub IsFull : Bytes → SignalServer → Type 0
IsFull room t =
    (x : Bytes) (ws : ℕ)
    → get t.ids ws ≡ none
    → on_message all_open x ws (join (some room)) t
      ≡ some (
          hears ws (IncomingSignal.error (codes "room '" ++ (room ++ codes "' is full (max 2)"))) t)

pub Paired-IsFull :
    (ws ws' : ℕ) (u u' : Bytes) (c : ℕ) (cs : Bytes) (t : SignalServer)
    → Paired ws ws' u u' (c ∷ cs) t
    → IsFull (c ∷ cs) t
unfolding on_message
Paired-IsFull ws ws' u u' c cs t p x ws'' i = rw (i, on_join, p.both) refl

-- The signals that a connection hears.
unfoldable pub heard : ℕ → List (ℕ × IncomingSignal) → List (Option IncomingSignal)
heard ws log = map (λ e. some e.1) (keep_if (λ e. e.0 == ws) log)

pub heard-first :
    (ws ws' : ℕ) (a b d : IncomingSignal)
    → ws ≢ ws'
    → heard ws ((ws, a) ∷ (ws', b) ∷ (ws, d) ∷ []) ≡ some a ∷ some d ∷ []
unfolding heard keep_if
heard-first ws ws' a b d apart = rw (matches_self ws, matches_ne ws' ws (λ e. apart (sym e))) refl

pub heard-second :
    (ws ws' : ℕ) (a b d : IncomingSignal)
    → ws ≢ ws'
    → heard ws' ((ws, a) ∷ (ws', b) ∷ (ws, d) ∷ []) ≡ some b ∷ []
unfolding heard keep_if
heard-second ws ws' a b d apart = rw (matches_self ws', matches_ne ws ws' apart) refl
