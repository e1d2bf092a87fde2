-- ===== src/Rtc/Role.antt =====
-- tunnel/src/rtc.rs: the loop of `connect` that settles who makes the offer.
use p2p_llm_tunnel.Prelude.{
  ◌≡◌, ◌≢◌, refl, List, [], ◌∷◌, ◌++◌, Bool, true, false, Option, none, some, All,
}
use p2p_llm_tunnel.Protocol.{Bytes}
use p2p_llm_tunnel.Signaling.{
  IncomingSignal, joined, peer_joined, offer, answer, candidate, peer_left, error,
}
use p2p_llm_tunnel.Rtc.{RtcError, connection_lost, signaling_error}

-- Where the loop waits: at its head for `Joined`, or within that arm for `PeerJoined`.
pub data Phase : Type 0 where
  joining waiting_for_peer : Phase

-- `role true` is the offerer's.
pub data RoleStep : Type 0 where
  role : Bool → RoleStep
  failed : RtcError → RoleStep
  phase : Phase → RoleStep

unfoldable pub on_joined : List Bytes → RoleStep
on_joined [] = phase waiting_for_peer
on_joined (p ∷ ps) = role false

-- `none` is the end of the signaling connection. Any signal but the expected one or an error leads
-- back to the head of the loop, from both waits.
unfoldable pub role_step : Phase → Option IncomingSignal → RoleStep
unfolding on_joined
role_step joining none = failed connection_lost
role_step joining (some (joined peer_id peers)) = on_joined peers
role_step joining (some (error message)) = failed (signaling_error message)
role_step joining (some _) = phase joining
role_step waiting_for_peer none = failed connection_lost
role_step waiting_for_peer (some (peer_joined peer_id)) = role true
role_step waiting_for_peer (some (error message)) = failed (signaling_error message)
role_step waiting_for_peer (some _) = phase joining

abbrev pub then_wait : (Phase → RoleStep) → RoleStep → RoleStep
then_wait k (phase p) = k p
then_wait k s = s

unfoldable pub determine_role : List (Option IncomingSignal) → Phase → RoleStep
unfolding role_step
determine_role [] p = phase p
determine_role (s ∷ rest) p = then_wait (determine_role rest) (role_step p s)

-- What is left in the queue when the loop ends.
abbrev pub left_then :
    (Phase → List (Option IncomingSignal))
    → List (Option IncomingSignal)
    → RoleStep
    → List (Option IncomingSignal)
left_then k rest (phase p) = k p
left_then k rest _ = rest

unfoldable pub left_signals : List (Option IncomingSignal) → Phase → List (Option IncomingSignal)
unfolding role_step
left_signals [] p = []
left_signals (s ∷ rest) p = left_then (left_signals rest) rest (role_step p s)

-- A signal that neither loop waits for.
abbrev pub IsOther : Option IncomingSignal → Type 0
IsOther (some (offer i s)) = Unit
IsOther (some (answer i s)) = Unit
IsOther (some (candidate i c)) = Unit
IsOther (some (peer_left i)) = Unit
IsOther _ = ⊥

-- Whatever else arrives first: the peer that finds the room empty and then sees another join makes
-- the offer, and the peer that finds someone in the room answers.
determine_role_complementary :
    (before : List (Option IncomingSignal)) (me other : Bytes) (others : List Bytes)
    (rest : List (Option IncomingSignal))
    → All IsOther before
    → (determine_role (before ++ some (joined me []) ∷ some (peer_joined other) ∷ rest) joining
        ≡ role true)
      × (determine_role (before ++ some (joined me (other ∷ others)) ∷ rest) joining ≡ role false)
unfolding determine_role
determine_role_complementary [] me other others rest h = (refl, refl)
determine_role_complementary (none ∷ before) me other others rest h = elim h.0 [ ]
determine_role_complementary (some (joined i ps) ∷ before) me other others rest h = elim h.0 [ ]
determine_role_complementary (some (peer_joined i) ∷ before) me other others rest h = elim h.0 [ ]
determine_role_complementary (some (error m) ∷ before) me other others rest h = elim h.0 [ ]
determine_role_complementary (some _ ∷ before) me other others rest h =
    determine_role_complementary before me other others rest h.1

-- A signal that `PeerJoined` may follow once the first wait is over.
abbrev pub IsNoJoin : Option IncomingSignal → Type 0
IsNoJoin (some (joined i ps)) = ⊥
IsNoJoin _ = Unit

stays_joining :
    (signals : List (Option IncomingSignal)) (b : Bool)
    → All IsNoJoin signals
    → determine_role signals joining ≢ role b
unfolding determine_role
stays_joining [] b h e = cc
stays_joining (none ∷ rest) b h e = cc
stays_joining (some (joined i ps) ∷ rest) b h e = elim h.0 [ ]
stays_joining (some (error m) ∷ rest) b h e = cc
stays_joining (some _ ∷ rest) b h e = stays_joining rest b h.1 e

-- The first peer of a room that gets any other signal while it waits for a peer forgets that it has
-- joined: a `PeerJoined` that follows is ignored, and no role is ever settled, unless the server
-- sends a second `Joined`.
pub determine_role_stuck :
    (me : Bytes) (s : Option IncomingSignal) (rest : List (Option IncomingSignal)) (b : Bool)
    → IsOther s
    → All IsNoJoin rest
    → determine_role (some (joined me []) ∷ s ∷ rest) joining ≢ role b
unfolding determine_role
determine_role_stuck me (some (joined i ps)) rest b o h e = elim o [ ]
determine_role_stuck me (some (peer_joined i)) rest b o h e = elim o [ ]
determine_role_stuck me (some (error m)) rest b o h e = elim o [ ]
determine_role_stuck me none rest b o h e = elim o [ ]
determine_role_stuck me (some _) rest b o h e = stays_joining rest b h e
