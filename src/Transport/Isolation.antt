-- ===== src/Transport/Isolation.antt =====
-- What a callback of one peer leaves alone, and what a refused CONNECT leaves behind.
use webtransportd.Common.{
  ℕ, ◌≡◌, refl, ◌∙◌, Bool, true, false, List, [], ◌∷◌, Option, none, some, ◌==◌, arith, inl, inr,
  ◌⊎◌, Bool-cases, Option-cases,
}
use webtransportd.Common.Int.{ℤ, pos, minus_one}
use webtransportd.WorkQueue.{Ptr}
use webtransportd.Transport.Peers.{
  Peer, Server, Creation, new_peer, peer_create, unlink, peer_remove, replace, find_peer,
}
use webtransportd.Transport.Lifecycle.{Same, pump_peer-Same}
use webtransportd.Transport.Callback.{
  Event, post_data, post_fin, post_datagram, provide_data, provide_datagram, deregister, other,
  Surroundings, on_post, on_post_datagram, pump_peer, on_event, wt_session_cb, accept_peer,
  wt_session_connect,
}

find_peer-unlink :
    (a b : Ptr) (peers : List Peer)
    → (b == a) ≡ false
    → find_peer a (unlink b peers) ≡ find_peer a peers
unfolding find_peer unlink
find_peer-unlink a b [] ne = refl
find_peer-unlink a b (q ∷ peers) ne = elim (Bool-cases (q.address == b)) [
  | inl hit ↦ let apart : (q.address == a) ≡ false = ground arith in rw (hit, apart) refl
  | inr miss ↦ rw (miss, find_peer-unlink a b peers ne) refl
]

find_peer-replace :
    (a : Ptr) (p : Peer) (peers : List Peer)
    → (p.address == a) ≡ false
    → find_peer a (replace p peers) ≡ find_peer a peers
unfolding find_peer replace
find_peer-replace a p [] ne = refl
find_peer-replace a p (q ∷ peers) ne = elim (Bool-cases (q.address == p.address)) [
  | inl hit ↦ let apart : (q.address == a) ≡ false = ground arith in rw (hit, apart, ne) refl
  | inr miss ↦ rw (miss, find_peer-replace a p peers ne) refl
]

module _ (around : Surroundings) where
  on_post-Same :
      (is_fin : Bool) (stream : ℕ) (bytes : List ℕ) (p p' : Peer)
      → on_post around is_fin stream bytes p ≡ some p'
      → Same p p'
  unfolding on_post
  on_post-Same is_fin stream bytes p p' e = ground arith

  on_post_datagram-Same :
      (bytes : List ℕ) (p p' : Peer) → on_post_datagram around bytes p ≡ some p' → Same p p'
  unfolding on_post_datagram
  on_post_datagram-Same bytes p p' e = ground arith

  pub on_event-Same :
      (event : Event) (p p' : Peer) → on_event around event p ≡ some (some p') → Same p p'
  unfolding on_event
  on_event-Same (post_data stream bytes) p p' e =
      elim (Option-cases (on_post around false stream bytes p)) [
        | inl out ↦ absurd (cc (rw out at e))
        | inr (q, done) ↦ on_post-Same false stream bytes p p' (done ∙ ground (arith, rw done at e))
      ]
  on_event-Same (post_fin stream bytes) p p' e =
      elim (Option-cases (on_post around true stream bytes p)) [
        | inl out ↦ absurd (cc (rw out at e))
        | inr (q, done) ↦ on_post-Same true stream bytes p p' (done ∙ ground (arith, rw done at e))
      ]
  on_event-Same (post_datagram bytes) p p' e =
      elim (Option-cases (on_post_datagram around bytes p)) [
        | inl out ↦ absurd (cc (rw out at e))
        | inr (q, done) ↦ on_post_datagram-Same bytes p p' (done ∙ ground (arith, rw done at e))
      ]
  on_event-Same provide_data p p' e = elim (Option-cases (pump_peer around p)) [
    | inl out ↦ absurd (cc (rw out at e))
    | inr (q, done) ↦ pump_peer-Same around p p' (done ∙ ground (arith, rw done at e))
  ]
  on_event-Same provide_datagram p p' e = ground arith
  on_event-Same deregister p p' e = ground arith
  on_event-Same other p p' e = ground arith

  -- A callback of one peer, its removal included, leaves every other peer of the server exactly as
  -- it was.
  pub callback-isolates :
      (event : Event) (p : Peer) (s s' : Server) (a : Ptr)
      → wt_session_cb around event (some p) s ≡ some s'
      → (p.address == a) ≡ false
      → find_peer a s'.peers ≡ find_peer a s.peers
  unfolding wt_session_cb peer_remove
  callback-isolates event p s s' a e ne = elim (Option-cases (on_event around event p)) [
    | inl out ↦ absurd (cc (rw out at e))
    | inr (none, removed) ↦
        let same : unlink p.address s.peers ≡ s'.peers = ground (arith, rw removed at e) in
        rw⁻¹ same (find_peer-unlink a p.address s.peers ne)
    | inr (some p', kept) ↦
        let same : replace p' s.peers ≡ s'.peers = ground (arith, rw kept at e) in
        rw⁻¹ same (find_peer-replace a p' s.peers (rw (on_event-Same event p p' kept).0 ne))
  ]

-- The peer that a CONNECT on a stream makes.
abbrev pub connected : Ptr → ℤ → ℕ → ℕ → Peer
connected address stdin_fd cnx stream =
    let p = new_peer address stdin_fd cnx in
    record p { link = record p.link { control_stream_id = stream } }

abbrev pub ConnectAnswer : Creation → Bool → ℕ → ℕ → Server → ℤ × Server → Type 0
ConnectAnswer c declared cnx stream s (rc, s') =
    ((rc ≡ minus_one)
      × (s'.peers ≡ s.peers)
      × ((c.memory ≡ none) ⊎ (c.spawn ≡ none) ⊎ (c.reader ≡ false) ⊎ (declared ≡ false)))
    ⊎ ((a : Ptr) × (fd : ℤ) × (rc ≡ pos 0)
        × (s'.peers ≡ connected a fd cnx stream ∷ s.peers)
        × (c.memory ≡ some a)
        × (c.spawn ≡ some fd)
        × (c.reader ≡ true)
        × (declared ≡ true))

connect_cases :
    (memory : Option Ptr) (spawn : Option ℤ) (reader declared : Bool) (cnx stream : ℕ) (s : Server)
    → let c : Creation = record { memory = memory; spawn = spawn; reader = reader } in
      ConnectAnswer c declared cnx stream s (wt_session_connect c declared cnx stream s)
unfolding wt_session_connect accept_peer peer_create peer_remove unlink replace
connect_cases none spawn reader declared cnx stream s = inl (refl, refl, inl refl)
connect_cases (some a) none reader declared cnx stream s = inl (refl, refl, inr (inl refl))
connect_cases (some a) (some fd) false declared cnx stream s =
    inl (refl, refl, inr (inr (inl refl)))
connect_cases (some a) (some fd) true false cnx stream s =
    let same : (a == a) ≡ true = ground arith in inl (refl, rw same refl, inr (inr (inr refl)))
connect_cases (some a) (some fd) true true cnx stream s =
    let same : (a == a) ≡ true = ground arith in
    inr (a, fd, refl, rw same refl, refl, refl, refl, refl)

-- A CONNECT is answered by 0 exactly when memory, child, reader thread and prefix are all there, and
-- then its peer is the new head of the list; in every other case it is answered by -1 and the list
-- of peers is as before.
pub connect_lem :
    (c : Creation) (declared : Bool) (cnx stream : ℕ) (s : Server)
    → ConnectAnswer c declared cnx stream s (wt_session_connect c declared cnx stream s)
connect_lem c declared cnx stream s = connect_cases c.memory c.spawn c.reader declared cnx stream s
