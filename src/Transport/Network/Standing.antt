-- ===== src/Transport/Network/Standing.antt =====
-- Which peers a history leaves standing, and which of its actions may still name them.
use webtransportd.Common.{
  ℕ, ◌≡◌, refl, ◌∙◌, inl, inr, Bool, true, false, List, [], ◌∷◌, none, some, arith, Option-cases,
}
use webtransportd.Common.Int.{ℤ}
use webtransportd.WorkQueue.{Ptr}
use webtransportd.Transport.Peers.{Peer, Server, Creation, replace, peer_remove}
use webtransportd.Transport.Callback.{
  Event, post_data, post_fin, post_datagram, provide_data, provide_datagram, deregister, other,
  Surroundings, pump_all, on_event, wt_session_cb, wt_session_connect, server_loop_cb,
}
use webtransportd.Transport.Isolation.{on_event-Same}
use webtransportd.Transport.Network.{Action, connect, callback, loop, output, output_end, Weather}
use webtransportd.Transport.Network.Accepted.{after_connect, connect-IsListed}
use webtransportd.Transport.Network.Stages.{
  IsListed, IsSound, IsDistinct, is_in, remove, replace-IsListed, unlink-IsListed,
  pump_all-IsListed, peer_remove-IsSound, remove-IsDistinct,
}

-- The addresses of the peers after an event, after an action.
abbrev pub after_event : Event → Ptr → List Ptr → List Ptr
after_event (post_data stream bytes) a live = live
after_event (post_fin stream bytes) a live = live
after_event (post_datagram bytes) a live = live
after_event provide_data a live = live
after_event provide_datagram a live = live
after_event deregister a live = remove a live
after_event other a live = live

abbrev pub after_action : Action → List Ptr → List Ptr
after_action (connect c declared cnx stream) live = after_connect c declared live
after_action (callback event none) live = live
after_action (callback event (some a)) live = after_event event a live
after_action (loop terminate ready should_exit) live = live
after_action (output a flag bytes) live = live
after_action (output_end a) live = live

-- malloc gives a new peer an address that no peer has; an event's context is NULL or a peer that was
-- connected and not removed; a reader thread delivers nothing once it was joined.
abbrev pub IsInOrder : Action → List Ptr → Type 0
IsInOrder (connect c declared cnx stream) live =
    (a : Ptr) → c.memory ≡ some a → is_in a live ≡ false
IsInOrder (callback event none) live = Unit {0}
IsInOrder (callback event (some a)) live = is_in a live ≡ true
IsInOrder (loop terminate ready should_exit) live = Unit {0}
IsInOrder (output a flag bytes) live = is_in a live ≡ true
IsInOrder (output_end a) live = is_in a live ≡ true

abbrev pub IsOrderly : List Ptr → List (Weather × Action) → Type 0
IsOrderly live [] = Unit {0}
IsOrderly live ((w, action) ∷ actions) =
    IsInOrder action live × IsOrderly (after_action action live) actions

-- The peers of the server are at the addresses `live`, no two at the same, each with its reader
-- thread, and the lives that began at the other addresses went through their steps in order.
pub record IsStanding (live : List Ptr) (s : Server) : Type 0 where
  pub listed : IsListed s.peers live
  pub sound : IsSound s.life live
  pub distinct : IsDistinct live

pub connect-IsStanding :
    (c : Creation) (declared : Bool) (cnx stream : ℕ) (s : Server) (live : List Ptr)
    → ((a : Ptr) → c.memory ≡ some a → is_in a live ≡ false)
    → IsStanding live s
    → IsStanding (after_connect c declared live) (wt_session_connect c declared cnx stream s).1
connect-IsStanding c declared cnx stream s live fresh h =
    let (l, d, k) =
      connect-IsListed c declared cnx stream s live fresh h.listed h.sound h.distinct in
    record { listed = l; sound = d; distinct = k }

pub replace-IsStanding :
    (p : Peer) (s : Server) (live : List Ptr)
    → p.reader_started ≡ true
    → IsStanding live s
    → IsStanding live (record s { peers = replace p s.peers })
replace-IsStanding p s live r h = record {
  listed = replace-IsListed p s.peers live r h.listed;
  sound = h.sound;
  distinct = h.distinct;
}

peer_remove-IsStanding :
    (p : Peer) (s : Server) (live : List Ptr)
    → p.reader_started ≡ true
    → is_in p.address live ≡ true
    → IsStanding live s
    → IsStanding (remove p.address live) (peer_remove p s)
unfolding peer_remove
peer_remove-IsStanding p s live r there h = record {
  listed = unlink-IsListed p.address s.peers live h.listed;
  sound = peer_remove-IsSound p s live r there h.distinct h.sound;
  distinct = remove-IsDistinct p.address live h.distinct;
}

module _ (around : Surroundings) where
  removes :
      (event : Event) (p : Peer) (a : Ptr) (live : List Ptr)
      → on_event around event p ≡ some none
      → after_event event a live ≡ remove a live
  unfolding on_event
  removes (post_data stream bytes) p a live e = ground arith
  removes (post_fin stream bytes) p a live e = ground arith
  removes (post_datagram bytes) p a live e = ground arith
  removes provide_data p a live e = ground arith
  removes provide_datagram p a live e = ground arith
  removes deregister p a live e = refl
  removes other p a live e = ground arith

  keeps :
      (event : Event) (p p' : Peer) (a : Ptr) (live : List Ptr)
      → on_event around event p ≡ some (some p')
      → after_event event a live ≡ live
  unfolding on_event
  keeps (post_data stream bytes) p p' a live e = refl
  keeps (post_fin stream bytes) p p' a live e = refl
  keeps (post_datagram bytes) p p' a live e = refl
  keeps provide_data p p' a live e = refl
  keeps provide_datagram p p' a live e = refl
  keeps deregister p p' a live e = ground arith
  keeps other p p' a live e = refl

  pub callback-IsStanding :
      (event : Event) (p : Peer) (s s' : Server) (live : List Ptr)
      → wt_session_cb around event (some p) s ≡ some s'
      → p.reader_started ≡ true
      → is_in p.address live ≡ true
      → IsStanding live s
      → IsStanding (after_event event p.address live) s'
  unfolding wt_session_cb
  callback-IsStanding event p s s' live e r there h =
      elim (Option-cases (on_event around event p)) [
        | inl out ↦ absurd (cc (rw out at e))
        | inr (none, removed) ↦
            let same : peer_remove p s ≡ s' = ground (arith, rw removed at e) in
            rw (removes event p p.address live removed)
              (rw⁻¹ same (peer_remove-IsStanding p s live r there h))
        | inr (some p', kept) ↦
            let same : record s { peers = replace p' s.peers } ≡ s' =
              ground (arith, rw kept at e) in
            let (_, reader) = on_event-Same around event p p' kept in
            rw (keeps event p p' p.address live kept)
              (rw⁻¹ same (replace-IsStanding p' s live (reader ∙ r) h))
      ]

  pub loop-IsStanding :
      (terminate rc : ℤ) (ready should_exit : Bool) (s s' : Server) (live : List Ptr)
      → server_loop_cb around terminate ready should_exit s ≡ some (rc, s')
      → IsStanding live s
      → IsStanding live s'
  unfolding server_loop_cb
  loop-IsStanding terminate rc true should_exit s s' live e h =
      let same : s ≡ s' = ground (arith, e) in rw⁻¹ same h
  loop-IsStanding terminate rc false true s s' live e h =
      let same : s ≡ s' = ground (arith, e) in rw⁻¹ same h
  loop-IsStanding terminate rc false false s s' live e h =
      elim (Option-cases (pump_all around s.peers)) [
        | inl out ↦ absurd (cc (rw out at e))
        | inr (peers, pumped) ↦
            let same : record s { peers = peers } ≡ s' = ground (arith, rw pumped at e) in
            rw⁻¹ same (record {
              listed = pump_all-IsListed around s.peers peers live pumped h.listed;
              sound = h.sound;
              distinct = h.distinct;
            })
      ]
