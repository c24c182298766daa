-- ===== src/Transport/Network/Events.antt =====
-- What one event, one round of the packet loop and one CONNECT do to the sessions of all peers.
use webtransportd.Common.{
  ℕ, ◌≡◌, ◌≤◌, refl, ◌⊎◌, inl, inr, Bool, true, false, List, [], ◌∷◌, Option, none, some, ◌==◌,
  arith, All, Bool-cases,
}
use webtransportd.Common.Int.{ℤ, pos}
use webtransportd.WorkQueue.{Ptr}
use webtransportd.WorkQueue.Chain.{init-Holds}
use webtransportd.Session.{wtd_session_init}
use webtransportd.Session.Deliver.{IsMalloc}
use webtransportd.Transport.Peers.{Peer, Server, Creation, unlink, peer_remove, replace, find_peer}
use webtransportd.Transport.Callback.{
  Event, post_data, post_fin, post_datagram, provide_data, provide_datagram, deregister, other,
  on_event, wt_session_cb, wt_session_connect, server_loop_cb,
}
use webtransportd.Transport.Isolation.{connected, connect_lem}
use webtransportd.Transport.Network.{Weather, around}
use webtransportd.Transport.Network.Served.{
  IsServed, IsAllocator, on_post-IsServed, on_post_datagram-IsServed, pump_peer-IsServed,
  pump_all-IsServed,
}

-- What malloc answers is what malloc may answer.
pub record IsFair (w : Weather) : Type 0 where
  pub malloc : IsMalloc w.malloc
  pub allocator : IsAllocator w.allocator

pub IsServed-more : (m n : ℕ) (p : Peer) → m ≤ n → IsServed m p → IsServed n p
IsServed-more m n p le (cs, held, few) = (cs, held, omega arith)

pub All-more :
    (m n : ℕ) (peers : List Peer) → m ≤ n → All (IsServed m) peers → All (IsServed n) peers
All-more m n [] le h = tt
All-more m n (p ∷ peers) le (one, others) =
    (IsServed-more m n p le one, All-more m n peers le others)

module _ (P : Peer → Type 0) where
  pub All-unlink : (a : Ptr) (peers : List Peer) → All P peers → All P (unlink a peers)
  unfolding unlink
  All-unlink a [] h = tt
  All-unlink a (q ∷ peers) h = elim (Bool-cases (q.address == a)) [
    | inl hit ↦ rw hit h.1
    | inr miss ↦ rw miss (h.0, All-unlink a peers h.1)
  ]

  pub All-replace : (p : Peer) (peers : List Peer) → P p → All P peers → All P (replace p peers)
  unfolding replace
  All-replace p [] hp h = tt
  All-replace p (q ∷ peers) hp h = elim (Bool-cases (q.address == p.address)) [
    | inl hit ↦ rw hit (hp, h.1)
    | inr miss ↦ rw miss (h.0, All-replace p peers hp h.1)
  ]

  pub All-find_peer :
      (a : Ptr) (p : Peer) (peers : List Peer) → find_peer a peers ≡ some p → All P peers → P p
  unfolding find_peer
  All-find_peer a p [] e h = cc
  All-find_peer a p (q ∷ peers) e h = elim (Bool-cases (q.address == a)) [
    | inl hit ↦ let is : q ≡ p = cc (rw hit at e) in rw⁻¹ is h.0
    | inr miss ↦ All-find_peer a p peers (rw miss at e) h.1
  ]

module _ (n rounds : ℕ) (w : Weather) (fair : IsFair w) (enough : n ≤ rounds) where
  on_event-IsServed :
      (event : Event) (p : Peer)
      → IsServed n p
      → ((p' : Peer) × (on_event (around rounds w) event p ≡ some (some p')) × IsServed n p')
        ⊎ (on_event (around rounds w) event p ≡ some none)
  unfolding on_event
  on_event-IsServed (post_data stream bytes) p h =
      let (p', e, h') = on_post-IsServed (around rounds w) n false stream bytes p fair.malloc h in
      inl (p', rw e refl, h')
  on_event-IsServed (post_fin stream bytes) p h =
      let (p', e, h') = on_post-IsServed (around rounds w) n true stream bytes p fair.malloc h in
      inl (p', rw e refl, h')
  on_event-IsServed (post_datagram bytes) p h =
      let (p', e, h') = on_post_datagram-IsServed (around rounds w) n bytes p fair.malloc h in
      inl (p', rw e refl, h')
  on_event-IsServed provide_data p h =
      let (p', e, h') = pump_peer-IsServed (around rounds w) n p enough h in
      inl (p', rw e refl, IsServed-more 0 n p' (omega arith) h')
  on_event-IsServed provide_datagram p h = inl (_, refl, h)
  on_event-IsServed deregister p h = inr refl
  on_event-IsServed other p h = inl (p, refl, h)

  pub callback-IsServed :
      (event : Event) (who : Option Peer) (s : Server)
      → ((p : Peer) → who ≡ some p → IsServed n p)
      → All (IsServed n) s.peers
      → (s' : Server) × (wt_session_cb (around rounds w) event who s ≡ some s')
        × All (IsServed n) s'.peers
  unfolding wt_session_cb peer_remove
  callback-IsServed event none s who h = (s, refl, h)
  callback-IsServed event (some p) s who h = elim (on_event-IsServed event p (who p refl)) [
    | inl (p', e, h') ↦ (
      record s { peers = replace p' s.peers },
      rw e refl,
      All-replace (IsServed n) p' s.peers h' h,
    )
    | inr removed ↦ (peer_remove p s, rw removed refl, All-unlink (IsServed n) p.address s.peers h)
  ]

  pub loop-IsServed :
      (terminate : ℤ) (ready should_exit : Bool) (s : Server)
      → All (IsServed n) s.peers
      → (r : ℤ × Server) × (server_loop_cb (around rounds w) terminate ready should_exit s ≡ some r)
        × All (IsServed n) r.1.peers
  unfolding server_loop_cb
  loop-IsServed terminate true should_exit s h = (_, refl, h)
  loop-IsServed terminate false true s h = (_, refl, h)
  loop-IsServed terminate false false s h =
      let (peers, e, h') = pump_all-IsServed (around rounds w) n s.peers enough h in
      ((pos 0, record s { peers = peers }), rw e refl, All-more 0 n peers (omega arith) h')

  -- A round that pumps leaves no queue.
  pub loop_round-IsServed :
      (terminate : ℤ) (s : Server)
      → All (IsServed n) s.peers
      → (s' : Server) × (server_loop_cb (around rounds w) terminate false false s
          ≡ some (pos 0, s'))
        × All (IsServed 0) s'.peers
  unfolding server_loop_cb
  loop_round-IsServed terminate s h =
      let (peers, e, h') = pump_all-IsServed (around rounds w) n s.peers enough h in
      (record s { peers = peers }, rw e refl, h')

connected-IsServed :
    (n : ℕ) (a : Ptr) (stdin_fd : ℤ) (cnx stream : ℕ) → IsServed n (connected a stdin_fd cnx stream)
unfolding wtd_session_init
connected-IsServed n a stdin_fd cnx stream =
    ([], record { queued = init-Holds (λ b. none); exact = λ b out. refl }, omega arith)

pub connect-IsServed :
    (n : ℕ) (c : Creation) (declared : Bool) (cnx stream : ℕ) (s : Server)
    → All (IsServed n) s.peers
    → All (IsServed n) (wt_session_connect c declared cnx stream s).1.peers
connect-IsServed n c declared cnx stream s h = elim (connect_lem c declared cnx stream s) [
  | inl (_, same, _) ↦ rw same h
  | inr (a, fd, _, grown, _, _, _, _) ↦ rw grown (connected-IsServed n a fd cnx stream, h)
]
