-- ===== src/Transport/Lifecycle.antt =====
-- The peers of the server and their child processes over whole histories of callbacks.
use webtransportd.Common.{
  ℕ, suc, ◌-◌, ◌≡◌, refl, sym, ◌∙◌, Bool, true, false, List, [], ◌∷◌, Option, none, some, ◌==◌,
  if◌then◌else◌, arith, inl, inr, Bool-cases, Option-cases,
}
use webtransportd.Common.Int.{ℤ}
use webtransportd.WorkQueue.{Ptr}
use webtransportd.Transport.Peers.{
  LifeCall, allocated, spawned, started_reader, joined_reader, destroyed_session, terminated, freed,
  Peer, Server, Creation, peer_create, unlink, peer_remove, replace, find_peer,
}
use webtransportd.Transport.Callback.{
  accept_peer, Event, Surroundings, pump_peer, on_event, wt_session_cb, wt_session_connect,
  pump_all, server_loop_cb,
}

-- The children that were spawned for the peer at an address and not terminated since.
abbrev pub running : Ptr → List LifeCall → ℕ
running a [] = 0
running a (allocated b ∷ life) = running a life
running a (spawned b ∷ life) = if b == a then suc (running a life) else running a life
running a (terminated b ∷ life) = if b == a then running a life - 1 else running a life
running a (started_reader b ∷ life) = running a life
running a (joined_reader b ∷ life) = running a life
running a (destroyed_session b ∷ life) = running a life
running a (freed b ∷ life) = running a life

abbrev pub occurrences : Ptr → List Peer → ℕ
occurrences a [] = 0
occurrences a (p ∷ peers) =
    if p.address == a then suc (occurrences a peers) else occurrences a peers

-- Each child that runs belongs to a peer of the list, and each peer of the list has its child.
abbrev pub IsTidy : Server → Type 0
IsTidy s = (a : Ptr) → running a s.life ≡ occurrences a s.peers

count_hit :
    (n a b o : ℕ)
    → (n == b) ≡ true
    → o ≡ (if b == a then (if n == a then suc o else o) - 1 else (if n == a then suc o else o))
count_hit n a b o hit = ground arith

count_miss :
    (n a b o o' : ℕ)
    → (n == b) ≡ false
    → o' ≡ (if b == a then o - 1 else o)
    → (if n == a then suc o' else o')
      ≡ (if b == a then (if n == a then suc o else o) - 1 else (if n == a then suc o else o))
count_miss n a b o o' miss e = ground arith

occurrences-unlink :
    (a b : Ptr) (peers : List Peer)
    → occurrences a (unlink b peers)
      ≡ (if b == a then occurrences a peers - 1 else occurrences a peers)
unfolding unlink
occurrences-unlink a b [] = elim (Bool-cases (b == a)) [ inl e ↦ rw e refl | inr e ↦ rw e refl ]
occurrences-unlink a b (p ∷ peers) = elim (Bool-cases (p.address == b)) [
  | inl hit ↦ rw hit (count_hit p.address a b (occurrences a peers) hit)
  | inr miss ↦ rw miss (
      count_miss p.address a b (occurrences a peers) (occurrences a (unlink b peers)) miss
        (occurrences-unlink a b peers))
]

occurrences-replace :
    (a : Ptr) (p : Peer) (peers : List Peer) → occurrences a (replace p peers) ≡ occurrences a peers
unfolding replace
occurrences-replace a p [] = refl
occurrences-replace a p (q ∷ peers) = ground (arith, occurrences-replace a p peers)

peer_remove-IsTidy : (p : Peer) (s : Server) → IsTidy s → IsTidy (peer_remove p s)
unfolding peer_remove
peer_remove-IsTidy p s t a =
    let same = t a in ground (arith, occurrences-unlink a p.address s.peers)

peer_create-IsTidy :
    (c : Creation) (cnx : ℕ) (s : Server) → IsTidy s → IsTidy (peer_create c cnx s).1
unfolding peer_create
peer_create-IsTidy c cnx s t a = let same = t a in ground arith

pub replace-IsTidy :
    (p : Peer) (s : Server) → IsTidy s → IsTidy (record s { peers = replace p s.peers })
replace-IsTidy p s t a = t a ∙ sym (occurrences-replace a p s.peers)

accept_peer-IsTidy :
    (declared : Bool) (stream : ℕ) (made : Option Peer) (s : Server)
    → IsTidy s
    → IsTidy (accept_peer declared stream (made, s)).1
unfolding accept_peer
accept_peer-IsTidy declared stream none s t = t
accept_peer-IsTidy true stream (some p) s t = replace-IsTidy _ s t
accept_peer-IsTidy false stream (some p) s t = peer_remove-IsTidy _ s t

pub connect-IsTidy :
    (c : Creation) (declared : Bool) (cnx stream : ℕ) (s : Server)
    → IsTidy s
    → IsTidy (wt_session_connect c declared cnx stream s).1
unfolding wt_session_connect
connect-IsTidy c declared cnx stream s t =
    accept_peer-IsTidy declared stream (peer_create c cnx s).0 (peer_create c cnx s).1
      (peer_create-IsTidy c cnx s t)

pub callback-IsTidy :
    (around : Surroundings) (event : Event) (p : Option Peer) (s s' : Server)
    → wt_session_cb around event p s ≡ some s'
    → IsTidy s
    → IsTidy s'
unfolding wt_session_cb
callback-IsTidy around event none s s' e t = ground arith
callback-IsTidy around event (some p) s s' e t = elim (Option-cases (on_event around event p)) [
  | inl out ↦ absurd (cc (rw out at e))
  | inr (none, removed) ↦
      let same : peer_remove p s ≡ s' = ground (arith, rw removed at e) in
      rw⁻¹ same (peer_remove-IsTidy p s t)
  | inr (some p', kept) ↦
      let same : record s { peers = replace p' s.peers } ≡ s' = ground (arith, rw kept at e) in
      rw⁻¹ same (replace-IsTidy p' s t)
]

-- A later state of the same peer.
abbrev pub Same : Peer → Peer → Type 0
Same p p' = (p'.address ≡ p.address) × (p'.reader_started ≡ p.reader_started)

pub pump_peer-Same :
    (around : Surroundings) (p p' : Peer) → pump_peer around p ≡ some p' → Same p p'
unfolding pump_peer
pump_peer-Same around p p' e = ground arith

pump_all-occurrences :
    (around : Surroundings) (a : Ptr) (peers peers' : List Peer)
    → pump_all around peers ≡ some peers'
    → occurrences a peers' ≡ occurrences a peers
unfolding pump_all
pump_all-occurrences around a [] peers' e = ground arith
pump_all-occurrences around a (p ∷ peers) peers' e = elim (Option-cases (pump_peer around p)) [
  | inl out ↦ absurd (cc (rw out at e))
  | inr (p', one) ↦ elim (Option-cases (pump_all around peers)) [
    | inl out ↦ absurd (cc (rw (one, out) at e))
    | inr (rest, others) ↦
        let same : p' ∷ rest ≡ peers' = ground (arith, rw (one, others) at e) in
        let kept : p'.address ≡ p.address = (pump_peer-Same around p p' one).0 in
        rw⁻¹ same (rw (kept, pump_all-occurrences around a peers rest others) refl)
  ]
]

pub loop-IsTidy :
    (around : Surroundings) (terminate rc : ℤ) (ready should_exit : Bool) (s s' : Server)
    → server_loop_cb around terminate ready should_exit s ≡ some (rc, s')
    → IsTidy s
    → IsTidy s'
unfolding server_loop_cb
loop-IsTidy around terminate rc true should_exit s s' e t = ground arith
loop-IsTidy around terminate rc false true s s' e t = ground arith
loop-IsTidy around terminate rc false false s s' e t =
    elim (Option-cases (pump_all around s.peers)) [
      | inl out ↦ absurd (cc (rw out at e))
      | inr (peers, pumped) ↦
          let same : record s { peers = peers } ≡ s' = ground (arith, rw pumped at e) in
          rw⁻¹ same (λ a. t a ∙ sym (pump_all-occurrences around a s.peers peers pumped))
    ]

-- One callback of picoquic: a CONNECT, another event of a connected peer, or the packet loop.
pub data ServerStep (s s' : Server) : Type 0 where
  connects :
      (c : Creation) (declared : Bool) (cnx stream : ℕ)
      → s' ≡ (wt_session_connect c declared cnx stream s).1
      → ServerStep s s'
  calls_back :
      (around : Surroundings) (event : Event) (p : Peer)
      → find_peer p.address s.peers ≡ some p
      → wt_session_cb around event (some p) s ≡ some s'
      → ServerStep s s'
  loops :
      (around : Surroundings) (terminate rc : ℤ) (ready should_exit : Bool)
      → server_loop_cb around terminate ready should_exit s ≡ some (rc, s')
      → ServerStep s s'

pub data ServerReach (s : Server) : Server → Type 0 where
  start : ServerReach s s
  then_step : {s1 s2 : Server} → ServerReach s s1 → ServerStep s1 s2 → ServerReach s s2

ServerStep-IsTidy : (s s' : Server) → ServerStep s s' → IsTidy s → IsTidy s'
ServerStep-IsTidy s s' (connects c declared cnx stream e) t =
    rw e (connect-IsTidy c declared cnx stream s t)
ServerStep-IsTidy s s' (calls_back around event p at e) t =
    callback-IsTidy around event (some p) s s' e t
ServerStep-IsTidy s s' (loops around terminate rc ready should_exit e) t =
    loop-IsTidy around terminate rc ready should_exit s s' e t

-- Whatever callbacks come in whatever order, and whatever fails on the way (memory, the spawn, the
-- reader thread, the declaration of the prefix): from a server without peers on, the children that
-- run are those of the peers in the server's list, one for each, so none is left behind.
pub ServerReach-IsTidy : (s : Server) → ServerReach (record { peers = []; life = [] }) s → IsTidy s
ServerReach-IsTidy s start = λ a. refl
ServerReach-IsTidy s (then_step {s1} r st) = ServerStep-IsTidy s1 s st (ServerReach-IsTidy s1 r)
