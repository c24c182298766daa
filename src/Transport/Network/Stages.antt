-- ===== src/Transport/Network/Stages.antt =====
-- The order of the steps in the lives of the peers, and the peers that a history leaves.
use webtransportd.Common.{
  ◌≡◌, ◌∙◌, refl, inl, inr, Bool, true, false, List, [], ◌∷◌, some, ◌==◌, if◌then◌else◌, arith,
  Bool-cases, Option-cases,
}
use webtransportd.WorkQueue.{Ptr}
use webtransportd.Transport.Peers.{
  LifeCall, allocated, spawned, started_reader, joined_reader, destroyed_session, terminated, freed,
  Peer, Server, unlink, peer_remove, replace, find_peer,
}
use webtransportd.Transport.Callback.{Surroundings, pump_peer, pump_all}
use webtransportd.Transport.Lifecycle.{pump_peer-Same}

-- Where the memory at an address stands: free; allocated; with a child; with a child and a reader
-- thread; on the way out, with the thread joined, the session destroyed, the child terminated. In a
-- creation that fails the child is terminated first. A step out of its order breaks.
pub data Stage : Type 0 where
  gone blank child_runs reads joined destroyed stopped over broken : Stage

abbrev pub next : LifeCall → Stage → Stage
next (allocated b) gone = blank
next (spawned b) blank = child_runs
next (freed b) blank = gone
next (started_reader b) child_runs = reads
next (terminated b) child_runs = stopped
next (destroyed_session b) stopped = over
next (joined_reader b) reads = joined
next (destroyed_session b) joined = destroyed
next (terminated b) destroyed = over
next (freed b) over = gone
next _ _ = broken

abbrev pub target : LifeCall → Ptr
target (allocated b) = b
target (spawned b) = b
target (started_reader b) = b
target (joined_reader b) = b
target (destroyed_session b) = b
target (terminated b) = b
target (freed b) = b

abbrev pub stage : Ptr → List LifeCall → Stage
stage a [] = gone
stage a (c ∷ life) = if target c == a then next c (stage a life) else stage a life

abbrev pub is_in : Ptr → List Ptr → Bool
is_in a [] = false
is_in a (b ∷ live) = if b == a then true else is_in a live

abbrev pub remove : Ptr → List Ptr → List Ptr
remove a [] = []
remove a (b ∷ live) = if b == a then live else b ∷ remove a live

abbrev pub IsDistinct : List Ptr → Type 0
IsDistinct [] = Unit {0}
IsDistinct (a ∷ live) = (is_in a live ≡ false) × IsDistinct live

-- The listed peers are at the addresses of a list, each with its reader thread.
abbrev pub IsListed : List Peer → List Ptr → Type 0
IsListed [] [] = Unit {0}
IsListed [] (a ∷ live) = ⊥
IsListed (p ∷ peers) [] = ⊥
IsListed (p ∷ peers) (a ∷ live) = (p.address ≡ a) × (p.reader_started ≡ true) × IsListed peers live

-- The memory at each address is that of a working peer, if the address is in the list, or free.
abbrev pub IsSound : List LifeCall → List Ptr → Type 0
IsSound life live = (a : Ptr) → stage a life ≡ (if is_in a live then reads else gone)

is_in-remove :
    (a b : Ptr) (live : List Ptr)
    → IsDistinct live
    → is_in b (remove a live) ≡ (if a == b then false else is_in b live)
is_in-remove a b [] d = ground arith
is_in-remove a b (c ∷ live) (apart, d) = elim (Bool-cases (c == a)) [
  | inr miss ↦ let later = is_in-remove a b live d in rw miss (ground (arith, later))
  | inl hit ↦
      let is : c ≡ a = ground (arith, hit) in
      let out : is_in a live ≡ false = rw is at apart in
      elim (Bool-cases (a == b)) [
        | inl same ↦ let is' : a ≡ b = ground (arith, same) in rw (hit, same) (rw is' at out)
        | inr other ↦ let other' : (c == b) ≡ false = rw is other in rw (hit, other, other') refl
      ]
]

pub remove-IsDistinct : (a : Ptr) (live : List Ptr) → IsDistinct live → IsDistinct (remove a live)
remove-IsDistinct a [] d = tt
remove-IsDistinct a (c ∷ live) (apart, d) = elim (Bool-cases (c == a)) [
  | inl hit ↦ rw hit d
  | inr miss ↦ rw miss (is_in-remove a c live d ∙ ground arith, remove-IsDistinct a live d)
]

pub find_peer-IsListed :
    (a : Ptr) (peers : List Peer) (live : List Ptr)
    → IsListed peers live
    → is_in a live ≡ true
    → (p : Peer) × (find_peer a peers ≡ some p) × (p.address ≡ a) × (p.reader_started ≡ true)
unfolding find_peer
find_peer-IsListed a [] [] h e = cc
find_peer-IsListed a [] (b ∷ live) h e = absurd h
find_peer-IsListed a (p ∷ peers) [] h e = absurd h
find_peer-IsListed a (p ∷ peers) (b ∷ live) (place, r, h) e = elim (Bool-cases (b == a)) [
  | inl hit ↦ (p, rw (place, hit) refl, place ∙ ground (arith, hit), r)
  | inr miss ↦
      let (q, found, place', r') = find_peer-IsListed a peers live h (rw miss at e) in
      (q, rw (place, miss) found, place', r')
]

pub replace-IsListed :
    (p : Peer) (peers : List Peer) (live : List Ptr)
    → p.reader_started ≡ true
    → IsListed peers live
    → IsListed (replace p peers) live
unfolding replace
replace-IsListed p [] live r h = h
replace-IsListed p (q ∷ peers) [] r h = absurd h
replace-IsListed p (q ∷ peers) (b ∷ live) r (place, r', h) =
    elim (Bool-cases (q.address == p.address)) [
      | inl hit ↦
          let same : p.address ≡ q.address = ground (arith, hit) in rw hit (same ∙ place, r, h)
      | inr miss ↦ rw miss (place, r', replace-IsListed p peers live r h)
    ]

pub unlink-IsListed :
    (a : Ptr) (peers : List Peer) (live : List Ptr)
    → IsListed peers live
    → IsListed (unlink a peers) (remove a live)
unfolding unlink
unlink-IsListed a [] [] h = tt
unlink-IsListed a [] (b ∷ live) h = absurd h
unlink-IsListed a (p ∷ peers) [] h = absurd h
unlink-IsListed a (p ∷ peers) (b ∷ live) (place, r, h) = elim (Bool-cases (p.address == a)) [
  | inl hit ↦ let hit' : (b == a) ≡ true = rw place at hit in rw (hit, hit') h
  | inr miss ↦
      let miss' : (b == a) ≡ false = rw place at miss in
      rw (miss, miss') (place, r, unlink-IsListed a peers live h)
]

pub pump_all-IsListed :
    (around : Surroundings) (peers peers' : List Peer) (live : List Ptr)
    → pump_all around peers ≡ some peers'
    → IsListed peers live
    → IsListed peers' live
unfolding pump_all
pump_all-IsListed around [] peers' live e h =
    let same : [] ≡ peers' = ground (arith, e) in rw⁻¹ same h
pump_all-IsListed around (p ∷ peers) peers' [] e h = absurd h
pump_all-IsListed around (p ∷ peers) peers' (b ∷ live) e (place, r, h) =
    elim (Option-cases (pump_peer around p)) [
      | inl out ↦ absurd (cc (rw out at e))
      | inr (p', one) ↦ elim (Option-cases (pump_all around peers)) [
        | inl out ↦ absurd (cc (rw (one, out) at e))
        | inr (rest, others) ↦
            let same : p' ∷ rest ≡ peers' = ground (arith, rw (one, others) at e) in
            let (kept, kept') = pump_peer-Same around p p' one in
            rw⁻¹ same (kept ∙ place, kept' ∙ r, pump_all-IsListed around peers rest live others h)
      ]
    ]

-- peer_remove joins, destroys, terminates and frees, in this order.
pub peer_remove-IsSound :
    (p : Peer) (s : Server) (live : List Ptr)
    → p.reader_started ≡ true
    → is_in p.address live ≡ true
    → IsDistinct live
    → IsSound s.life live
    → IsSound (peer_remove p s).life (remove p.address live)
unfolding peer_remove
peer_remove-IsSound p s live r there d h b =
    let out = is_in-remove p.address b live d in
    elim (Bool-cases (p.address == b)) [
      | inl hit ↦
          let is : p.address ≡ b = ground (arith, hit) in
          let working : stage b s.life ≡ reads = h b ∙ rw (rw is at there) refl in
          rw (out, r, hit, working) refl
      | inr miss ↦ rw (out, r, miss) (h b)
    ]
