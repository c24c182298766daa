-- ===== src/WorkQueue/Chain.antt =====
-- Which frames a queue holds: the chain of nodes from its head to null.
use webtransportd.Common.{
  ℕ, suc, zero, ◌≡◌, ◌≢◌, ◌≤◌, refl, sym, ◌∙◌, Bool, true, false, ◌||◌, List, [], ◌∷◌, ◌++◌, Option,
  none, some, ◌==◌, if◌then◌else◌, length, arith,
}
use webtransportd.WorkQueue.{
  Ptr, null, OutboundFrame, Heap, update, WorkQueue, set_next, wtd_work_queue_push,
  wtd_work_queue_drain, free_list, wtd_work_queue_destroy, wtd_work_queue_init,
}

-- What a client sees of a frame.
pub record Message : Type 0 where
  pub flag : ℕ
  pub payload : List ℕ

abbrev pub node : Message → Ptr → OutboundFrame
node m next = record {
  next = next;
  flag = m.flag;
  payload_len = length m.payload;
  payload = m.payload;
}

-- The address and message of each node, oldest first.
abbrev pub Cells : Type 0
Cells = List (Ptr × Message)

abbrev pub has : Ptr → Cells → Bool
has a [] = false
has a ((p, _) ∷ cs) = (a == p) || has a cs

abbrev pub first : Cells → Ptr
first [] = null
first ((p, _) ∷ cs) = p

abbrev pub last : Ptr → Cells → Ptr
last d [] = d
last d ((p, _) ∷ cs) = last p cs

-- The nodes lie in the heap, at distinct addresses, each linked to the next and the last to null.
abbrev pub Chain : Heap → Cells → Type 0
Chain h [] = Unit {0}
Chain h ((p, m) ∷ cs) =
    (p ≢ null) × (h p ≡ some (node m (first cs))) × (has p cs ≡ false) × Chain h cs

pub record Holds (h : Heap) (q : WorkQueue) (cs : Cells) : Type 0 where
  pub starts : q.head ≡ first cs
  pub ends : q.tail ≡ last null cs
  pub links : Chain h cs

abbrev pub messages : Cells → List Message
messages [] = []
messages ((_, m) ∷ cs) = m ∷ messages cs

-- A chain survives a change that spares its addresses.
pub Chain-update :
    (h : Heap) (cs : Cells) (a : Ptr) (c : Option OutboundFrame)
    → Chain h cs
    → has a cs ≡ false
    → Chain (update h a c) cs
Chain-update h [] a c k out = tt
Chain-update h ((p, m) ∷ cs) a c (ne, at, apart, rest) out =
    (ne, ground arith, apart, Chain-update h cs a c rest (ground arith))

pub has-snoc :
    (p : Ptr) (n : Message) (a : Ptr) (cs : Cells)
    → has p (cs ++ ((a, n) ∷ [])) ≡ (has p cs || (p == a))
has-snoc p n a [] = ground arith
has-snoc p n a ((r, k) ∷ cs) = ground (arith, has-snoc p n a cs)

last-has : (p : Ptr) (m : Message) (cs : Cells) → has (last p cs) ((p, m) ∷ cs) ≡ true
last-has p m [] = ground arith
last-has p m ((r, n) ∷ cs) = ground (arith, last-has r n cs)

-- Linking a fresh last node behind a chain that is not empty.
Chain-link :
    (h : Heap) (p : Ptr) (m n : Message) (cs : Cells) (a : Ptr)
    → Chain h ((p, m) ∷ cs)
    → a ≢ null
    → has a ((p, m) ∷ cs) ≡ false
    → h a ≡ some (node n null)
    → (h' : Heap) × (set_next (last p cs) a h ≡ some h')
      × Chain h' ((p, m) ∷ (cs ++ ((a, n) ∷ [])))
      × ((b : Ptr) → has b ((p, m) ∷ cs) ≡ false → h' b ≡ h b)
unfolding set_next
Chain-link h p m n [] a (ne, at, apart, rest) an out ha =
    (update h p (some (node m a)), ground arith, ground arith, λ b out'. ground arith)
Chain-link h p m n ((r, k) ∷ cs) a (ne, at, apart, rest) an out ha =
    let (h', e, chain, same) = Chain-link h r k n cs a rest an (ground arith) ha in
    (
      h',
      e,
      (ne, same p apart ∙ at, ground (arith, has-snoc p n a cs), chain),
      λ b out'. same b (ground arith),
    )

last-snoc : (d : Ptr) (cs : Cells) (a : Ptr) (n : Message) → last d (cs ++ ((a, n) ∷ [])) ≡ a
last-snoc d [] a n = refl
last-snoc d ((r, k) ∷ cs) a n = last-snoc r cs a n

-- wtd_work_queue_init holds nothing.
pub init-Holds : (h : Heap) → Holds h wtd_work_queue_init []
unfolding wtd_work_queue_init
init-Holds h = record { starts = refl; ends = refl; links = tt }

last-ne-null :
    (h : Heap) (p : Ptr) (m : Message) (cs : Cells) → Chain h ((p, m) ∷ cs) → last p cs ≢ null
last-ne-null h p m [] k = k.0
last-ne-null h p m ((r, n) ∷ cs) k = last-ne-null h r n cs k.3

push_nonempty :
    (q : WorkQueue) (a : Ptr) (h h1 h2 : Heap)
    → a ≢ null
    → q.tail ≢ null
    → set_next a null h ≡ some h1
    → set_next q.tail a h1 ≡ some h2
    → wtd_work_queue_push q a h ≡ some (record { head = q.head; tail = a }, h2)
unfolding wtd_work_queue_push
push_nonempty q a h h1 h2 na nt e1 e2 =
    let fa : (a == null) ≡ false = ground arith in
    let ft : (q.tail == null) ≡ false = ground arith in rw (fa, e1, ft, e2)

set_next-fresh :
    (h : Heap) (a next : Ptr) (m : Message)
    → h a ≡ some (node m next)
    → set_next a null h ≡ some (update h a (some (node m null)))
unfolding set_next
set_next-fresh h a next m e = rw e

-- wtd_work_queue_push of a fresh node puts its message behind all others, and leaves every other
-- address of the heap alone.
pub push-Holds :
    (h : Heap) (q : WorkQueue) (cs : Cells) (a : Ptr) (m : Message) (next : Ptr)
    → Holds h q cs
    → a ≢ null
    → has a cs ≡ false
    → h a ≡ some (node m next)
    → (q' : WorkQueue) × (h' : Heap) × (wtd_work_queue_push q a h ≡ some (q', h'))
      × Holds h' q' (cs ++ ((a, m) ∷ []))
      × ((b : Ptr) → has b ((a, m) ∷ cs) ≡ false → h' b ≡ h b)
unfolding wtd_work_queue_push
push-Holds h q [] a m next held ne out at = (
  record { head = a; tail = a },
  update h a (some (node m null)),
  ground (arith, held.ends),
  record { starts = refl; ends = refl; links = ground arith },
  λ b out'. ground arith,
)
push-Holds h q ((p, n) ∷ cs) a m next held ne out at =
    let h1 = update h a (some (node m null)) in
    let (h', e, chain, same) =
      Chain-link h1 p n m cs a (Chain-update h ((p, n) ∷ cs) a (some (node m null)) held.links out)
        ne out (ground arith) in
    (
      record { head = q.head; tail = a },
      h',
      push_nonempty q a h h1 h' ne (λ z. last-ne-null h p n cs held.links (sym held.ends ∙ z))
          (set_next-fresh h a next m at) (rw held.ends e),
      record { starts = held.starts; ends = sym (last-snoc p cs a m); links = chain },
      λ b out'. same b (ground arith) ∙ ground arith,
    )

-- The list that wtd_work_queue_drain hands over starts at the oldest frame, and the queue that it
-- leaves is empty.
pub drain-Holds :
    (h : Heap) (q : WorkQueue) (cs : Cells)
    → Holds h q cs
    → ((wtd_work_queue_drain q).0 ≡ first cs) × Holds h (wtd_work_queue_drain q).1 []
unfolding wtd_work_queue_drain
drain-Holds h q cs held = (held.starts, record { starts = refl; ends = refl; links = tt })

-- Freeing the front node of a chain leaves a chain.
pub Chain-tail :
    (h : Heap) (p : Ptr) (m : Message) (cs : Cells)
    → Chain h ((p, m) ∷ cs)
    → Chain (update h p none) cs
Chain-tail h p m cs k = Chain-update h cs p none k.3 k.2

free_list-Chain :
    (fuel : ℕ) (h : Heap) (cs : Cells)
    → Chain h cs
    → length cs ≤ fuel
    → (h' : Heap) × (free_list fuel (first cs) h ≡ some h')
      × ((b : Ptr) → h' b ≡ (if has b cs then none else h b))
unfolding free_list
free_list-Chain zero h [] k f = (h, refl, λ b. refl)
free_list-Chain (suc fuel) h [] k f = (h, refl, λ b. refl)
free_list-Chain zero h ((p, m) ∷ cs) k f = absurd (omega arith)
free_list-Chain (suc fuel) h ((p, m) ∷ cs) (ne, at, apart, rest) f =
    let (h', e, same) =
      free_list-Chain fuel (update h p none) cs (Chain-tail h p m cs (ne, at, apart, rest))
        (omega arith) in
    let live : (p == null) ≡ false = ground arith in
    (h', rw (live, at) e, λ b. same b ∙ ground arith)

-- wtd_work_queue_destroy frees each node of the queue once, touches no freed node and no other
-- address, and ends after as many rounds as there are frames.
pub destroy-frees :
    (fuel : ℕ) (h : Heap) (q : WorkQueue) (cs : Cells)
    → Holds h q cs
    → length cs ≤ fuel
    → (q' : WorkQueue) × (h' : Heap) × (wtd_work_queue_destroy fuel q h ≡ some (q', h'))
      × Holds h' q' []
      × ((b : Ptr) → h' b ≡ (if has b cs then none else h b))
unfolding wtd_work_queue_destroy
destroy-frees fuel h q cs held f =
    let (h', e, same) = free_list-Chain fuel h cs held.links f in
    (
      record { head = null; tail = null },
      h',
      rw (held.starts, e),
      record { starts = refl; ends = refl; links = tt },
      same,
    )
