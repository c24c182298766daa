-- ===== src/WorkQueue.antt =====
-- core/work_queue.h and core/work_queue.c: the FIFO of outbound frames, a singly linked list of
-- malloc'd nodes with a head and a tail pointer.
-- The heap maps an address to the node that is allocated there; a read or write through an address
-- that holds none is `none`, a fault. Each function runs between pthread_mutex_lock and
-- pthread_mutex_unlock (or on memory that it alone owns), so it is one step of the model.
pub mod Chain
use webtransportd.Common.{ℕ, suc, zero, ◌≡◌, Bool, List, Option, none, some, ◌==◌, if◌then◌else◌}
use webtransportd.Common.Memory.{◌>>=◌}

abbrev pub Ptr : Type 0
Ptr = ℕ

abbrev pub null : Ptr
null = 0

-- wtd_outbound_frame_t; `payload` is the flexible array member, `payload_len` bytes long.
pub record OutboundFrame : Type 0 where
  pub next : Ptr
  pub flag : ℕ
  pub payload_len : ℕ
  pub payload : List ℕ

abbrev pub Heap : Type 0
Heap = Ptr → Option OutboundFrame

-- The heap with address `p` filled (`some`) or given back (`none`).
abbrev pub update : Heap → Ptr → Option OutboundFrame → Heap
update h p c a = if p == a then c else h a

-- wtd_work_queue_t less its mutex
pub record WorkQueue : Type 0 where
  pub head : Ptr
  pub tail : Ptr

-- `p->next = q`
unfoldable pub set_next : Ptr → Ptr → Heap → Option Heap
set_next p q h = do f ← h p; some (update h p (some (record f { next = q })))

unfoldable pub wtd_work_queue_init : WorkQueue
wtd_work_queue_init = record { head = null; tail = null }

unfoldable pub wtd_work_queue_push : WorkQueue → Ptr → Heap → Option (WorkQueue × Heap)
unfolding set_next
wtd_work_queue_push q f h = if f == null then some (q, h) else (do
  h1 ← set_next f null h
  if q.tail == null
      then some (record { head = f; tail = f }, h1)
      else (do h2 ← set_next q.tail f h1; some (record q { tail = f }, h2)))

-- The detached list and the queue that is left.
unfoldable pub wtd_work_queue_drain : WorkQueue → Ptr × WorkQueue
wtd_work_queue_drain q = (q.head, record { head = null; tail = null })

-- The loop of wtd_work_queue_destroy. Fuel: `none` also when it runs out; `free_list-Chain` gives
-- the fuel that is enough.
unfoldable pub free_list : ℕ → Ptr → Heap → Option Heap
free_list zero cur h = if cur == null then some h else none
free_list (suc fuel) cur h =
    if cur == null
    then some h
    else elim (h cur) [ none ↦ none | some f ↦ free_list fuel f.next (update h cur none) ]

unfoldable pub wtd_work_queue_destroy : ℕ → WorkQueue → Heap → Option (WorkQueue × Heap)
unfolding free_list wtd_work_queue_drain
wtd_work_queue_destroy fuel q h = do
  let (cur, q') = wtd_work_queue_drain q
  h' ← free_list fuel cur h
  some (q', h')
