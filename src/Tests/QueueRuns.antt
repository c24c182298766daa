-- ===== src/Tests/QueueRuns.antt =====
-- Runs of the queue of core/work_queue.c.
use webtransportd.Common.{ℕ, refl, [], ◌∷◌, none, some}
use webtransportd.WorkQueue.{null, Heap, update, WorkQueue}
use webtransportd.WorkQueue.Chain.{Message, Cells, node, Holds}

abbrev pub note : ℕ → Message
note b = record { flag = 0; payload = b ∷ [] }

-- One frame queued at address 4, and a second one filled in at address 9.
abbrev pub nodes : Heap
nodes = update (update (λ p. none) 4 (some (node (note 1) null))) 9 (some (node (note 2) 77))

abbrev pub queue : WorkQueue
queue = record { head = 4; tail = 4 }

abbrev pub queued : Cells
queued = (4, note 1) ∷ []

pub queue-Holds : Holds nodes queue queued
queue-Holds = record { starts = refl; ends = refl; links = (λ e. cc, refl, refl, tt) }
