-- ===== src/Tests/NetworkRuns.antt =====
-- A run of adapters/transport_picoquic.c with its reader threads.
use webtransportd.Common.{
  All, ◌≡◌, refl, arith, true, false, List, [], ◌∷◌, none, some, inl, inr, Option-cases,
}
use webtransportd.Common.Int.{pos}
use webtransportd.WorkQueue.{Ptr, Heap, null}
use webtransportd.Transport.Peers.{Server}
use webtransportd.Transport.Callback.{post_data, provide_data, deregister}
use webtransportd.Transport.Network.{
  Action, connect, callback, loop, output, output_end, Weather, act_all,
}
use webtransportd.Transport.Network.Served.{IsAllocator}
use webtransportd.Transport.Network.Events.{IsFair}
use webtransportd.Transport.Network.Standing.{IsOrderly}
use webtransportd.Transport.Callback.{server_loop_cb}
use webtransportd.Transport.Network.{around}
use webtransportd.Transport.Network.Removal.{IsRemovable, sessions-IsRemovable}
use webtransportd.Transport.Network.Safety.{FairAction, IsFlushed, loop-flushes}
use webtransportd.Tests.BootRuns.{zeros-IsMalloc}
use webtransportd.Tests.SessionRuns.{zeros}
use webtransportd.Tests.TransportRuns.{wide}

-- It has room for one node.
abbrev one_node : Heap → Ptr
one_node h = elim (h 5) [ none ↦ 5 | some c ↦ null ]

one_node-IsAllocator : IsAllocator one_node
one_node-IsAllocator h ne = elim (Option-cases (h 5)) [
  | inl free ↦ rw (free, one_node) free
  | inr (c, used) ↦ absurd (ne (rw (used, one_node) refl))
]

abbrev fine : Weather
fine = record {
  malloc = λ n. some (zeros n);
  allocator = one_node;
  ports = wide;
  datagram_buffer = true;
}

fine-IsFair : IsFair fine
fine-IsFair = record { malloc = zeros-IsMalloc; allocator = one_node-IsAllocator }

-- A peer connects and gets data; its child answers with two frames, for the second of which there
-- is no node.
abbrev pending : List (Weather × Action)
pending =
    (fine, connect (record { memory = some 100; spawn = some (pos 5); reader = true }) true 1 0)
    ∷ (fine, callback (post_data 4 (7 ∷ [])) (some 100))
    ∷ (fine, output 100 0 (1 ∷ 2 ∷ []))
    ∷ (fine, output 100 1 (3 ∷ []))
    ∷ []

pending-fair : All FairAction pending
pending-fair = (fine-IsFair, (fine-IsFair, (fine-IsFair, (fine-IsFair, tt))))

pending-IsOrderly : IsOrderly [] pending
pending-IsOrderly = ((λ a e. refl), (refl, (refl, (refl, tt))))

-- The packet loop pumps; the child ends, and the peer goes.
abbrev ending : List (Weather × Action)
ending =
    (fine, loop (pos 0) false false)
    ∷ (fine, output_end 100)
    ∷ (fine, callback provide_data (some 100))
    ∷ (fine, callback deregister (some 100))
    ∷ []

abbrev empty_server : Server
empty_server = record { peers = []; life = [] }

loop-flushes_example :
    (s : Server) × (s' : Server) × (act_all 4 pending empty_server ≡ some s)
    × (server_loop_cb (around 4 fine) (pos 7) false false s ≡ some (pos 0, s'))
    × All IsFlushed s'.peers
loop-flushes_example =
    loop-flushes 4 pending fine (pos 7) pending-fair pending-IsOrderly fine-IsFair (omega arith)

sessions-IsRemovable_example :
    (s : Server) × (act_all 4 pending empty_server ≡ some s) × All (IsRemovable 4) s.peers
sessions-IsRemovable_example =
    sessions-IsRemovable 4 pending pending-fair pending-IsOrderly (omega arith)
