-- ===== src/Tests/SessionRuns.antt =====
-- Runs of the session of core/session.c.
use webtransportd.Common.{
  ℕ, suc, zero, ◌≡◌, refl, true, false, List, [], ◌∷◌, Option, none, some, arith, ◌==◌,
  if◌then◌else◌,
}
use webtransportd.Common.Int.{ℤ, pos}
use webtransportd.Frame.Encode.{wire}
use webtransportd.WorkQueue.{null}
use webtransportd.WorkQueue.Chain.{Cells}
use webtransportd.Session.{
  Session, wtd_session_init, wtd_session_on_output, wtd_session_on_output_eof, wtd_session_pump,
  emit_fin, deliver_to_child, wtd_session_deliver_fin,
}
use webtransportd.Session.Deliver.{IsMalloc, deliver_to_child_lem}
use webtransportd.Session.Pump.{Queued}
use webtransportd.Session.Order.{output_all, output_all-pump, fin_overtakes}
use webtransportd.Session.Run.{
  stream, write, fin, close, Trace, recording_transport, recording_child, Reach, here, next,
  delivers_fin, Agrees, Reach-Agrees,
}
use webtransportd.Tests.QueueRuns.{nodes, queue, queued, queue-Holds, note}

abbrev pub accepting : Trace → ℤ
accepting t = pos 0

abbrev pub zeros : ℕ → List ℕ
zeros zero = []
zeros (suc n) = 0 ∷ zeros n

abbrev no_memory : ℕ → Option (List ℕ)
no_memory n = none

-- An allocator that has one block of 11 bytes.
abbrev one_block : ℕ → Option (List ℕ)
one_block n = if n == 11 then some (zeros 11) else none

one_block-IsMalloc : IsMalloc one_block
one_block-IsMalloc n buf e = ground arith

-- A session with one queued frame.
abbrev pub busy : Session
busy = record {
  outbound = queue;
  nodes = nodes;
  output_eof = false;
  child_input_closed = false;
  stream_fin_sent = false;
}

abbrev idle : Session
idle = record busy { outbound = record { head = null; tail = null } }

deliver_to_child_lem_example :
    deliver_to_child (recording_child accepting) one_block 1 (7 ∷ 8 ∷ []) busy []
    ≡ some (write (wire 1 (7 ∷ 8 ∷ [])) (pos 0) ∷ [])
deliver_to_child_lem_example =
    deliver_to_child_lem (recording_child accepting) one_block 1 (7 ∷ 8 ∷ []) busy []
      one_block-IsMalloc (omega arith)

abbrev burst : Cells
burst = (5, note 3) ∷ (6, note 4) ∷ []

abbrev sent : Trace
sent =
    fin (pos 0) ∷ stream (4 ∷ []) (pos 0) ∷ stream (3 ∷ []) (pos 0) ∷ stream (1 ∷ []) (pos 0) ∷ []

output_all-pump_example :
    (s1 : Session) × (s2 : Session) × (output_all burst busy ≡ some s1)
    × (wtd_session_pump (recording_transport accepting) 3 (wtd_session_on_output_eof s1) []
        ≡ some (s2, sent))
    × Queued s2 []
    × (s2.stream_fin_sent ≡ true)
output_all-pump_example =
    output_all-pump (recording_transport accepting) burst queued busy [] 3 queue-Holds
      (λ e. cc, refl, refl, refl, (λ e. cc, refl, refl, refl, tt)) (omega arith) refl refl

fin_overtakes_example :
    (s1 : Session) × (s2 : Session) × (s3 : Session) × (wtd_session_on_output 5 0 (7 ∷ []) idle
      ≡ some s1)
    × (emit_fin (recording_transport accepting) (wtd_session_on_output_eof s1) []
        ≡ (s2, fin (pos 0) ∷ []))
    × (wtd_session_pump (recording_transport accepting) 1 s2 (fin (pos 0) ∷ [])
        ≡ some (s3, stream (7 ∷ []) (pos 0) ∷ fin (pos 0) ∷ []))
fin_overtakes_example =
    fin_overtakes (recording_transport accepting) idle [] 5 0 (7 ∷ [])
      (record { starts = refl; ends = refl; links = tt }) (λ e. cc) refl refl refl

abbrev closed_session : Session
closed_session = record (wtd_session_init (λ p. none)) { child_input_closed = true }

closes_once :
    Reach accepting one_block (wtd_session_init (λ p. none)) [] closed_session (close (pos 0) ∷ [])
unfolding wtd_session_init wtd_session_deliver_fin
closes_once = next (next here (delivers_fin refl)) (delivers_fin refl)

Reach-Agrees_example : Agrees closed_session (close (pos 0) ∷ [])
Reach-Agrees_example =
    Reach-Agrees accepting one_block (λ p. none) closed_session (close (pos 0) ∷ [])
      one_block-IsMalloc closes_once
