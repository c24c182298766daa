-- ===== src/Session/Interleaving.antt =====
-- The reader thread and the network thread at once: the critical sections of wtd_session_on_output
-- and wtd_work_queue_drain are single steps, and between the rounds of a pump the reader thread may
-- come in.
pub mod Lists
pub mod Order
pub mod Progress
use mathlib.Core.List.{map-append}
use webtransportd.Common.{
  ℕ, suc, zero, ◌⊎◌, ◌≡◌, ◌≢◌, refl, sym, ap, ◌∙◌, Bool, true, false, List, [], ◌∷◌, ◌++◌, Option,
  none, some, ◌==◌, arith, inl, inr, Bool-cases, append_assoc, append-nil, map, if◌then◌else◌, ◌||◌,
}
use webtransportd.Common.Int.{ℤ}
use webtransportd.Frame.{flag_reliable}
use webtransportd.WorkQueue.{Ptr, null, Heap, update, OutboundFrame, wtd_work_queue_drain}
use webtransportd.WorkQueue.Chain.{
  Message, Cells, Chain, Chain-tail, Chain-update, Holds, node, first, has, has-snoc, messages,
  init-Holds, drain-Holds,
}
use webtransportd.Session.{
  Session, wtd_session_init, wtd_session_on_output, wtd_session_on_output_eof, send_frame, emit_fin,
}
use webtransportd.Session.Pump.{Queued, message, send_message, send_frame-node, on_output-Queued}
use webtransportd.Session.Order.{messages-append}
use webtransportd.Session.Run.{Trace, stream, datagram, write, fin, close, recording_transport}

-- Where the network thread stands in wtd_session_pump: outside, in the loop with the frame that is
-- next, or behind the loop.
pub data Phase : Type 0 where
  idle finishing : Phase
  flushing : Ptr → Phase

pub record System : Type 0 where
  pub session : Session
  pub phase : Phase
  pub trace : Trace

-- One step of either thread, and the messages that it takes from the child; a message for which
-- malloc has no node is lost.
pub data Step (answers : Trace → ℤ) (s s' : System) : List Message → Type 0 where
  outputs :
      (fresh flag : ℕ) (bytes : List ℕ) (next : Session)
      → fresh ≢ null
      → s.session.nodes fresh ≡ none
      → wtd_session_on_output fresh flag bytes s.session ≡ some next
      → s' ≡ record s { session = next }
      → Step answers s s' (message flag bytes ∷ [])
  loses :
      (flag : ℕ) (bytes : List ℕ) (next : Session)
      → wtd_session_on_output null flag bytes s.session ≡ some next
      → s' ≡ record s { session = next }
      → Step answers s s' []
  ends : s' ≡ record s { session = wtd_session_on_output_eof s.session } → Step answers s s' []
  drains :
      s.phase ≡ idle
      → s' ≡ record s {
        session = record s.session { outbound = (wtd_work_queue_drain s.session.outbound).1 };
        phase = flushing (wtd_work_queue_drain s.session.outbound).0;
      }
      → Step answers s s' []
  sends :
      (p : Ptr) (f : OutboundFrame)
      → s.phase ≡ flushing p
      → p ≢ null
      → s.session.nodes p ≡ some f
      → s' ≡ record {
        session = record s.session { nodes = update s.session.nodes p none };
        phase = flushing f.next;
        trace = send_frame (recording_transport answers) f s.trace;
      }
      → Step answers s s' []
  flushed : s.phase ≡ flushing null → s' ≡ record s { phase = finishing } → Step answers s s' []
  finishes :
      s.phase ≡ finishing
      → s' ≡ record {
        session = (emit_fin (recording_transport answers) s.session s.trace).0;
        phase = idle;
        trace = (emit_fin (recording_transport answers) s.session s.trace).1;
      }
      → Step answers s s' []

-- Every history, with all that the child wrote and that got a node.
pub data Reach (answers : Trace → ℤ) (s : System) : System → List Message → Type 0 where
  here : Reach answers s s []
  after :
      {t u : System} {ms new : List Message}
      → Reach answers s t ms
      → Step answers t u new
      → Reach answers s u (ms ++ new)

-- What the peer can tell of a message: whether it came as stream bytes, and its bytes.
abbrev pub carried : Message → Bool × List ℕ
carried m = (m.flag == flag_reliable, m.payload)

-- What the trace sent to the peer, oldest first.
abbrev pub sent : Trace → List (Bool × List ℕ)
sent [] = []
sent (stream bytes rc ∷ t) = sent t ++ ((true, bytes) ∷ [])
sent (datagram bytes rc ∷ t) = sent t ++ ((false, bytes) ∷ [])
sent (write bytes rc ∷ t) = sent t
sent (fin rc ∷ t) = sent t
sent (close rc ∷ t) = sent t
