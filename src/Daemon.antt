-- ===== src/Daemon.antt =====
-- The parts together, for a child that is examples/echo.c: core/session.c writes what the peer sends
-- to the child, adapters/child_output.c reads what the child writes, and core/session.c sends it.
-- The child's stdin is what the child port's state says it is; malloc's answers for the queue's nodes
-- are a list of addresses.
pub mod PeerEcho
use webtransportd.Common.{ℕ, ◌==◌, if◌then◌else◌, List, [], ◌∷◌, Option, none, some}
use webtransportd.Common.Memory.{◌>>=◌}
use webtransportd.Frame.{flag_reliable}
use webtransportd.WorkQueue.{Ptr, null}
use webtransportd.WorkQueue.Chain.{Message}
use webtransportd.Session.{
  ChildPort, Session, wtd_session_deliver_stream, wtd_session_deliver_datagram,
  wtd_session_on_output, wtd_session_on_output_eof,
}
use webtransportd.ChildOutput.{Sink}

-- One message of the peer, on the stream or as a datagram.
unfoldable pub deliver_message :
    {W : Type 0} → ChildPort W → (ℕ → Option (List ℕ)) → Message → Session → W → Option W
unfolding wtd_session_deliver_stream wtd_session_deliver_datagram
deliver_message child malloc m s w =
    if m.flag == flag_reliable
    then wtd_session_deliver_stream child malloc m.payload s w
    else wtd_session_deliver_datagram child malloc m.payload s w

-- The peer's messages one after another.
unfoldable pub deliver_each :
    {W : Type 0} → ChildPort W → (ℕ → Option (List ℕ)) → List Message → Session → W → Option W
unfolding deliver_message
deliver_each child malloc [] s w = some w
deliver_each child malloc (m ∷ ms) s w = do
  w' ← deliver_message child malloc m s w
  deliver_each child malloc ms s w'

-- What the reader thread works on: the session, or a fault, and malloc's answers that are to come.
abbrev pub Hearing : Type 0
Hearing = Option Session × List Ptr

unfoldable pub hear : ℕ → List ℕ → Hearing → Hearing
unfolding wtd_session_on_output
hear flag payload (s, []) = (s >>= wtd_session_on_output null flag payload, [])
hear flag payload (s, a ∷ addresses) = (s >>= wtd_session_on_output a flag payload, addresses)

unfoldable pub hear_eof : Hearing → Hearing
unfolding wtd_session_on_output_eof
hear_eof (s, addresses) = (s >>= λ s'. some (wtd_session_on_output_eof s'), addresses)

-- The session as the reader thread's sink. The wake-up makes the network thread pump, which the
-- pump's own run stands for.
abbrev pub session_sink : Sink Hearing
session_sink = record { on_output = hear; on_output_eof = hear_eof; wake = none }
