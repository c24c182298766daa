-- ===== src/Tests/DaemonRuns.antt =====
-- A run of the parts together, with an echo child.
use webtransportd.Common.{
  ℕ, ◌≡◌, refl, arith, true, List, [], ◌∷◌, ◌++◌, Option, none, some, length,
}
use webtransportd.Common.Int.{pos}
use webtransportd.Frame.Encode.{wire}
use webtransportd.Frame.Varint.{shortest}
use webtransportd.WorkQueue.Chain.{Message, Cells, messages}
use webtransportd.Session.{ChildPort, Session, wtd_session_init, wtd_session_pump}
use webtransportd.Session.Run.{stream, datagram, fin, recording_transport}
use webtransportd.ChildOutput.{Answer, up_to, ended, reader_main}
use webtransportd.ChildOutput.Loop.{IsSendable}
use webtransportd.Examples.{at_most, Output, buf_cap, exits, echo_main}
use webtransportd.Daemon.{deliver_each, session_sink}
use webtransportd.Daemon.PeerEcho.{IsOpen, addresses, peer_echo_lem}
use webtransportd.Tests.BootRuns.{length-zeros}
use webtransportd.Tests.SessionRuns.{zeros, accepting}
use webtransportd.Tests.ReaderRuns.{ping, ping-IsSendable, pieces}
use webtransportd.Tests.ExampleRuns.{slow}

-- A pipe without an end.
abbrev pipe : ChildPort (List ℕ)
pipe = record { write = λ bytes w. (pos (length bytes), w ++ bytes); close_input = λ w. (pos 0, w) }

abbrev blocks : ℕ → Option (List ℕ)
blocks n = some (zeros n)

pipe-IsOpen : IsOpen pipe (λ w. w) blocks
pipe-IsOpen = record {
  takes = λ bytes w. refl;
  sized = λ n buf e. ground (arith, e, length-zeros n);
  memory = λ n. refl;
}

abbrev nine : Message
nine = record { flag = 0; payload = 9 ∷ [] }

nine-IsSendable : IsSendable nine
nine-IsSendable = record { known_flag = omega arith; bytes = omega arith; within = omega arith }

abbrev two : Cells
two = (5, ping) ∷ (6, nine) ∷ []

abbrev reading : List Answer
reading = up_to 0 ∷ up_to 0 ∷ pieces

abbrev echo_output : Output
echo_output = record {
  written = [];
  writes = at_most 0 ∷ at_most 0 ∷ slow;
  out_buf = zeros buf_cap;
}

abbrev session : Session
session = wtd_session_init (λ p. none)

peer_echo_lem_example :
    (w' : List ℕ) × (o' : Output) × (heard : Session) × (s' : Session) × (deliver_each pipe blocks
        (messages two)
        session
        []
      ≡ some w')
    × (echo_main true reading w' echo_output ≡ some (exits 0 o'))
    × (reader_main session_sink true reading o'.written (some session, addresses two)
        ≡ some (ended (some heard, [])))
    × (wtd_session_pump (recording_transport accepting) 2 heard []
        ≡ some (s', fin (pos 0) ∷ stream (9 ∷ []) (pos 0) ∷ datagram (7 ∷ 8 ∷ []) (pos 0) ∷ []))
unfolding wire shortest wtd_session_init
peer_echo_lem_example =
    peer_echo_lem pipe (λ w. w) blocks (recording_transport accepting) two reading reading
      echo_output session [] [] pipe-IsOpen (ping-IsSendable, (nine-IsSendable, tt)) (omega arith)
      refl refl tt (omega arith)
      (record { steady = tt; enough = omega arith; room = length-zeros buf_cap }) refl tt
      (omega arith) (record { starts = refl; ends = refl; links = tt })
      (λ e. cc, refl, refl, refl, (λ e. cc, refl, refl, refl, tt)) refl refl
