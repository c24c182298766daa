-- ===== src/Tests/ReaderRuns.antt =====
-- Runs of the reader thread of adapters/child_output.c.
use webtransportd.Common.{ℕ, ◌≡◌, refl, Bool, false, Option, true, List, [], ◌∷◌, none, some, arith}
use webtransportd.Common.Int.{pos}
use webtransportd.Frame.{wtd_frame_decode}
use webtransportd.Frame.Varint.{shortest}
use webtransportd.Frame.Encode.{wire}
use webtransportd.ChildOutput.{
  Answer, up_to, interrupted, Sink, waiting, ended, finish, reader_main,
}
use webtransportd.ChildOutput.Control.{
  ChildOutput, creates, joins, wtd_child_output_start, wtd_child_output_stop, Reach, here, after,
  starts, stops, threads, started, Reach-threads,
}
use webtransportd.ChildOutput.Loop.{Message, IsSendable, wires, deliver_all}
use webtransportd.ChildOutput.Delivery.{reader_main-delivers}

-- A sink that keeps the frames and the EOF, the newest first.
abbrev pub log_sink : Sink (List (ℕ × List ℕ))
log_sink = record {
  on_output = λ flag payload s. (flag, payload) ∷ s;
  on_output_eof = λ s. (255, []) ∷ s;
  wake = none;
}

abbrev pub ping : Message
ping = record { flag = 1; payload = 7 ∷ 8 ∷ [] }

abbrev pub pong : Message
pong = record { flag = 0; payload = [] }

pub ping-IsSendable : IsSendable ping
ping-IsSendable = record { known_flag = omega arith; bytes = omega arith; within = omega arith }

pub pong-IsSendable : IsSendable pong
pong-IsSendable = record { known_flag = omega arith; bytes = omega arith; within = omega arith }

abbrev pub pieces : List Answer
pieces = up_to 0 ∷ interrupted ∷ up_to 2 ∷ up_to 0 ∷ up_to 0 ∷ up_to 0 ∷ up_to 0 ∷ up_to 0 ∷ []

read_bytes :
    reader_main log_sink true pieces (1 ∷ 2 ∷ 7 ∷ 8 ∷ 0 ∷ 0 ∷ []) []
    ≡ some (ended ((255, []) ∷ (0, []) ∷ (1, 7 ∷ 8 ∷ []) ∷ []))
unfolding reader_main wtd_frame_decode
read_bytes = refl

read_malformed :
    reader_main log_sink true (up_to 9 ∷ []) (0 ∷ 0 ∷ 8 ∷ []) []
    ≡ some (ended ((255, []) ∷ (0, []) ∷ []))
unfolding reader_main wtd_frame_decode
read_malformed = refl

read_waiting :
    reader_main log_sink true (up_to 0 ∷ []) (1 ∷ 2 ∷ []) [] ≡ some (waiting (2 ∷ []) (1 ∷ []) [])
unfolding reader_main wtd_frame_decode
read_waiting = refl

reader_main-delivers_example :
    reader_main log_sink true pieces (wires (ping ∷ pong ∷ [])) []
    ≡ some (ended (finish log_sink (deliver_all log_sink (ping ∷ pong ∷ []) [])))
unfolding wire shortest
reader_main-delivers_example =
    reader_main-delivers log_sink pieces (ping ∷ pong ∷ []) []
      (ping-IsSendable, (pong-IsSendable, tt)) tt (omega arith)

abbrev control : Bool → Option ChildOutput
control started = some (record {
  thread_started = started;
  fd = pos 5;
  session = some 100;
  wake = none;
  wake_ctx = none;
})

-- A failed start, a start, a start too many, a stop, a stop too many, a start.
restarts : Reach (control false) (control true) (creates 0 ∷ joins ∷ creates 0 ∷ creates 11 ∷ [])
unfolding wtd_child_output_start wtd_child_output_stop
restarts =
    let refused = after here (starts (control false) _ 11 (pos 5) (some 100) none none) in
    let begun = after refused (starts (control false) _ 0 (pos 5) (some 100) none none) in
    let still = after begun (starts (control true) _ 0 (pos 6) (some 200) none none) in
    let over = after still (stops (control true) _) in
    let idle = after over (stops (control false) _) in
    after idle (starts (control false) _ 0 (pos 5) (some 100) none none)

Reach-threads_example :
    threads (creates 0 ∷ joins ∷ creates 0 ∷ creates 11 ∷ []) ≡ some (started (control true))
Reach-threads_example = Reach-threads (control false) (control true) _ refl restarts
