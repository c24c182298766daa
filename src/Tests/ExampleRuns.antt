-- ===== src/Tests/ExampleRuns.antt =====
-- Runs of examples/echo.c and examples/shout.c.
use webtransportd.Common.{◌+◌, ◌≡◌, ◌≤◌, refl, arith, true, List, [], ◌∷◌, some, length}
use webtransportd.Frame.Encode.{wire}
use webtransportd.Frame.Varint.{shortest}
use webtransportd.ChildOutput.Loop.{wires}
use webtransportd.Examples.{
  frame_hi_main, Wrote, at_most, again, all_written, write_all, Output, buf_cap, exits, shout_main,
}
use webtransportd.Examples.Writing.{progress, IsSteady, write_all_lem}
use webtransportd.Examples.Drain.{IsReady}
use webtransportd.Examples.Shout.{AreShouted, shout_main-wires}
use webtransportd.ChildOutput.Loop.{Message}
use webtransportd.Tests.BootRuns.{length-zeros}
use webtransportd.Tests.SessionRuns.{zeros}
use webtransportd.Tests.ReaderRuns.{ping, pong, ping-IsSendable, pong-IsSendable, pieces}

abbrev pub slow : List Wrote
slow = at_most 0 ∷ again ∷ at_most 1 ∷ at_most 0 ∷ at_most 9 ∷ at_most 9 ∷ at_most 9 ∷ []

write_all_lem_example :
    (rest : List Wrote) × (write_all slow (5 ∷ 6 ∷ 7 ∷ 8 ∷ []) (1 ∷ [])
      ≡ all_written rest (1 ∷ 5 ∷ 6 ∷ 7 ∷ 8 ∷ []))
    × IsSteady rest
    × (progress slow ≤ 4 + progress rest)
write_all_lem_example = write_all_lem slow (5 ∷ 6 ∷ 7 ∷ 8 ∷ []) (1 ∷ []) tt (omega arith)

abbrev idle : Output
idle = record { written = []; writes = slow; out_buf = zeros buf_cap }

idle-IsReady : IsReady (length (wires (ping ∷ pong ∷ []))) idle
unfolding wire shortest
idle-IsReady = record { steady = tt; enough = omega arith; room = length-zeros buf_cap }

shout_main-wires_example :
    (o' : Output) × (ns : List Message) × (shout_main true pieces (wires (ping ∷ pong ∷ [])) idle
      ≡ some (exits 0 o'))
    × (o'.written ≡ wires ns)
    × AreShouted (ping ∷ pong ∷ []) ns
unfolding wire shortest
shout_main-wires_example =
    shout_main-wires pieces (ping ∷ pong ∷ []) idle (ping-IsSendable, (pong-IsSendable, tt)) tt
      (omega arith) idle-IsReady

-- What frame_hi.c writes to stdout is a frame of the flag 0 and "hi".
hi_frame :
    frame_hi_main ≡ (2, b'o' ∷ b'o' ∷ b'p' ∷ b's' ∷ 10 ∷ []) ∷ (1, wire 0 (b'h' ∷ b'i' ∷ [])) ∷ []
unfolding wire shortest
hi_frame = refl
