-- ===== src/Examples.antt =====
-- examples/echo.c and examples/shout.c: children that send every message back, as it is or in upper
-- case. The two programs differ in the transform of the payload only, which is the parameter `edit`.
-- The answers of read(2) are those of the reader thread; write(2) takes some of the bytes that it is
-- given, or is interrupted, or fails. A list of answers that is used up leaves the program in that
-- call. The buffers are lists, an access outside of them is `none`; of malloc and free only a
-- refused request is modelled.
pub mod Writing
pub mod Drain
pub mod Echo
pub mod Shout
use webtransportd.Common.{
  ℕ, zero, suc, ◌+◌, ◌-◌, min, Bool, true, false, ◌&&◌, List, [], ◌∷◌, ◌++◌, map, Option, none,
  some, ◌==◌, leb, if◌then◌else◌, length, take, drop,
}
use webtransportd.Common.Memory.{◌>>=◌, load_all}
use webtransportd.Frame.{
  Status, ok, fail, incomplete, Decoded, max_payload, wtd_frame_decode, wtd_frame_encode,
}
use webtransportd.ChildOutput.{Answer, up_to, interrupted, failed}

-- BUF_CAP
abbrev pub buf_cap : ℕ
buf_cap = 1 + 4 + max_payload

-- How the kernel answers a write(2): it takes at most `suc k` bytes, or EINTR, or anything else.
pub data Wrote : Type 0 where
  at_most : ℕ → Wrote
  again broken : Wrote

-- What write_all comes to: 0 with the answers that are left, -1, or a write(2) without an answer.
pub data Written : Type 0 where
  all_written : List Wrote → List ℕ → Written
  write_failed stuck : List ℕ → Written

-- write_all of the bytes, behind those that stdout has taken.
unfoldable pub write_all : List Wrote → List ℕ → List ℕ → Written
write_all answers [] out = all_written answers out
write_all [] (b ∷ bytes) out = stuck out
write_all (again ∷ answers) (b ∷ bytes) out = write_all answers (b ∷ bytes) out
write_all (broken ∷ answers) (b ∷ bytes) out = write_failed out
write_all (at_most k ∷ answers) (b ∷ bytes) out =
    let n = min (suc k) (length (b ∷ bytes)) in
    write_all answers (drop n (b ∷ bytes)) (out ++ take n (b ∷ bytes))

-- What the loops change: stdout with the answers to come, and out_buf.
pub record Output : Type 0 where
  pub written : List ℕ
  pub writes : List Wrote
  pub out_buf : List ℕ

-- The program has ended with a code, or it is inside read(2) or write(2).
pub data Process : Type 0 where
  exits : ℕ → Output → Process
  waits : Output → Process

-- How the inner loop ends: for lack of bytes, or with the program.
pub data Inner : Type 0 where
  short : List ℕ → Output → Inner
  stops : Process → Inner

-- The uppercase loop of shout.c, for one byte and for all.
unfoldable pub upper : ℕ → ℕ
upper c = if leb b'a' c && leb c b'z' then c - 32 else c

unfoldable pub upper_all : List ℕ → List ℕ
unfolding upper
upper_all = map upper

module _ (edit : List ℕ → List ℕ) where
  -- What follows write_all: the next frame, or the end of the program.
  abbrev pub after_write : (Output → Option Inner) → List ℕ → Written → Option Inner
  after_write go_on out_buf (all_written answers written) =
      go_on (record { written = written; writes = answers; out_buf = out_buf })
  after_write go_on out_buf (write_failed written) =
      some (stops (exits 6 (record { written = written; writes = []; out_buf = out_buf })))
  after_write go_on out_buf (stuck written) =
      some (stops (waits (record { written = written; writes = []; out_buf = out_buf })))

  -- What follows wtd_frame_encode.
  unfoldable pub after_encode : (Output → Option Inner) → Output → Status ℕ × List ℕ → Option Inner
  unfolding write_all load_all
  after_encode go_on o (fail e, out_buf) = some (stops (exits 5 (record o { out_buf = out_buf })))
  after_encode go_on o (ok out_len, out_buf) = do
    bytes ← load_all out_buf 0 out_len
    after_write go_on out_buf (write_all o.writes bytes o.written)

  -- One frame, behind the decoder.
  unfoldable pub answer_frame : (Output → Option Inner) → List ℕ → Decoded → Output → Option Inner
  unfolding after_encode load_all
  answer_frame go_on buf d o = do
    payload ← load_all buf d.payload d.payload_len
    encoded ← wtd_frame_encode d.flag (edit payload) d.payload_len o.out_buf buf_cap
    after_encode go_on o encoded

  -- The inner loop, on fuel; every frame is two bytes long or more.
  unfoldable pub answer_frames : ℕ → List ℕ → Output → Option Inner
  unfolding answer_frame
  answer_frames zero buf o = none
  answer_frames (suc fuel) buf o = elim (wtd_frame_decode buf (length buf)) [
    | none ↦ none
    | some (fail incomplete) ↦ some (short buf o)
    | some (fail e) ↦ some (stops (exits 4 o))
    | some (ok d) ↦ answer_frame (answer_frames fuel (drop d.consumed buf)) buf d o
  ]

  -- What follows the inner loop.
  abbrev pub after_inner : (List ℕ → Output → Option Process) → Option Inner → Option Process
  after_inner go_on none = none
  after_inner go_on (some (stops p)) = some p
  after_inner go_on (some (short rest o)) = go_on rest o

  -- The outer loop of main.
  unfoldable pub read_frames : List Answer → List ℕ → List ℕ → Output → Option Process
  unfolding answer_frames
  read_frames [] stream buf o =
      if leb buf_cap (length buf) then some (exits 2 o) else some (waits o)
  read_frames (interrupted ∷ answers) stream buf o =
      let rest = read_frames answers stream buf o in
      if leb buf_cap (length buf) then some (exits 2 o) else rest
  read_frames (failed ∷ answers) stream buf o =
      if leb buf_cap (length buf) then some (exits 2 o) else some (exits 3 o)
  read_frames (up_to k ∷ answers) stream buf o =
      let n = min (suc k) (min (buf_cap - length buf) (length stream)) in
      let buf' = buf ++ take n stream in
      let round =
        after_inner (read_frames answers (drop n stream))
          (answer_frames (suc (length buf')) buf' o) in
      if leb buf_cap (length buf)
      then some (exits 2 o)
      else if n == 0
      then some (exits 0 o)
      else round

  -- main, where the three or two mallocs succeed, and where one fails
  unfoldable pub child_main : Bool → List Answer → List ℕ → Output → Option Process
  unfolding read_frames
  child_main memory answers stream o =
      if memory then read_frames answers stream [] o else some (exits 1 o)

-- The main functions of echo.c and of shout.c.
unfoldable pub echo_main : Bool → List Answer → List ℕ → Output → Option Process
unfolding child_main
echo_main = child_main (λ payload. payload)

unfoldable pub shout_main : Bool → List Answer → List ℕ → Output → Option Process
unfolding child_main upper_all
shout_main = child_main upper_all

-- main of frame_hi.c: what it writes to which descriptor, whatever write(2) answers; "oops" and a line
-- end to stderr, a frame to stdout.
abbrev pub frame_hi_main : List (ℕ × List ℕ)
frame_hi_main = (2, b'o' ∷ b'o' ∷ b'p' ∷ b's' ∷ 10 ∷ []) ∷ (1, 0 ∷ 2 ∷ b'h' ∷ b'i' ∷ []) ∷ []
