-- ===== src/ChildOutput.antt =====
-- adapters/child_output.h and adapters/child_output.c: the thread that reads the child's stdout.
-- The child's output is the list of bytes that it will have written; each read(2) is answered by the
-- kernel: a positive number of bytes as far as the child's output and the room in the buffer go, an
-- end of file when there is no more output, EINTR, or another error. A list of answers that is used
-- up leaves the thread in read(2). The buffer is the list of its first `used` bytes.
-- `S` is what the thread works on: the session, the memory of the nodes and the wake-ups.
pub mod Loop
pub mod Delivery
pub mod Control
use webtransportd.Common.{
  ℕ, suc, zero, ◌+◌, ◌-◌, ◌^◌, ◌≡◌, min, Bool, true, false, List, [], ◌∷◌, ◌++◌, Option, none, some,
  ◌==◌, leb, if◌then◌else◌, length, take, drop,
}
use webtransportd.Common.Memory.{◌>>=◌, load_all}
use webtransportd.Frame.{Status, ok, fail, incomplete, Decoded, max_payload, wtd_frame_decode}

-- WTD_READ_BUF_SIZE
abbrev pub read_buf_size : ℕ
read_buf_size = 1 + 4 + max_payload

-- How the kernel answers a read(2): with at most `suc k` bytes, with EINTR, or with another error.
pub data Answer : Type 0 where
  up_to : ℕ → Answer
  interrupted failed : Answer

-- wtd_session_on_output and wtd_session_on_output_eof, and the wake callback or NULL
pub record Sink (S : Type 0) : Type 0 where
  pub on_output : ℕ → List ℕ → S → S
  pub on_output_eof : S → S
  pub wake : Option (S → S)

-- How the inner loop ends: for lack of bytes, with those that are left, or at a malformed frame.
pub data Drained (S : Type 0) : Type 0 where
  short : List ℕ → S → Drained S
  malformed : S → Drained S

-- The thread is inside read(2), with the output that is still to come and its buffer, or it has ended.
pub data Thread (S : Type 0) : Type 0 where
  waiting : List ℕ → List ℕ → S → Thread S
  ended : S → Thread S

module _ {S : Type 0} (sink : Sink S) where
  -- `if (o->wake != NULL) o->wake(o->wake_ctx);`
  unfoldable pub fire_wake : S → S
  fire_wake s = elim sink.wake [ none ↦ s | some wake ↦ wake s ]

  -- One frame: wtd_session_on_output and the wake-up.
  unfoldable pub deliver : ℕ → List ℕ → S → S
  unfolding fire_wake
  deliver flag payload s = fire_wake (sink.on_output flag payload s)

  -- The inner loop, on fuel; `none` is an access outside the buffer or the end of the fuel.
  unfoldable pub drain_frames : ℕ → List ℕ → S → Option (Drained S)
  unfolding deliver load_all
  drain_frames zero buf s = none
  drain_frames (suc fuel) buf s = elim (wtd_frame_decode buf (length buf)) [
    | none ↦ none
    | some (fail incomplete) ↦ some (short buf s)
    | some (fail e) ↦ some (malformed s)
    | some (ok d) ↦ elim (load_all buf d.payload d.payload_len) [
      | none ↦ none
      | some payload ↦ drain_frames fuel (drop d.consumed buf) (deliver d.flag payload s)
    ]
  ]

  -- The label `done`: EOF to the session, and a last wake-up.
  unfoldable pub finish : S → S
  unfolding fire_wake
  finish s = fire_wake (sink.on_output_eof s)

  -- The outer loop. A round that ends with a full buffer ends the loop; each frame takes two bytes
  -- at least, so the bytes in the buffer and one round more are enough fuel for the inner loop.
  unfoldable pub read_loop : List Answer → List ℕ → List ℕ → S → Option (Thread S)
  unfolding drain_frames finish
  read_loop [] stream buf s =
      if leb read_buf_size (length buf)
      then some (ended (finish s))
      else some (waiting stream buf s)
  read_loop (interrupted ∷ answers) stream buf s =
      let again = read_loop answers stream buf s in
      if leb read_buf_size (length buf) then some (ended (finish s)) else again
  read_loop (failed ∷ answers) stream buf s = some (ended (finish s))
  read_loop (up_to k ∷ answers) stream buf s =
      let n = min (suc k) (min (read_buf_size - length buf) (length stream)) in
      let buf' = buf ++ take n stream in
      if leb read_buf_size (length buf)
      then some (ended (finish s))
      else if n == 0
      then some (ended (finish s))
      else elim (drain_frames (suc (length buf')) buf' s) [
        | none ↦ none
        | some (malformed s') ↦ some (ended (finish s'))
        | some (short rest s') ↦ read_loop answers (drop n stream) rest s'
      ]

  -- reader_main, from malloc's answer on
  unfoldable pub reader_main : Bool → List Answer → List ℕ → S → Option (Thread S)
  unfolding read_loop
  reader_main got_buffer answers stream s =
      if got_buffer then read_loop answers stream [] s else some (ended (finish s))
