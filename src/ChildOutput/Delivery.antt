-- ===== src/ChildOutput/Delivery.antt =====
-- The whole thread: which frames reach the session, whatever pieces read(2) cuts the output into.
use webtransportd.Common.{
  ℕ, suc, ◌-◌, ◌≡◌, ◌<◌, refl, ap, ◌∙◌, min, true, false, List, [], ◌∷◌, ◌++◌, some, ◌==◌, leb,
  length, take, drop, length-append, length-drop, take-append-drop, arith, All, append_assoc,
}
use webtransportd.Frame.Encode.{wire, length-wire}
use webtransportd.ChildOutput.{
  Answer, up_to, interrupted, failed, read_buf_size, Sink, short, ended, deliver, drain_frames,
  finish, read_loop, reader_main,
}
use webtransportd.ChildOutput.Loop.{
  Message, IsSendable, wires, IsShort, deliver_all, drain_frames-Drains,
}

-- The reads that are answered with bytes or an end of file.
abbrev pub reads : List Answer → ℕ
reads [] = 0
reads (up_to k ∷ answers) = suc (reads answers)
reads (interrupted ∷ answers) = reads answers
reads (failed ∷ answers) = reads answers

abbrev pub NeverFails : List Answer → Type 0
NeverFails [] = Unit {0}
NeverFails (up_to k ∷ answers) = NeverFails answers
NeverFails (interrupted ∷ answers) = NeverFails answers
NeverFails (failed ∷ answers) = ⊥

pub nothing_short :
    (left : List ℕ) (ms : List Message) → IsShort left ms → left ++ [] ≡ wires ms → ms ≡ []
nothing_short left [] h e = refl
nothing_short left (m ∷ ms) h e = absurd (
    omega
      (arith, ap length e, length-append left [], length-append (wire m.flag m.payload) (wires ms)))

pub empty-IsShort : (ms : List Message) → IsShort [] ms
empty-IsShort [] = tt
empty-IsShort (m ∷ ms) = omega (arith, length-wire m.flag m.payload)

module _ {S : Type 0} (sink : Sink S) where
  deliver_all-append :
      (front back : List Message) (s : S)
      → deliver_all sink (front ++ back) s ≡ deliver_all sink back (deliver_all sink front s)
  deliver_all-append [] back s = refl
  deliver_all-append (m ∷ front) back s =
      deliver_all-append front back (deliver sink m.flag m.payload s)

  -- One read that brings `n` bytes, seen from the outer loop.
  round :
      (k : ℕ) (answers : List Answer) (x : ℕ) (stream buf : List ℕ) (s : S) (left : List ℕ) (s' : S)
      → length buf < read_buf_size
      → let n = min (suc k) (min (read_buf_size - length buf) (length (x ∷ stream))) in
        drain_frames sink (suc (length (buf ++ take n (x ∷ stream)))) (buf ++ take n (x ∷ stream)) s
          ≡ some (short left s')
        → read_loop sink (up_to k ∷ answers) (x ∷ stream) buf s
          ≡ read_loop sink answers (drop n (x ∷ stream)) left s'
  unfolding read_loop
  round k answers x stream buf s left s' h e =
      let n = min (suc k) (min (read_buf_size - length buf) (length (x ∷ stream))) in
      let room : leb read_buf_size (length buf) ≡ false = ground arith in
      let got : (n == 0) ≡ false = ground arith in rw (room, got, e)

  round_interrupted :
      (answers : List Answer) (stream buf : List ℕ) (s : S)
      → length buf < read_buf_size
      → read_loop sink (interrupted ∷ answers) stream buf s ≡ read_loop sink answers stream buf s
  unfolding read_loop
  round_interrupted answers stream buf s h =
      let room : leb read_buf_size (length buf) ≡ false = ground arith in rw room

  round_eof :
      (k : ℕ) (answers : List Answer) (buf : List ℕ) (s : S)
      → length buf < read_buf_size
      → read_loop sink (up_to k ∷ answers) [] buf s ≡ some (ended (finish sink s))
  unfolding read_loop
  round_eof k answers buf s h =
      let room : leb read_buf_size (length buf) ≡ false = ground arith in
      let nothing : min (suc k) (min (read_buf_size - length buf) 0) ≡ 0 = omega arith in
      rw (room, nothing)

  loop_delivers :
      (answers : List Answer) (ms : List Message) (stream buf : List ℕ) (s : S)
      → All IsSendable ms
      → buf ++ stream ≡ wires ms
      → length buf < read_buf_size
      → IsShort buf ms
      → NeverFails answers
      → length stream < reads answers
      → read_loop sink answers stream buf s ≡ some (ended (finish sink (deliver_all sink ms s)))
  loop_delivers [] ms stream buf s good e h sh nf more = absurd (omega arith)
  loop_delivers (failed ∷ answers) ms stream buf s good e h sh nf more = absurd nf
  loop_delivers (interrupted ∷ answers) ms stream buf s good e h sh nf more =
      round_interrupted answers stream buf s h
      ∙ loop_delivers answers ms stream buf s good e h sh nf more
  loop_delivers (up_to k ∷ answers) ms [] buf s good e h sh nf more =
      rw (nothing_short buf ms sh e) (round_eof k answers buf s h)
  loop_delivers (up_to k ∷ answers) ms (x ∷ stream) buf s good e h sh nf more =
      let n = min (suc k) (min (read_buf_size - length buf) (length (x ∷ stream))) in
      let got = buf ++ take n (x ∷ stream) in
      let whole : got ++ drop n (x ∷ stream) ≡ wires ms =
        append_assoc buf (take n (x ∷ stream)) (drop n (x ∷ stream))
        ∙ ap (λ (t : List ℕ). buf ++ t) (take-append-drop n (x ∷ stream))
        ∙ e in
      let (front, back, left, r, split, tail, small, short', good') =
        drain_frames-Drains sink (suc (length got)) ms got (drop n (x ∷ stream)) s good whole
          (omega arith) in
      round k answers x stream buf s left (deliver_all sink front s) h r
      ∙ loop_delivers answers back (drop n (x ∷ stream)) left (deliver_all sink front s) good' tail
          small short' nf (omega (arith, length-drop n (x ∷ stream)))
      ∙ rw (split, deliver_all-append front back s)

  -- If the child writes well-formed frames and then ends, the thread hands every frame to the
  -- session, once and in order, each followed by a wake-up, then the EOF, and ends; in whatever
  -- pieces the kernel serves the bytes, with interrupted reads in between. As many answered reads as
  -- there are bytes, and one more, are enough.
  pub reader_main-delivers :
      (answers : List Answer) (ms : List Message) (s : S)
      → All IsSendable ms
      → NeverFails answers
      → length (wires ms) < reads answers
      → reader_main sink true answers (wires ms) s
        ≡ some (ended (finish sink (deliver_all sink ms s)))
  unfolding reader_main
  reader_main-delivers answers ms s good nf more =
      loop_delivers answers ms (wires ms) [] s good refl (omega arith) (empty-IsShort ms) nf more
