-- ===== src/Examples/Echo.antt =====
-- What the example children send back, whatever pieces the kernel serves and takes the bytes in.
use webtransportd.Common.{
  ℕ, suc, ◌-◌, ◌≡◌, ◌<◌, refl, ap, sym, ◌∙◌, min, true, false, List, [], ◌∷◌, ◌++◌, some, ◌==◌, leb,
  length, take, drop, length-drop, take-append-drop, arith, All, append_assoc, append-nil,
}
use webtransportd.Frame.Encode.{wire}
use webtransportd.ChildOutput.{Answer, up_to, interrupted, failed, Sink, ended, finish, reader_main}
use webtransportd.ChildOutput.Loop.{Message, IsSendable, wires, IsShort, deliver_all}
use webtransportd.ChildOutput.Delivery.{
  reads, NeverFails, nothing_short, empty-IsShort, reader_main-delivers,
}
use webtransportd.Examples.{
  buf_cap, Output, exits, short, answer_frames, read_frames, child_main, echo_main,
}
use webtransportd.Examples.Drain.{replies, IsReady, answer_frames-Answers}

module _ (edit : List ℕ → List ℕ)
    (keeps : (bytes : List ℕ) → length (edit bytes) ≡ length bytes) where
  wires-replies :
      (front back : List Message)
      → wires (replies edit front) ++ wires (replies edit back)
        ≡ wires (replies edit (front ++ back))
  wires-replies [] back = refl
  wires-replies (m ∷ front) back =
      append_assoc (wire m.flag (edit m.payload)) (wires (replies edit front))
        (wires (replies edit back))
      ∙ ap (λ (t : List ℕ). wire m.flag (edit m.payload) ++ t) (wires-replies front back)

  -- One read that brings `n` bytes, seen from the outer loop.
  round :
      (k : ℕ) (answers : List Answer) (x : ℕ) (stream buf : List ℕ) (o : Output) (left : List ℕ)
      (o' : Output)
      → length buf < buf_cap
      → let n = min (suc k) (min (buf_cap - length buf) (length (x ∷ stream))) in
        answer_frames edit
            (suc (length (buf ++ take n (x ∷ stream))))
            (buf ++ take n (x ∷ stream))
            o
          ≡ some (short left o')
        → read_frames edit (up_to k ∷ answers) (x ∷ stream) buf o
          ≡ read_frames edit answers (drop n (x ∷ stream)) left o'
  unfolding read_frames
  round k answers x stream buf o left o' h e =
      let n = min (suc k) (min (buf_cap - length buf) (length (x ∷ stream))) in
      let room : leb buf_cap (length buf) ≡ false = ground arith in
      let got : (n == 0) ≡ false = ground arith in rw (room, got, e)

  round_interrupted :
      (answers : List Answer) (stream buf : List ℕ) (o : Output)
      → length buf < buf_cap
      → read_frames edit (interrupted ∷ answers) stream buf o
        ≡ read_frames edit answers stream buf o
  unfolding read_frames
  round_interrupted answers stream buf o h =
      let room : leb buf_cap (length buf) ≡ false = ground arith in rw room

  round_eof :
      (k : ℕ) (answers : List Answer) (buf : List ℕ) (o : Output)
      → length buf < buf_cap
      → read_frames edit (up_to k ∷ answers) [] buf o ≡ some (exits 0 o)
  unfolding read_frames
  round_eof k answers buf o h =
      let room : leb buf_cap (length buf) ≡ false = ground arith in
      let nothing : min (suc k) (min (buf_cap - length buf) 0) ≡ 0 = omega arith in
      rw (room, nothing)

  loop_replies :
      (answers : List Answer) (ms : List Message) (stream buf : List ℕ) (o : Output)
      → All IsSendable ms
      → buf ++ stream ≡ wires ms
      → length buf < buf_cap
      → IsShort buf ms
      → NeverFails answers
      → length stream < reads answers
      → IsReady (length (wires ms)) o
      → (o' : Output) × (read_frames edit answers stream buf o ≡ some (exits 0 o'))
        × (o'.written ≡ o.written ++ wires (replies edit ms))
  loop_replies [] ms stream buf o good e h sh nf more ready = absurd (omega arith)
  loop_replies (failed ∷ answers) ms stream buf o good e h sh nf more ready = absurd nf
  loop_replies (interrupted ∷ answers) ms stream buf o good e h sh nf more ready =
      let (o', r, written) = loop_replies answers ms stream buf o good e h sh nf more ready in
      (o', round_interrupted answers stream buf o h ∙ r, written)
  loop_replies (up_to k ∷ answers) ms [] buf o good e h sh nf more ready =
      (o, round_eof k answers buf o h, rw (nothing_short buf ms sh e) (sym (append-nil o.written)))
  loop_replies (up_to k ∷ answers) ms (x ∷ stream) buf o good e h sh nf more ready =
      let n = min (suc k) (min (buf_cap - length buf) (length (x ∷ stream))) in
      let got = buf ++ take n (x ∷ stream) in
      let whole : got ++ drop n (x ∷ stream) ≡ wires ms =
        append_assoc buf (take n (x ∷ stream)) (drop n (x ∷ stream))
        ∙ ap (λ (t : List ℕ). buf ++ t) (take-append-drop n (x ∷ stream))
        ∙ e in
      let (front, back, left, o1, r, split, tail, small, short', good', ready', wrote) =
        answer_frames-Answers edit keeps (suc (length got)) ms got (drop n (x ∷ stream)) o good
          whole (omega arith) ready in
      let (o', r', written) =
        loop_replies answers back (drop n (x ∷ stream)) left o1 good' tail small short' nf
          (omega (arith, length-drop n (x ∷ stream))) ready' in
      (
        o',
        round k answers x stream buf o left o1 h r ∙ r',
        written
            ∙ ap (◌++ wires (replies edit back)) wrote
            ∙ append_assoc o.written (wires (replies edit front)) (wires (replies edit back))
            ∙ ap (λ (t : List ℕ). o.written ++ t)
                (wires-replies front back
                  ∙ ap (λ (t : List Message). wires (replies edit t)) (sym split)),
      )

  pub child_replies :
      (answers : List Answer) (ms : List Message) (o : Output)
      → All IsSendable ms
      → NeverFails answers
      → length (wires ms) < reads answers
      → IsReady (length (wires ms)) o
      → (o' : Output) × (child_main edit true answers (wires ms) o ≡ some (exits 0 o'))
        × (o'.written ≡ o.written ++ wires (replies edit ms))
  unfolding child_main
  child_replies answers ms o good nf more ready =
      loop_replies answers ms (wires ms) [] o good refl (omega arith) (empty-IsShort ms) nf more
        ready

replies-same : (ms : List Message) → replies (λ payload. payload) ms ≡ ms
replies-same [] = refl
replies-same (m ∷ ms) = ap (◌∷◌ m) (replies-same ms)

-- If stdin is a sequence of frames that the encoder accepts, read(2) and write(2) do not fail, and
-- there are enough of both, then echo.c ends with code 0 and stdout has taken the same frames, once
-- and in order, in whatever pieces the two calls move the bytes.
pub echo_main-wires :
    (answers : List Answer) (ms : List Message) (o : Output)
    → All IsSendable ms
    → NeverFails answers
    → length (wires ms) < reads answers
    → IsReady (length (wires ms)) o
    → (o' : Output) × (echo_main true answers (wires ms) o ≡ some (exits 0 o'))
      × (o'.written ≡ o.written ++ wires ms)
unfolding echo_main
echo_main-wires answers ms o good nf more ready =
    let (o', r, written) =
      child_replies (λ payload. payload) (λ bytes. refl) answers ms o good nf more ready in
    (o', r, written ∙ ap (λ (t : List Message). o.written ++ wires t) (replies-same ms))

-- The echo child behind the daemon: if stdout starts empty, under the conditions above on the child
-- and with answered reads enough for the reader thread, the thread that reads what echo.c wrote hands
-- the session the frames that went to the child, once and in order, then the EOF, and ends.
pub echo_main-reader_main :
    {S : Type 0} (sink : Sink S) (served pieces : List Answer) (ms : List Message) (o : Output)
    (s : S)
    → All IsSendable ms
    → NeverFails served
    → length (wires ms) < reads served
    → IsReady (length (wires ms)) o
    → o.written ≡ []
    → NeverFails pieces
    → length (wires ms) < reads pieces
    → (o' : Output) × (echo_main true served (wires ms) o ≡ some (exits 0 o'))
      × (reader_main sink true pieces o'.written s
          ≡ some (ended (finish sink (deliver_all sink ms s))))
echo_main-reader_main sink served pieces ms o s good nf more ready empty nf' more' =
    let (o', r, written) = echo_main-wires served ms o good nf more ready in
    (
      o',
      r,
      rw (written ∙ ap (◌++ wires ms) empty) (reader_main-delivers sink pieces ms s good nf' more'),
    )
