-- ===== src/Examples/Drain.antt =====
-- The inner loop of the example children on a buffer that holds a front part of well-formed frames.
use webtransportd.Common.{
  ℕ, zero, suc, ◌+◌, ◌≡◌, ◌≤◌, ◌<◌, refl, ap, sym, ◌∙◌, inl, inr, false, List, [], ◌∷◌, ◌++◌,
  Option, some, length, drop, arith, All, ltb, length-append, length-drop, drop-append, take-append,
  append_assoc, append-nil, le→ltb,
}
use webtransportd.Common.Memory.{load_all-ok}
use webtransportd.Frame.{
  ok, fail, incomplete, max_payload, wtd_frame_decode, wtd_frame_encode, varint_size,
}
use webtransportd.Frame.Encode.{wire, length-wire, encode_total}
use webtransportd.Frame.RoundTrip.{decode-wire, decode-prefix, payload_slice}
use webtransportd.ChildOutput.Loop.{
  Message, IsSendable, wires, IsShort, split_append, empty_incomplete, wire-fits,
}
use webtransportd.Examples.{
  buf_cap, Wrote, Output, Inner, short, write_all, all_written, after_encode, answer_frame,
  answer_frames,
}
use webtransportd.Examples.Writing.{progress, IsSteady, write_all_lem}

module _ (edit : List ℕ → List ℕ) where
  -- The message that goes back for a message.
  abbrev pub edited : Message → Message
  edited m = record { flag = m.flag; payload = edit m.payload }

  abbrev pub replies : List Message → List Message
  replies [] = []
  replies (m ∷ ms) = edited m ∷ replies ms

-- stdout takes what is still to be written, and out_buf has its size.
pub record IsReady (todo : ℕ) (o : Output) : Type 0 where
  pub steady : IsSteady o.writes
  pub enough : todo ≤ progress o.writes
  pub room : length o.out_buf ≡ buf_cap

module _ (edit : List ℕ → List ℕ)
    (keeps : (bytes : List ℕ) → length (edit bytes) ≡ length bytes) where
  length-edited :
      (m : Message) → length (wire m.flag (edit m.payload)) ≡ length (wire m.flag m.payload)
  length-edited m = omega (
    arith,
    length-wire m.flag (edit m.payload),
    length-wire m.flag m.payload,
    ap varint_size (keeps m.payload),
    keeps m.payload,
  )

  encode_edited :
      (m : Message) (out : List ℕ)
      → IsSendable m
      → length out ≡ buf_cap
      → wtd_frame_encode m.flag (edit m.payload) (length m.payload) out buf_cap
        ≡ some (
          ok (length (wire m.flag (edit m.payload))),
          wire m.flag (edit m.payload) ++ drop (length (wire m.flag (edit m.payload))) out,
        )
  encode_edited m out good size =
      let flag : ltb 1 m.flag ≡ false = le→ltb 1 m.flag (omega (arith, good.known_flag)) in
      let within : ltb max_payload (length (edit m.payload)) ≡ false =
        le→ltb max_payload (length (edit m.payload))
          (omega (arith, keeps m.payload, good.within)) in
      let fits : ltb buf_cap (length (wire m.flag (edit m.payload))) ≡ false =
        le→ltb buf_cap (length (wire m.flag (edit m.payload)))
          (omega (arith, length-edited m, wire-fits m good)) in
      rw (sym (keeps m.payload)) (
        rw (
          encode_total m.flag (edit m.payload) out buf_cap (omega (arith, good.known_flag))
              (omega (arith, size)),
          flag,
          within,
          fits,
        ))

  -- What one frame leaves behind: its reply in out_buf, and behind the bytes on stdout.
  abbrev replied : Message → List Wrote → Output → Output
  replied m writes o = record {
    written = o.written ++ wire m.flag (edit m.payload);
    writes = writes;
    out_buf =
        wire m.flag (edit m.payload) ++ drop (length (wire m.flag (edit m.payload))) o.out_buf;
  }

  answer_frame_lem :
      (fuel : ℕ) (m : Message) (rest : List ℕ) (writes : List Wrote) (o : Output)
      → IsSendable m
      → length o.out_buf ≡ buf_cap
      → write_all o.writes (wire m.flag (edit m.payload)) o.written
        ≡ all_written writes (o.written ++ wire m.flag (edit m.payload))
      → answer_frames edit (suc fuel) (wire m.flag m.payload ++ rest) o
        ≡ answer_frames edit fuel rest (replied m writes o)
  unfolding answer_frames answer_frame after_encode
  answer_frame_lem fuel m rest writes o good size wrote =
      let reply = wire m.flag (edit m.payload) in
      rw (
        decode-wire m.flag m.payload rest good.known_flag good.within,
        load_all-ok (wire m.flag m.payload ++ rest) (1 + varint_size (length m.payload))
            (length m.payload)
            (omega
              (arith, length-wire m.flag m.payload, length-append (wire m.flag m.payload) rest)),
        payload_slice m.flag m.payload rest,
        encode_edited m o.out_buf good size,
        load_all-ok (reply ++ drop (length reply) o.out_buf) 0 (length reply)
            (omega (arith, length-append reply (drop (length reply) o.out_buf))),
        take-append reply (drop (length reply) o.out_buf),
        wrote,
        drop-append (wire m.flag m.payload) rest,
        answer_frames,
        answer_frame,
        after_encode,
      )

  -- The first frame of the buffer is answered, and stdout keeps up.
  reply_one :
      (fuel : ℕ) (m : Message) (rest : List ℕ) (ms : List Message) (o : Output)
      → IsSendable m
      → IsReady (length (wires (m ∷ ms))) o
      → (o' : Output) × (answer_frames edit (suc fuel) (wire m.flag m.payload ++ rest) o
          ≡ answer_frames edit fuel rest o')
        × IsReady (length (wires ms)) o'
        × (o'.written ≡ o.written ++ wire m.flag (edit m.payload))
  reply_one fuel m rest ms o good ready =
      let reply = wire m.flag (edit m.payload) in
      let (writes, e, steady, left) = write_all_lem o.writes reply o.written ready.steady (
        omega (
          arith,
          length-edited m,
          ready.enough,
          length-append (wire m.flag m.payload) (wires ms),
        )) in
      (
        replied m writes o,
        answer_frame_lem fuel m rest writes o good ready.room e,
        record {
          steady = steady;
          enough = omega (
            arith,
            length-edited m,
            ready.enough,
            left,
            length-append (wire m.flag m.payload) (wires ms),
          );
          room = omega (
            arith,
            ready.room,
            length-edited m,
            wire-fits m good,
            length-append reply (drop (length reply) o.out_buf),
            length-drop (length reply) o.out_buf,
          );
        },
        refl,
      )

  answer_short :
      (fuel : ℕ) (buf : List ℕ) (o : Output)
      → wtd_frame_decode buf (length buf) ≡ some (fail incomplete)
      → answer_frames edit (suc fuel) buf o ≡ some (short buf o)
  unfolding answer_frames
  answer_short fuel buf o e = rw (e, answer_frames)

  -- What the inner loop did: it answered the frames `front`, and left the buffer `left`, which is the
  -- part that has come in of the frames `back`, with not one of them whole.
  abbrev pub Answers : List Message → List ℕ → Output → Option Inner → Type 0
  Answers ms stream o r =
      (front : List Message) × (back : List Message) × (left : List ℕ) × (o' : Output) × (r
        ≡ some (short left o'))
      × (ms ≡ front ++ back)
      × (left ++ stream ≡ wires back)
      × (length left < buf_cap)
      × IsShort left back
      × All IsSendable back
      × IsReady (length (wires back)) o'
      × (o'.written ≡ o.written ++ wires (replies edit front))

  pub answer_frames-Answers :
      (fuel : ℕ) (ms : List Message) (buf stream : List ℕ) (o : Output)
      → All IsSendable ms
      → buf ++ stream ≡ wires ms
      → length buf < fuel
      → IsReady (length (wires ms)) o
      → Answers ms stream o (answer_frames edit fuel buf o)
  answer_frames-Answers zero ms buf stream o good e f ready = absurd (omega arith)
  answer_frames-Answers (suc fuel) [] [] stream o good e f ready = (
    [],
    [],
    [],
    o,
    answer_short fuel [] o empty_incomplete,
    refl,
    e,
    omega arith,
    tt,
    tt,
    ready,
    sym (append-nil o.written),
  )
  answer_frames-Answers (suc fuel) [] (b ∷ buf) stream o good e f ready = cc
  answer_frames-Answers (suc fuel) (m ∷ ms) buf stream o good e f ready =
      elim (split_append buf stream (wire m.flag m.payload) (wires ms) e) [
        | inl (rest, p, q) ↦
            let (o1, step, ready1, wrote) = reply_one fuel m rest ms o good.0 ready in
            let (front, back, left, o', r, split, tail, small, short', good', ready', written) =
              answer_frames-Answers fuel ms rest stream o1 good.1 q
                (omega (
                  arith,
                  ap length p,
                  length-append (wire m.flag m.payload) rest,
                  length-wire m.flag m.payload,
                ))
                ready1 in
            (
              m ∷ front,
              back,
              left,
              o',
              rw p (step ∙ r),
              ap (◌∷◌ m) split,
              tail,
              small,
              short',
              good',
              ready',
              written
                  ∙ rw wrote (
                      append_assoc o.written (wire m.flag (edit m.payload))
                        (wires (replies edit front))),
            )
        | inr (x, rest, p) ↦ (
          [],
          m ∷ ms,
          buf,
          o,
          answer_short fuel buf o (
              decode-prefix m.flag x m.payload buf rest good.0.known_flag good.0.bytes good.0.within
                p),
          refl,
          e,
          omega (arith, wire-fits m good.0, ap length p, length-append buf (x ∷ rest)),
          omega (arith, ap length p, length-append buf (x ∷ rest)),
          good,
          ready,
          sym (append-nil o.written),
        )
      ]
