-- ===== src/Frame/Encode.antt =====
-- wtd_frame_encode on every branch: the bytes that it writes, and the buffer that it leaves alone.
use mathlib.Core.List.{append_assoc}
use webtransportd.Common.{
  ℕ, suc, ◌+◌, ◌^◌, ◌≤◌, ◌<◌, ◌≡◌, inl, inr, List, [], ◌∷◌, ◌++◌, some, ltb, ◌==◌, if◌then◌else◌,
  length, drop, arith, le→ltb, ltb→lt, ltb→le, Bool-cases, false, length-append, length-drop, All,
  All-append, drop-drop, take_all,
}
use webtransportd.Common.Bits.{bit_and-reserved}
use webtransportd.Common.Memory.{store, store_all-fits, store_all-at, load_all-ok}
use webtransportd.Frame.{
  ok, fail, err_reserved, err_too_big, err_buf_too_small, max_payload, varint_size,
  wtd_frame_encode_varint, wtd_frame_encode, write_frame, reserved_bits,
}
use webtransportd.Frame.Varint.{
  IsByte, shortest-IsByte, shortest, length-shortest, varint_stores-shortest,
  varint_count-varint_size,
}

-- A frame on the wire, as core/frame.h lays it out: flag | len | payload.
unfoldable pub wire : ℕ → List ℕ → List ℕ
wire flag payload = flag ∷ (shortest (length payload) ++ payload)

pub length-wire :
    (flag : ℕ) (payload : List ℕ)
    → length (wire flag payload) ≡ 1 + varint_size (length payload) + length payload
unfolding wire
length-wire flag payload =
    omega
      (arith, length-append (shortest (length payload)) payload, length-shortest (length payload))

-- Only flags 0 and 1 have the reserved bits clear.
pub reserved_bits-zero : (flag : ℕ) → flag < 2 → reserved_bits flag ≡ 0
reserved_bits-zero flag h = omega (arith, bit_and-reserved flag (omega arith))

pub reserved_bits-ne-zero : (flag : ℕ) → flag < 256 → 2 ≤ flag → (reserved_bits flag == 0) ≡ false
reserved_bits-ne-zero flag h k = ground (arith, bit_and-reserved flag h)

-- The 8 bytes at `out + 1` of the longest form: it returns the count and writes just that many.
encode_varint-fits :
    (v : ℕ) (front back : List ℕ)
    → v < 2 ^ 62
    → varint_size v ≤ length back
    → wtd_frame_encode_varint v (front ++ back) (length front)
      ≡ some (varint_size v, front ++ (shortest v ++ drop (varint_size v) back))
unfolding wtd_frame_encode_varint
encode_varint-fits v front back h fits = rw (
  varint_stores-shortest v h,
  store_all-fits front back (shortest v) (omega (arith, length-shortest v)),
  varint_count-varint_size v h,
  length-shortest v,
)

write_frame-ok :
    (flag : ℕ) (payload out : List ℕ) (x : ℕ)
    → length payload ≤ max_payload
    → varint_size (length payload) + length payload ≤ length out
    → write_frame flag payload (length payload) (x ∷ out)
      ≡ some (wire flag payload ++ drop (varint_size (length payload) + length payload) out)
unfolding write_frame wire store
write_frame-ok flag payload out x hp ho =
    let v = length payload in
    rw (
      encode_varint-fits v (flag ∷ []) out (omega arith) (omega arith),
      load_all-ok payload 0 v (omega arith),
      take_all v payload (omega arith),
      store_all-at payload (flag ∷ shortest v) (drop (varint_size v) out) (1 + varint_size v)
          (omega (arith, length-shortest v)) (omega (arith, length-drop (varint_size v) out)),
      drop-drop v (varint_size v) out,
      append_assoc (shortest v) payload (drop (varint_size v + v) out),
    )

-- The frame is written at the front of `out`, and the rest of `out` keeps its bytes.
pub encode-ok :
    (flag : ℕ) (payload out : List ℕ) (out_size : ℕ)
    → flag < 2
    → length payload ≤ max_payload
    → length (wire flag payload) ≤ out_size
    → out_size ≤ length out
    → wtd_frame_encode flag payload (length payload) out out_size
      ≡ some (
        ok (length (wire flag payload)),
        wire flag payload ++ drop (length (wire flag payload)) out,
      )
encode-ok flag payload [] out_size hf hp hs ho = absurd (omega (arith, length-wire flag payload))
encode-ok flag payload (x ∷ out) out_size hf hp hs ho = rw (length-wire flag payload) (
    unfold wtd_frame_encode in
    rw
      (
        reserved_bits-zero flag hf,
        le→ltb max_payload (length payload) hp,
        le→ltb out_size (1 + varint_size (length payload) + length payload)
            (omega (arith, length-wire flag payload)),
        write_frame-ok flag payload out x hp (omega (arith, length-wire flag payload)),
      )
      (let one : 1 + varint_size (length payload) + length payload
            ≡ suc (varint_size (length payload) + length payload) =
          omega arith in
        rw one))

-- On every byte flag, payload and output buffer whose size is stated truly, the encoder touches no
-- byte outside its buffers: it writes the frame and reports its length if the flag is 0 or 1, the
-- payload is within the cap and the frame fits; otherwise the first check of these that fails
-- decides the error, and the buffer is left as it was.
pub encode_total :
    (flag : ℕ) (payload out : List ℕ) (out_size : ℕ)
    → flag < 256
    → out_size ≤ length out
    → wtd_frame_encode flag payload (length payload) out out_size
      ≡ some (
          if ltb 1 flag
          then (fail err_reserved, out)
          else if ltb max_payload (length payload)
          then (fail err_too_big, out)
          else if ltb out_size (length (wire flag payload))
          then (fail err_buf_too_small, out)
          else (
            ok (length (wire flag payload)),
            wire flag payload ++ drop (length (wire flag payload)) out,
          ))
encode_total flag payload out out_size hf ho = elim (Bool-cases (ltb 1 flag)) [
  | inl reserved ↦ rw reserved (
      unfold wtd_frame_encode in
      rw (reserved_bits-ne-zero flag hf (omega (arith, ltb→lt 1 flag reserved))))
  | inr good ↦ rw good (elim (Bool-cases (ltb max_payload (length payload))) [
    | inl big ↦ rw big (
        unfold wtd_frame_encode in
        rw (reserved_bits-zero flag (omega (arith, ltb→le 1 flag good)), big))
    | inr small ↦ rw small (elim (Bool-cases (ltb out_size (length (wire flag payload)))) [
      | inl short ↦ rw (short) (
          unfold wtd_frame_encode in
          rw (
            reserved_bits-zero flag (omega (arith, ltb→le 1 flag good)),
            small,
            ← length-wire flag payload,
            short,
          ))
      | inr fits ↦ rw fits (
          encode-ok flag payload out out_size (omega (arith, ltb→le 1 flag good))
            (omega (arith, ltb→le max_payload (length payload) small))
            (omega (arith, ltb→le out_size (length (wire flag payload)) fits)) ho)
    ])
  ])
]

pub wire-IsByte :
    (flag : ℕ) (payload : List ℕ) → flag < 256 → All IsByte payload → All IsByte (wire flag payload)
unfolding wire
wire-IsByte flag payload hf hp =
    (hf, All-append IsByte (shortest (length payload)) payload (shortest-IsByte _) hp)
