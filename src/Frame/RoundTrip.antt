-- ===== src/Frame/RoundTrip.antt =====
-- wtd_frame_decode after wtd_frame_encode.
use webtransportd.Common.{
  ℕ, suc, ◌+◌, ◌-◌, ◌≤◌, ◌<◌, ◌≡◌, refl, sym, ap, ◌∙◌, List, [], ◌∷◌, ◌++◌, Option, none, some,
  length, take, drop, All, arith, le→ltb, length-append, append_assoc, drop-append, take-append,
  append-nil, All-append_left,
}
use webtransportd.Common.Memory.{slice}
use webtransportd.Frame.{
  Status, ok, fail, incomplete, max_payload, Decoded, varint_size, wtd_frame_decode,
  wtd_frame_encode,
}
use webtransportd.Frame.Varint.{
  IsByte, shortest, varint_decode-shortest, varint_size_bounds, length-shortest,
}
use webtransportd.Frame.Encode.{wire, length-wire, reserved_bits-zero, encode-ok, wire-IsByte}
use webtransportd.Frame.Decode.{decode-append, decode-Answers, Answers}

-- What the decoder reports for `wire flag payload` at the front of a buffer.
abbrev pub decoded_wire : ℕ → List ℕ → Decoded
decoded_wire flag payload = record {
  consumed = length (wire flag payload);
  flag = flag;
  payload = 1 + varint_size (length payload);
  payload_len = length payload;
}

decode_header :
    (flag v n : ℕ) (rest : List ℕ)
    → flag < 2
    → v ≤ max_payload
    → 1 + varint_size v + v ≤ n
    → wtd_frame_decode (flag ∷ (shortest v ++ rest)) n
      ≡ some (
          ok (record {
            consumed = 1 + varint_size v + v;
            flag = flag;
            payload = 1 + varint_size v;
            payload_len = v;
          }))
unfolding wtd_frame_decode
decode_header flag v n rest hf hv hn =
    let size = varint_size_bounds v in
    rw
      (
        reserved_bits-zero flag hf,
        le→ltb n 1 (omega arith),
        le→ltb n 2 (omega arith),
        varint_decode-shortest flag v rest (n - 1) 0 (omega arith) (omega arith),
      )
      (ground arith)

-- The decoder reads a frame back from the front of any buffer, whatever follows it.
pub decode-wire :
    (flag : ℕ) (payload rest : List ℕ)
    → flag < 2
    → length payload ≤ max_payload
    → wtd_frame_decode (wire flag payload ++ rest) (length (wire flag payload ++ rest))
      ≡ some (ok (decoded_wire flag payload))
decode-wire flag payload rest hf hp =
    let v = length payload in
    rw (length-wire flag payload) (
      unfold wire in
      rw (append_assoc (shortest v) payload rest) (
        decode_header flag v (suc (length (shortest v ++ (payload ++ rest)))) (payload ++ rest) hf
          hp
          (omega (
            arith,
            length-shortest v,
            length-append (shortest v) (payload ++ rest),
            length-append payload rest,
          ))))

pub payload_slice :
    (flag : ℕ) (payload rest : List ℕ)
    → slice (wire flag payload ++ rest) (1 + varint_size (length payload)) (length payload)
      ≡ payload
unfolding wire
payload_slice flag payload rest =
    let header = flag ∷ shortest (length payload) in
    let size : 1 + varint_size (length payload) ≡ length header =
      omega (arith, length-shortest (length payload)) in
    rw
      (
        size,
        append_assoc (shortest (length payload)) payload rest,
        drop-append header (payload ++ rest),
      )
      (take-append payload rest)

-- Encoding a payload and decoding the result, with any bytes behind it, gives back the flag, the
-- payload and the number of bytes that the encoder reported; nothing else is consumed.
pub decode-encode :
    (flag : ℕ) (payload out rest : List ℕ)
    → flag < 2
    → length payload ≤ max_payload
    → length (wire flag payload) ≤ length out
    → (written : ℕ) × (out' : List ℕ) × (d : Decoded) × (wtd_frame_encode flag payload
          (length payload)
          out
          (length out)
        ≡ some (ok written, out'))
      × (wtd_frame_decode (take written out' ++ rest) (length (take written out' ++ rest))
          ≡ some (ok d))
      × (d.flag ≡ flag)
      × (slice (take written out' ++ rest) d.payload d.payload_len ≡ payload)
      × (d.consumed ≡ written)
decode-encode flag payload out rest hf hp ho =
    let frame = wire flag payload in
    let back = drop (length frame) out in
    let cut = take-append frame back in
    (
      length frame,
      frame ++ back,
      decoded_wire flag payload,
      encode-ok flag payload out (length out) hf hp ho (omega arith),
      rw cut (decode-wire flag payload rest hf hp),
      refl,
      rw cut (payload_slice flag payload rest),
      refl,
    )

prefix_cases :
    (flag x : ℕ) (payload front back : List ℕ) (r : Option (Status Decoded))
    → wtd_frame_decode front (length front) ≡ r
    → Answers front (length front) r
    → wire flag payload ≡ front ++ (x ∷ back)
    → wtd_frame_decode (wire flag payload) (length (wire flag payload))
      ≡ some (ok (decoded_wire flag payload))
    → r ≡ some (fail incomplete)
prefix_cases flag x payload front back none d ans e whole = absurd ans
prefix_cases flag x payload front back (some (fail incomplete)) d ans e whole = refl
prefix_cases flag x payload front back (some (ok f)) d ans e whole =
    let same : some (ok f) ≡ some (ok (decoded_wire flag payload)) =
      sym (decode-append front (x ∷ back) (ok f) d (λ p. cc)) ∙ rw (← e) whole in
    absurd (ground (arith, same, ap length e, length-append front (x ∷ back)))
prefix_cases flag x payload front back (some (fail err)) d ans e whole =
    cc (decode-append front (x ∷ back) (fail err) d (λ p. cc), rw e at whole)

-- Of a frame cut short anywhere the decoder asks for more bytes: it reports neither a frame nor an
-- error.
pub decode-prefix :
    (flag x : ℕ) (payload front back : List ℕ)
    → flag < 2
    → All IsByte payload
    → length payload ≤ max_payload
    → wire flag payload ≡ front ++ (x ∷ back)
    → wtd_frame_decode front (length front) ≡ some (fail incomplete)
decode-prefix flag x payload front back hf hb hp e =
    let bytes = wire-IsByte flag payload (omega arith) hb in
    prefix_cases flag x payload front back _ refl
      (decode-Answers front (length front) (All-append_left IsByte front (x ∷ back) (rw e at bytes))
        (omega arith))
      e (rw append-nil at (decode-wire flag payload [] hf hp))
