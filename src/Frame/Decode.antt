-- ===== src/Frame/Decode.antt =====
-- wtd_frame_decode on any bytes, well formed or not.
use webtransportd.Common.{
  ℕ, zero, suc, ◌+◌, ◌-◌, ◌≤◌, ◌<◌, ◌≡◌, refl, ◌⊎◌, inl, ◌≢◌, List, [], ◌∷◌, ◌++◌, Option, none,
  some, length, All, get_elem?, get_elem?-some, get_elem?-append, arith, length-append,
}
use webtransportd.Common.Memory.{◌>>=◌}
use webtransportd.Common.Bits.{bit_and-reserved}
use webtransportd.Frame.{
  Status, ok, fail, incomplete, err_buf_too_small, max_payload, Decoded, varint_decode, varint_two,
  varint_four, varint_eight, finish_decode, wtd_frame_decode,
}
use webtransportd.Frame.Varint.{IsByte}

-- varint_decode returned: it looked at no byte outside the buffer, its count is within the bytes
-- available, and a count of 0 means that fewer than eight are.
abbrev Reads : ℕ → Option (ℕ × ℕ) → Type 0
Reads avail none = ⊥
Reads avail (some (count, v)) = (count ≤ avail) × (count ≤ 8) × ((1 ≤ count) ⊎ (avail < 8))

module _ (buf : List ℕ) (avail b0 : ℕ) (within : avail + 1 ≤ length buf) where
  varint_two-Reads : 2 ≤ avail → Reads avail (varint_two buf 1 b0)
  unfolding varint_two
  varint_two-Reads h =
      let (b1, e1) = get_elem?-some buf 2 (omega arith) in rw e1 (h, omega arith, inl (omega arith))

  varint_four-Reads : 4 ≤ avail → Reads avail (varint_four buf 1 b0)
  unfolding varint_four
  varint_four-Reads h =
      let (b1, e1) = get_elem?-some buf 2 (omega arith) in
      let (b2, e2) = get_elem?-some buf 3 (omega arith) in
      let (b3, e3) = get_elem?-some buf 4 (omega arith) in
      rw (e1, e2, e3) (h, omega arith, inl (omega arith))

  varint_eight-Reads : 8 ≤ avail → Reads avail (varint_eight buf 1 b0)
  unfolding varint_eight
  varint_eight-Reads h =
      let (b1, e1) = get_elem?-some buf 2 (omega arith) in
      let (b2, e2) = get_elem?-some buf 3 (omega arith) in
      let (b3, e3) = get_elem?-some buf 4 (omega arith) in
      let (b4, e4) = get_elem?-some buf 5 (omega arith) in
      let (b5, e5) = get_elem?-some buf 6 (omega arith) in
      let (b6, e6) = get_elem?-some buf 7 (omega arith) in
      let (b7, e7) = get_elem?-some buf 8 (omega arith) in
      rw (e1, e2, e3, e4, e5, e6, e7) (h, omega arith, inl (omega arith))

  varint_decode-Reads :
      get_elem? buf 1 ≡ some b0 → 1 ≤ avail → Reads avail (varint_decode buf 1 avail 0)
  unfolding varint_decode
  varint_decode-Reads e h = ground (arith, varint_two-Reads, varint_four-Reads, varint_eight-Reads)

module _ (buf more : List ℕ) (avail b0 : ℕ) (within : avail + 1 ≤ length buf) where
  varint_two-append : 2 ≤ avail → varint_two (buf ++ more) 1 b0 ≡ varint_two buf 1 b0
  unfolding varint_two
  varint_two-append h = rw (get_elem?-append buf more 2 (omega arith))

  varint_four-append : 4 ≤ avail → varint_four (buf ++ more) 1 b0 ≡ varint_four buf 1 b0
  unfolding varint_four
  varint_four-append h = rw (
    get_elem?-append buf more 2 (omega arith),
    get_elem?-append buf more 3 (omega arith),
    get_elem?-append buf more 4 (omega arith),
  )

  varint_eight-append : 8 ≤ avail → varint_eight (buf ++ more) 1 b0 ≡ varint_eight buf 1 b0
  unfolding varint_eight
  varint_eight-append h = rw (
    get_elem?-append buf more 2 (omega arith),
    get_elem?-append buf more 3 (omega arith),
    get_elem?-append buf more 4 (omega arith),
    get_elem?-append buf more 5 (omega arith),
    get_elem?-append buf more 6 (omega arith),
    get_elem?-append buf more 7 (omega arith),
    get_elem?-append buf more 8 (omega arith),
  )

  -- More bytes behind the buffer do not change what a varint that is all there reads.
  varint_decode-append :
      (extra c v : ℕ)
      → 1 ≤ avail
      → get_elem? buf 1 ≡ some b0
      → varint_decode buf 1 avail 0 ≡ some (c, v)
      → 1 ≤ c
      → varint_decode (buf ++ more) 1 (avail + extra) 0 ≡ some (c, v)
  unfolding varint_decode
  varint_decode-append extra c v h e0 e k =
      rw (get_elem?-append buf more 1 (omega arith), e0)
        (ground (arith, varint_two-append, varint_four-append, varint_eight-append))

-- What `decode-Answers` says of an answer on the first `n` bytes of `buf`.
abbrev pub Answers : List ℕ → ℕ → Option (Status Decoded) → Type 0
Answers buf n none = ⊥
Answers buf n (some (fail e)) = (e ≢ err_buf_too_small) × ((e ≢ incomplete) ⊎ (n < 9 + max_payload))
Answers buf n (some (ok d)) =
    (d.consumed ≤ n)
    × (d.payload + d.payload_len ≡ d.consumed)
    × (2 ≤ d.payload)
    × (d.payload ≤ 9)
    × (d.payload_len ≤ max_payload)
    × (d.flag < 2)
    × (get_elem? buf 0 ≡ some d.flag)

finish_decode-Answers :
    (buf : List ℕ) (b0 n : ℕ) (r : Option (ℕ × ℕ))
    → Reads (n - 1) r
    → b0 < 2
    → 2 ≤ n
    → get_elem? buf 0 ≡ some b0
    → Answers buf n (r >>= λ p. some (finish_decode b0 n p))
unfolding finish_decode
finish_decode-Answers buf b0 n none h f k e = h
finish_decode-Answers buf b0 n (some (c, v)) h f k e = ground arith

-- On any bytes and any length within the buffer the decoder touches no byte outside the buffer. A
-- frame that it reports lies inside the given length, behind a header of 2 to 9 bytes, with the
-- buffer's first byte as its flag, which is 0 or 1, and a payload within the cap; it never answers
-- that a buffer is too small; and it asks for more bytes only below 9 + WTD_FRAME_MAX_PAYLOAD.
pub decode-Answers :
    (buf : List ℕ) (n : ℕ)
    → All IsByte buf
    → n ≤ length buf
    → Answers buf n (wtd_frame_decode buf n)
unfolding wtd_frame_decode
decode-Answers [] n bytes h = ground arith
decode-Answers (b0 ∷ []) n bytes h = ground (arith, bit_and-reserved b0 bytes.0)
decode-Answers (b0 ∷ b1 ∷ buf) n bytes h = ground (
  arith,
  bit_and-reserved b0 bytes.0,
  varint_decode-Reads (b0 ∷ b1 ∷ buf) (n - 1) b1,
  finish_decode-Answers (b0 ∷ b1 ∷ buf) b0 n (varint_decode (b0 ∷ b1 ∷ buf) 1 (n - 1) 0),
)

finish_decode-extra :
    (b0 n extra c v : ℕ) (r : Status Decoded)
    → finish_decode b0 n (c, v) ≡ r
    → r ≢ fail incomplete
    → finish_decode b0 (n + extra) (c, v) ≡ r
unfolding finish_decode
finish_decode-extra b0 n extra c v r e h = ground arith

finish_decode-zero : (b0 n v : ℕ) → finish_decode b0 n (0, v) ≡ fail incomplete
unfolding finish_decode
finish_decode-zero b0 n v = refl

bind_decode-append :
    (b0 b1 : ℕ) (buf more : List ℕ) (p : Option (ℕ × ℕ)) (r : Status Decoded)
    → varint_decode (b0 ∷ b1 ∷ buf) 1 (suc (length buf)) 0 ≡ p
    → (p >>= λ q. some (finish_decode b0 (suc (suc (length buf))) q)) ≡ some r
    → r ≢ fail incomplete
    → (varint_decode (b0 ∷ b1 ∷ (buf ++ more)) 1 (suc (length buf) + length more) 0 >>= λ q.
        some (finish_decode b0 (suc (suc (length buf)) + length more) q))
      ≡ some r
bind_decode-append b0 b1 buf more none r e h ne = cc
bind_decode-append b0 b1 buf more (some (zero, v)) r e h ne =
    absurd (ne (ground (arith, finish_decode-zero b0 (suc (suc (length buf))) v)))
bind_decode-append b0 b1 buf more (some (suc c, v)) r e h ne =
    rw
      (varint_decode-append (b0 ∷ b1 ∷ buf) more (suc (length buf)) b1 (omega arith) (length more)
        (suc c) v (omega arith) refl e (omega arith))
      (ground (arith, finish_decode-extra b0 (suc (suc (length buf))) (length more) (suc c) v r))

-- Once the decoder has decided, with a frame or an error, more bytes do not change its answer.
pub decode-append :
    (buf more : List ℕ) (r : Status Decoded)
    → wtd_frame_decode buf (length buf) ≡ some r
    → r ≢ fail incomplete
    → wtd_frame_decode (buf ++ more) (length (buf ++ more)) ≡ some r
unfolding wtd_frame_decode
decode-append [] more r e h = absurd (h (ground arith))
decode-append (b0 ∷ []) more r e h = ground arith
decode-append (b0 ∷ b1 ∷ buf) more r e h = rw length-append (
    ground (
      arith,
      bind_decode-append b0 b1 buf more (varint_decode (b0 ∷ b1 ∷ buf) 1 (suc (length buf)) 0) r
          refl,
    ))
