-- ===== src/Frame.antt =====
-- core/frame.h and core/frame.c: the length-prefixed frame codec.
-- A buffer is a list of bytes; an access outside it is `none` (a memory fault). Pointers into a
-- buffer are offsets. `|`, `&` and shifts are `bit_or`, `bit_and`, `* 2 ^ k` and `/ 2 ^ k`; a cast
-- to uint8_t is `% 256`.
pub mod Varint
pub mod Encode
pub mod RoundTrip
pub mod Decode
use webtransportd.Common.{
  ℕ, ◌+◌, ◌-◌, ◌*◌, ◌/◌, ◌%◌, ◌^◌, bit_and, bit_or, List, [], ◌∷◌, Option, some, ltb, ◌==◌,
  if◌then◌else◌, get_elem?, not,
}
use webtransportd.Common.Memory.{◌>>=◌, store, store_all, load_all}

-- WTD_FRAME_FLAG_RELIABLE, WTD_FRAME_FLAG_UNRELIABLE, WTD_FRAME_MAX_PAYLOAD
abbrev pub flag_reliable : ℕ
flag_reliable = 0x00

abbrev pub flag_unreliable : ℕ
flag_unreliable = 0x01

abbrev pub max_payload : ℕ
max_payload = 2 ^ 24

-- `flag & ~WTD_FRAME_FLAG_MASK`, an int whose upper bits are set
abbrev pub reserved_bits : ℕ → ℕ
reserved_bits flag = bit_and flag 0xfffffffe

-- wtd_frame_status_t less WTD_FRAME_OK, which is `ok`
pub data Failure : Type 0 where
  incomplete err_reserved err_too_big err_buf_too_small : Failure

pub data Status {ℓ} (A : Type ℓ) : Type ℓ where
  ok : A → Status A
  fail : Failure → Status A

-- What a successful decode stores through its pointers; `payload` is an offset into the buffer.
pub record Decoded : Type 0 where
  pub consumed : ℕ
  pub flag : ℕ
  pub payload : ℕ
  pub payload_len : ℕ

-- The bytes that wtd_frame_encode_varint stores, in the order of its assignments; [] is `return 0`.
unfoldable pub varint_stores : ℕ → List ℕ
varint_stores v =
    if ltb v (2 ^ 6)
    then v % 256 ∷ []
    else if ltb v (2 ^ 14)
    then bit_or 0x40 (v / 2 ^ 8) % 256 ∷ bit_and v 0xff % 256 ∷ []
    else if ltb v (2 ^ 30)
    then bit_or 0x80 (v / 2 ^ 24) % 256
      ∷ bit_and (v / 2 ^ 16) 0xff % 256
      ∷ bit_and (v / 2 ^ 8) 0xff % 256
      ∷ bit_and v 0xff % 256
      ∷ []
    else if ltb v (2 ^ 62)
    then bit_or 0xc0 (v / 2 ^ 56) % 256
      ∷ bit_and (v / 2 ^ 48) 0xff % 256
      ∷ bit_and (v / 2 ^ 40) 0xff % 256
      ∷ bit_and (v / 2 ^ 32) 0xff % 256
      ∷ bit_and (v / 2 ^ 24) 0xff % 256
      ∷ bit_and (v / 2 ^ 16) 0xff % 256
      ∷ bit_and (v / 2 ^ 8) 0xff % 256
      ∷ bit_and v 0xff % 256
      ∷ []
    else []

abbrev pub varint_count : ℕ → ℕ
varint_count v =
    if ltb v (2 ^ 6)
    then 1
    else if ltb v (2 ^ 14)
    then 2
    else if ltb v (2 ^ 30)
    then 4
    else if ltb v (2 ^ 62)
    then 8
    else 0

-- wtd_frame_encode_varint(v, out + at): the count that it returns and the buffer after its stores
unfoldable pub wtd_frame_encode_varint : ℕ → List ℕ → ℕ → Option (ℕ × List ℕ)
unfolding varint_stores store_all
wtd_frame_encode_varint v out at = do
  out' ← store_all out at (varint_stores v)
  some (varint_count v, out')

-- The three longer forms of varint_decode, once the bytes are known to be there.
varint_two : List ℕ → ℕ → ℕ → Option (ℕ × ℕ)
varint_two buf at b0 = do b1 ← get_elem? buf (at + 1); some (2, bit_or (bit_and b0 0x3f * 2 ^ 8) b1)

varint_four : List ℕ → ℕ → ℕ → Option (ℕ × ℕ)
varint_four buf at b0 = do
  b1 ← get_elem? buf (at + 1)
  b2 ← get_elem? buf (at + 2)
  b3 ← get_elem? buf (at + 3)
  some (4, bit_or (bit_or (bit_or (bit_and b0 0x3f * 2 ^ 24) (b1 * 2 ^ 16)) (b2 * 2 ^ 8)) b3)

varint_eight : List ℕ → ℕ → ℕ → Option (ℕ × ℕ)
varint_eight buf at b0 = do
  b1 ← get_elem? buf (at + 1)
  b2 ← get_elem? buf (at + 2)
  b3 ← get_elem? buf (at + 3)
  b4 ← get_elem? buf (at + 4)
  b5 ← get_elem? buf (at + 5)
  b6 ← get_elem? buf (at + 6)
  b7 ← get_elem? buf (at + 7)
  let high = bit_or (bit_or (bit_and b0 0x3f * 2 ^ 56) (b1 * 2 ^ 48)) (b2 * 2 ^ 40)
  let middle = bit_or (bit_or (bit_or high (b3 * 2 ^ 32)) (b4 * 2 ^ 24)) (b5 * 2 ^ 16)
  some (8, bit_or (bit_or middle (b6 * 2 ^ 8)) b7)

-- varint_decode(buf + at, avail, &value): the count that it returns (0 if the varint is cut short)
-- and the value behind the pointer afterwards
unfoldable pub varint_decode : List ℕ → ℕ → ℕ → ℕ → Option (ℕ × ℕ)
unfolding varint_two varint_four varint_eight
varint_decode buf at avail value = do
  b0 ← get_elem? buf at
  if b0 / 2 ^ 6 == 0
      then some (1, b0)
      else if b0 / 2 ^ 6 == 1
      then (if ltb avail 2 then some (0, value) else varint_two buf at b0)
      else if b0 / 2 ^ 6 == 2
      then (if ltb avail 4 then some (0, value) else varint_four buf at b0)
      else if ltb avail 8
      then some (0, value)
      else varint_eight buf at b0

unfoldable pub varint_size : ℕ → ℕ
varint_size v =
    if ltb v (2 ^ 6) then 1 else if ltb v (2 ^ 14) then 2 else if ltb v (2 ^ 30) then 4 else 8

-- What wtd_frame_encode writes once its checks have passed.
write_frame : ℕ → List ℕ → ℕ → List ℕ → Option (List ℕ)
unfolding wtd_frame_encode_varint store store_all load_all
write_frame flag payload payload_len out = do
  out1 ← store out 0 flag
  (vlen, out2) ← wtd_frame_encode_varint payload_len out1 1
  bytes ← load_all payload 0 payload_len
  store_all out2 (1 + vlen) bytes

-- wtd_frame_encode on the buffer `out` with `out_size`: the status with `*p_out_len`, and the
-- buffer afterwards. The caps above it keep `needed` far below 2 ^ 64.
unfoldable pub wtd_frame_encode : ℕ → List ℕ → ℕ → List ℕ → ℕ → Option (Status ℕ × List ℕ)
unfolding varint_size write_frame
wtd_frame_encode flag payload payload_len out out_size =
    let needed = 1 + varint_size payload_len + payload_len in
    if not (reserved_bits flag == 0)
    then some (fail err_reserved, out)
    else if ltb max_payload payload_len
    then some (fail err_too_big, out)
    else if ltb out_size needed
    then some (fail err_buf_too_small, out)
    else (do out' ← write_frame flag payload payload_len out; some (ok needed, out'))

-- The second half of wtd_frame_decode, from the decoded length on.
unfoldable pub finish_decode : ℕ → ℕ → ℕ × ℕ → Status Decoded
finish_decode b0 buf_len (vlen, plen) =
    if vlen == 0
    then fail incomplete
    else if ltb max_payload plen
    then fail err_too_big
    else if ltb buf_len (1 + vlen + plen)
    then fail incomplete
    else ok
        (record { consumed = 1 + vlen + plen; flag = b0; payload = 1 + vlen; payload_len = plen })

unfoldable pub wtd_frame_decode : List ℕ → ℕ → Option (Status Decoded)
unfolding varint_decode finish_decode
wtd_frame_decode buf buf_len = if ltb buf_len 1 then some (fail incomplete) else (do
  b0 ← get_elem? buf 0
  if not (reserved_bits b0 == 0)
      then some (fail err_reserved)
      else if ltb buf_len 2
      then some (fail incomplete)
      else (do
        length ← varint_decode buf 1 (buf_len - 1) 0
        some (finish_decode b0 buf_len length)))
