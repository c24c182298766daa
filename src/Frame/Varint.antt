-- ===== src/Frame/Varint.antt =====
-- The varint of core/frame.c against RFC 9000 section 16, which it cites: the length n of 1, 2, 4
-- or 8 bytes is the power of two that the top two bits name, and the value is big-endian.
use webtransportd.Common.{
  ℕ, zero, suc, ◌+◌, ◌*◌, ◌/◌, ◌%◌, ◌^◌, ◌≤◌, ◌<◌, ◌≡◌, inl, inr, List, [], ◌∷◌, ◌++◌, some, ltb,
  if◌then◌else◌, length, arith, Bool-cases, All,
}
use webtransportd.Common.Bits.{bit_or-disjoint, bit_and_0xff, bit_and_0x3f}
use webtransportd.Frame.{varint_stores, varint_count, varint_decode, varint_size}

abbrev pub IsByte : ℕ → Type 0
IsByte b = b < 256

-- The `n` low bytes of `v`, the highest first.
unfoldable pub big_endian : ℕ → ℕ → List ℕ
big_endian zero v = []
big_endian (suc n) v = (v / 256 ^ n % 256) ∷ big_endian n v

-- The shortest form of RFC 9000 for `v`, its prefix in the top two bits.
unfoldable pub shortest : ℕ → List ℕ
unfolding big_endian
shortest v =
    if ltb v (2 ^ 6)
    then big_endian 1 v
    else if ltb v (2 ^ 14)
    then big_endian 2 (1 * 2 ^ 14 + v)
    else if ltb v (2 ^ 30)
    then big_endian 4 (2 * 2 ^ 30 + v)
    else big_endian 8 (3 * 2 ^ 62 + v)

-- For every value below 2^62 the encoder stores the big-endian bytes of the shortest form of RFC
-- 9000, with the form's prefix in the top two bits.
pub varint_stores-shortest : (v : ℕ) → v < 2 ^ 62 → varint_stores v ≡ shortest v
unfolding varint_stores shortest
varint_stores-shortest v h = ground (
  arith,
  bit_or-disjoint 6 1 (v / 2 ^ 8),
  bit_or-disjoint 7 1 (v / 2 ^ 24),
  bit_or-disjoint 6 3 (v / 2 ^ 56),
  bit_and_0xff v,
  bit_and_0xff (v / 2 ^ 8),
  bit_and_0xff (v / 2 ^ 16),
  bit_and_0xff (v / 2 ^ 24),
  bit_and_0xff (v / 2 ^ 32),
  bit_and_0xff (v / 2 ^ 40),
  bit_and_0xff (v / 2 ^ 48),
)

-- What varint_decode makes of each form, at offset 1 of a frame.
decode_one :
    (f b0 : ℕ) (rest : List ℕ) (avail value : ℕ)
    → b0 < 64
    → varint_decode (f ∷ b0 ∷ rest) 1 avail value ≡ some (1, b0)
unfolding varint_decode
decode_one f b0 rest avail value h = ground arith

decode_two :
    (f b0 b1 : ℕ) (rest : List ℕ) (avail value : ℕ)
    → b0 / 64 ≡ 1
    → b1 < 256
    → 2 ≤ avail
    → varint_decode (f ∷ b0 ∷ b1 ∷ rest) 1 avail value ≡ some (2, b0 % 64 * 2 ^ 8 + b1)
unfolding varint_decode
decode_two f b0 b1 rest avail value h k a =
    ground (arith, bit_and_0x3f b0, bit_or-disjoint 8 (b0 % 64) b1)

decode_four :
    (f b0 b1 b2 b3 : ℕ) (rest : List ℕ) (avail value : ℕ)
    → b0 / 64 ≡ 2
    → All IsByte (b1 ∷ b2 ∷ b3 ∷ [])
    → 4 ≤ avail
    → varint_decode (f ∷ b0 ∷ b1 ∷ b2 ∷ b3 ∷ rest) 1 avail value
      ≡ some (4, b0 % 64 * 2 ^ 24 + b1 * 2 ^ 16 + b2 * 2 ^ 8 + b3)
unfolding varint_decode
decode_four f b0 b1 b2 b3 rest avail value h k a = ground (
  arith,
  bit_and_0x3f b0,
  bit_or-disjoint 24 (b0 % 64) (b1 * 2 ^ 16),
  bit_or-disjoint 16 (b0 % 64 * 2 ^ 8 + b1) (b2 * 2 ^ 8),
  bit_or-disjoint 8 (b0 % 64 * 2 ^ 16 + b1 * 2 ^ 8 + b2) b3,
)

decode_eight :
    (f b0 b1 b2 b3 b4 b5 b6 b7 : ℕ) (rest : List ℕ) (avail value : ℕ)
    → b0 / 64 ≡ 3
    → b0 < 256
    → All IsByte (b1 ∷ b2 ∷ b3 ∷ b4 ∷ b5 ∷ b6 ∷ b7 ∷ [])
    → 8 ≤ avail
    → varint_decode (f ∷ b0 ∷ b1 ∷ b2 ∷ b3 ∷ b4 ∷ b5 ∷ b6 ∷ b7 ∷ rest) 1 avail value
      ≡ some (
        8,
        b0 % 64 * 2 ^ 56
            + b1 * 2 ^ 48
            + b2 * 2 ^ 40
            + b3 * 2 ^ 32
            + b4 * 2 ^ 24
            + b5 * 2 ^ 16
            + b6 * 2 ^ 8
            + b7,
      )
unfolding varint_decode
decode_eight f b0 b1 b2 b3 b4 b5 b6 b7 rest avail value h k bytes a = ground (
  arith,
  bit_and_0x3f b0,
  bit_or-disjoint 56 (b0 % 64) (b1 * 2 ^ 48),
  bit_or-disjoint 48 (b0 % 64 * 2 ^ 8 + b1) (b2 * 2 ^ 40),
  bit_or-disjoint 40 (b0 % 64 * 2 ^ 16 + b1 * 2 ^ 8 + b2) (b3 * 2 ^ 32),
  bit_or-disjoint 32 (b0 % 64 * 2 ^ 24 + b1 * 2 ^ 16 + b2 * 2 ^ 8 + b3) (b4 * 2 ^ 24),
  bit_or-disjoint 24 (b0 % 64 * 2 ^ 32 + b1 * 2 ^ 24 + b2 * 2 ^ 16 + b3 * 2 ^ 8 + b4) (b5 * 2 ^ 16),
  bit_or-disjoint 16 (b0 % 64 * 2 ^ 40 + b1 * 2 ^ 32 + b2 * 2 ^ 24 + b3 * 2 ^ 16 + b4 * 2 ^ 8 + b5)
      (b6 * 2 ^ 8),
  bit_or-disjoint 8
      (b0 % 64 * 2 ^ 48 + b1 * 2 ^ 40 + b2 * 2 ^ 32 + b3 * 2 ^ 24 + b4 * 2 ^ 16 + b5 * 2 ^ 8 + b6)
      b7,
)

-- varint_decode reads every value below 2^62 back from its shortest form behind any flag byte, with
-- any bytes after it, if at least the bytes of the form are available, and returns their number.
pub varint_decode-shortest :
    (f v : ℕ) (rest : List ℕ) (avail value : ℕ)
    → v < 2 ^ 62
    → varint_size v ≤ avail
    → varint_decode (f ∷ (shortest v ++ rest)) 1 avail value ≡ some (varint_size v, v)
unfolding varint_size shortest
varint_decode-shortest f v rest avail value h a = elim (Bool-cases (ltb v (2 ^ 6))) [
  | inl one ↦ ground (arith, decode_one f v rest avail value)
  | inr big ↦ elim (Bool-cases (ltb v (2 ^ 14))) [
    | inl two ↦ ground (arith, decode_two f ((2 ^ 14 + v) / 256 % 256) (v % 256) rest avail value)
    | inr bigger ↦ elim (Bool-cases (ltb v (2 ^ 30))) [
      | inl four ↦ ground (
        arith,
        decode_four f ((2 ^ 31 + v) / 2 ^ 24 % 256) (v / 2 ^ 16 % 256) (v / 2 ^ 8 % 256) (v % 256)
            rest avail value,
      )
      | inr eight ↦ ground (
        arith,
        decode_eight f ((3 * 2 ^ 62 + v) / 2 ^ 56 % 256) (v / 2 ^ 48 % 256) (v / 2 ^ 40 % 256)
            (v / 2 ^ 32 % 256) (v / 2 ^ 24 % 256) (v / 2 ^ 16 % 256) (v / 2 ^ 8 % 256) (v % 256)
            rest avail value,
      )
    ]
  ]
]

pub length-shortest : (v : ℕ) → length (shortest v) ≡ varint_size v
unfolding shortest varint_size
length-shortest v = ground arith

pub varint_size_bounds : (v : ℕ) → (1 ≤ varint_size v) × (varint_size v ≤ 8)
unfolding varint_size
varint_size_bounds v = ground arith

pub varint_count-varint_size : (v : ℕ) → v < 2 ^ 62 → varint_count v ≡ varint_size v
unfolding varint_size
varint_count-varint_size v h = ground arith

big_endian-IsByte : (n v : ℕ) → All IsByte (big_endian n v)
unfolding big_endian
big_endian-IsByte zero v = tt
big_endian-IsByte (suc n) v = (omega arith, big_endian-IsByte n v)

pub shortest-IsByte : (v : ℕ) → All IsByte (shortest v)
unfolding shortest
shortest-IsByte v = ground arith

pub varint_size_small : (v : ℕ) → v < 2 ^ 30 → varint_size v ≤ 4
unfolding varint_size
varint_size_small v h = ground arith
