-- ===== src/Common/Bits.antt =====
-- `&` and `|` on machine words as arithmetic, for the masks and shifts that the sources use.
use mathlib.Core.Bool.{Bool, true, false}
use mathlib.Core.Path.{◌≡◌, refl, ap, ◌∙◌}
use native.Mathlib.Nat.{pow-suc}
use native.Mathlib.Omega.{arith}
use Prim.Native.Nat.{ℕ, zero, suc, ◌+◌, ◌-◌, ◌*◌, ◌/◌, ◌%◌, ◌^◌, ◌≤◌, ◌<◌, min, max}
use Prim.Native.Nat.{bit_and, bit_or, digits, bit_and-bitwise, bit_or-bitwise}
use webtransportd.Common.Tests.{◌==◌, ==_iff, if◌then◌else◌}

-- A test of every number below a bound, for facts about one byte.
passes : (ℕ → Bool) → ℕ → Bool
passes test zero = true
passes test (suc top) = if test top then passes test top else false

passes-at : (test : ℕ → Bool) (top i : ℕ) → i < top → passes test top ≡ true → test i ≡ true
unfolding passes
passes-at test zero i small e = absurd (omega arith)
passes-at test (suc top) i small e = ground (arith, passes-at test top i)

-- The native operations count their digits down from a bound; any bound that is not below the first
-- number gives the same result.
module _ (z : ℕ → ℕ) (f : ℕ → ℕ → ℕ) where
  one_more : (bound a b : ℕ) → a ≤ bound → digits z f (suc bound) a b ≡ digits z f bound a b
  one_more zero zero b small = refl
  one_more zero (suc a) b small = absurd (omega arith)
  one_more (suc bound) zero b small = refl
  one_more (suc bound) (suc a) b small =
      let rest = one_more bound (suc a / 2) (b / 2) (omega arith) in rw rest

  exact_bound : (extra bound a b : ℕ) → bound ≡ extra + a → digits z f bound a b ≡ digits z f a a b
  exact_bound zero bound a b e = let same : bound ≡ a = omega arith in rw same
  exact_bound (suc extra) bound a b e =
      let step : bound ≡ suc (extra + a) = omega arith in
      rw step (one_more (extra + a) a b (omega arith) ∙ exact_bound extra (extra + a) a b refl)

  lowest_digit :
      (a b : ℕ)
      → digits z f (suc a) (suc a) b
        ≡ digits z f (suc a / 2) (suc a / 2) (b / 2) * 2 + f (suc a % 2) (b % 2)
  lowest_digit a b =
      let halves = exact_bound (a - suc a / 2) a (suc a / 2) (b / 2) (omega arith) in
      ap (λ (t : ℕ). t * 2 + f (suc a % 2) (b % 2)) halves

or_lowest : (a b : ℕ) → bit_or a b ≡ bit_or (a / 2) (b / 2) * 2 + max (a % 2) (b % 2)
or_lowest zero b = omega (arith, bit_or-bitwise 0 b, bit_or-bitwise 0 (b / 2))
or_lowest (suc a) b = simp bit_or-bitwise (lowest_digit (λ y. y) max a b)

and_lowest : (a b : ℕ) → bit_and a b ≡ bit_and (a / 2) (b / 2) * 2 + min (a % 2) (b % 2)
and_lowest zero b = omega (arith, bit_and-bitwise 0 b, bit_and-bitwise 0 (b / 2))
and_lowest (suc a) b = simp bit_and-bitwise (lowest_digit (λ y. 0) min a b)

or_nothing : (bound a : ℕ) → a ≤ bound → bit_or a 0 ≡ a
or_nothing bound zero small = refl
or_nothing zero (suc a) small = absurd (omega arith)
or_nothing (suc bound) (suc a) small =
    let half = or_nothing bound (suc a / 2) (omega arith) in
    omega (arith, or_lowest (suc a) 0, half)

and_nothing : (bound a : ℕ) → a ≤ bound → bit_and a 0 ≡ 0
and_nothing bound zero small = refl
and_nothing zero (suc a) small = absurd (omega arith)
and_nothing (suc bound) (suc a) small =
    let half = and_nothing bound (suc a / 2) (omega arith) in
    omega (arith, and_lowest (suc a) 0, half)

-- `(a << k) | b` is a sum where `b` fits in `k` bits.
pub bit_or-disjoint : (k a b : ℕ) → b < 2 ^ k → bit_or (a * 2 ^ k) b ≡ a * 2 ^ k + b
bit_or-disjoint zero a b h =
    let e : b ≡ 0 = omega arith in
    omega (arith, ap (bit_or (a * 1)) e, or_nothing (a * 1) (a * 1) (omega arith))
bit_or-disjoint (suc k) a b h = omega (
  arith,
  or_lowest (a * 2 ^ suc k) b,
  pow-suc 2 k,
  ap (λ (t : ℕ). a * t) (pow-suc 2 k),
  ap (λ (t : ℕ). bit_or t (b / 2)) halved,
  bit_or-disjoint k a (b / 2) (omega (arith, pow-suc 2 k)),
)
  where
    halved : a * 2 ^ suc k / 2 ≡ a * 2 ^ k
    halved = omega (arith, ap (λ (t : ℕ). a * t) (pow-suc 2 k))

low_nibble : (a : ℕ) → bit_and a 15 ≡ a % 16
low_nibble a = omega (
  arith,
  and_lowest a 15,
  and_lowest (a / 2) 7,
  and_lowest (a / 2 / 2) 3,
  and_lowest (a / 2 / 2 / 2) 1,
  and_nothing (a / 2 / 2 / 2 / 2) (a / 2 / 2 / 2 / 2) (omega arith),
)

-- `v & 0xff` is the lowest byte of `v`.
pub bit_and_0xff : (a : ℕ) → bit_and a 0xff ≡ a % 256
bit_and_0xff a = omega (
  arith,
  and_lowest a 255,
  and_lowest (a / 2) 127,
  and_lowest (a / 2 / 2) 63,
  and_lowest (a / 2 / 2 / 2) 31,
  low_nibble (a / 2 / 2 / 2 / 2),
)

low_six_passes : passes (λ b. bit_and b 0x3f == b % 64) 256 ≡ true
unfolding passes
low_six_passes = refl

-- `b & 0x3f` on a byte.
pub bit_and_0x3f : (b : ℕ) → b < 256 → bit_and b 0x3f ≡ b % 64
bit_and_0x3f b h = (==_iff _ (b % 64)).0 (passes-at _ 256 b h low_six_passes)

reserved_passes : passes (λ b. bit_and b 0xfffffffe == b / 2 * 2) 256 ≡ true
unfolding passes
reserved_passes = refl

-- `b & ~0x01` on a byte.
pub bit_and-reserved : (b : ℕ) → b < 256 → bit_and b 0xfffffffe ≡ b / 2 * 2
bit_and-reserved b h = (==_iff _ (b / 2 * 2)).0 (passes-at _ 256 b h reserved_passes)
