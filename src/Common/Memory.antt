-- ===== src/Common/Memory.antt =====
-- A byte buffer as a list. `none` is an access outside the buffer.
use mathlib.Core.Option
use mathlib.Core.Option.{Option, none, some}
use mathlib.Core.Path.{◌≡◌, refl}
use mathlib.Core.List.{List, [], ◌∷◌, ◌++◌, append_assoc}
use native.Mathlib.Omega.{arith}
use Prim.Native.Nat.{ℕ, zero, suc, ◌+◌, ◌≤◌}
use webtransportd.Common.Tests.{leb, if◌then◌else◌}
use webtransportd.Common.Lists.{length, take, drop, length-append}

infixl 5 ◌>>=◌
abbrev pub ◌>>=◌ {ℓ κ} : {A : Type ℓ} {B : Type κ} → Option A → (A → Option B) → Option B
none >>= f = none
some a >>= f = f a

-- `buf[i] = b`
unfoldable pub store : List ℕ → ℕ → ℕ → Option (List ℕ)
store [] i b = none
store (x ∷ xs) zero b = some (b ∷ xs)
store (x ∷ xs) (suc i) b = Option.map (λ ys. x ∷ ys) (store xs i b)

-- `buf[at] = b0; buf[at + 1] = b1; …`, also `memcpy(buf + at, bytes, n)`.
unfoldable pub store_all : List ℕ → ℕ → List ℕ → Option (List ℕ)
store_all buf at [] = some buf
store_all buf at (b ∷ bs) = store buf at b >>= λ buf'. store_all buf' (at + 1) bs

-- The `n` bytes of `buf` from `at` on, as a pointer and a length name them.
abbrev pub slice : List ℕ → ℕ → ℕ → List ℕ
slice buf at n = take n (drop at buf)

-- Reading them, as `memcpy` does.
unfoldable pub load_all : List ℕ → ℕ → ℕ → Option (List ℕ)
load_all buf at n = if leb (at + n) (length buf) then some (slice buf at n) else none

pub load_all-ok :
    (buf : List ℕ) (at n : ℕ) → at + n ≤ length buf → load_all buf at n ≡ some (slice buf at n)
unfolding load_all
load_all-ok buf at n h = ground arith

pub store-length :
    (front back : List ℕ) (x b : ℕ)
    → store (front ++ (x ∷ back)) (length front) b ≡ some (front ++ (b ∷ back))
unfolding store
store-length [] back x b = refl
store-length (y ∷ front) back x b = rw (store-length front back x b)

pub store_all-at :
    (bs front back : List ℕ) (at : ℕ)
    → at ≡ length front
    → length bs ≤ length back
    → store_all (front ++ back) at bs ≡ some (front ++ (bs ++ drop (length bs) back))
unfolding store_all
store_all-at [] front back at e h = refl
store_all-at (b ∷ bs) front [] at e h = absurd (omega arith)
store_all-at (b ∷ bs) front (x ∷ back) at e h =
    rw (e, store-length front back x b)
      (simp append_assoc at (
        store_all-at bs (front ++ (b ∷ [])) back (length front + 1)
          (omega (arith, length-append front (b ∷ []))) (omega arith)))

-- A run of stores that fits fills its place and leaves the rest.
pub store_all-fits :
    (front back bs : List ℕ)
    → length bs ≤ length back
    → store_all (front ++ back) (length front) bs ≡ some (front ++ (bs ++ drop (length bs) back))
store_all-fits front back bs h = store_all-at bs front back (length front) refl h
