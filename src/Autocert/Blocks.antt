-- ===== src/Autocert/Blocks.antt =====
-- The copies of wtd_autocert_generate into its two heap blocks, and the length of the key's text.
use webtransportd.Common.{
  ℕ, suc, ◌+◌, ◌≡◌, ◌≤◌, ◌<◌, refl, ◌∙◌, List, [], ◌∷◌, ◌++◌, some, ◌==◌, arith, length, Bool-cases,
  Option-cases, inl, inr, drop,
}
use webtransportd.Common.Memory.{store, store_all, store_all-fits, store-length}
use webtransportd.Autocert.{strlen}

pub strlen-lt : (s : List ℕ) (n : ℕ) → strlen s ≡ some n → n < length s
unfolding strlen
strlen-lt [] n e = cc
strlen-lt (c ∷ s) n e = elim (Bool-cases (c == 0)) [
  | inl nul ↦ ground (arith, rw nul at e)
  | inr more ↦ elim (Option-cases (strlen s)) [
    | inl none' ↦ absurd (cc (rw (more, none') at e))
    | inr (k, rest) ↦
        let is : suc k ≡ n = ground (arith, rw (more, rest) at e) in
        omega (arith, strlen-lt s k rest, is)
  ]
]

-- A copy into a block fills its front.
pub copied :
    (block bs : List ℕ)
    → length bs ≤ length block
    → store_all block 0 bs ≡ some (bs ++ drop (length bs) block)
copied block bs h = store_all-fits [] block bs h

one_left :
    (block bs : List ℕ) → length block ≡ length bs + 1 → (x : ℕ) × (drop (length bs) block ≡ x ∷ [])
one_left [] [] e = absurd (omega (arith, e))
one_left (x ∷ []) [] e = (x, refl)
one_left (x ∷ y ∷ block) [] e = absurd (omega (arith, e))
one_left [] (b ∷ bs) e = absurd (omega (arith, e))
one_left (x ∷ block) (b ∷ bs) e = one_left block bs (omega (arith, e))

pub none_left : (block bs : List ℕ) → length block ≡ length bs → drop (length bs) block ≡ []
none_left [] [] e = refl
none_left (x ∷ block) [] e = absurd (omega (arith, e))
none_left [] (b ∷ bs) e = absurd (omega (arith, e))
none_left (x ∷ block) (b ∷ bs) e = none_left block bs (omega (arith, e))

-- A block one byte larger takes the bytes and a NUL behind them.
pub filled :
    (block bs : List ℕ) (n : ℕ)
    → length bs ≡ n
    → length block ≡ n + 1
    → (whole : List ℕ) × (store_all block 0 bs ≡ some whole)
      × (store whole n 0 ≡ some (bs ++ (0 ∷ [])))
filled block bs n e size =
    let (x, left) = one_left block bs (omega (arith, e, size)) in
    (
      bs ++ (x ∷ []),
      copied block bs (omega (arith, e, size)) ∙ rw left refl,
      rw⁻¹ e (store-length bs [] x 0),
    )
