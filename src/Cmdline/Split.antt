-- ===== src/Cmdline/Split.antt =====
-- Which command lines wtd_split_cmdline splits into which words.
use webtransportd.Common.{
  ℕ, zero, suc, ◌-◌, arith, ◌≡◌, ◌≢◌, ◌⊎◌, inl, inr, append-nil, sym, refl, ◌∙◌, true, false, List,
  [], ◌∷◌, ◌++◌, take, All, append_assoc, ap,
}
use webtransportd.Cmdline.{
  is_separator, is_quote, skip_separators, until, next_token, split_step, split_tokens,
  wtd_split_cmdline,
}

-- A word as it stands on a command line.
pub data Spelling : Type 0 where
  bare : ℕ → List ℕ → Spelling
  quoted : List ℕ → Spelling

abbrev pub word : Spelling → List ℕ
word (bare c w) = c ∷ w
word (quoted w) = w

abbrev pub spell : Spelling → List ℕ
spell (bare c w) = c ∷ w
spell (quoted w) = 34 ∷ (w ++ (34 ∷ []))

-- A blank or a tab.
abbrev pub IsBlank : ℕ → Type 0
IsBlank c = (c ≡ 32) ⊎ (c ≡ 9)

-- A bare word has no blank and no tab and does not begin with a quote; a quoted one has no quote
-- inside.
abbrev pub IsInside : ℕ → Type 0
IsInside c = (c ≢ 32) × (c ≢ 9)

abbrev pub IsSpelled : Spelling → Type 0
IsSpelled (bare c w) = (c ≢ 34) × IsInside c × All IsInside w
IsSpelled (quoted w) = All (λ b. b ≢ 34) w

-- A command line: each word with the blanks in front of it, and what follows the last one.
abbrev pub line : List (List ℕ × Spelling) → List ℕ → List ℕ
line [] end = end
line ((gap, x) ∷ xs) end = gap ++ (spell x ++ line xs end)

abbrev pub words : List (List ℕ × Spelling) → List (List ℕ)
words [] = []
words ((gap, x) ∷ xs) = word x ∷ words xs

-- Gaps are blanks and tabs, and a bare word has one behind it or is the last one.
abbrev pub IsApart : Spelling → List (List ℕ × Spelling) → Type 0
IsApart (quoted w) xs = Unit {0}
IsApart (bare c w) [] = Unit {0}
IsApart (bare c w) ((gap, x) ∷ xs) = gap ≢ []

abbrev pub IsLine : List (List ℕ × Spelling) → List ℕ → Type 0
IsLine [] end = All IsBlank end
IsLine ((gap, x) ∷ xs) end = All IsBlank gap × IsSpelled x × IsApart x xs × IsLine xs end

inside : (c : ℕ) → IsInside c → is_separator c ≡ false
inside c (no_blank, no_tab) = ground arith

blank : (c : ℕ) → IsBlank c → is_separator c ≡ true
blank c b = ground arith

unquoted : (c : ℕ) → c ≢ 34 → is_quote c ≡ false
unquoted c ne = ground arith

skip-gap : (gap s : List ℕ) → All IsBlank gap → skip_separators (gap ++ s) ≡ skip_separators s
unfolding skip_separators
skip-gap [] s a = refl
skip-gap (c ∷ gap) s (b, a) = rw (blank c b) (skip-gap gap s a)

-- A bare token ends at the first separator and takes it with it, or at the end.
until-gap :
    (w : List ℕ) (c : ℕ) (rest : List ℕ)
    → All IsInside w
    → IsBlank c
    → until is_separator (w ++ (c ∷ rest)) ≡ (w, rest)
unfolding until
until-gap [] c rest a b = rw (blank c b) refl
until-gap (d ∷ w) c rest (k, a) b = rw (inside d k, until-gap w c rest a b) refl

until-end : (w : List ℕ) → All IsInside w → until is_separator w ≡ (w, [])
unfolding until
until-end [] a = refl
until-end (d ∷ w) (k, a) = rw (inside d k, until-end w a) refl

until-quote :
    (w rest : List ℕ) → All (λ b. b ≢ 34) w → until is_quote (w ++ (34 ∷ rest)) ≡ (w, rest)
unfolding until
until-quote [] rest a = refl
until-quote (d ∷ w) rest (k, a) = rw (unquoted d k, until-quote w rest a) refl

split-gap :
    (n : ℕ) (gap s : List ℕ) → All IsBlank gap → split_tokens n (gap ++ s) ≡ split_tokens n s
unfolding split_tokens
split-gap zero gap s a = refl
split-gap (suc n) gap s a = rw (skip-gap gap s a) refl

skip_blanks : (gap : List ℕ) → All IsBlank gap → skip_separators gap ≡ []
unfolding skip_separators
skip_blanks [] a = refl
skip_blanks (c ∷ gap) (b, a) = rw (blank c b) (skip_blanks gap a)

skip-inside : (c : ℕ) (s : List ℕ) → IsInside c → skip_separators (c ∷ s) ≡ c ∷ s
unfolding skip_separators
skip-inside c s k = rw (inside c k) refl

-- A bare word, the gap behind it and the rest.
split-bare :
    (n c : ℕ) (w gap s : List ℕ)
    → IsSpelled (bare c w)
    → All IsBlank gap
    → (gap ≢ []) ⊎ (s ≡ [])
    → split_tokens (suc n) (c ∷ (w ++ (gap ++ s))) ≡ (c ∷ w) ∷ split_tokens n (gap ++ s)
unfolding split_tokens split_step next_token
split-bare n c w [] s (q, k, a) g (inl ne) = absurd (ne refl)
split-bare n c w [] s (q, k, a) g (inr e) =
    rw (e, append-nil w, skip-inside c w k, unquoted c q, until-end (c ∷ w) (k, a)) refl
split-bare n c w (d ∷ gap) s (q, k, a) (b, g) e =
    rw
      (
        skip-inside c (w ++ (d ∷ (gap ++ s))) k,
        unquoted c q,
        until-gap (c ∷ w) d (gap ++ s) (k, a) b,
      )
      (ap (λ (t : List (List ℕ)). (c ∷ w) ∷ t) (sym (split-gap n (d ∷ []) (gap ++ s) (b, tt))))

split-quoted :
    (n : ℕ) (w s : List ℕ)
    → IsSpelled (quoted w)
    → split_tokens (suc n) (34 ∷ ((w ++ (34 ∷ [])) ++ s)) ≡ w ∷ split_tokens n s
unfolding split_tokens split_step next_token skip_separators
split-quoted n w s a = rw (append_assoc w (34 ∷ []) s, until-quote w s a) refl

split_tokens-end : (n : ℕ) (end : List ℕ) → All IsBlank end → split_tokens n end ≡ []
unfolding split_tokens split_step
split_tokens-end zero end a = refl
split_tokens-end (suc n) end a = rw (skip_blanks end a) refl

take_nil : (n : ℕ) → take {A = List ℕ} n [] ≡ []
take_nil zero = refl
take_nil (suc n) = refl

split_none : (s : List ℕ) → split_tokens 0 s ≡ []
unfolding split_tokens
split_none s = refl

split_tokens-line :
    (n : ℕ) (xs : List (List ℕ × Spelling)) (end : List ℕ)
    → IsLine xs end
    → split_tokens n (line xs end) ≡ take n (words xs)
split_tokens-line n [] end a = split_tokens-end n end a ∙ sym (take_nil n)
split_tokens-line zero ((gap, x) ∷ xs) end a = split_none (line ((gap, x) ∷ xs) end)
split_tokens-line (suc n) ((gap, quoted w) ∷ xs) end (g, k, apart, a) =
    split-gap (suc n) gap (spell (quoted w) ++ line xs end) g
    ∙ split-quoted n w (line xs end) k
    ∙ ap (λ (t : List (List ℕ)). w ∷ t) (split_tokens-line n xs end a)
split_tokens-line (suc n) ((gap, bare c w) ∷ []) end (g, k, apart, a) =
    let one = split-bare n c w end [] k a (inr refl) in
    split-gap (suc n) gap (spell (bare c w) ++ end) g
    ∙ rw append-nil at one
    ∙ ap (λ (t : List (List ℕ)). (c ∷ w) ∷ t) (split_tokens-line n [] end a)
split_tokens-line (suc n) ((gap, bare c w) ∷ ((gap', y) ∷ ys)) end
      (g, k, apart, (g', k', apart', rest)) =
    split-gap (suc n) gap (spell (bare c w) ++ line ((gap', y) ∷ ys) end) g
    ∙ split-bare n c w gap' (spell y ++ line ys end) k g' (inl apart)
    ∙ ap (λ (t : List (List ℕ)). (c ∷ w) ∷ t)
        (split_tokens-line n ((gap', y) ∷ ys) end (g', k', apart', rest))

-- A command line whose words stand bare or in double quotes, with any blanks and tabs in front of
-- each and behind the last one, and at least one behind a bare word that another word follows, is
-- split into just these words, without the quotes; as many of them as argv has slots, but for the
-- last slot.
pub split_line :
    (xs : List (List ℕ × Spelling)) (end : List ℕ) (argv_cap : ℕ)
    → IsLine xs end
    → wtd_split_cmdline (line xs end) argv_cap ≡ take (argv_cap - 1) (words xs)
unfolding wtd_split_cmdline
split_line xs end argv_cap a = split_tokens-line (argv_cap - 1) xs end a
