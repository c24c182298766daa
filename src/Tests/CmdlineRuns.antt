-- ===== src/Tests/CmdlineRuns.antt =====
-- Runs of adapters/cmdline.c.
use webtransportd.Common.{
  ltb, true, arith, ◌≢◌, inl, inr, ℕ, ◌≡◌, ◌≤◌, refl, length, List, [], ◌∷◌, ◌++◌, some,
}
use webtransportd.Cmdline.{wtd_split_cmdline, wtd_build_cmdline}
use webtransportd.Cmdline.RoundTrip.{decode_line, decode-build}
use webtransportd.Cmdline.Split.{Spelling, bare, quoted, line, IsInside, IsLine, split_line}

-- py, a tab, "a b", and behind it right away a third word, which ends the line
abbrev command : List (List ℕ × Spelling)
command =
    ([], bare 112 (121 ∷ [])) ∷ (32 ∷ 9 ∷ [], quoted (97 ∷ 32 ∷ 98 ∷ [])) ∷ ([], bare 99 []) ∷ []

char : (n : ℕ) → (ltb 34 n) ≡ true → (n ≢ 34) × IsInside n
char n e = ground arith

blank_quote : ◌≢◌ {A = ℕ} 32 34
blank_quote = omega arith

command-IsLine : IsLine command []
command-IsLine =
    let (p, p') = char 112 refl in
    let (y, y') = char 121 refl in
    let (c, c') = char 99 refl in
    (
      tt,
      (p, p', (y', tt)),
      (λ e. cc),
      (
        (inl refl, (inr refl, tt)),
        ((char 97 refl).0, (blank_quote, ((char 98 refl).0, tt))),
        tt,
        (tt, (c, c', tt), tt, tt),
      ),
    )

split_line_example :
    wtd_split_cmdline (line command []) 4 ≡ (112 ∷ 121 ∷ []) ∷ (97 ∷ 32 ∷ 98 ∷ []) ∷ (99 ∷ []) ∷ []
split_line_example = split_line command [] 4 command-IsLine

-- py, an empty argument, `a b\`, and a quote behind a backslash
abbrev arguments : List (List ℕ)
arguments = (112 ∷ 121 ∷ []) ∷ [] ∷ (97 ∷ 32 ∷ 98 ∷ 92 ∷ []) ∷ (92 ∷ 34 ∷ []) ∷ []

-- py "" "a b\\" "\\\""
abbrev encoded : List ℕ
encoded =
    112 ∷ 121 ∷ 32 ∷ 34 ∷ 34 ∷ 32 ∷ 34 ∷ 97 ∷ 32 ∷ 98 ∷ 92 ∷ 92 ∷ 34 ∷ 32 ∷ 34 ∷ 92 ∷ 92 ∷ 92 ∷ 34
    ∷ 34 ∷ []

builds : wtd_build_cmdline arguments 64 ≡ some (encoded ++ (0 ∷ []))
unfolding wtd_build_cmdline
builds = refl

decode-build_example :
    (text : List ℕ) × (encoded ++ (0 ∷ []) ≡ text ++ (0 ∷ []))
    × (length (encoded ++ (0 ∷ [])) ≤ 64)
    × (decode_line text ≡ arguments)
decode-build_example = decode-build arguments 64 (encoded ++ (0 ∷ [])) builds
