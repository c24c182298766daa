-- ===== src/Cmdline/RoundTrip.antt =====
-- The line that wtd_build_cmdline writes, read back by the rules that cmdline.h gives for the
-- receiving side.
use webtransportd.Common.{
  ℕ, zero, suc, ◌+◌, ◌*◌, ◌/◌, ◌%◌, ◌≡◌, ◌<◌, ◌≤◌, ◌⊎◌, refl, sym, ◌∙◌, ap, Bool, true, false, not,
  ◌&&◌, List, [], ◌∷◌, ◌++◌, arith, length, some, ◌==◌, if◌then◌else◌, append_assoc, append-nil,
  Bool-cases, inl, inr, ltb, tests, length-append,
}
use webtransportd.Cmdline.{
  is_separator, is_quote, has_special, needs_quotes, wtd_build_cmdline, backslash, quote, blank,
}
use webtransportd.Cmdline.Build.{replicate, arg_text, word_text, line_text, build_lem}

-- The receiving side: whether an argument has begun, whether it stands inside quotes, the backslashes
-- of the current run, and the argument so far. Separators outside of quotes end an argument; before a
-- quote, two backslashes stand for one, and one more makes the quote a part of the argument;
-- elsewhere backslashes stand for themselves.
unfoldable pub decode : Bool → Bool → ℕ → List ℕ → List ℕ → List (List ℕ)
unfolding replicate
decode begun inside bs acc [] = if begun then (acc ++ replicate bs backslash) ∷ [] else []
decode begun inside bs acc (c ∷ s) =
    let run = decode true inside (suc bs) acc s in
    let toggled = decode true (not inside) 0 (acc ++ replicate (bs / 2) backslash) s in
    let escaped = decode true inside 0 (acc ++ (replicate (bs / 2) backslash ++ (quote ∷ []))) s in
    let literal = decode true inside 0 (acc ++ (replicate bs backslash ++ (c ∷ []))) s in
    let ended = (acc ++ replicate bs backslash) ∷ decode false false 0 [] s in
    let skipped = decode false false 0 [] s in
    if c == backslash
    then run
    else if is_quote c
    then (if bs % 2 == 0 then toggled else escaped)
    else if is_separator c && not inside
    then (if begun then ended else skipped)
    else literal

abbrev pub decode_line : List ℕ → List (List ℕ)
decode_line = decode false false 0 []

replicate-snoc : (n c : ℕ) (s : List ℕ) → replicate (suc n) c ++ s ≡ replicate n c ++ (c ∷ s)
unfolding replicate
replicate-snoc zero c s = refl
replicate-snoc (suc n) c s = ap (◌∷◌ c) (replicate-snoc n c s)

decode_run :
    (inside : Bool) (n k : ℕ) (acc t : List ℕ)
    → decode true inside k acc (replicate n backslash ++ t) ≡ decode true inside (k + n) acc t
unfolding decode replicate
decode_run inside zero k acc t = ap (λ (i : ℕ). decode true inside i acc t) (omega arith)
decode_run inside (suc n) k acc t =
    decode_run inside n (suc k) acc t ∙ ap (λ (i : ℕ). decode true inside i acc t) (omega arith)

decode_run_first :
    (begun inside : Bool) (n : ℕ) (acc t : List ℕ)
    → decode begun inside 0 acc (replicate (suc n) backslash ++ t)
      ≡ decode true inside (suc n) acc t
unfolding decode replicate
decode_run_first begun inside n acc t =
    decode_run inside n 1 acc t ∙ ap (λ (i : ℕ). decode true inside i acc t) (omega arith)

decode_closing :
    (n : ℕ) (acc rest : List ℕ)
    → decode true true (n * 2) acc (quote ∷ rest)
      ≡ decode true false 0 (acc ++ replicate n backslash) rest
unfolding decode
decode_closing n acc rest =
    let even : (n * 2 % 2 == 0) ≡ true = ground arith in
    let half : n * 2 / 2 ≡ n = omega arith in rw (even, half) refl

decode_opening : (rest : List ℕ) → decode_line (quote ∷ rest) ≡ decode true true 0 [] rest
unfolding decode
decode_opening rest = refl

decode_escaped :
    (n : ℕ) (acc rest : List ℕ)
    → decode true true (n * 2) acc (backslash ∷ (quote ∷ rest))
      ≡ decode true true 0 (acc ++ (replicate n backslash ++ (quote ∷ []))) rest
unfolding decode
decode_escaped n acc rest =
    let odd : (suc (n * 2) % 2 == 0) ≡ false = ground arith in
    let half : suc (n * 2) / 2 ≡ n = omega arith in rw (odd, half) refl

decode_literal :
    (begun inside : Bool) (n c : ℕ) (acc rest : List ℕ)
    → (c == backslash) ≡ false
    → is_quote c ≡ false
    → (is_separator c && not inside) ≡ false
    → decode begun inside n acc (c ∷ rest)
      ≡ decode true inside 0 (acc ++ (replicate n backslash ++ (c ∷ []))) rest
unfolding decode
decode_literal begun inside n c acc rest e f g = rw (e, f, g) refl

regroup :
    (acc front : List ℕ) (c : ℕ) (s : List ℕ)
    → (acc ++ (front ++ (c ∷ []))) ++ s ≡ acc ++ (front ++ (c ∷ s))
regroup acc front c s = simp append_assoc

and_false : (b : Bool) → (b && false) ≡ false
and_false true = refl
and_false false = refl

-- A run of backslashes and a byte that neither ends it nor is escaped by it.
run_literal :
    (begun : Bool) (n c : ℕ) (acc rest : List ℕ)
    → (c == backslash) ≡ false
    → is_quote c ≡ false
    → (is_separator c && true) ≡ false
    → decode begun false 0 acc (replicate n backslash ++ (c ∷ rest))
      ≡ decode true false 0 (acc ++ (replicate n backslash ++ (c ∷ []))) rest
unfolding replicate
run_literal begun zero c acc rest e f g = decode_literal begun false 0 c acc rest e f g
run_literal begun (suc n) c acc rest e f g =
    decode_run_first begun false n acc (c ∷ rest)
    ∙ decode_literal true false (suc n) c acc rest e f g

-- The inside of a quoted argument and its closing quote.
decode_quoted :
    (s : List ℕ) (n : ℕ) (acc rest : List ℕ)
    → decode true true 0 acc (arg_text true s n ++ (quote ∷ rest))
      ≡ decode true false 0 (acc ++ (replicate n backslash ++ s)) rest
unfolding arg_text
decode_quoted [] n acc rest =
    decode_run true (n * 2) 0 acc (quote ∷ rest)
    ∙ ap (λ (i : ℕ). decode true true i acc (quote ∷ rest)) (omega arith)
    ∙ decode_closing n acc rest
    ∙ ap (λ (w : List ℕ). decode true false 0 (acc ++ w) rest) (sym (append-nil _))
decode_quoted (c ∷ s) n acc rest = elim (Bool-cases (c == backslash)) [
  | inl run ↦
      let is : c ≡ backslash = ground arith in
      rw run (
        rw is (
          decode_quoted s (suc n) acc rest
          ∙ ap (λ (w : List ℕ). decode true false 0 (acc ++ w) rest)
              (replicate-snoc n backslash s)))
  | inr other ↦ elim (Bool-cases (is_quote c)) [
    | inl escaped ↦
        let is : c ≡ quote = ground arith in
        rw (other, escaped)
          (rw (is, append_assoc (replicate (n * 2) backslash))
            (decode_run true (n * 2) 0 acc _
              ∙ ap
                  (λ (i : ℕ).
                    decode true true i acc
                      (backslash ∷ (quote ∷ (arg_text true s 0 ++ (quote ∷ rest)))))
                  (omega arith)
              ∙ decode_escaped n acc (arg_text true s 0 ++ (quote ∷ rest))
              ∙ decode_quoted s 0 (acc ++ (replicate n backslash ++ (quote ∷ []))) rest
              ∙ ap (λ (w : List ℕ). decode true false 0 w rest)
                  (regroup acc (replicate n backslash) quote s)))
    | inr literal ↦
        rw (other, literal)
          (rw (append_assoc (replicate n backslash)) (
            decode_run true n 0 acc _
            ∙ ap (λ (i : ℕ). decode true true i acc (c ∷ (arg_text true s 0 ++ (quote ∷ rest))))
                (omega arith)
            ∙ decode_literal true true n c acc _ other literal (and_false (is_separator c))
            ∙ decode_quoted s 0 (acc ++ (replicate n backslash ++ (c ∷ []))) rest
            ∙ ap (λ (w : List ℕ). decode true false 0 w rest)
                (regroup acc (replicate n backslash) c s)))
  ]
]

-- Nothing, or a blank, follows an argument.
abbrev IsEnd : List ℕ → Type 0
IsEnd [] = Unit {0}
IsEnd (c ∷ rest) = c ≡ blank

decode_ending :
    (n : ℕ) (acc rest : List ℕ)
    → IsEnd rest
    → decode true false n acc rest ≡ decode true false 0 (acc ++ (replicate n backslash ++ [])) rest
unfolding decode
decode_ending n acc [] end = simp append-nil
decode_ending n acc (c ∷ rest) end = rw end (simp append-nil)

-- A bare argument; it has a byte, so it begins even where none had.
decode_bare :
    (begun : Bool) (s : List ℕ) (n : ℕ) (acc rest : List ℕ)
    → has_special s ≡ false
    → IsEnd rest
    → (begun ≡ true) ⊎ (0 < n + length s)
    → decode begun false 0 acc (arg_text false s n ++ rest)
      ≡ decode true false 0 (acc ++ (replicate n backslash ++ s)) rest
unfolding arg_text has_special
decode_bare begun [] zero acc rest plain end (inl e) = rw (e, append-nil) refl
decode_bare begun [] zero acc rest plain end (inr e) = absurd (omega arith)
decode_bare begun [] (suc n) acc rest plain end some' =
    decode_run_first begun false n acc rest ∙ decode_ending (suc n) acc rest end
decode_bare begun (c ∷ s) n acc rest plain end some' = elim (Bool-cases (c == backslash)) [
  | inl run ↦
      let is : c ≡ backslash = ground arith in
      rw run (
        rw is (
          decode_bare begun s (suc n) acc rest (ground arith) end (inr (omega arith))
          ∙ ap (λ (w : List ℕ). decode true false 0 (acc ++ w) rest)
              (replicate-snoc n backslash s)))
  | inr other ↦
      let literal : is_quote c ≡ false = ground arith in
      let inner : (is_separator c && true) ≡ false = ground arith in
      rw (other, literal)
        (rw (append_assoc (replicate n backslash)) (
          run_literal begun n c acc (arg_text false s 0 ++ rest) other literal inner
          ∙ decode_bare true s 0 (acc ++ (replicate n backslash ++ (c ∷ []))) rest (ground arith)
              end (inl refl)
          ∙ ap (λ (w : List ℕ). decode true false 0 w rest)
              (regroup acc (replicate n backslash) c s)))
]

decode_quoted_word :
    (a rest : List ℕ)
    → decode_line ((quote ∷ (arg_text true a 0 ++ (quote ∷ []))) ++ rest)
      ≡ decode true false 0 a rest
unfolding replicate
decode_quoted_word a rest =
    rw (append_assoc (arg_text true a 0) (quote ∷ []) rest)
      (decode_opening (arg_text true a 0 ++ (quote ∷ rest)) ∙ decode_quoted a 0 [] rest)

-- One argument, whether it was quoted or not.
decode_word :
    (a rest : List ℕ) → IsEnd rest → decode_line (word_text a ++ rest) ≡ decode true false 0 a rest
unfolding word_text needs_quotes
decode_word [] rest end = decode_quoted_word [] rest
decode_word (c ∷ s) rest end = elim (Bool-cases (has_special (c ∷ s))) [
  | inl special ↦ rw special (decode_quoted_word (c ∷ s) rest)
  | inr plain ↦ rw plain (decode_bare false (c ∷ s) 0 [] rest plain end (inr (omega arith)))
]

line_text-IsEnd : (argv : List (List ℕ)) → IsEnd (line_text true argv)
unfolding line_text
line_text-IsEnd [] = tt
line_text-IsEnd (a ∷ argv) = refl

decode_rest :
    (a : List ℕ) (argv : List (List ℕ)) → decode true false 0 a (line_text true argv) ≡ a ∷ argv
unfolding line_text decode
decode_rest a [] = simp append-nil
decode_rest a (b ∷ argv) =
    rw append-nil
      (ap (◌∷◌ a) (decode_word b (line_text true argv) (line_text-IsEnd argv) ∙ decode_rest b argv))

decode-line_text : (argv : List (List ℕ)) → decode_line (line_text false argv) ≡ argv
unfolding line_text decode
decode-line_text [] = refl
decode-line_text (a ∷ argv) =
    decode_word a (line_text true argv) (line_text-IsEnd argv) ∙ decode_rest a argv

-- Whatever wtd_build_cmdline writes is a line and a NUL, and the line, read by the rules of the
-- receiving side, gives back the same arguments, byte for byte: empty ones, blanks, quotes and runs
-- of backslashes included.
pub decode-build :
    (argv : List (List ℕ)) (cap' : ℕ) (out : List ℕ)
    → wtd_build_cmdline argv cap' ≡ some out
    → (line : List ℕ) × (out ≡ line ++ (0 ∷ [])) × (length out ≤ cap') × (decode_line line ≡ argv)
decode-build argv cap' out e = elim (Bool-cases (ltb (length (line_text false argv)) cap')) [
  | inl fits ↦
      let line = line_text false argv in
      let is : line ++ (0 ∷ []) ≡ out =
        ground (arith, rw fits at (sym (build_lem argv cap') ∙ e)) in
      (
        line,
        sym is,
        omega (tests, fits, ap length is, length-append line (0 ∷ [])),
        decode-line_text argv,
      )
  | inr full ↦ absurd (cc (rw full at (sym (build_lem argv cap') ∙ e)))
]
