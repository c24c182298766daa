-- ===== src/Cmdline/Build.antt =====
-- wtd_build_cmdline writes the encoded text of the arguments where it fits, and nothing else.
use webtransportd.Common.{
  ℕ, zero, suc, ◌+◌, ◌*◌, ◌≡◌, ◌<◌, ◌∙◌, Bool, true, false, List, [], ◌∷◌, ◌++◌, arith, length,
  Option, none, some, ◌==◌, ltb, if◌then◌else◌, append_assoc, append-nil, Bool-cases, Option-cases,
  inl, inr, length-append,
}
use webtransportd.Common.Memory.{◌>>=◌}
use webtransportd.Cmdline.{
  put, put_times, write_arg, needs_quotes, write_quoted, write_args, wtd_build_cmdline, backslash,
  quote, blank, is_quote,
}

unfoldable pub replicate : ℕ → ℕ → List ℕ
replicate zero c = []
replicate (suc n) c = c ∷ replicate n c

-- The text of an argument behind `bs` backslashes, by the rules of cmdline.h: a run of backslashes is
-- doubled before a quote and before the closing quote, and a quote gets a backslash.
unfoldable pub arg_text : Bool → List ℕ → ℕ → List ℕ
unfolding replicate
arg_text quoted [] bs = replicate (if quoted then bs * 2 else bs) backslash
arg_text quoted (c ∷ s) bs =
    let run = arg_text quoted s (suc bs) in
    let rest = arg_text quoted s 0 in
    if c == backslash
    then run
    else if is_quote c
    then replicate (bs * 2) backslash ++ (backslash ∷ (quote ∷ rest))
    else replicate bs backslash ++ (c ∷ rest)

unfoldable pub word_text : List ℕ → List ℕ
unfolding arg_text needs_quotes
word_text a =
    if needs_quotes a then quote ∷ (arg_text true a 0 ++ (quote ∷ [])) else arg_text false a 0

-- The words with a blank between two of them, and before the first where `later`.
unfoldable pub line_text : Bool → List (List ℕ) → List ℕ
unfolding word_text
line_text later [] = []
line_text later (a ∷ argv) =
    (if later then blank ∷ [] else []) ++ (word_text a ++ line_text true argv)

-- A text written behind `out`, if a byte is left for the NUL.
abbrev fitted : ℕ → List ℕ → List ℕ → Option (List ℕ)
fitted cap text out = if ltb (length out + length text) cap then some (out ++ text) else none

bind-fitted :
    (cap : ℕ) (a b out : List ℕ) (k : List ℕ → Option (List ℕ))
    → ((o : List ℕ) → length o < cap → k o ≡ fitted cap b o)
    → (fitted cap a out >>= k) ≡ fitted cap (a ++ b) out
bind-fitted cap a b out k h = elim (Bool-cases (ltb (length out + length a) cap)) [
  | inl fits ↦ rw fits (
      h (out ++ a) (ground (arith, length-append out a))
      ∙ ground (arith, length-append out a, length-append a b, append_assoc out a b))
  | inr full ↦ rw full (ground (arith, length-append a b))
]

put-fitted : (cap c : ℕ) (out : List ℕ) → put cap c out ≡ fitted cap (c ∷ []) out
unfolding put
put-fitted cap c out = ground arith

put_times-fitted :
    (cap n c : ℕ) (out : List ℕ)
    → length out < cap
    → put_times cap n c out ≡ fitted cap (replicate n c) out
unfolding put_times replicate
put_times-fitted cap zero c out h = rw append-nil (ground arith)
put_times-fitted cap (suc n) c out h =
    rw put-fitted
      (bind-fitted cap (c ∷ []) (replicate n c) out (put_times cap n c) (put_times-fitted cap n c))

-- The two ways in which a run of backslashes ends before the end of the argument.
write_escaped :
    (cap n : ℕ) (k : List ℕ → Option (List ℕ)) (rest out : List ℕ)
    → length out < cap
    → ((o : List ℕ) → length o < cap → k o ≡ fitted cap rest o)
    → (put_times cap n backslash out >>= λ o1.
        put cap backslash o1 >>= λ o2. put cap quote o2 >>= k)
      ≡ fitted cap (replicate n backslash ++ (backslash ∷ (quote ∷ rest))) out
write_escaped cap n k rest out h step = rw (put_times-fitted cap n backslash out h) (
    bind-fitted cap (replicate n backslash) (backslash ∷ (quote ∷ rest)) out _ (λ o1 h1.
      rw (put-fitted cap backslash o1) (
        bind-fitted cap (backslash ∷ []) (quote ∷ rest) o1 _
          (λ o2 h2. rw (put-fitted cap quote o2) (bind-fitted cap (quote ∷ []) rest o2 k step)))))

write_literal :
    (cap n c : ℕ) (k : List ℕ → Option (List ℕ)) (rest out : List ℕ)
    → length out < cap
    → ((o : List ℕ) → length o < cap → k o ≡ fitted cap rest o)
    → (put_times cap n backslash out >>= λ o1. put cap c o1 >>= k)
      ≡ fitted cap (replicate n backslash ++ (c ∷ rest)) out
write_literal cap n c k rest out h step = rw (put_times-fitted cap n backslash out h) (
    bind-fitted cap (replicate n backslash) (c ∷ rest) out _
      (λ o1 h1. rw (put-fitted cap c o1) (bind-fitted cap (c ∷ []) rest o1 k step)))

write_arg-fitted :
    (cap : ℕ) (quoted : Bool) (s : List ℕ) (bs : ℕ) (out : List ℕ)
    → length out < cap
    → write_arg cap quoted s bs out ≡ fitted cap (arg_text quoted s bs) out
unfolding write_arg arg_text
write_arg-fitted cap quoted [] bs out h =
    put_times-fitted cap (if quoted then bs * 2 else bs) backslash out h
write_arg-fitted cap quoted (c ∷ s) bs out h = elim (Bool-cases (c == backslash)) [
  | inl run ↦ rw run (write_arg-fitted cap quoted s (suc bs) out h)
  | inr other ↦ elim (Bool-cases (is_quote c)) [
    | inl escaped ↦
        rw (other, escaped)
          (write_escaped cap (bs * 2) (write_arg cap quoted s 0) (arg_text quoted s 0) out h
            (write_arg-fitted cap quoted s 0))
    | inr literal ↦
        rw (other, literal)
          (write_literal cap bs c (write_arg cap quoted s 0) (arg_text quoted s 0) out h
            (write_arg-fitted cap quoted s 0))
  ]
]

write_quoted-fitted :
    (cap : ℕ) (a out : List ℕ)
    → length out < cap
    → write_quoted cap a out ≡ fitted cap (word_text a) out
unfolding write_quoted word_text
write_quoted-fitted cap a out h = elim (Bool-cases (needs_quotes a)) [
  | inl quotes ↦
      rw (quotes, put-fitted)
        (bind-fitted cap (quote ∷ []) (arg_text true a 0 ++ (quote ∷ [])) out _ (λ o1 h1.
          rw (write_arg-fitted cap true a 0 o1 h1) (
            bind-fitted cap (arg_text true a 0) (quote ∷ []) o1 _
              (λ o2 h2. put-fitted cap quote o2))))
  | inr plain ↦ rw plain (write_arg-fitted cap false a 0 out h)
]

write_word :
    (cap : ℕ) (a : List ℕ) (argv : List (List ℕ)) (out : List ℕ)
    → length out < cap
    → ((o : List ℕ)
        → length o < cap
        → write_args cap true argv o ≡ fitted cap (line_text true argv) o)
    → (write_quoted cap a out >>= write_args cap true argv)
      ≡ fitted cap (word_text a ++ line_text true argv) out
write_word cap a argv out h step =
    rw (write_quoted-fitted cap a out h)
      (bind-fitted cap (word_text a) (line_text true argv) out (write_args cap true argv) step)

write_args-fitted :
    (cap : ℕ) (later : Bool) (argv : List (List ℕ)) (out : List ℕ)
    → length out < cap
    → write_args cap later argv out ≡ fitted cap (line_text later argv) out
unfolding write_args line_text
write_args-fitted cap later [] out h = rw append-nil (ground arith)
write_args-fitted cap true (a ∷ argv) out h = rw put-fitted (
    bind-fitted cap (blank ∷ []) (word_text a ++ line_text true argv) out _
      (λ o1 h1. write_word cap a argv o1 h1 (write_args-fitted cap true argv)))
write_args-fitted cap false (a ∷ argv) out h =
    write_word cap a argv out h (write_args-fitted cap true argv)

-- wtd_build_cmdline writes the encoded line and its NUL if the buffer has room for both, and returns
-- -1 in every other case, also for a buffer without a byte.
pub build_lem :
    (argv : List (List ℕ)) (cap : ℕ)
    → wtd_build_cmdline argv cap ≡ (
        if ltb (length (line_text false argv)) cap
        then some (line_text false argv ++ (0 ∷ []))
        else none)
unfolding wtd_build_cmdline
build_lem argv zero = elim (Option-cases (write_args 0 false argv [])) [
  | inl failed ↦ rw failed (ground arith)
  | inr (out, done) ↦ rw done (ground arith)
]
build_lem argv (suc n) = rw (write_args-fitted (suc n) false argv [] (omega arith)) (ground arith)
