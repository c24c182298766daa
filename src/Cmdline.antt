-- ===== src/Cmdline.antt =====
-- adapters/cmdline.c: wtd_split_cmdline, which splits --exec into the argv of the child, and
-- wtd_build_cmdline, which encodes an argv into one Windows command line.
-- A C string is the list of its bytes before the NUL. The tokens are the strings that argv points
-- to; the NULs that end them are written over the delimiters, which no token contains.
pub mod Split
pub mod Build
pub mod RoundTrip
use webtransportd.Common.{
  ℕ, zero, suc, ◌+◌, ◌*◌, ◌-◌, Bool, true, false, ◌||◌, List, [], ◌∷◌, ◌++◌, Option, none, some,
  length, leb, ◌==◌, if◌then◌else◌,
}
use webtransportd.Common.Memory.{◌>>=◌}

abbrev pub is_separator : ℕ → Bool
is_separator c = c == 32 || c == 9

abbrev pub is_quote : ℕ → Bool
is_quote c = c == 34

-- The loop that skips separators.
unfoldable pub skip_separators : List ℕ → List ℕ
skip_separators [] = []
skip_separators (c ∷ s) = let rest = skip_separators s in if is_separator c then rest else c ∷ s

-- The loop to the end of a token, and the step over the delimiter that is there: the token and what
-- stands behind.
unfoldable pub until : (ℕ → Bool) → List ℕ → List ℕ × List ℕ
until stop [] = ([], [])
until stop (c ∷ s) =
    let (token, rest) = until stop s in if stop c then ([], s) else (c ∷ token, rest)

-- The two forms of a token: behind a double quote up to the next one, else up to a separator.
unfoldable pub next_token : ℕ → List ℕ → List ℕ × List ℕ
unfolding until
next_token c s = if is_quote c then until is_quote s else until is_separator (c ∷ s)

-- One round of the outer loop behind the separators; `go_on` is the rounds that follow.
unfoldable pub split_step : (List ℕ → List (List ℕ)) → List ℕ → List (List ℕ)
unfolding next_token
split_step go_on [] = []
split_step go_on (c ∷ s) = let (token, rest) = next_token c s in token ∷ go_on rest

-- The outer loop, on the slots that are left but for the last one.
unfoldable pub split_tokens : ℕ → List ℕ → List (List ℕ)
unfolding skip_separators split_step
split_tokens zero s = []
split_tokens (suc n) s = split_step (split_tokens n) (skip_separators s)

-- wtd_split_cmdline with `argv_cap` slots; the length of the list is the argc that it returns.
unfoldable pub wtd_split_cmdline : List ℕ → ℕ → List (List ℕ)
unfolding split_tokens
wtd_split_cmdline cmd argv_cap = split_tokens (argv_cap - 1) cmd

abbrev pub backslash : ℕ
backslash = b'\\'

abbrev pub quote : ℕ
quote = b'"'

abbrev pub blank : ℕ
blank = b' '

-- The macro PUT on the bytes written so far, in a buffer of `cap` bytes; `none` is `return -1`.
unfoldable pub put : ℕ → ℕ → List ℕ → Option (List ℕ)
put cap c out = if leb cap (length out + 1) then none else some (out ++ (c ∷ []))

-- `for (j = 0; j < n; j++) PUT(c);`
unfoldable pub put_times : ℕ → ℕ → ℕ → List ℕ → Option (List ℕ)
unfolding put
put_times cap zero c out = some out
put_times cap (suc n) c out = put cap c out >>= put_times cap n c

-- `a[0] == 0 || strpbrk(a, " \t\"") != NULL`
unfoldable pub has_special : List ℕ → Bool
has_special [] = false
has_special (c ∷ s) = is_separator c || is_quote c || has_special s

unfoldable pub needs_quotes : List ℕ → Bool
unfolding has_special
needs_quotes [] = true
needs_quotes (c ∷ s) = has_special (c ∷ s)

-- The loop over one argument. `bs` counts the backslashes of the run that the inner loop has passed.
unfoldable pub write_arg : ℕ → Bool → List ℕ → ℕ → List ℕ → Option (List ℕ)
unfolding put put_times
write_arg cap quoted [] bs out = put_times cap (if quoted then bs * 2 else bs) backslash out
write_arg cap quoted (c ∷ s) bs out =
    let run = write_arg cap quoted s (suc bs) out in
    let escaped = (do
      out1 ← put_times cap (bs * 2) backslash out
      out2 ← put cap backslash out1
      out3 ← put cap quote out2
      write_arg cap quoted s 0 out3) in
    let literal = (do
      out1 ← put_times cap bs backslash out
      out2 ← put cap c out1
      write_arg cap quoted s 0 out2) in
    if c == backslash then run else if is_quote c then escaped else literal

-- One argument with its quotes.
unfoldable pub write_quoted : ℕ → List ℕ → List ℕ → Option (List ℕ)
unfolding needs_quotes write_arg
write_quoted cap a out =
    if needs_quotes a
    then (do out1 ← put cap quote out; out2 ← write_arg cap true a 0 out1; put cap quote out2)
    else write_arg cap false a 0 out

-- The loop over argv; `later` says that `i > 0`.
unfoldable pub write_args : ℕ → Bool → List (List ℕ) → List ℕ → Option (List ℕ)
unfolding write_quoted
write_args cap later [] out = some out
write_args cap later (a ∷ argv) out = do
  out1 ← if later then put cap blank out else some out
  out2 ← write_quoted cap a out1
  write_args cap true argv out2

-- wtd_build_cmdline: what it has written with the NUL, or none for -1.
unfoldable pub wtd_build_cmdline : List (List ℕ) → ℕ → Option (List ℕ)
unfolding write_args
wtd_build_cmdline argv cap = do
  out ← write_args cap false argv []
  if leb cap (length out) then none else some (out ++ (0 ∷ []))
