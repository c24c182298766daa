-- ===== src/Prototypes/Handshake/Reading.antt =====
-- What read_line of prototypes/handshake_echo_http3.c takes of the answers to select(2) and read(2).
use webtransportd.Common.{
  ℕ, suc, ◌+◌, ◌-◌, ◌≡◌, ◌≤◌, refl, ap, ◌∙◌, inl, inr, ◌&&◌, List, [], ◌∷◌, ◌++◌, Option, some, ltb,
  ◌==◌, length, arith, Bool-cases, append_assoc, append-nil, length-append,
}
use webtransportd.Common.Memory.{store, store-length}
use webtransportd.Prototypes.Handshake.{
  Polled, byte, closed, failed, quiet, interrupted, newline, read_loop, read_line,
}

-- The bytes that a list of answers hands out.
abbrev pub bytes_of : List Polled → List ℕ
bytes_of [] = []
bytes_of (byte c ∷ ps) = c ∷ bytes_of ps
bytes_of (closed ∷ ps) = bytes_of ps
bytes_of (failed ∷ ps) = bytes_of ps
bytes_of (quiet ∷ ps) = bytes_of ps
bytes_of (interrupted ∷ ps) = bytes_of ps

-- The answer of a loop that had `front` in the buffer and room for more behind it: it took `bs`
-- and left `ps'`.
abbrev Taken : Option (ℕ × List ℕ × List Polled) → ℕ → List Polled → ℕ → List ℕ → List ℕ → Type 0
Taken answer room ps got front back =
    (bs : List ℕ) × (back' : List ℕ) × (ps' : List Polled) × (answer
      ≡ some (got + length bs, (front ++ bs) ++ back', ps'))
    × (bytes_of ps ≡ bs ++ bytes_of ps')
    × (length bs + length back' ≡ length back)
    × (got + length bs + 1 ≤ room)

got_zero : (got : ℕ) → got ≡ got + 0
got_zero got = omega arith

stops :
    (got room : ℕ) (front back : List ℕ) (ps : List Polled)
    → got + 1 ≤ room
    → Taken (some (got, front ++ back, ps)) room ps got front back
stops got room front back ps h = (
  [],
  back,
  ps,
  rw (append-nil front) (ap (λ n. some (n, front ++ back, ps)) (got_zero got)),
  refl,
  omega arith,
  omega arith,
)

byte_stored :
    (front back : List ℕ) (b c got : ℕ)
    → got ≡ length front
    → store (front ++ (b ∷ back)) got c ≡ some ((front ++ (c ∷ [])) ++ back)
byte_stored front back b c got e =
    rw (e, append_assoc front (c ∷ []) back) (store-length front back b c)

abbrev answered : ℕ → List ℕ → List Polled → Option (ℕ × List ℕ × List Polled)
answered got out ps = some (got, out, ps)

shifted :
    (front bs back : List ℕ) (c got : ℕ) (ps : List Polled)
    → answered (got + 1 + length bs) (((front ++ (c ∷ [])) ++ bs) ++ back) ps
      ≡ answered (got + length (c ∷ bs)) ((front ++ (c ∷ bs)) ++ back) ps
shifted front bs back c got ps =
    let same : got + 1 + length bs ≡ got + length (c ∷ bs) = omega arith in
    rw (same, append_assoc front (c ∷ []) bs) refl

read_loop-Taken :
    (room : ℕ) (ps : List Polled) (timeout_ms got : ℕ) (front back : List ℕ)
    → got ≡ length front
    → got + 1 ≤ room
    → room ≤ got + length back
    → Taken (read_loop room ps timeout_ms got (front ++ back)) room ps got front back
unfolding read_loop
read_loop-Taken room [] timeout_ms got front back e h fits = stops got room front back [] h
read_loop-Taken room (byte c ∷ ps) timeout_ms got front [] e h fits = absurd (omega arith)
read_loop-Taken room (byte c ∷ ps) timeout_ms got front (b ∷ back) e h fits =
    elim (Bool-cases (ltb (got + 1) room && ltb 0 timeout_ms)) [
      | inr out ↦ rw out (stops got room front (b ∷ back) (byte c ∷ ps) h)
      | inl on ↦
          let front' = front ++ (c ∷ []) in
          let more : got + 1 + 1 ≤ room = ground (arith, on) in
          let size = length-append front (c ∷ []) in
          elim (Bool-cases (c == newline)) [
            | inl last ↦ (
              c ∷ [],
              back,
              ps,
              rw (on, byte_stored front back b c got e, last) refl,
              refl,
              omega arith,
              omega arith,
            )
            | inr inside ↦
                let (bs, back', ps', run, given, rest, few) =
                  read_loop-Taken room ps (timeout_ms - 10) (got + 1) front' back
                    (omega (arith, size)) more (omega arith) in
                (
                  c ∷ bs,
                  back',
                  ps',
                  rw (on, byte_stored front back b c got e, inside)
                      (run ∙ shifted front bs back' c got ps'),
                  ap (◌∷◌ c) given,
                  omega arith,
                  omega arith,
                )
          ]
    ]
read_loop-Taken room (closed ∷ ps) timeout_ms got front back e h fits =
    elim (Bool-cases (ltb (got + 1) room && ltb 0 timeout_ms)) [
      | inr out ↦ rw out (stops got room front back (closed ∷ ps) h)
      | inl on ↦ rw on (stops got room front back ps h)
    ]
read_loop-Taken room (failed ∷ ps) timeout_ms got front back e h fits =
    elim (Bool-cases (ltb (got + 1) room && ltb 0 timeout_ms)) [
      | inr out ↦ rw out (stops got room front back (failed ∷ ps) h)
      | inl on ↦ rw on (read_loop-Taken room ps (timeout_ms - 10) got front back e h fits)
    ]
read_loop-Taken room (quiet ∷ ps) timeout_ms got front back e h fits =
    elim (Bool-cases (ltb (got + 1) room && ltb 0 timeout_ms)) [
      | inr out ↦ rw out (stops got room front back (quiet ∷ ps) h)
      | inl on ↦ rw on (read_loop-Taken room ps (timeout_ms - 10) got front back e h fits)
    ]
read_loop-Taken room (interrupted ∷ ps) timeout_ms got front back e h fits =
    elim (Bool-cases (ltb (got + 1) room && ltb 0 timeout_ms)) [
      | inr out ↦ rw out (stops got room front back (interrupted ∷ ps) h)
      | inl on ↦ rw on (read_loop-Taken room ps timeout_ms got front back e h fits)
    ]

nul_stored :
    (bs back : List ℕ)
    → 1 ≤ length back
    → (rest : List ℕ) × (store (bs ++ back) (length bs) 0 ≡ some (bs ++ (0 ∷ rest)))
      × (suc (length rest) ≡ length back)
nul_stored bs [] h = absurd (omega arith)
nul_stored bs (b ∷ back) h = (back, store-length bs back b 0, refl)

-- read_line into a buffer of `room` bytes or more: it takes `bs`, which with its NUL fits, and leaves `ps'`.
pub read_line-Taken :
    (room : ℕ) (ps : List Polled) (timeout_ms : ℕ) (out : List ℕ)
    → 1 ≤ room
    → room ≤ length out
    → (bs : List ℕ) × (rest : List ℕ) × (ps' : List Polled) × (read_line room ps timeout_ms out
        ≡ some (length bs, bs ++ (0 ∷ rest), ps'))
      × (bytes_of ps ≡ bs ++ bytes_of ps')
      × (length (bs ++ (0 ∷ rest)) ≡ length out)
unfolding read_line
read_line-Taken room ps timeout_ms out some_room fits =
    let (bs, back, ps', run, given, size, few) =
      read_loop-Taken room ps timeout_ms 0 [] out refl (omega arith) (omega arith) in
    let (rest, stored, count) = nul_stored bs back (omega arith) in
    let same : 0 + length bs ≡ length bs = omega arith in
    (bs, rest, ps', rw (run, same, stored) refl, given, omega (arith, length-append bs (0 ∷ rest)))
