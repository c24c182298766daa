-- ===== src/Prototypes/Handshake/Ready.antt =====
-- What wait_for_ready of prototypes/handshake_echo_http3.c finds in the output of the daemon.
use webtransportd.Common.{
  ℕ, zero, suc, ◌*◌, ◌-◌, ◌≡◌, ◌≤◌, refl, sym, ap, ◌∙◌, inl, inr, Bool, true, false, ◌&&◌, List, [],
  ◌∷◌, ◌++◌, some, ltb, ◌==◌, length, arith, Bool-cases, append_assoc,
}
use webtransportd.Prototypes.Handshake.{
  Polled, c_text, starts_with, contains, announcement, line_cap, wait_for_ready,
}
use webtransportd.Prototypes.Handshake.Reading.{bytes_of, read_line-Taken}

pub prefix : (needle xs : List ℕ) → starts_with needle xs ≡ true → (y : List ℕ) × (xs ≡ needle ++ y)
prefix [] xs e = (xs, refl)
prefix (n ∷ needle) [] e = cc
prefix (n ∷ needle) (x ∷ xs) e = elim (Bool-cases (n == x)) [
  | inr differs ↦ absurd (ground (arith, differs, e))
  | inl equal ↦
      let (y, rest) = prefix needle xs (ground (arith, equal, e)) in
      let same : x ≡ n = ground (arith, equal) in (y, rw (rest, same) refl)
]

-- What strstr finds is there.
contained :
    (needle xs : List ℕ)
    → contains needle xs ≡ true
    → (x : List ℕ) × (y : List ℕ) × (xs ≡ x ++ (needle ++ y))
contained needle [] e = let (y, at) = prefix needle [] e in ([], y, at)
contained needle (c ∷ xs) e = elim (Bool-cases (starts_with needle (c ∷ xs))) [
  | inl here ↦ let (y, at) = prefix needle (c ∷ xs) here in ([], y, at)
  | inr later ↦ let (x, y, at) = contained needle xs (rw later at e) in (c ∷ x, y, ap (◌∷◌ c) at)
]

-- The text of a buffer with a NUL in it is a front part of what is before the NUL.
c_text-front :
    (bs rest : List ℕ)
    → (text : List ℕ) × (more : List ℕ) × (c_text (bs ++ (0 ∷ rest)) ≡ some text)
      × (bs ≡ text ++ more)
unfolding c_text
c_text-front [] rest = ([], [], refl, refl)
c_text-front (c ∷ bs) rest = elim (Bool-cases (c == 0)) [
  | inl nul ↦ ([], c ∷ bs, rw nul refl, refl)
  | inr inside ↦
      let (text, more, e, at) = c_text-front bs rest in
      (c ∷ text, more, rw (inside, e) refl, ap (◌∷◌ c) at)
]

both : (a b : Bool) → (a && b) ≡ true → b ≡ true
both true b e = e
both false b e = cc

widened : (x n y text more : List ℕ) → text ≡ x ++ (n ++ y) → text ++ more ≡ x ++ (n ++ (y ++ more))
widened x n y text more at =
    rw at (append_assoc x (n ++ y) more ∙ ap (λ (t : List ℕ). x ++ t) (append_assoc n y more))

deeper : (bs x y z : List ℕ) → x ≡ y ++ z → bs ++ x ≡ (bs ++ y) ++ z
deeper bs x y z at = rw at (sym (append_assoc bs y z))

-- A wait that ended with `found` left `ps'` of the answers `ps`.
abbrev pub Waited : Bool → List Polled → List Polled → Type 0
Waited found ps ps' =
    (x : List ℕ) × (bytes_of ps ≡ x ++ bytes_of ps')
    × (found ≡ true → (y : List ℕ) × (z : List ℕ) × (x ≡ y ++ (announcement ++ z)))

wait_for_ready-Waited :
    (fuel : ℕ) (ps : List Polled) (timeout_ms : ℕ) (line : List ℕ)
    → length line ≡ line_cap
    → timeout_ms ≤ fuel * 500
    → (found : Bool) × (ps' : List Polled) × (wait_for_ready fuel ps timeout_ms line
        ≡ some (found, ps'))
      × Waited found ps ps'
unfolding wait_for_ready
wait_for_ready-Waited zero ps timeout_ms line size enough =
    let out : (timeout_ms == 0) ≡ true = ground arith in
    (false, ps, rw out refl, ([], refl, λ e. cc))
wait_for_ready-Waited (suc fuel) ps timeout_ms line size enough =
    elim (Bool-cases (timeout_ms == 0)) [
      | inl out ↦ (false, ps, rw out refl, ([], refl, λ e. cc))
      | inr on ↦
          let (bs, rest, ps1, run, given, size1) =
            read_line-Taken line_cap ps 500 line (omega arith) (omega arith) in
          let (text, more, cut, front) = c_text-front bs rest in
          elim (Bool-cases (ltb 0 (length bs) && contains announcement text)) [
            | inl there ↦
                let (x, y, at) = contained announcement text (both (ltb 0 (length bs)) _ there) in
                (
                  true,
                  ps1,
                  rw (on, run, cut, there) refl,
                  (bs, given, λ e. (x, y ++ more, front ∙ widened x announcement y text more at)),
                )
            | inr not_yet ↦
                let (found, ps2, later, (x, given', told)) =
                  wait_for_ready-Waited fuel ps1 (timeout_ms - 500) (bs ++ (0 ∷ rest))
                    (size1 ∙ size) (omega arith) in
                (
                  found,
                  ps2,
                  rw (on, run, cut, not_yet) later,
                  (
                    bs ++ x,
                    given
                        ∙ ap (λ (t : List ℕ). bs ++ t) given'
                        ∙ sym (append_assoc bs x (bytes_of ps2)),
                    λ e.
                        let (y, z, at) = told e in
                        (bs ++ y, z, deeper bs x y (announcement ++ z) at),
                  ),
                )
          ]
    ]

twice :
    (n text x1 y1 z1 rest x2 y2 z2 r : List ℕ)
    → text ≡ x1 ++ rest
    → x1 ≡ y1 ++ (n ++ z1)
    → rest ≡ x2 ++ r
    → x2 ≡ y2 ++ (n ++ z2)
    → text ≡ y1 ++ (n ++ ((z1 ++ y2) ++ (n ++ (z2 ++ r))))
twice n text x1 y1 z1 rest x2 y2 z2 r e1 at1 e2 at2 =
    let later = e2 ∙ widened y2 n z2 x2 r at2 in
    e1
    ∙ widened y1 n z1 x1 rest at1
    ∙ ap (λ (t : List ℕ). y1 ++ (n ++ t))
        (ap (λ (t : List ℕ). z1 ++ t) later ∙ sym (append_assoc z1 y2 (n ++ (z2 ++ r))))

-- The announcement stands in the text in two places that do not overlap.
abbrev pub IsTwice : List ℕ → Type 0
IsTwice text =
    (x : List ℕ) × (y : List ℕ) × (z : List ℕ) × (text
      ≡ x ++ (announcement ++ (y ++ (announcement ++ z))))

-- Two waits in a row end; if both find the announcement, the daemon has written it twice.
pub waits-IsTwice :
    (ps : List Polled) (line : List ℕ)
    → length line ≡ line_cap
    → (first : Bool) × (second : Bool) × (ps1 : List Polled) × (ps2 : List Polled) × (wait_for_ready
          10 ps 5000 line
        ≡ some (first, ps1))
      × (wait_for_ready 10 ps1 5000 line ≡ some (second, ps2))
      × (first ≡ true → second ≡ true → IsTwice (bytes_of ps))
waits-IsTwice ps line size =
    let (first, ps1, run1, (x1, e1, told1)) =
      wait_for_ready-Waited 10 ps 5000 line size (omega arith) in
    let (second, ps2, run2, (x2, e2, told2)) =
      wait_for_ready-Waited 10 ps1 5000 line size (omega arith) in
    (
      first,
      second,
      ps1,
      ps2,
      run1,
      run2,
      λ found again.
          let (y1, z1, at1) = told1 found in
          let (y2, z2, at2) = told2 again in
          (
            y1,
            z1 ++ y2,
            z2 ++ bytes_of ps2,
            twice announcement (bytes_of ps) x1 y1 z1 (bytes_of ps1) x2 y2 z2 (bytes_of ps2) e1 at1
                e2 at2,
          ),
    )
