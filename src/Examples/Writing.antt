-- ===== src/Examples/Writing.antt =====
-- write_all: short and interrupted writes.
use webtransportd.Common.{
  ℕ, suc, ◌+◌, ◌≡◌, ◌≤◌, ap, sym, ◌∙◌, min, List, [], ◌∷◌, ◌++◌, length, take, drop, arith,
  length-drop, take-append-drop, append_assoc, append-nil,
}
use webtransportd.Examples.{Wrote, at_most, again, broken, all_written, write_all}

-- The writes that take bytes.
abbrev pub progress : List Wrote → ℕ
progress [] = 0
progress (at_most k ∷ answers) = suc (progress answers)
progress (again ∷ answers) = progress answers
progress (broken ∷ answers) = progress answers

abbrev pub IsSteady : List Wrote → Type 0
IsSteady [] = Unit {0}
IsSteady (at_most k ∷ answers) = IsSteady answers
IsSteady (again ∷ answers) = IsSteady answers
IsSteady (broken ∷ answers) = ⊥

-- write_all ends, with every byte written once and in order, if no write fails and as many writes
-- take something as there are bytes, however few each takes and however often it is interrupted; it
-- uses up no more of them.
pub write_all_lem :
    (answers : List Wrote) (bytes out : List ℕ)
    → IsSteady answers
    → length bytes ≤ progress answers
    → (rest : List Wrote) × (write_all answers bytes out ≡ all_written rest (out ++ bytes))
      × IsSteady rest
      × (progress answers ≤ length bytes + progress rest)
unfolding write_all
write_all_lem answers [] out steady enough =
    (answers, ap (all_written answers) (sym (append-nil out)), steady, omega arith)
write_all_lem [] (b ∷ bytes) out steady enough = absurd (omega arith)
write_all_lem (broken ∷ answers) (b ∷ bytes) out steady enough = absurd steady
write_all_lem (again ∷ answers) (b ∷ bytes) out steady enough =
    write_all_lem answers (b ∷ bytes) out steady enough
write_all_lem (at_most k ∷ answers) (b ∷ bytes) out steady enough =
    let n = min (suc k) (length (b ∷ bytes)) in
    let less = length-drop n (b ∷ bytes) in
    let (rest, e, steady', left) =
      write_all_lem answers (drop n (b ∷ bytes)) (out ++ take n (b ∷ bytes)) steady (omega arith) in
    (
      rest,
      e
          ∙ ap (all_written rest) (
              append_assoc out (take n (b ∷ bytes)) (drop n (b ∷ bytes))
              ∙ ap (λ (t : List ℕ). out ++ t) (take-append-drop n (b ∷ bytes))),
      steady',
      omega arith,
    )
