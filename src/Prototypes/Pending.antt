-- ===== src/Prototypes/Pending.antt =====
-- Which of the client's messages reach the child of prototypes/http3_server_with_child.c.
use Prim.Native.Nat.{max}
use webtransportd.Common.{
  ℕ, zero, suc, ◌+◌, ◌-◌, ◌%◌, ◌^◌, ◌≡◌, ◌≤◌, ◌<◌, refl, sym, ap, ◌∙◌, min, inl, inr, false, List,
  [], ◌∷◌, ◌++◌, Option, none, some, ◌==◌, leb, arith, if◌then◌else◌, length, take, drop,
  Bool-cases, append_assoc, append-nil, length-append, length-take, length-drop, take-append,
  take_all, drop-drop, take-append-drop,
}
use webtransportd.Common.Int.{is_negative}
use webtransportd.Common.Memory.{load_all-ok, slice, store_all-fits}
use webtransportd.Frame.{ok, flag_reliable}
use webtransportd.Frame.Encode.{wire, length-wire}
use webtransportd.Prototypes.{
  ServerState, Relay, advance, write_pending, flush_pending, hold_frame, pass_frame,
}

-- sizeof(pending_buf), and the two marks in order inside it.
pub record IsSound (s : ServerState) : Type 0 where
  pub open_stdin : is_negative s.stdin_fd ≡ false
  pub size : length s.pending_buf ≡ 8192
  pub within : s.pending_len ≤ 8192
  pub order : s.pending_off < max 1 s.pending_len

-- What stdin has still to take.
abbrev pub waiting : ServerState → List ℕ
waiting s = slice s.pending_buf s.pending_off (s.pending_len - s.pending_off)

-- How many of `n` bytes are left after a write.
abbrev pub left_over : Option ℕ → ℕ → ℕ
left_over none n = n
left_over (some k) n = n - min k n

left_over-zero : (answer : Option ℕ) → left_over answer 0 ≡ 0
left_over-zero none = refl
left_over-zero (some k) = omega arith

drop-take : (n m k : ℕ) (xs : List ℕ) → m ≡ n + k → drop n (take m xs) ≡ take k (drop n xs)
drop-take zero m k xs e = ap (λ (t : ℕ). take t xs) (omega arith)
drop-take (suc n) zero k xs e = absurd (omega arith)
drop-take (suc n) (suc m) k [] e = sym (take_all k [] (omega arith))
drop-take (suc n) (suc m) k (x ∷ xs) e = drop-take n m k xs (omega arith)

length-waiting : (s : ServerState) → IsSound s → length (waiting s) ≡ s.pending_len - s.pending_off
length-waiting s o = omega (
  arith,
  length-take (s.pending_len - s.pending_off) (drop s.pending_off s.pending_buf),
  length-drop s.pending_off s.pending_buf,
  o.size,
  o.within,
  o.order,
)

drop_all : (n : ℕ) (xs : List ℕ) → length xs ≤ n → drop n xs ≡ []
drop_all zero [] h = refl
drop_all zero (x ∷ xs) h = absurd (omega arith)
drop_all (suc n) [] h = refl
drop_all (suc n) (x ∷ xs) h = drop_all n xs (omega arith)

advance-waiting :
    (n : ℕ) (s : ServerState)
    → IsSound s
    → n ≤ length (waiting s)
    → IsSound (advance n s) × (waiting (advance n s) ≡ drop n (waiting s))
unfolding advance
advance-waiting n s o h = elim (Bool-cases (leb s.pending_len (s.pending_off + n))) [
  | inl taken ↦ rw taken (
    record { open_stdin = o.open_stdin; size = o.size; within = omega arith; order = omega arith },
    sym (drop_all n (waiting s) (ground (arith, length-waiting s o))),
  )
  | inr partly ↦ rw partly (
    record { open_stdin = o.open_stdin; size = o.size; within = o.within; order = ground arith },
    sym (
        drop-take n (s.pending_len - s.pending_off) (s.pending_len - (s.pending_off + n))
          (drop s.pending_off s.pending_buf) (ground arith)
        ∙ ap (take (s.pending_len - (s.pending_off + n)))
            (drop-drop n s.pending_off s.pending_buf)),
  )
]

write_pending-waiting :
    (answer : Option ℕ) (s : ServerState) (pipe : List ℕ)
    → IsSound s
    → let (s', pipe') = write_pending answer (waiting s) s pipe in
      IsSound s'
      × (pipe' ++ waiting s' ≡ pipe ++ waiting s)
      × (length (waiting s') ≡ left_over answer (length (waiting s)))
unfolding write_pending
write_pending-waiting none s pipe o = (o, refl, refl)
write_pending-waiting (some k) s pipe o =
    let n = min k (length (waiting s)) in
    let (o', left) = advance-waiting n s o (omega arith) in
    elim (Bool-cases (n == 0)) [
      | inl nothing ↦ rw nothing (o, refl, ground (arith, nothing))
      | inr something ↦ rw something (
        o',
        append_assoc pipe (take n (waiting s)) (waiting (advance n s))
            ∙ ap (λ (t : List ℕ). pipe ++ t)
                (ap (λ (t : List ℕ). take n (waiting s) ++ t) left
                  ∙ take-append-drop n (waiting s)),
        omega (arith, ap length left, length-drop n (waiting s)),
      )
    ]

flush_pending-waiting :
    (answer : Option ℕ) (s : ServerState) (pipe : List ℕ)
    → IsSound s
    → (r : ServerState × List ℕ) × (flush_pending answer s pipe ≡ some r)
      × IsSound r.0
      × (r.1 ++ waiting r.0 ≡ pipe ++ waiting s)
      × (length (waiting r.0) ≡ left_over answer (length (waiting s)))
unfolding flush_pending
flush_pending-waiting answer s pipe o = elim (Bool-cases (s.pending_len == 0)) [
  | inl empty ↦
      let nothing : length (waiting s) ≡ 0 = ground (arith, empty, length-waiting s o) in
      ((s, pipe), rw empty refl, o, refl, rw nothing (sym (left_over-zero answer)))
  | inr full ↦
      let (o', e, l) = write_pending-waiting answer s pipe o in
      let span : (s.pending_len + 2 ^ 64 - s.pending_off) % 2 ^ 64 ≡ s.pending_len - s.pending_off =
        omega (arith, o.within, o.order) in
      (
        write_pending answer (waiting s) s pipe,
        rw
            (
              full,
              o.open_stdin,
              span,
              load_all-ok s.pending_buf s.pending_off (s.pending_len - s.pending_off)
                  (omega (arith, o.size, o.within, o.order)),
            )
            refl,
        o',
        e,
        l,
      )
]

-- A frame that fits goes behind what waits, if nothing waits, and else nowhere.
hold_frame-waiting :
    (frame rest : List ℕ) (s : ServerState)
    → IsSound s
    → 0 < length frame
    → length frame ≤ 8192
    → (s' : ServerState) × (hold_frame (frame ++ rest) (length frame) s ≡ some s')
      × IsSound s'
      × (waiting s' ≡ waiting s ++ (if length (waiting s) == 0 then frame else []))
unfolding hold_frame
hold_frame-waiting frame rest s o some_bytes h = elim (Bool-cases (s.pending_len == 0)) [
  | inr full ↦
      let more : (length (waiting s) == 0) ≡ false =
        ground (arith, full, length-waiting s o, o.order) in
      (s, rw full refl, o, rw more (sym (append-nil (waiting s))))
  | inl empty ↦
      let buf = frame ++ drop (length frame) s.pending_buf in
      let nothing : s.pending_len - s.pending_off ≡ 0 = ground (arith, empty) in
      let empty' : length (waiting s) ≡ 0 = omega (arith, length-waiting s o, nothing) in
      let whole : length frame - 0 ≡ length frame = omega arith in
      (
        record s { pending_buf = buf; pending_len = length frame; pending_off = 0 },
        rw
            (
              empty,
              load_all-ok (frame ++ rest) 0 (length frame)
                  (omega (arith, length-append frame rest)),
              take-append frame rest,
              store_all-fits [] s.pending_buf frame (omega (arith, o.size)),
            )
            refl,
        record {
          open_stdin = o.open_stdin;
          size = omega (
            arith,
            o.size,
            length-append frame (drop (length frame) s.pending_buf),
            length-drop (length frame) s.pending_buf,
          );
          within = h;
          order = omega arith;
        },
        rw (nothing, whole) (take-append frame (drop (length frame) s.pending_buf)),
      )
]

-- What one callback does with a message that it takes up.
pub record Passes (answer : Option ℕ) (bytes : List ℕ) (w w' : Relay) : Type 0 where
  pub sound : IsSound w'.state
  pub echo : w'.echoed ≡ w.echoed ++ bytes
  pub content :
      w'.pipe ++ waiting w'.state
      ≡ (w.pipe ++ waiting w.state)
        ++ (if length (waiting w.state) == 0 then wire flag_reliable bytes else [])
  pub left :
      length (waiting w'.state)
      ≡ left_over answer (
          if length (waiting w.state) == 0
          then length (wire flag_reliable bytes)
          else length (waiting w.state))

length-added :
    (xs frame : List ℕ)
    → length (xs ++ (if length xs == 0 then frame else []))
      ≡ (if length xs == 0 then length frame else length xs)
length-added [] frame = refl
length-added (x ∷ xs) frame =
    let more : (suc (length xs) == 0) ≡ false = ground arith in
    rw more (ap (λ (t : List ℕ). suc (length t)) (append-nil xs))

pub pass_frame-Passes :
    (answer : Option ℕ) (bytes rest : List ℕ) (w : Relay)
    → IsSound w.state
    → length (wire flag_reliable bytes) ≤ 8192
    → let frame = wire flag_reliable bytes in
      (w' : Relay) × (pass_frame answer bytes w (ok (length frame), frame ++ rest) ≡ some w')
      × Passes answer bytes w w'
unfolding pass_frame
pass_frame-Passes answer bytes rest w o h =
    let frame = wire flag_reliable bytes in
    let added = if length (waiting w.state) == 0 then frame else [] in
    let (s, held, sound, change) =
      hold_frame-waiting frame rest w.state o (omega (arith, length-wire flag_reliable bytes)) h in
    let (r, flushed, sound', same, left) = flush_pending-waiting answer s w.pipe sound in
    (
      record { state = r.0; pipe = r.1; echoed = w.echoed ++ bytes },
      rw (held, flushed) refl,
      record {
        sound = sound';
        echo = refl;
        content =
            same
            ∙ ap (λ (t : List ℕ). w.pipe ++ t) change
            ∙ sym (append_assoc w.pipe (waiting w.state) added);
        left =
            left
            ∙ ap (λ (t : List ℕ). left_over answer (length t)) change
            ∙ ap (left_over answer) (length-added (waiting w.state) frame);
      },
    )
