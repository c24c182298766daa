-- ===== src/Prototypes/Dropping.antt =====
-- Whole histories of the callback of prototypes/http3_server_with_child.c.
use webtransportd.Common.{
  ℕ, ◌≡◌, ◌≤◌, refl, sym, ap, ◌∙◌, inl, inr, Bool, true, false, ◌&&◌, List, [], ◌∷◌, ◌++◌, Option,
  some, ◌==◌, leb, ltb, arith, if◌then◌else◌, length, drop, Bool-cases, append_assoc, append-nil,
}
use webtransportd.Common.Int.{is_negative}
use webtransportd.Common.Memory.{◌>>=◌}
use webtransportd.Frame.{flag_reliable}
use webtransportd.Frame.Varint.{varint_size_small}
use webtransportd.Frame.Encode.{wire, length-wire, encode-ok}
use webtransportd.Prototypes.{Relay, frame_buf_size, stream_callback}
use webtransportd.Prototypes.Pending.{IsSound, waiting, left_over, Passes, pass_frame-Passes}

-- A message that the callback takes up.
abbrev pub is_taken : Bool → List ℕ → Bool
is_taken is_data bytes = is_data && (ltb 0 (length bytes) && leb (length bytes) 4096)

taken-Passes :
    (stack : List ℕ) (answer : Option ℕ) (is_data : Bool) (bytes : List ℕ) (w : Relay)
    → length stack ≡ frame_buf_size
    → IsSound w.state
    → is_taken is_data bytes ≡ true
    → (w' : Relay) × (stream_callback stack answer is_data bytes w ≡ some w')
      × Passes answer bytes w w'
unfolding stream_callback
taken-Passes stack answer false bytes w room o up = cc
taken-Passes stack answer true bytes w room o up =
    let size = length-wire flag_reliable bytes in
    let few : length bytes ≤ 4096 = ground (arith, up) in
    let short = varint_size_small (length bytes) in
    let (w', passed, p) =
      pass_frame-Passes answer bytes (drop (length (wire flag_reliable bytes)) stack) w o
        (omega (arith, size, short, few)) in
    let filled : (length bytes == 0) ≡ false = ground (arith, up) in
    let fits : ltb 4096 (length bytes) ≡ false = ground (arith, up) in
    (
      w',
      rw
          (
            filled,
            o.open_stdin,
            fits,
            encode-ok flag_reliable bytes stack frame_buf_size (omega arith) (omega (arith, few))
                (omega (arith, size, short, few)) (omega (arith, room)),
          )
          passed,
      p,
    )

other_callbacks :
    (stack : List ℕ) (answer : Option ℕ) (is_data : Bool) (bytes : List ℕ) (w : Relay)
    → is_taken is_data bytes ≡ false
    → stream_callback stack answer is_data bytes w ≡ some w
unfolding stream_callback
other_callbacks stack answer false bytes w e = refl
other_callbacks stack answer true bytes w e = elim (Bool-cases (length bytes == 0)) [
  | inl empty ↦ rw empty refl
  | inr filled ↦
      let big : ltb 4096 (length bytes) ≡ true = ground (arith, filled, e) in
      elim (Bool-cases (is_negative w.state.stdin_fd)) [
        | inl closed ↦ rw (filled, closed) refl
        | inr open_stdin ↦ rw (filled, open_stdin, big) refl
      ]
]

-- One event, with the kernel's answer if the callback comes to write(2).
pub record Event : Type 0 where
  pub is_data : Bool
  pub bytes : List ℕ
  pub answer : Option ℕ

-- The events one after another.
unfoldable pub run_events : List ℕ → List Event → Relay → Option Relay
run_events stack [] w = some w
run_events stack (e ∷ events) w =
    stream_callback stack e.answer e.is_data e.bytes w >>= run_events stack events

-- The messages that are taken up, in order, and their bytes.
abbrev pub taken_up : List Event → List (List ℕ)
taken_up [] = []
taken_up (e ∷ events) =
    if is_taken e.is_data e.bytes then e.bytes ∷ taken_up events else taken_up events

abbrev pub joined : List (List ℕ) → List ℕ
joined [] = []
joined (bytes ∷ messages) = bytes ++ joined messages

abbrev pub framed : List (List ℕ) → List ℕ
framed [] = []
framed (bytes ∷ messages) = wire flag_reliable bytes ++ framed messages

-- The messages that the child gets, if stdin has `n` bytes still to take: the one that comes in while
-- nothing waits is kept, the others are dropped.
abbrev pub kept : ℕ → List Event → List (List ℕ)
kept n [] = []
kept n (e ∷ events) =
    let first = e.bytes ∷ kept (left_over e.answer (length (wire flag_reliable e.bytes))) events in
    let later = kept (left_over e.answer n) events in
    let other = kept n events in
    if is_taken e.is_data e.bytes then (if n == 0 then first else later) else other

kept_step :
    (free : Bool) (front bytes : List ℕ) (n : ℕ) (answer : Option ℕ) (events : List Event)
    → let frame = wire flag_reliable bytes in
      (front ++ (if free then frame else []))
        ++ framed (kept (left_over answer (if free then length frame else n)) events)
      ≡ front
        ++ framed (
            if free
            then bytes ∷ kept (left_over answer (length frame)) events
            else kept (left_over answer n) events)
kept_step true front bytes n answer events =
    let frame = wire flag_reliable bytes in
    append_assoc front frame (framed (kept (left_over answer (length frame)) events))
kept_step false front bytes n answer events =
    ap (◌++ framed (kept (left_over answer n) events)) (append-nil front)

-- For every history of events, with stdin open and the buffers of the declared sizes: the callback
-- never leaves them, and what stdin has taken and what waits are together the whole frames, in order,
-- of the messages of 1 to 4096 bytes that came in while nothing waited; the others are dropped. The
-- client gets all messages of these lengths back.
pub run_events-kept :
    (stack : List ℕ) (events : List Event) (w : Relay)
    → length stack ≡ frame_buf_size
    → IsSound w.state
    → (w' : Relay) × (run_events stack events w ≡ some w')
      × (w'.pipe ++ waiting w'.state
          ≡ (w.pipe ++ waiting w.state) ++ framed (kept (length (waiting w.state)) events))
      × (w'.echoed ≡ w.echoed ++ joined (taken_up events))
      × IsSound w'.state
unfolding run_events
run_events-kept stack [] w room o =
    (w, refl, sym (append-nil (w.pipe ++ waiting w.state)), sym (append-nil w.echoed), o)
run_events-kept stack (e ∷ events) w room o = elim (Bool-cases (is_taken e.is_data e.bytes)) [
  | inr other ↦
      let (w', ran, content, echoed, o') = run_events-kept stack events w room o in
      (
        w',
        rw (other_callbacks stack e.answer e.is_data e.bytes w other) ran,
        rw other content,
        rw other echoed,
        o',
      )
  | inl up ↦
      let (w1, step, p) = taken-Passes stack e.answer e.is_data e.bytes w room o up in
      let (w', ran, content, echoed, o') = run_events-kept stack events w1 room p.sound in
      (
        w',
        rw step ran,
        content
            ∙ rw (up, p.content, p.left)
                (kept_step (length (waiting w.state) == 0) (w.pipe ++ waiting w.state) e.bytes
                  (length (waiting w.state)) e.answer events),
        echoed ∙ rw (up, p.echo) (append_assoc w.echoed e.bytes (joined (taken_up events))),
        o',
      )
]
