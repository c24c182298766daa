-- ===== src/Examples/Shout.antt =====
-- What examples/shout.c makes of its messages, letter by letter.
use webtransportd.Common.{
  ℕ, suc, ◌+◌, ◌≡◌, ◌≤◌, ◌<◌, refl, ap, ◌⊎◌, inl, inr, true, List, [], ◌∷◌, ◌++◌, some, leb, length,
  arith, All, Bool-cases,
}
use webtransportd.ChildOutput.{Answer}
use webtransportd.ChildOutput.Loop.{Message, IsSendable, wires}
use webtransportd.ChildOutput.Delivery.{reads, NeverFails}
use webtransportd.Examples.{Output, exits, upper, upper_all, shout_main}
use webtransportd.Examples.Drain.{replies, IsReady}
use webtransportd.Examples.Echo.{child_replies}

-- The byte d is the capital of the small letter c, 32 places before it; every other byte stays.
abbrev pub IsCapital : ℕ → ℕ → Type 0
IsCapital c d = ((97 ≤ c) × (c ≤ 122) × (d + 32 ≡ c)) ⊎ (((c < 97) ⊎ (122 < c)) × (d ≡ c))

abbrev pub IsShouted : List ℕ → List ℕ → Type 0
IsShouted [] [] = Unit {0}
IsShouted [] (d ∷ t) = ⊥
IsShouted (c ∷ s) [] = ⊥
IsShouted (c ∷ s) (d ∷ t) = IsCapital c d × IsShouted s t

-- Message for message the same flag, and the payload in capitals.
abbrev pub AreShouted : List Message → List Message → Type 0
AreShouted [] [] = Unit {0}
AreShouted [] (n ∷ ns) = ⊥
AreShouted (m ∷ ms) [] = ⊥
AreShouted (m ∷ ms) (n ∷ ns) = (n.flag ≡ m.flag) × IsShouted m.payload n.payload × AreShouted ms ns

upper-IsCapital : (c : ℕ) → IsCapital c (upper c)
unfolding upper
upper-IsCapital c = elim (Bool-cases (leb 97 c)) [
  | inr low ↦ inr (inl (ground (arith, low)), rw low refl)
  | inl from ↦ elim (Bool-cases (leb c 122)) [
    | inr high ↦ inr (inr (ground (arith, high)), rw (from, high) refl)
    | inl to ↦
        let above : 97 ≤ c = ground (arith, from) in
        inl (above, ground (arith, to), rw (from, to) (omega arith))
  ]
]

upper_all-IsShouted : (s : List ℕ) → IsShouted s (upper_all s)
unfolding upper_all
upper_all-IsShouted [] = tt
upper_all-IsShouted (c ∷ s) = (upper-IsCapital c, upper_all-IsShouted s)

replies-AreShouted : (ms : List Message) → AreShouted ms (replies upper_all ms)
replies-AreShouted [] = tt
replies-AreShouted (m ∷ ms) = (refl, upper_all-IsShouted m.payload, replies-AreShouted ms)

length-upper_all : (bytes : List ℕ) → length (upper_all bytes) ≡ length bytes
unfolding upper_all
length-upper_all [] = refl
length-upper_all (b ∷ bytes) = ap suc (length-upper_all bytes)

-- If stdin is a sequence of frames that the encoder accepts, read(2) and write(2) do not fail, and
-- there are enough of both, then shout.c ends with code 0 and stdout has taken, in whatever pieces the
-- two calls move the bytes, the encodings of as many messages in the same order: each with the flag of
-- its frame and with the payload in which each byte from 97 to 122 is lowered by 32 and every other
-- byte is kept.
pub shout_main-wires :
    (answers : List Answer) (ms : List Message) (o : Output)
    → All IsSendable ms
    → NeverFails answers
    → length (wires ms) < reads answers
    → IsReady (length (wires ms)) o
    → (o' : Output) × (ns : List Message) × (shout_main true answers (wires ms) o
        ≡ some (exits 0 o'))
      × (o'.written ≡ o.written ++ wires ns)
      × AreShouted ms ns
unfolding shout_main
shout_main-wires answers ms o good nf more ready =
    let (o', r, written) =
      child_replies upper_all length-upper_all answers ms o good nf more ready in
    (o', replies upper_all ms, r, written, replies-AreShouted ms)
