-- ===== src/ChildOutput/Loop.antt =====
-- The inner loop on a buffer that holds a front part of well-formed frames.
use webtransportd.Common.{
  ℕ, suc, zero, ◌+◌, ◌≡◌, ◌≤◌, ◌<◌, refl, ap, ◌∙◌, ◌⊎◌, inl, inr, List, [], ◌∷◌, ◌++◌, Option, some,
  length, length-append, arith, All, drop-append,
}
use webtransportd.Common.Memory.{load_all-ok}
use webtransportd.Frame.{fail, incomplete, max_payload, wtd_frame_decode, varint_size}
use webtransportd.Frame.Varint.{IsByte, varint_size_small}
use webtransportd.Frame.Encode.{wire, length-wire}
use webtransportd.Frame.RoundTrip.{decode-wire, decode-prefix, payload_slice}
pub use webtransportd.WorkQueue.Chain.{Message}
use webtransportd.ChildOutput.{read_buf_size, Sink, Drained, short, deliver, drain_frames}

-- What wtd_frame_encode accepts.
pub record IsSendable (m : Message) : Type 0 where
  pub known_flag : m.flag < 2
  pub bytes : All IsByte m.payload
  pub within : length m.payload ≤ max_payload

abbrev pub wires : List Message → List ℕ
wires [] = []
wires (m ∷ ms) = wire m.flag m.payload ++ wires ms

-- Two ways of cutting one list.
pub split_append {ℓ} :
    {A : Type ℓ} (xs ys us vs : List A)
    → xs ++ ys ≡ us ++ vs
    → ((r : List A) × (xs ≡ us ++ r) × (r ++ ys ≡ vs))
      ⊎ ((x : A) × (r : List A) × (us ≡ xs ++ (x ∷ r)))
split_append xs ys [] vs e = inl (xs, refl, e)
split_append [] ys (u ∷ us) vs e = inr (u, us, refl)
split_append (x ∷ xs) ys (u ∷ us) vs e = elim (split_append xs ys us vs (cc)) [
  | inl (r, p, q) ↦ inl (r, cc, q)
  | inr (y, r, p) ↦ inr (y, r, cc)
]

pub empty_incomplete : wtd_frame_decode [] 0 ≡ some (fail incomplete)
unfolding wtd_frame_decode
empty_incomplete = refl

-- A sendable frame needs a length of four bytes at most, so it fits the buffer.
pub wire-fits : (m : Message) → IsSendable m → length (wire m.flag m.payload) ≤ read_buf_size
wire-fits m good =
    omega (arith, length-wire m.flag m.payload, varint_size_small (length m.payload), good.within)

-- The bytes stop inside the first of the frames.
abbrev pub IsShort : List ℕ → List Message → Type 0
IsShort left [] = Unit {0}
IsShort left (m ∷ ms) = length left < length (wire m.flag m.payload)

module _ {S : Type 0} (sink : Sink S) where
  abbrev pub deliver_all : List Message → S → S
  deliver_all [] s = s
  deliver_all (m ∷ ms) s = deliver_all ms (deliver sink m.flag m.payload s)

  drain_frame :
      (fuel : ℕ) (m : Message) (rest : List ℕ) (s : S)
      → IsSendable m
      → drain_frames sink (suc fuel) (wire m.flag m.payload ++ rest) s
        ≡ drain_frames sink fuel rest (deliver sink m.flag m.payload s)
  unfolding drain_frames
  drain_frame fuel m rest s good =
      let size = length-wire m.flag m.payload in
      rw (
        decode-wire m.flag m.payload rest good.known_flag good.within,
        load_all-ok (wire m.flag m.payload ++ rest) (1 + varint_size (length m.payload))
            (length m.payload) (omega (arith, length-append (wire m.flag m.payload) rest)),
        payload_slice m.flag m.payload rest,
        drop-append (wire m.flag m.payload) rest,
        drain_frames,
      )

  drain_short :
      (fuel : ℕ) (buf : List ℕ) (s : S)
      → wtd_frame_decode buf (length buf) ≡ some (fail incomplete)
      → drain_frames sink (suc fuel) buf s ≡ some (short buf s)
  unfolding drain_frames
  drain_short fuel buf s e = rw (e, drain_frames)

  -- What the inner loop did: it delivered the frames `front`, and left the buffer `left`, which is
  -- the part that has come in of the frames `back`, with not one of them whole.
  abbrev pub Drains : List Message → List ℕ → S → Option (Drained S) → Type 0
  Drains ms stream s r =
      (front : List Message) × (back : List Message) × (left : List ℕ) × (r
        ≡ some (short left (deliver_all front s)))
      × (ms ≡ front ++ back)
      × (left ++ stream ≡ wires back)
      × (length left < read_buf_size)
      × IsShort left back
      × All IsSendable back

  pub drain_frames-Drains :
      (fuel : ℕ) (ms : List Message) (buf stream : List ℕ) (s : S)
      → All IsSendable ms
      → buf ++ stream ≡ wires ms
      → length buf < fuel
      → Drains ms stream s (drain_frames sink fuel buf s)
  drain_frames-Drains zero ms buf stream s good e f = absurd (omega arith)
  drain_frames-Drains (suc fuel) [] [] stream s good e f =
      ([], [], [], drain_short fuel [] s empty_incomplete, refl, e, omega arith, tt, tt)
  drain_frames-Drains (suc fuel) [] (b ∷ buf) stream s good e f = cc
  drain_frames-Drains (suc fuel) (m ∷ ms) buf stream s good e f =
      elim (split_append buf stream (wire m.flag m.payload) (wires ms) e) [
        | inl (rest, p, q) ↦
            let (front, back, left, r, split, tail, small, short', good') =
              drain_frames-Drains fuel ms rest stream (deliver sink m.flag m.payload s) good.1 q (
                omega (
                  arith,
                  ap length p,
                  length-append (wire m.flag m.payload) rest,
                  length-wire m.flag m.payload,
                )) in
            (
              m ∷ front,
              back,
              left,
              rw p (drain_frame fuel m rest s good.0 ∙ r),
              ap (◌∷◌ m) split,
              tail,
              small,
              short',
              good',
            )
        | inr (x, rest, p) ↦ (
          [],
          m ∷ ms,
          buf,
          drain_short fuel buf s (
              decode-prefix m.flag x m.payload buf rest good.0.known_flag good.0.bytes good.0.within
                p),
          refl,
          e,
          omega (arith, wire-fits m good.0, ap length p, length-append buf (x ∷ rest)),
          omega (arith, ap length p, length-append buf (x ∷ rest)),
          good,
        )
      ]
