-- ===== src/Session/Deliver.antt =====
-- peer -> child: what the child port is given.
use webtransportd.Common.{
  ℕ, ◌+◌, ◌%◌, ◌^◌, ◌≤◌, ◌<◌, ◌≡◌, Bool, true, false, ◌&&◌, not, List, ◌++◌, Option, none, some,
  if◌then◌else◌, length, arith, ltb, lt→ltb, le→ltb, Option-cases, inl, inr, length-append,
  take-append,
}
use webtransportd.Common.Memory.{◌>>=◌, load_all-ok}
use webtransportd.Frame.{ok, wtd_frame_encode, max_payload}
use webtransportd.Frame.Varint.{varint_size_bounds}
use webtransportd.Frame.Encode.{wire, length-wire, encode-ok, encode_total}
use webtransportd.Session.{ChildPort, Session, deliver_to_child, write_encoded}

-- malloc(n) is NULL or a buffer of n bytes.
abbrev pub IsMalloc : (ℕ → Option (List ℕ)) → Type 0
IsMalloc malloc = (n : ℕ) (buf : List ℕ) → malloc n ≡ some buf → length buf ≡ n

abbrev pub is_some {ℓ} : {A : Type ℓ} → Option A → Bool
is_some none = false
is_some (some a) = true

module _ {W : Type 0} (child : ChildPort W) where
  write_encoded-wire :
      (flag : ℕ) (bytes rest : List ℕ) (w : W)
      → write_encoded child (ok (length (wire flag bytes)), wire flag bytes ++ rest) w
        ≡ some (child.write (wire flag bytes) w).1
  unfolding write_encoded
  write_encoded-wire flag bytes rest w =
      rw
        (load_all-ok (wire flag bytes ++ rest) 0 (length (wire flag bytes))
          (omega (arith, length-append (wire flag bytes) rest)))
        (rw (take-append (wire flag bytes) rest))

  -- A buffer of len + 9 bytes takes every frame within the cap.
  deliver_within :
      (flag : ℕ) (bytes frame : List ℕ) (cap : ℕ) (w : W)
      → flag < 2
      → length bytes ≤ max_payload
      → cap ≡ length bytes + 9
      → length frame ≡ cap
      → (wtd_frame_encode flag bytes (length bytes) frame cap >>= λ r. write_encoded child r w)
        ≡ some (child.write (wire flag bytes) w).1
  deliver_within flag bytes frame cap w hf hb hc hl =
      let header = varint_size_bounds (length bytes) in
      rw
        (encode-ok flag bytes frame cap hf hb (omega (arith, length-wire flag bytes)) (omega arith))
        (write_encoded-wire flag bytes _ w)

  deliver_beyond :
      (flag : ℕ) (bytes frame : List ℕ) (cap : ℕ) (w : W)
      → flag < 2
      → max_payload < length bytes
      → cap ≤ length frame
      → (wtd_frame_encode flag bytes (length bytes) frame cap >>= λ r. write_encoded child r w)
        ≡ some w
  unfolding write_encoded
  deliver_beyond flag bytes frame cap w hf hb hl = rw (
    encode_total flag bytes frame cap (omega arith) hl,
    le→ltb 1 flag (omega arith),
    lt→ltb max_payload (length bytes) hb,
  )

  -- One peer message becomes one write of one whole frame to the child, or nothing at all: nothing
  -- if the child's input is closed, the message is empty, malloc fails or the message is longer than
  -- WTD_FRAME_MAX_PAYLOAD. No byte outside the buffer is touched, also where `len + 9` wraps.
  pub deliver_to_child_lem :
      (malloc : ℕ → Option (List ℕ)) (flag : ℕ) (bytes : List ℕ) (s : Session) (w : W)
      → IsMalloc malloc
      → flag < 2
      → deliver_to_child child malloc flag bytes s w
        ≡ some (
            if not s.child_input_closed
              && ltb 0 (length bytes)
              && is_some (malloc ((length bytes + 9) % 2 ^ 64))
              && not (ltb max_payload (length bytes))
            then (child.write (wire flag bytes) w).1
            else w)
  unfolding deliver_to_child
  deliver_to_child_lem malloc flag bytes s w hm hf =
      elim (Option-cases (malloc ((length bytes + 9) % 2 ^ 64))) [
        | inl failed ↦ rw failed (ground arith)
        | inr (frame, e) ↦ rw e (
            ground (
              arith,
              hm ((length bytes + 9) % 2 ^ 64) frame e,
              deliver_within flag bytes frame ((length bytes + 9) % 2 ^ 64) w hf,
              deliver_beyond flag bytes frame ((length bytes + 9) % 2 ^ 64) w hf,
            ))
      ]
