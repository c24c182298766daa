-- ===== src/Tests/FrameRuns.antt =====
-- Runs of the codec of core/frame.c.
use webtransportd.Common.{ℕ, ◌≡◌, refl, List, [], ◌∷◌, ◌++◌, some, length, take, drop, arith}
use webtransportd.Common.Memory.{slice}
use webtransportd.Frame.{
  Decoded, ok, fail, incomplete, err_reserved, err_too_big, err_buf_too_small, wtd_frame_encode,
  wtd_frame_decode, varint_stores,
}
use webtransportd.Frame.Varint.{varint_stores-shortest, shortest}
use webtransportd.Frame.Encode.{wire, encode_total}
use webtransportd.Frame.Decode.{Answers, decode-Answers, decode-append}
use webtransportd.Frame.RoundTrip.{decode-encode, decode-prefix}

abbrev hello : List ℕ
hello = b'H' ∷ b'i' ∷ []

abbrev blank : List ℕ
blank = 9 ∷ 9 ∷ 9 ∷ 9 ∷ 9 ∷ 9 ∷ []

encode_hello : wtd_frame_encode 1 hello 2 blank 6 ≡ some (ok 4, 1 ∷ 2 ∷ b'H' ∷ b'i' ∷ 9 ∷ 9 ∷ [])
unfolding wtd_frame_encode
encode_hello = refl

encode_reserved : wtd_frame_encode 2 hello 2 blank 6 ≡ some (fail err_reserved, blank)
unfolding wtd_frame_encode
encode_reserved = refl

encode_small : wtd_frame_encode 0 hello 2 blank 3 ≡ some (fail err_buf_too_small, blank)
unfolding wtd_frame_encode
encode_small = refl

-- 15293 in two bytes, and 494878333 in four, as in RFC 9000.
stores_two : varint_stores 15293 ≡ 0x7b ∷ 0xbd ∷ []
unfolding varint_stores
stores_two = refl

stores_four : varint_stores 494878333 ≡ 0x9d ∷ 0x7f ∷ 0x3e ∷ 0x7d ∷ []
unfolding varint_stores
stores_four = refl

stores_eight :
    varint_stores 151288809941952652 ≡ 0xc2 ∷ 0x19 ∷ 0x7c ∷ 0x5e ∷ 0xff ∷ 0x14 ∷ 0xe8 ∷ 0x8c ∷ []
unfolding varint_stores
stores_eight = refl

decode_empty : wtd_frame_decode [] 0 ≡ some (fail incomplete)
unfolding wtd_frame_decode
decode_empty = refl

decode_too_big : wtd_frame_decode (0 ∷ 0x81 ∷ 0 ∷ 0 ∷ 1 ∷ []) 5 ≡ some (fail err_too_big)
unfolding wtd_frame_decode
decode_too_big = refl

decode_reserved : wtd_frame_decode (4 ∷ []) 1 ≡ some (fail err_reserved)
unfolding wtd_frame_decode
decode_reserved = refl

abbrev two_frames : List ℕ
two_frames = 0 ∷ 1 ∷ 7 ∷ 1 ∷ 0 ∷ []

abbrev first_frame : Decoded
first_frame = record { consumed = 3; flag = 0; payload = 2; payload_len = 1 }

decode_first : wtd_frame_decode two_frames 5 ≡ some (ok first_frame)
unfolding wtd_frame_decode
decode_first = refl

encode_total_example :
    wtd_frame_encode 1 hello 2 blank 6
    ≡ some (ok (length (wire 1 hello)), wire 1 hello ++ drop (length (wire 1 hello)) blank)
unfolding wire shortest
encode_total_example = encode_total 1 hello blank 6 (omega arith) (omega arith)

decode-Answers_example : Answers two_frames 5 (wtd_frame_decode two_frames 5)
decode-Answers_example = decode-Answers two_frames 5 (omega arith) (omega arith)

decode-append_example : wtd_frame_decode (two_frames ++ (0 ∷ [])) 6 ≡ some (ok first_frame)
decode-append_example = decode-append two_frames (0 ∷ []) (ok first_frame) decode_first (λ e. cc)

abbrev Recovered : ℕ → List ℕ → List ℕ → List ℕ → Type 0
Recovered flag payload out rest =
    (written : ℕ) × (out' : List ℕ) × (d : Decoded) × (wtd_frame_encode flag payload
        (length payload) out (length out)
      ≡ some (ok written, out'))
    × (wtd_frame_decode (take written out' ++ rest) (length (take written out' ++ rest))
        ≡ some (ok d))
    × (d.flag ≡ flag)
    × (slice (take written out' ++ rest) d.payload d.payload_len ≡ payload)
    × (d.consumed ≡ written)

decode-encode_example : Recovered 1 hello blank (5 ∷ [])
unfolding wire shortest
decode-encode_example =
    decode-encode 1 hello blank (5 ∷ []) (omega arith) (omega arith) (omega arith)

decode-prefix_example : wtd_frame_decode (1 ∷ 2 ∷ b'H' ∷ []) 3 ≡ some (fail incomplete)
unfolding wire shortest
decode-prefix_example =
    decode-prefix 1 b'i' hello (1 ∷ 2 ∷ b'H' ∷ []) [] (omega arith) (omega arith) (omega arith) refl

varint_stores-shortest_example : varint_stores 15293 ≡ shortest 15293
varint_stores-shortest_example = varint_stores-shortest 15293 (omega arith)
