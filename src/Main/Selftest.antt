-- ===== src/Main/Selftest.antt =====
-- The self-test of adapters/main.c.
use webtransportd.Common.{
  ℕ, ◌+◌, ◌≡◌, ◌≤◌, refl, List, [], ◌∷◌, ◌++◌, some, length, arith, drop, take,
}
use webtransportd.Main.{cmd_selftest, check_encoded, check_decoded, test_text}
use webtransportd.Common.Memory.{load_all-ok}
use webtransportd.Frame.Encode.{wire, encode_total}

-- Whatever its buffer held before, the self-test touches no byte outside it and passes.
pub selftest-passes : (buf : List ℕ) → length buf ≡ 256 → cmd_selftest buf ≡ some 0
unfolding cmd_selftest check_encoded check_decoded wire webtransportd.Frame.Varint.shortest
    webtransportd.Frame.wtd_frame_decode webtransportd.Frame.varint_decode
    webtransportd.Frame.finish_decode webtransportd.Common.Memory.load_all
selftest-passes buf e =
    rw (encode_total 0 test_text buf 256 (omega arith) (omega arith))
      (rw (load_all-ok (0 ∷ 4 ∷ 116 ∷ 101 ∷ 115 ∷ 116 ∷ drop 6 buf) 2 4 (omega arith)) refl)
