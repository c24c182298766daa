-- ===== src/Tests/BootRuns.antt =====
-- Runs of adapters/autocert.c, and of wtd_transport_run of adapters/transport_picoquic.c.
use webtransportd.Common.{
  ℕ, zero, suc, ap, ◌≡◌, refl, arith, Bool, true, false, [], ◌∷◌, none, some, length,
}
use webtransportd.Common.Int.{pos}
use webtransportd.Main.{Config, auto}
use webtransportd.Autocert.{
  Making, write_key_pem, CertAnswers, Result, der_cap, strlen, wtd_autocert_generate,
}
use webtransportd.Autocert.Cleanup.{IsMbedtls, Leaves, autocert_lem}
use webtransportd.Transport.Bootstrap.{cert_der, BootAnswers, wtd_transport_run}
use webtransportd.Transport.Bootstrap.Exits.{owned, looped, transport_run_lem}
use webtransportd.Session.Deliver.{IsMalloc}
use webtransportd.Tests.SessionRuns.{zeros}

-- The PEM text of the key cannot be written.
abbrev key_refused : Making → Bool
key_refused write_key_pem = false
key_refused m = true

pub length-zeros : (n : ℕ) → length (zeros n) ≡ n
length-zeros zero = refl
length-zeros (suc n) = ap suc (length-zeros n)

pub zeros-IsMalloc : IsMalloc (λ n. some (zeros n))
zeros-IsMalloc n buf e = let same : zeros n ≡ buf = ground arith in rw⁻¹ same (length-zeros n)

abbrev late_failure : CertAnswers
late_failure = record {
  fine = key_refused;
  now = 1000;
  cert_written = pos 300;
  cert_buf = zeros der_cap;
  cert_malloc = λ n. some (zeros n);
  key_buf = 65 ∷ 66 ∷ 0 ∷ 7 ∷ [];
  key_malloc = λ n. some (zeros n);
}

late_failure-IsMbedtls : IsMbedtls late_failure
unfolding strlen
late_failure-IsMbedtls = record {
  cert_buf_size = length-zeros der_cap;
  within = omega arith;
  key_text = (2, refl);
  cert_block = zeros-IsMalloc;
  key_block = zeros-IsMalloc;
}

autocert_lem_example :
    (r : Result) × (wtd_autocert_generate late_failure [] ≡ some r) × Leaves late_failure r []
autocert_lem_example = autocert_lem late_failure [] late_failure-IsMbedtls

-- The key does not go in.
abbrev no_key : BootAnswers
no_key = record {
  autocert = true;
  create = true;
  chain_memory = true;
  key_installs = false;
  pipe = true;
  return_code = pos 0;
  same_code = false;
  should_exit = false;
}

abbrev config : Config
config = record { cert = auto; key = none; port = 443; exec_path = none; dir_path = none }

transport_run_lem_example :
    (owned cert_der (wtd_transport_run no_key config []).1 ≡ some 0)
    × (looped (wtd_transport_run no_key config []).1 ≡ none)
    × ((wtd_transport_run no_key config []).0 ≡ 1)
transport_run_lem_example = transport_run_lem no_key config cert_der
