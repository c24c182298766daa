-- ===== src/Autocert.antt =====
-- adapters/autocert.c: wtd_autocert_generate. mbedtls is third-party code: its calls are recorded, the
-- newest first, and their answers and what they write into the two buffers are arguments. The stack
-- buffers are lists of bytes; an access outside of them is `none`.
pub mod Blocks
pub mod Cleanup
use webtransportd.Common.{
  ℕ, zero, suc, ◌+◌, ◌-◌, ◌*◌, Bool, true, false, List, [], ◌∷◌, ◌++◌, Option, none, some, ◌==◌,
  if◌then◌else◌, take,
}
use webtransportd.Common.Int.{ℤ, pos, negsuc, minus_one}
use webtransportd.Common.Memory.{◌>>=◌, load_all, store, store_all}

-- The contexts on the stack.
pub data Context : Type 0 where
  entropy drbg key crt : Context

-- The calls that fill the key and the certificate, with the arguments that vary.
pub data Making : Type 0 where
  drbg_seed pk_setup gen_key subject_name issuer_name subject_key issuer_key md_alg : Making
  basic_constraints alternative_names write_crt_der write_key_pem : Making
  serial : List ℕ → Making
  validity : ℕ → ℕ → Making

pub data CertCall : Type 0 where
  inits frees : Context → CertCall
  makes : Making → CertCall
  allocates releases : List ℕ → CertCall

abbrev pub CertCalls : Type 0
CertCalls = List CertCall

-- What mbedtls, time and malloc answer: `fine m` is a return of 0, `cert_written` the length or the
-- error of mbedtls_x509write_crt_der, and the buffers are as these calls left them;
-- the two calls of malloc answer for each size with a block and what it held before, or refuse.
pub record CertAnswers : Type 0 where
  pub fine : Making → Bool
  pub now : ℕ
  pub cert_written : ℤ
  pub cert_buf : List ℕ
  pub cert_malloc : ℕ → Option (List ℕ)
  pub key_buf : List ℕ
  pub key_malloc : ℕ → Option (List ℕ)

-- AUTOCERT_DER_CAP, AUTOCERT_VALID_DAYS
abbrev pub der_cap : ℕ
der_cap = 4 * 1024

abbrev pub valid_days : ℕ
valid_days = 13

-- The calls up to the certificate's DER, and whether the result of each is looked at.
unfoldable pub steps : ℕ → List (Bool × Making)
steps now =
    (true, drbg_seed)
    ∷ (true, pk_setup)
    ∷ (true, gen_key)
    ∷ (true, subject_name)
    ∷ (true, issuer_name)
    ∷ (false, subject_key)
    ∷ (false, issuer_key)
    ∷ (false, md_alg)
    ∷ (true, serial (1 ∷ []))
    ∷ (true, validity now (now + valid_days * 24 * 60 * 60))
    ∷ (true, basic_constraints)
    ∷ (true, alternative_names)
    ∷ []

-- The calls one after another, up to the first that fails: whether all went well.
unfoldable pub run_steps : (Making → Bool) → List (Bool × Making) → CertCalls → Bool × CertCalls
run_steps fine [] t = (true, t)
run_steps fine ((checked, m) ∷ ms) t =
    let rest = run_steps fine ms (makes m ∷ t) in
    let stop : Bool × CertCalls = (false, makes m ∷ t) in
    if checked then (if fine m then rest else stop) else rest

-- strlen
unfoldable pub strlen : List ℕ → Option ℕ
strlen [] = none
strlen (c ∷ s) = let rest = strlen s >>= λ n. some (suc n) in if c == 0 then some 0 else rest

-- What the caller gets: the two heap blocks with their lengths.
pub record Generated : Type 0 where
  pub cert_der : List ℕ
  pub cert_len : ℕ
  pub key_der : List ℕ
  pub key_len : ℕ

-- free
unfoldable pub release : Option (List ℕ) → CertCalls → CertCalls
release none t = t
release (some block) t = releases block ∷ t

-- The label `out`, with the blocks that are still the function's own.
unfoldable pub cleanup : Option (List ℕ) → Option (List ℕ) → CertCalls → CertCalls
unfolding release
cleanup cert_heap key_heap t =
    frees entropy ∷ frees drbg ∷ frees key ∷ frees crt ∷ release key_heap (release cert_heap t)

abbrev pub Result : Type 0
Result = ℤ × Option Generated × CertCalls

abbrev pub give_up : Option (List ℕ) → CertCalls → Option Result
give_up cert_heap t = some (minus_one, none, cleanup cert_heap none t)

-- The key, behind the certificate's block.
unfoldable pub write_key : CertAnswers → List ℕ → ℕ → CertCalls → Option Result
unfolding cleanup strlen load_all store_all store
write_key a cert cert_len t =
    let t1 = makes write_key_pem ∷ t in
    let go_on = (do
      key_len ← strlen a.key_buf
      elim (a.key_malloc (key_len + 1)) [
        | none ↦ give_up (some cert) t1
        | some block ↦ (do
          pem ← load_all a.key_buf 0 (key_len + 1)
          key_heap ← store_all block 0 pem
          some (
            pos 0,
            some (record {
              cert_der = cert;
              cert_len = cert_len;
              key_der = key_heap;
              key_len = key_len;
            }),
            cleanup none none (allocates key_heap ∷ t1),
          ))
      ]) in
    if a.fine write_key_pem then go_on else give_up (some cert) t1

-- The certificate: mbedtls_x509write_crt_der fills the buffer from its end.
unfoldable pub write_cert : CertAnswers → ℤ → CertCalls → Option Result
unfolding write_key store_all store
write_cert a (negsuc e) t = give_up none t
write_cert a (pos cert_len) t = elim (a.cert_malloc (cert_len + 1)) [
  | none ↦ give_up none t
  | some block ↦ (do
    der ← load_all a.cert_buf (der_cap - cert_len) cert_len
    copied ← store_all block 0 der
    cert ← store copied cert_len 0
    write_key a cert cert_len (allocates cert ∷ t))
]

unfoldable pub finish_steps : CertAnswers → Bool × CertCalls → Option Result
unfolding write_cert
finish_steps a (false, t) = give_up none t
finish_steps a (true, t) = write_cert a a.cert_written (makes write_crt_der ∷ t)

unfoldable pub wtd_autocert_generate : CertAnswers → CertCalls → Option Result
unfolding finish_steps run_steps steps
wtd_autocert_generate a t =
    finish_steps a
      (run_steps a.fine (steps a.now) (inits crt ∷ inits key ∷ inits drbg ∷ inits entropy ∷ t))
