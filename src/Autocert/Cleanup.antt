-- ===== src/Autocert/Cleanup.antt =====
-- What wtd_autocert_generate leaves behind on each of its exits.
use webtransportd.Common.{
  ℕ, suc, ◌+◌, ◌-◌, ◌≡◌, ◌≤◌, refl, ◌∙◌, Bool, true, false, List, [], ◌∷◌, ◌++◌, Option, none, some,
  ◌⊎◌, inl, inr, ◌==◌, if◌then◌else◌, arith, length, Bool-cases, Option-cases, take, drop, sym, ap,
  ◌&&◌, length-take, length-drop, append-nil,
}
use webtransportd.Common.Int.{ℤ, pos, negsuc, minus_one}
use webtransportd.Common.Memory.{load_all-ok, slice, store_all}
use webtransportd.Session.Deliver.{IsMalloc}
use webtransportd.Autocert.Blocks.{strlen-lt, copied, none_left, filled}
use webtransportd.Autocert.{
  Context, entropy, drbg, key, crt, Making, drbg_seed, pk_setup, gen_key, subject_name, issuer_name,
  serial, validity, basic_constraints, alternative_names, write_key_pem, write_crt_der, inits,
  frees, makes, allocates, releases, CertCalls, CertAnswers, der_cap, run_steps, steps, strlen,
  Generated, release, cleanup, Result, write_key, write_cert, finish_steps, wtd_autocert_generate,
}

abbrev pub index : Context → ℕ
index entropy = 0
index drbg = 1
index key = 2
index crt = 3

-- How often a context was set up and not freed since.
abbrev pub live : Context → CertCalls → ℕ
live c [] = 0
live c (inits d ∷ t) = if index d == index c then suc (live c t) else live c t
live c (frees d ∷ t) = if index d == index c then live c t - 1 else live c t
live c (makes m ∷ t) = live c t
live c (allocates b ∷ t) = live c t
live c (releases b ∷ t) = live c t

abbrev pub blocks : CertCalls → ℕ
blocks [] = 0
blocks (allocates b ∷ t) = suc (blocks t)
blocks (releases b ∷ t) = blocks t - 1
blocks (inits d ∷ t) = blocks t
blocks (frees d ∷ t) = blocks t
blocks (makes m ∷ t) = blocks t

-- The four contexts are set up, and `n` blocks more than in `t` are allocated.
record IsOpen (n : ℕ) (u t : CertCalls) : Type 0 where
  contexts : (c : Context) → live c u ≡ suc (live c t)
  heap : blocks u ≡ blocks t + n

-- Every call up to the certificate's DER of which wtd_autocert_generate needs the answer is fine.
abbrev pub made : CertAnswers → Bool
made a =
    a.fine drbg_seed
    && (a.fine pk_setup
        && (a.fine gen_key
            && (a.fine subject_name
                && (a.fine issuer_name
                    && (a.fine (serial (1 ∷ []))
                        && (a.fine (validity a.now (a.now + 1123200))
                            && (a.fine basic_constraints
                                && (a.fine alternative_names && true))))))))

-- What makes the call fail.
pub data Refused (a : CertAnswers) : Type 0 where
  not_made : made a ≡ false → Refused a
  not_written : (e : ℕ) → a.cert_written ≡ negsuc e → Refused a
  no_cert_memory : (n : ℕ) → a.cert_written ≡ pos n → a.cert_malloc (n + 1) ≡ none → Refused a
  no_key : a.fine write_key_pem ≡ false → Refused a
  no_key_memory : (k : ℕ) → strlen a.key_buf ≡ some k → a.key_malloc (k + 1) ≡ none → Refused a

-- The blocks handed over, and that nothing was refused.
pub record Issued (a : CertAnswers) (g : Generated) : Type 0 where
  pub all_made : made a ≡ true
  pub written : a.cert_written ≡ pos g.cert_len
  pub cert_memory : (b : List ℕ) × (a.cert_malloc (g.cert_len + 1) ≡ some b)
  pub cert : g.cert_der ≡ slice a.cert_buf (der_cap - g.cert_len) g.cert_len ++ (0 ∷ [])
  pub key_made : a.fine write_key_pem ≡ true
  pub key_text : strlen a.key_buf ≡ some g.key_len
  pub key_memory : (b : List ℕ) × (a.key_malloc (g.key_len + 1) ≡ some b)
  pub key : g.key_der ≡ take (g.key_len + 1) a.key_buf

-- An exit: every context is freed again; either the call failed for a reason and no block is left, or
-- nothing was refused and the caller owns two blocks, the certificate and the key with their NULs.
abbrev pub Leaves : CertAnswers → Result → CertCalls → Type 0
Leaves a (rc, generated, u) t =
    ((c : Context) → live c u ≡ live c t)
    × (((rc ≡ minus_one) × (generated ≡ none) × (blocks u ≡ blocks t) × Refused a)
        ⊎ ((g : Generated) × (rc ≡ pos 0)
            × (generated ≡ some g)
            × (blocks u ≡ blocks t + 2)
            × Issued a g))

-- Whether the calls that are looked at are all fine.
abbrev all_checked : (Making → Bool) → List (Bool × Making) → Bool
all_checked fine [] = true
all_checked fine ((checked, m) ∷ ms) =
    if checked then fine m && all_checked fine ms else all_checked fine ms

run_steps-all_checked :
    (fine : Making → Bool) (ms : List (Bool × Making)) (t : CertCalls)
    → (run_steps fine ms t).0 ≡ all_checked fine ms
unfolding run_steps
run_steps-all_checked fine [] t = refl
run_steps-all_checked fine ((checked, m) ∷ ms) t =
    let rest = run_steps-all_checked fine ms (makes m ∷ t) in
    elim (Bool-cases checked) [
      | inr loose ↦ rw loose rest
      | inl looked ↦ elim (Bool-cases (fine m)) [
        | inl well ↦ rw (looked, well) rest
        | inr ill ↦ rw (looked, ill) refl
      ]
    ]

run_steps-made : (a : CertAnswers) (t : CertCalls) → (run_steps a.fine (steps a.now) t).0 ≡ made a
unfolding steps
run_steps-made a t = run_steps-all_checked a.fine (steps a.now) t

run_steps-IsOpen :
    (fine : Making → Bool) (ms : List (Bool × Making)) (u t : CertCalls)
    → IsOpen 0 u t
    → IsOpen 0 (run_steps fine ms u).1 t
unfolding run_steps
run_steps-IsOpen fine [] u t o = o
run_steps-IsOpen fine ((checked, m) ∷ ms) u t o =
    let o' : IsOpen 0 (makes m ∷ u) t = record { contexts = o.contexts; heap = o.heap } in
    let rest = run_steps-IsOpen fine ms (makes m ∷ u) t o' in
    elim (Bool-cases checked) [
      | inr loose ↦ rw loose rest
      | inl looked ↦ elim (Bool-cases (fine m)) [
        | inl well ↦ rw (looked, well) rest
        | inr ill ↦ rw (looked, ill) o'
      ]
    ]

release-live : (b : Option (List ℕ)) (u : CertCalls) (c : Context) → live c (release b u) ≡ live c u
unfolding release
release-live none u c = refl
release-live (some b) u c = refl

freed_once :
    (c : Context) (u t : CertCalls)
    → live c u ≡ suc (live c t)
    → live c (frees entropy ∷ frees drbg ∷ frees key ∷ frees crt ∷ u) ≡ live c t
freed_once entropy u t e = omega (arith, e)
freed_once drbg u t e = omega (arith, e)
freed_once key u t e = omega (arith, e)
freed_once crt u t e = omega (arith, e)

-- The end of the function frees each context once, whatever it holds of blocks.
cleanup-live :
    (n : ℕ) (cert_heap key_heap : Option (List ℕ)) (u t : CertCalls) (c : Context)
    → IsOpen n u t
    → live c (cleanup cert_heap key_heap u) ≡ live c t
unfolding cleanup
cleanup-live n ch kh u t c o =
    let kept = release-live kh (release ch u) c ∙ release-live ch u c ∙ o.contexts c in
    freed_once c (release kh (release ch u)) t kept

cleanup-blocks :
    (u t : CertCalls) (n : ℕ) → IsOpen n u t → blocks (cleanup none none u) ≡ blocks t + n
unfolding cleanup release
cleanup-blocks u t n o = o.heap

give_up-Leaves :
    (a : CertAnswers) (block : Option (List ℕ)) (u t : CertCalls)
    → IsOpen (elim block [ none ↦ 0 | some b ↦ 1 ]) u t
    → Refused a
    → Leaves a (minus_one, none, cleanup block none u) t
unfolding cleanup release
give_up-Leaves a none u t o why =
    (λ c. cleanup-live 0 none none u t c o, inl (refl, refl, omega (arith, o.heap), why))
give_up-Leaves a (some b) u t o why =
    (λ c. cleanup-live 1 (some b) none u t c o, inl (refl, refl, omega (arith, o.heap), why))

abbrev pub IsWithin : ℤ → Type 0
IsWithin (pos n) = n ≤ der_cap
IsWithin (negsuc e) = Unit {0}

-- What mbedtls and malloc are relied on for: the length that mbedtls reports is within the buffer that
-- it was given, the PEM text ends with a NUL inside its buffer, and a block has the size asked for.
pub record IsMbedtls (a : CertAnswers) : Type 0 where
  pub cert_buf_size : length a.cert_buf ≡ der_cap
  pub within : IsWithin a.cert_written
  pub key_text : (n : ℕ) × (strlen a.key_buf ≡ some n)
  pub cert_block : IsMalloc a.cert_malloc
  pub key_block : IsMalloc a.key_malloc

write_key-Leaves :
    (a : CertAnswers) (cert : List ℕ) (cert_len : ℕ) (u t : CertCalls)
    → IsMbedtls a
    → made a ≡ true
    → a.cert_written ≡ pos cert_len
    → ((b : List ℕ) × (a.cert_malloc (cert_len + 1) ≡ some b))
    → cert ≡ slice a.cert_buf (der_cap - cert_len) cert_len ++ (0 ∷ [])
    → IsOpen 1 u t
    → (r : Result) × (write_key a cert cert_len u ≡ some r) × Leaves a r t
unfolding write_key
write_key-Leaves a cert cert_len u t m all w block is o =
    let (n, text) = m.key_text in
    let t1 : CertCalls = makes write_key_pem ∷ u in
    let o' : IsOpen 1 t1 t = record { contexts = o.contexts; heap = o.heap } in
    let refused : Result = (minus_one, none, cleanup (some cert) none t1) in
    elim (Bool-cases (a.fine write_key_pem)) [
      | inr ill ↦ (refused, rw ill refl, give_up-Leaves a (some cert) t1 t o' (no_key ill))
      | inl well ↦ elim (Option-cases (a.key_malloc (n + 1))) [
        | inl denied ↦ (
          refused,
          rw (well, text, denied) refl,
          give_up-Leaves a (some cert) t1 t o' (no_key_memory n text denied),
        )
        | inr (b, memory) ↦
            let long = strlen-lt a.key_buf n text in
            let size = m.key_block (n + 1) b memory in
            let pem = take (n + 1) a.key_buf in
            let whole : length pem ≡ n + 1 = omega (arith, length-take (n + 1) a.key_buf) in
            let fits : store_all b 0 pem ≡ some pem =
              copied b pem (omega arith)
              ∙ rw (none_left b pem (omega arith)) (ap some (append-nil pem)) in
            let t2 : CertCalls = allocates pem ∷ t1 in
            let o2 : IsOpen 2 t2 t = record {
              contexts = o.contexts;
              heap = omega (arith, o.heap);
            } in
            let g : Generated = record {
              cert_der = cert;
              cert_len = cert_len;
              key_der = pem;
              key_len = n;
            } in
            (
              (pos 0, some g, cleanup none none t2),
              rw (well, text, memory, load_all-ok a.key_buf 0 (n + 1) (omega arith), fits) refl,
              (
                λ c. cleanup-live 2 none none t2 t c o2,
                inr (
                  g,
                  refl,
                  refl,
                  cleanup-blocks t2 t 2 o2,
                  record {
                    all_made = all;
                    written = w;
                    cert_memory = block;
                    cert = is;
                    key_made = well;
                    key_text = text;
                    key_memory = (b, memory);
                    key = refl;
                  },
                ),
              ),
            )
      ]
    ]

write_cert-Leaves :
    (a : CertAnswers) (written : ℤ) (u t : CertCalls)
    → IsMbedtls a
    → made a ≡ true
    → a.cert_written ≡ written
    → IsOpen 0 u t
    → (r : Result) × (write_cert a written u ≡ some r) × Leaves a r t
unfolding write_cert
write_cert-Leaves a (negsuc e) u t m all w o =
    ((minus_one, none, cleanup none none u), refl, give_up-Leaves a none u t o (not_written e w))
write_cert-Leaves a (pos n) u t m all w o = elim (Option-cases (a.cert_malloc (n + 1))) [
  | inl denied ↦ (
    (minus_one, none, cleanup none none u),
    rw (denied, write_cert) refl,
    give_up-Leaves a none u t o (no_cert_memory n w denied),
  )
  | inr (b, memory) ↦
      let size = m.cert_buf_size in
      let fits : n ≤ der_cap = rw w at m.within in
      let bytes = slice a.cert_buf (der_cap - n) n in
      let der = load_all-ok a.cert_buf (der_cap - n) n (omega arith) in
      let count : length bytes ≡ n = omega (
        arith,
        length-take n (drop (der_cap - n) a.cert_buf),
        length-drop (der_cap - n) a.cert_buf,
      ) in
      let (whole, copy, nul) = filled b bytes n count (m.cert_block (n + 1) b memory) in
      let cert = bytes ++ (0 ∷ []) in
      let o1 : IsOpen 1 (allocates cert ∷ u) t = record {
        contexts = o.contexts;
        heap = omega (arith, o.heap);
      } in
      let (r, e, l) =
        write_key-Leaves a cert n (allocates cert ∷ u) t m all w (b, memory) refl o1 in
      (r, rw (memory, der, copy, nul, write_cert) e, l)
]

finish_steps-Leaves :
    (a : CertAnswers) (well : Bool) (u t : CertCalls)
    → IsMbedtls a
    → well ≡ made a
    → IsOpen 0 u t
    → (r : Result) × (finish_steps a (well, u) ≡ some r) × Leaves a r t
unfolding finish_steps
finish_steps-Leaves a false u t m all o =
    ((minus_one, none, cleanup none none u), refl, give_up-Leaves a none u t o (not_made (sym all)))
finish_steps-Leaves a true u t m all o =
    write_cert-Leaves a a.cert_written (makes write_crt_der ∷ u) t m (sym all) refl
      (record { contexts = o.contexts; heap = o.heap })

started_once :
    (t : CertCalls) (c : Context)
    → live c (inits crt ∷ inits key ∷ inits drbg ∷ inits entropy ∷ t) ≡ suc (live c t)
started_once t entropy = refl
started_once t drbg = refl
started_once t key = refl
started_once t crt = refl

started : (t : CertCalls) → IsOpen 0 (inits crt ∷ inits key ∷ inits drbg ∷ inits entropy ∷ t) t
started t = record { contexts = started_once t; heap = omega arith }

-- If the length that mbedtls reports is within the buffer that it was given, the key's text ends with
-- a NUL inside its buffer and malloc answers with blocks of the size asked for, then
-- wtd_autocert_generate touches no byte outside of its buffers and its blocks and frees each of its
-- four contexts once. It fails, with no block left allocated, exactly if one of the nine calls before
-- the DER whose answers it looks at, the DER, the key's text or one of the two blocks was refused;
-- otherwise it answers 0 and hands over two blocks: the DER that mbedtls put at the end of its buffer,
-- with a NUL behind it, and the key's text with its NUL.
pub autocert_lem :
    (a : CertAnswers) (t : CertCalls)
    → IsMbedtls a
    → (r : Result) × (wtd_autocert_generate a t ≡ some r) × Leaves a r t
unfolding wtd_autocert_generate
autocert_lem a t m =
    let begun : CertCalls = inits crt ∷ inits key ∷ inits drbg ∷ inits entropy ∷ t in
    let (well, u) = run_steps a.fine (steps a.now) begun in
    finish_steps-Leaves a well u t m (run_steps-made a begun)
      (run_steps-IsOpen a.fine (steps a.now) begun t (started t))
