-- ===== src/Main/Reading.antt =====
-- What one argument of adapters/main.c does to the options.
use webtransportd.Common.{
  ℕ, ◌≡◌, refl, sym, ap, ◌∙◌, inl, inr, ◌⊎◌, true, [], ◌∷◌, ◌++◌, some, ◌==◌, ◌||◌, arith,
  Bool-cases, Option-cases,
}
use webtransportd.Main.{
  CString, same_string, Options, parse_arg_value, goes_on, parse_values, parse_arg,
}
use webtransportd.Main.Values.{
  Choice, of_cert, of_key, of_port, of_exec, of_dir, of_level, prefix, server, value, set, Lacks,
}

pub same_string-eq : (s t : CString) → same_string s t ≡ true → s ≡ t
same_string-eq [] [] e = refl
same_string-eq [] (d ∷ t) e = cc
same_string-eq (c ∷ s) [] e = cc
same_string-eq (c ∷ s) (d ∷ t) e =
    let first : (c == d) ≡ true = ground arith in
    let same : c ≡ d = ground (arith, first) in
    let rest : same_string s t ≡ true = rw first at e in rw (same, same_string-eq s t rest) refl

parse_arg_value-some :
    (arg front v : CString) → parse_arg_value arg front ≡ some v → arg ≡ front ++ v
unfolding parse_arg_value
parse_arg_value-some arg [] v e = ground (arith, e)
parse_arg_value-some [] (p ∷ front) v e = cc
parse_arg_value-some (c ∷ arg) (p ∷ front) v e = elim (Bool-cases (c == p)) [
  | inl hit ↦
      let same : c ≡ p = ground (arith, hit) in
      rw (same, parse_arg_value-some arg front v (rw hit at e)) refl
  | inr miss ↦ absurd (cc (rw miss at e))
]

-- The third byte tells the options apart.
abbrev third : CString → ℕ
third (a ∷ b ∷ c ∷ s) = c
third s = 0

-- What an argument does to the value of an option.
abbrev pub Turns : Choice → CString → Options → Options → Type 0
Turns k arg o o' =
    ((v : CString) × (arg ≡ prefix k ++ v) × (value k o' ≡ some v))
    ⊎ (Lacks k arg × (value k o' ≡ value k o))

set-Turns :
    (k j : Choice) (v arg : CString) (o : Options) → arg ≡ prefix j ++ v → Turns k arg o (set j v o)
set-Turns of_cert of_cert v arg o e = inl (v, e, refl)
set-Turns of_cert of_key v arg o e = inr (λ w f. omega (arith, ap third (sym e ∙ f)), refl)
set-Turns of_cert of_port v arg o e = inr (λ w f. omega (arith, ap third (sym e ∙ f)), refl)
set-Turns of_cert of_exec v arg o e = inr (λ w f. omega (arith, ap third (sym e ∙ f)), refl)
set-Turns of_cert of_dir v arg o e = inr (λ w f. omega (arith, ap third (sym e ∙ f)), refl)
set-Turns of_cert of_level v arg o e = inr (λ w f. omega (arith, ap third (sym e ∙ f)), refl)
set-Turns of_key of_cert v arg o e = inr (λ w f. omega (arith, ap third (sym e ∙ f)), refl)
set-Turns of_key of_key v arg o e = inl (v, e, refl)
set-Turns of_key of_port v arg o e = inr (λ w f. omega (arith, ap third (sym e ∙ f)), refl)
set-Turns of_key of_exec v arg o e = inr (λ w f. omega (arith, ap third (sym e ∙ f)), refl)
set-Turns of_key of_dir v arg o e = inr (λ w f. omega (arith, ap third (sym e ∙ f)), refl)
set-Turns of_key of_level v arg o e = inr (λ w f. omega (arith, ap third (sym e ∙ f)), refl)
set-Turns of_port of_cert v arg o e = inr (λ w f. omega (arith, ap third (sym e ∙ f)), refl)
set-Turns of_port of_key v arg o e = inr (λ w f. omega (arith, ap third (sym e ∙ f)), refl)
set-Turns of_port of_port v arg o e = inl (v, e, refl)
set-Turns of_port of_exec v arg o e = inr (λ w f. omega (arith, ap third (sym e ∙ f)), refl)
set-Turns of_port of_dir v arg o e = inr (λ w f. omega (arith, ap third (sym e ∙ f)), refl)
set-Turns of_port of_level v arg o e = inr (λ w f. omega (arith, ap third (sym e ∙ f)), refl)
set-Turns of_exec of_cert v arg o e = inr (λ w f. omega (arith, ap third (sym e ∙ f)), refl)
set-Turns of_exec of_key v arg o e = inr (λ w f. omega (arith, ap third (sym e ∙ f)), refl)
set-Turns of_exec of_port v arg o e = inr (λ w f. omega (arith, ap third (sym e ∙ f)), refl)
set-Turns of_exec of_exec v arg o e = inl (v, e, refl)
set-Turns of_exec of_dir v arg o e = inr (λ w f. omega (arith, ap third (sym e ∙ f)), refl)
set-Turns of_exec of_level v arg o e = inr (λ w f. omega (arith, ap third (sym e ∙ f)), refl)
set-Turns of_dir of_cert v arg o e = inr (λ w f. omega (arith, ap third (sym e ∙ f)), refl)
set-Turns of_dir of_key v arg o e = inr (λ w f. omega (arith, ap third (sym e ∙ f)), refl)
set-Turns of_dir of_port v arg o e = inr (λ w f. omega (arith, ap third (sym e ∙ f)), refl)
set-Turns of_dir of_exec v arg o e = inr (λ w f. omega (arith, ap third (sym e ∙ f)), refl)
set-Turns of_dir of_dir v arg o e = inl (v, e, refl)
set-Turns of_dir of_level v arg o e = inr (λ w f. omega (arith, ap third (sym e ∙ f)), refl)
set-Turns of_level of_cert v arg o e = inr (λ w f. omega (arith, ap third (sym e ∙ f)), refl)
set-Turns of_level of_key v arg o e = inr (λ w f. omega (arith, ap third (sym e ∙ f)), refl)
set-Turns of_level of_port v arg o e = inr (λ w f. omega (arith, ap third (sym e ∙ f)), refl)
set-Turns of_level of_exec v arg o e = inr (λ w f. omega (arith, ap third (sym e ∙ f)), refl)
set-Turns of_level of_dir v arg o e = inr (λ w f. omega (arith, ap third (sym e ∙ f)), refl)
set-Turns of_level of_level v arg o e = inl (v, e, refl)

-- What an argument that main goes on after is.
abbrev pub Reads : CString → Options → Options → Type 0
Reads arg o o' =
    ((k : Choice) × (v : CString) × (arg ≡ prefix k ++ v) × (set k v o ≡ o'))
    ⊎ ((arg ≡ server) × (record o { is_server = true } ≡ o'))

pub goes_on-injective : {o o' : Options} → goes_on o ≡ goes_on o' → o ≡ o'
goes_on-injective {o} {o'} e = ground (arith, e)

parse_values-Reads :
    (arg : CString) (o o' : Options) → parse_values arg o ≡ goes_on o' → Reads arg o o'
unfolding parse_values
parse_values-Reads arg o o' e = elim (Option-cases (parse_arg_value arg (prefix of_cert))) [
  | inr (v, found) ↦ inl (
    of_cert,
    v,
    parse_arg_value-some arg (prefix of_cert) v found,
    goes_on-injective (rw (found, parse_values) at e),
  )
  | inl n0 ↦ elim (Option-cases (parse_arg_value arg (prefix of_key))) [
    | inr (v, found) ↦ inl (
      of_key,
      v,
      parse_arg_value-some arg (prefix of_key) v found,
      goes_on-injective (rw (n0, found, parse_values) at e),
    )
    | inl n1 ↦ elim (Option-cases (parse_arg_value arg (prefix of_port))) [
      | inr (v, found) ↦ inl (
        of_port,
        v,
        parse_arg_value-some arg (prefix of_port) v found,
        goes_on-injective (rw (n0, n1, found, parse_values) at e),
      )
      | inl n2 ↦ elim (Option-cases (parse_arg_value arg (prefix of_exec))) [
        | inr (v, found) ↦ inl (
          of_exec,
          v,
          parse_arg_value-some arg (prefix of_exec) v found,
          goes_on-injective (rw (n0, n1, n2, found, parse_values) at e),
        )
        | inl n3 ↦ elim (Option-cases (parse_arg_value arg (prefix of_dir))) [
          | inr (v, found) ↦ inl (
            of_dir,
            v,
            parse_arg_value-some arg (prefix of_dir) v found,
            goes_on-injective (rw (n0, n1, n2, n3, found, parse_values) at e),
          )
          | inl n4 ↦ elim (Option-cases (parse_arg_value arg (prefix of_level))) [
            | inr (v, found) ↦ inl (
              of_level,
              v,
              parse_arg_value-some arg (prefix of_level) v found,
              goes_on-injective (rw (n0, n1, n2, n3, n4, found, parse_values) at e),
            )
            | inl n5 ↦ absurd (cc (rw (n0, n1, n2, n3, n4, n5, parse_values) at e))
          ]
        ]
      ]
    ]
  ]
]

pub parse_arg-Reads :
    (arg : CString) (o o' : Options) → parse_arg arg o ≡ goes_on o' → Reads arg o o'
unfolding parse_arg
parse_arg-Reads arg o o' e =
    elim (Bool-cases (same_string arg (45 ∷ 45 ∷ 118 ∷ 101 ∷ 114 ∷ 115 ∷ 105 ∷ 111 ∷ 110 ∷ []))) [
      | inl v ↦ absurd (cc (rw v at e))
      | inr v ↦
          elim (Bool-cases
            (same_string arg (45 ∷ 45 ∷ 115 ∷ 101 ∷ 108 ∷ 102 ∷ 116 ∷ 101 ∷ 115 ∷ 116 ∷ []))) [
              | inl t ↦ absurd (cc (rw (v, t) at e))
              | inr t ↦
                  elim (Bool-cases (
                    same_string arg (45 ∷ 45 ∷ 104 ∷ 101 ∷ 108 ∷ 112 ∷ [])
                    || same_string arg (45 ∷ 104 ∷ []))) [
                      | inl h ↦ absurd (cc (rw (v, t, h) at e))
                      | inr h ↦ elim (Bool-cases (same_string arg server)) [
                        | inl s ↦
                            inr (
                              same_string-eq arg server s,
                              goes_on-injective (rw (v, t, h, s) at e),
                            )
                        | inr s ↦ parse_values-Reads arg o o' (rw (v, t, h, s) at e)
                      ]
                    ]
            ]
    ]

server-Turns :
    (k : Choice) (arg : CString) (o : Options)
    → arg ≡ server
    → Turns k arg o (record o { is_server = true })
server-Turns of_cert arg o e = inr (λ w f. omega (arith, ap third (sym e ∙ f)), refl)
server-Turns of_key arg o e = inr (λ w f. omega (arith, ap third (sym e ∙ f)), refl)
server-Turns of_port arg o e = inr (λ w f. omega (arith, ap third (sym e ∙ f)), refl)
server-Turns of_exec arg o e = inr (λ w f. omega (arith, ap third (sym e ∙ f)), refl)
server-Turns of_dir arg o e = inr (λ w f. omega (arith, ap third (sym e ∙ f)), refl)
server-Turns of_level arg o e = inr (λ w f. omega (arith, ap third (sym e ∙ f)), refl)

pub parse_arg-Turns :
    (k : Choice) (arg : CString) (o o' : Options) → Reads arg o o' → Turns k arg o o'
parse_arg-Turns k arg o o' (inl (j, v, e, same)) = rw⁻¹ same (set-Turns k j v arg o e)
parse_arg-Turns k arg o o' (inr (e, same)) = rw⁻¹ same (server-Turns k arg o e)
