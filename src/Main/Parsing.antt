-- ===== src/Main/Parsing.antt =====
-- What the loop over the arguments of adapters/main.c leaves.
use webtransportd.Common.{
  ◌≡◌, refl, sym, ap, ◌∙◌, inl, inr, ◌⊎◌, true, List, [], ◌∷◌, none, some, All,
}
use webtransportd.Main.{
  CString, Options, no_options, Parsed, goes_on, stops, parse_arg, and_parse, parse_args,
}
use webtransportd.Main.Values.{
  Choice, of_cert, of_key, of_port, of_exec, of_dir, of_level, server, value, set, Lacks, Given,
  Occurs,
}
use webtransportd.Main.Reading.{Turns, goes_on-injective, parse_arg-Reads, parse_arg-Turns}

-- The value of an option behind some arguments.
abbrev Follows : Choice → List CString → Options → Options → Type 0
Follows k args o o' =
    ((v : CString) × Given k args (some v) × (value k o' ≡ some v))
    ⊎ (All (Lacks k) args × (value k o' ≡ value k o))

one_more :
    (k : Choice) (arg : CString) (args : List CString) (o o1 o' : Options)
    → Turns k arg o o1
    → Follows k args o1 o'
    → Follows k (arg ∷ args) o o'
one_more k arg args o o1 o' turn (inl (v, (before, after, e, lack), is)) =
    inl (v, (arg ∷ before, after, ap (λ l. arg ∷ l) e, lack), is)
one_more k arg args o o1 o' (inl (v, e, is)) (inr (lack, same)) =
    inl (v, ([], args, ap (λ a. a ∷ args) e, lack), same ∙ is)
one_more k arg args o o1 o' (inr (lacks, is)) (inr (lack, same)) = inr ((lacks, lack), same ∙ is)

parsed_first :
    (arg : CString) (args : List CString) (p : Parsed) (o' : Options)
    → and_parse (parse_args args) p ≡ goes_on o'
    → (o1 : Options) × (p ≡ goes_on o1) × (parse_args args o1 ≡ goes_on o')
parsed_first arg args (goes_on o1) o' e = (o1, refl, e)
parsed_first arg args (stops x) o' e = absurd cc

parse_args-Follows :
    (k : Choice) (args : List CString) (o o' : Options)
    → parse_args args o ≡ goes_on o'
    → Follows k args o o'
unfolding parse_args
parse_args-Follows k [] o o' e = inr (tt, ap (value k) (sym (goes_on-injective e)))
parse_args-Follows k (arg ∷ args) o o' e =
    let (o1, one, rest) = parsed_first arg args (parse_arg arg o) o' e in
    one_more k arg args o o1 o' (parse_arg-Turns k arg o o1 (parse_arg-Reads arg o o1 one))
      (parse_args-Follows k args o1 o' rest)

no_value : (k : Choice) → value k no_options ≡ none
no_value of_cert = refl
no_value of_key = refl
no_value of_port = refl
no_value of_exec = refl
no_value of_dir = refl
no_value of_level = refl

-- The options that the loop leaves are those that the arguments give.
pub parse_args-Given :
    (k : Choice) (args : List CString) (o : Options)
    → parse_args args no_options ≡ goes_on o
    → Given k args (value k o)
parse_args-Given k args o e = elim (parse_args-Follows k args no_options o e) [
  | inl (v, given, is) ↦ rw is given
  | inr (lack, same) ↦ rw (same ∙ no_value k) lack
]

set-is_server : (k : Choice) (v : CString) (o : Options) → (set k v o).is_server ≡ o.is_server
set-is_server of_cert v o = refl
set-is_server of_key v o = refl
set-is_server of_port v o = refl
set-is_server of_exec v o = refl
set-is_server of_dir v o = refl
set-is_server of_level v o = refl

-- Only --server turns the server on.
pub parse_args-server :
    (args : List CString) (o o' : Options)
    → parse_args args o ≡ goes_on o'
    → o'.is_server ≡ true
    → (o.is_server ≡ true) ⊎ Occurs server args
unfolding parse_args
parse_args-server [] o o' e on = inl (ap (λ x. x.is_server) (goes_on-injective e) ∙ on)
parse_args-server (arg ∷ args) o o' e on =
    let (o1, one, rest) = parsed_first arg args (parse_arg arg o) o' e in
    elim (parse_args-server args o1 o' rest on) [
      | inr (before, after, at) ↦ inr (arg ∷ before, after, ap (λ l. arg ∷ l) at)
      | inl on' ↦ elim (parse_arg-Reads arg o o1 one) [
        | inl (k, v, at, same) ↦ inl (sym (set-is_server k v o) ∙ ap (λ x. x.is_server) same ∙ on')
        | inr (at, same) ↦ inr ([], args, ap (λ a. a ∷ args) at)
      ]
    ]
