-- ===== src/Main/Arguments.antt =====
-- What the command line of adapters/main.c lets through to the server.
use webtransportd.Common.{
  ℕ, ◌≡◌, ◌<◌, ◌⊎◌, inl, inr, refl, ap, sym, ◌∙◌, true, false, not, ◌&&◌, List, [], ◌∷◌, Option,
  none, some, arith, Bool-cases, if◌then◌else◌,
}
use webtransportd.Common.Int.{ℤ, pos, negsuc}
use webtransportd.Main.Values.{
  Choice, of_cert, of_key, of_port, of_exec, of_dir, of_level, server, value, Given, Occurs,
}
use webtransportd.Main.Reading.{same_string-eq}
use webtransportd.Main.Parsing.{parse_args-Given, parse_args-server}
use webtransportd.Main.{
  CString, same_string, Options, no_options, Config, returns, usage, serves, Parsed, goes_on, stops,
  auto, choose_level, check_port, is_none, check_server, run_options, finish_main, main, parse_args,
}

module _ (strtol : CString → ℤ) where
  -- The port that is served is the one that strtol read, and is in range; the rest is taken over.
  abbrev pub IsServable : CString → CString → Options → Config → Type 0
  IsServable cert port o cfg =
      (strtol port ≡ pos cfg.port)
      × (0 < cfg.port)
      × (cfg.port < 65536)
      × (cfg.cert ≡ cert)
      × (cfg.key ≡ o.key)
      × (cfg.exec_path ≡ o.exec_path)
      × (cfg.dir_path ≡ o.dir_path)

  ℤ-cases : (z : ℤ) → ((n : ℕ) × (z ≡ pos n)) ⊎ ((n : ℕ) × (z ≡ negsuc n))
  ℤ-cases (pos n) = inl (n, refl)
  ℤ-cases (negsuc n) = inr (n, refl)

  check_port_lem :
      (cert port : CString) (o : Options) (cfg : Config)
      → check_port strtol cert port o ≡ serves cfg
      → IsServable cert port o cfg
  unfolding check_port
  check_port_lem cert port o cfg e = elim (ℤ-cases (strtol port)) [
    | inl (n, read) ↦ ground (arith, read, rw read at e)
    | inr (n, read) ↦ absurd (cc (rw read at e))
  ]

  -- What --log-level asks for, or the level of a fresh daemon.
  abbrev pub IsLevel : Option CString → ℕ → Type 0
  IsLevel none level = level ≡ 3
  IsLevel (some text) level = strtol text ≡ pos level

  -- The options that the loop leaves, and what the checks behind it let through.
  abbrev Chosen : List CString → ℕ → Config → Type 0
  Chosen args level cfg =
      (o : Options) × (cert : CString) × (port : CString) × (parse_args args no_options ≡ goes_on o)
      × (o.is_server ≡ true)
      × (o.cert ≡ some cert)
      × (o.port ≡ some port)
      × ((same_string cert auto ≡ true) ⊎ (is_none o.key ≡ false))
      × (level < 5)
      × IsLevel o.log_level level
      × IsServable cert port o cfg

  check_server_lem :
      (cert port : Option CString) (o : Options) (cfg : Config)
      → check_server strtol cert port o ≡ serves cfg
      → (c : CString) × (p : CString) × (cert ≡ some c)
        × (port ≡ some p)
        × ((same_string c auto ≡ true) ⊎ (is_none o.key ≡ false))
        × IsServable c p o cfg
  unfolding check_server
  check_server_lem none port o cfg e = absurd cc
  check_server_lem (some c) none o cfg e = absurd cc
  check_server_lem (some c) (some p) o cfg e =
      elim (Bool-cases (not (same_string c auto) && is_none o.key)) [
        | inl bad ↦ absurd (cc (rw bad at e))
        | inr good ↦ (c, p, refl, refl, ground arith, check_port_lem c p o cfg (rw good at e))
      ]

  choose_level-IsLevel :
      (text : Option CString) (level : ℕ)
      → choose_level strtol text ≡ some level
      → IsLevel text level
  unfolding choose_level
  choose_level-IsLevel none level e = ground (arith, e)
  choose_level-IsLevel (some text) level e = elim (ℤ-cases (strtol text)) [
    | inl (n, read) ↦ let same : n ≡ level = ground (arith, rw read at e) in read ∙ ap pos same
    | inr (n, read) ↦ absurd (cc (rw read at e))
  ]

  choose_level_lem :
      (text : Option CString) (level : ℕ) → choose_level strtol text ≡ some level → level < 5
  unfolding choose_level
  choose_level_lem none level e = ground arith
  choose_level_lem (some text) level e = elim (ℤ-cases (strtol text)) [
    | inl (n, read) ↦ ground (arith, rw read at e)
    | inr (n, read) ↦ absurd (cc (rw read at e))
  ]

  run_options_lem :
      (chosen : Option ℕ) (args : List CString) (o : Options) (level : ℕ) (cfg : Config)
      → parse_args args no_options ≡ goes_on o
      → choose_level strtol o.log_level ≡ chosen
      → run_options strtol chosen o ≡ (level, serves cfg)
      → Chosen args level cfg
  unfolding run_options
  run_options_lem none args o level cfg parsed from e = absurd (cc (ap (λ r. r.1) e))
  run_options_lem (some l) args o level cfg parsed from e = elim (Bool-cases o.is_server) [
    | inr off ↦ absurd (cc (rw off at e))
    | inl on ↦
        let same : l ≡ level = ap (λ r. r.0) e in
        let ends : check_server strtol o.cert o.port o ≡ serves cfg =
          sym (ap (λ b. if b then check_server strtol o.cert o.port o else returns usage) on)
          ∙ ap (λ r. r.1) e in
        let (c, p, e1, e2, k, within) = check_server_lem o.cert o.port o cfg ends in
        (
          o,
          c,
          p,
          parsed,
          on,
          e1,
          e2,
          k,
          rw⁻¹ same (choose_level_lem o.log_level l from),
          rw⁻¹ same (choose_level-IsLevel o.log_level l from),
          within,
        )
  ]

  finish_main_lem :
      (p : Parsed) (args : List CString) (level : ℕ) (cfg : Config)
      → parse_args args no_options ≡ p
      → finish_main strtol p ≡ (level, serves cfg)
      → (o : Options) × (p ≡ goes_on o) × Chosen args level cfg
  unfolding finish_main
  finish_main_lem (stops x) args level cfg parsed e = absurd (cc (ap (λ r. r.1) e))
  finish_main_lem (goes_on o) args level cfg parsed e =
      (o, refl, run_options_lem (choose_level strtol o.log_level) args o level cfg parsed refl e)

  -- What has to hold for a call of wtd_transport_run, read off the arguments.
  pub record Served (args : List CString) (level : ℕ) (cfg : Config) : Type 0 where
    pub asked : Occurs server args
    pub cert : Given of_cert args (some cfg.cert)
    pub key : Given of_key args cfg.key
    pub key_or_auto : (cfg.cert ≡ 97 ∷ 117 ∷ 116 ∷ 111 ∷ []) ⊎ ((k : CString) × (cfg.key ≡ some k))
    pub port : (text : CString) × Given of_port args (some text) × (strtol text ≡ pos cfg.port)
    pub port_range : (0 < cfg.port) × (cfg.port < 65536)
    pub exec_path : Given of_exec args cfg.exec_path
    pub dir_path : Given of_dir args cfg.dir_path
    pub level_text : (text : Option CString) × Given of_level args text × IsLevel text level
    pub level_range : level < 5

  no_other_key : (key : Option CString) → is_none key ≡ false → (k : CString) × (key ≡ some k)
  no_other_key none e = cc
  no_other_key (some k) e = (k, refl)

  asked_for :
      (o : Options) (args : List CString)
      → parse_args args no_options ≡ goes_on o
      → o.is_server ≡ true
      → Occurs server args
  asked_for o args e on = elim (parse_args-server args no_options o e on) [
    | inl off ↦ absurd (cc off)
    | inr there ↦ there
  ]

  value-Given :
      (k : Choice) (args : List CString) (o : Options) (v : Option CString)
      → parse_args args no_options ≡ goes_on o
      → value k o ≡ v
      → Given k args v
  value-Given k args o v e is = rw⁻¹ is (parse_args-Given k args o e)

  -- main calls wtd_transport_run only if "--server" is among the arguments; with the certificate, key,
  -- --exec and --dir that the last argument with the prefix "--cert=", "--key=", "--exec=" or "--dir="
  -- names, the certificate being named and the three others none if no argument has the prefix;
  -- with a key, unless the certificate is "auto"; with the port that strtol reads in the last argument
  -- with "--port=", which is from 1 to 65535, so that the cast to uint16_t keeps it; and at the log
  -- level, from 0 to 4, that strtol reads in the last argument with "--log-level=", or 3.
  pub main-serves :
      (args : List CString) (level : ℕ) (cfg : Config)
      → main strtol args ≡ (level, serves cfg)
      → Served args level cfg
  unfolding main
  main-serves args level cfg e =
      let (_, _, choice) = finish_main_lem (parse_args args no_options) args level cfg refl e in
      let (o, cert, port, parsed, on, c, p, k, below, chosen, served) = choice in
      let (read, low, high, as_cert, as_key, as_exec, as_dir) = served in
      record {
        asked = asked_for o args parsed on;
        cert = value-Given of_cert args o (some cfg.cert) parsed (c ∙ ap some (sym as_cert));
        key = value-Given of_key args o cfg.key parsed (sym as_key);
        key_or_auto = elim k [
          | inl auto' ↦ inl (as_cert ∙ same_string-eq cert auto auto')
          | inr given ↦ let (text, is) = no_other_key o.key given in inr (text, as_key ∙ is)
        ];
        port = (port, value-Given of_port args o (some port) parsed p, read);
        port_range = (low, high);
        exec_path = value-Given of_exec args o cfg.exec_path parsed (sym as_exec);
        dir_path = value-Given of_dir args o cfg.dir_path parsed (sym as_dir);
        level_text = (o.log_level, value-Given of_level args o o.log_level parsed refl, chosen);
        level_range = below;
      }
