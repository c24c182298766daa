-- ===== src/Main.antt =====
-- adapters/main.c: the command line of the daemon and the self-test; and adapters/log.c.
-- argv[1..] is a list of strings, a string is the list of its bytes. strtol(3) is the parameter
-- `strtol`. What is printed is I/O and left out, except for the lines of wtd_log. How main ends is
-- an `Exit`: a code, or a call of wtd_transport_run, whose result main returns.
pub mod Selftest
pub mod Values
pub mod Reading
pub mod Parsing
pub mod Arguments
use webtransportd.Common.{
  ℕ, zero, suc, ◌+◌, ◌-◌, ◌%◌, ◌^◌, Bool, true, false, not, ◌&&◌, ◌||◌, List, [], ◌∷◌, ◌++◌, Option,
  none, some, ◌==◌, ltb, if◌then◌else◌, length,
}
use webtransportd.Common.Int.{ℤ, pos, negsuc, is_negative}
use webtransportd.Common.Memory.{◌>>=◌, load_all}
use webtransportd.Frame.{Status, ok, fail, Decoded, wtd_frame_encode, wtd_frame_decode}

abbrev pub CString : Type 0
CString = List ℕ

-- strcmp(…) == 0, and memcmp(…) == 0 on as many bytes
abbrev pub same_string : CString → CString → Bool
same_string [] [] = true
same_string [] (c ∷ s) = false
same_string (c ∷ s) [] = false
same_string (c ∷ s) (d ∷ t) = c == d && same_string s t

-- "[ERROR] ", "[WARN] ", "[INFO] " and "[TRACE] "
unfoldable pub level_prefix : ℕ → CString
level_prefix level =
    if level == 1
    then 91 ∷ 69 ∷ 82 ∷ 82 ∷ 79 ∷ 82 ∷ 93 ∷ 32 ∷ []
    else if level == 2
    then 91 ∷ 87 ∷ 65 ∷ 82 ∷ 78 ∷ 93 ∷ 32 ∷ []
    else if level == 3
    then 91 ∷ 73 ∷ 78 ∷ 70 ∷ 79 ∷ 93 ∷ 32 ∷ []
    else if level == 4
    then 91 ∷ 84 ∷ 82 ∷ 65 ∷ 67 ∷ 69 ∷ 93 ∷ 32 ∷ []
    else []

-- The level of a fresh daemon, WTD_LOG_INFO.
abbrev pub initial_level : ℕ
initial_level = 3

-- wtd_log_set_level: the new s_level
abbrev pub wtd_log_set_level : ℕ → ℕ → ℕ
wtd_log_set_level s_level level = level

-- wtd_log at the level s_level: the bytes that reach stderr for a formatted text.
unfoldable pub wtd_log : ℕ → ℕ → CString → CString
unfolding level_prefix
wtd_log s_level level text =
    if ltb s_level level then [] else level_prefix level ++ (text ++ 10 ∷ [])

-- "test"
abbrev pub test_text : CString
test_text = 116 ∷ 101 ∷ 115 ∷ 116 ∷ []

-- What cmd_selftest does with the decoder's answer.
unfoldable pub check_decoded : List ℕ → Option (Status Decoded) → Option ℕ
check_decoded buf none = none
check_decoded buf (some (fail e)) = some 1
check_decoded buf (some (ok d)) =
    if d.payload_len == length test_text
    then (do
      decoded ← load_all buf d.payload d.payload_len
      some (if same_string decoded test_text then 0 else 1))
    else some 1

-- What cmd_selftest does with the encoder's answer: it decodes the first out_len bytes.
unfoldable pub check_encoded : Option (Status ℕ × List ℕ) → Option ℕ
unfolding check_decoded
check_encoded none = none
check_encoded (some (fail e, buf)) = some 1
check_encoded (some (ok out_len, buf)) =
    let answer = check_decoded buf (wtd_frame_decode buf out_len) in
    if out_len == 0 then some 1 else answer

-- cmd_selftest over what its 256 bytes of stack held before; `none` is an access outside them.
unfoldable pub cmd_selftest : List ℕ → Option ℕ
unfolding check_encoded
cmd_selftest buf = check_encoded (wtd_frame_encode 0 test_text (length test_text) buf 256)

-- The local variables of main that the arguments set.
pub record Options : Type 0 where
  pub is_server : Bool
  pub cert : Option CString
  pub key : Option CString
  pub port : Option CString
  pub exec_path : Option CString
  pub dir_path : Option CString
  pub log_level : Option CString

abbrev pub no_options : Options
no_options = record {
  is_server = false;
  cert = none;
  key = none;
  port = none;
  exec_path = none;
  dir_path = none;
  log_level = none;
}

-- parse_arg_value: what follows the prefix, where the argument has it
unfoldable pub parse_arg_value : CString → CString → Option CString
parse_arg_value arg [] = some arg
parse_arg_value [] (p ∷ prefix) = none
parse_arg_value (c ∷ arg) (p ∷ prefix) =
    let rest = parse_arg_value arg prefix in if c == p then rest else none

-- wtd_transport_config_t
pub record Config : Type 0 where
  pub cert : CString
  pub key : Option CString
  pub port : ℕ
  pub exec_path : Option CString
  pub dir_path : Option CString

-- How main ends without a server: with 0 after --version or --help, with the self-test's code, with
-- 2 after the usage text or an error.
pub data Stop : Type 0 where
  version help selftest usage : Stop

-- How main ends: so, or with what wtd_transport_run returns.
pub data Exit : Type 0 where
  returns : Stop → Exit
  serves : Config → Exit

-- One argument: the options after it, or the end of main.
pub data Parsed : Type 0 where
  goes_on : Options → Parsed
  stops : Stop → Parsed

-- The chain of parse_arg_value calls: the first prefix that fits decides, --cert=, --key=, --port=,
-- --exec=, --dir=, --log-level=; another argument is unknown.
unfoldable pub parse_values : CString → Options → Parsed
unfolding parse_arg_value
parse_values arg o = elim (parse_arg_value arg (45 ∷ 45 ∷ 99 ∷ 101 ∷ 114 ∷ 116 ∷ 61 ∷ [])) [
  | some v ↦ goes_on (record o { cert = some v })
  | none ↦ elim (parse_arg_value arg (45 ∷ 45 ∷ 107 ∷ 101 ∷ 121 ∷ 61 ∷ [])) [
    | some v ↦ goes_on (record o { key = some v })
    | none ↦ elim (parse_arg_value arg (45 ∷ 45 ∷ 112 ∷ 111 ∷ 114 ∷ 116 ∷ 61 ∷ [])) [
      | some v ↦ goes_on (record o { port = some v })
      | none ↦ elim (parse_arg_value arg (45 ∷ 45 ∷ 101 ∷ 120 ∷ 101 ∷ 99 ∷ 61 ∷ [])) [
        | some v ↦ goes_on (record o { exec_path = some v })
        | none ↦ elim (parse_arg_value arg (45 ∷ 45 ∷ 100 ∷ 105 ∷ 114 ∷ 61 ∷ [])) [
          | some v ↦ goes_on (record o { dir_path = some v })
          | none ↦
              elim (parse_arg_value arg
                (45 ∷ 45 ∷ 108 ∷ 111 ∷ 103 ∷ 45 ∷ 108 ∷ 101 ∷ 118 ∷ 101 ∷ 108 ∷ 61 ∷ [])) [
                  | some v ↦ goes_on (record o { log_level = some v })
                  | none ↦ stops usage
                ]
        ]
      ]
    ]
  ]
]

-- The tests on one argument: --version, --selftest, --help, -h, --server, then the values.
unfoldable pub parse_arg : CString → Options → Parsed
unfolding parse_values
parse_arg arg o =
    if same_string arg (45 ∷ 45 ∷ 118 ∷ 101 ∷ 114 ∷ 115 ∷ 105 ∷ 111 ∷ 110 ∷ [])
    then stops version
    else if same_string arg (45 ∷ 45 ∷ 115 ∷ 101 ∷ 108 ∷ 102 ∷ 116 ∷ 101 ∷ 115 ∷ 116 ∷ [])
    then stops selftest
    else if same_string arg (45 ∷ 45 ∷ 104 ∷ 101 ∷ 108 ∷ 112 ∷ [])
        || same_string arg (45 ∷ 104 ∷ [])
    then stops help
    else if same_string arg (45 ∷ 45 ∷ 115 ∷ 101 ∷ 114 ∷ 118 ∷ 101 ∷ 114 ∷ [])
    then goes_on (record o { is_server = true })
    else parse_values arg o

abbrev pub and_parse : (Options → Parsed) → Parsed → Parsed
and_parse f (goes_on o) = f o
and_parse f (stops e) = stops e

-- The loop over argv.
unfoldable pub parse_args : List CString → Options → Parsed
unfolding parse_arg
parse_args [] o = goes_on o
parse_args (arg ∷ args) o = and_parse (parse_args args) (parse_arg arg o)

-- `z > n`
abbrev pub exceeds : ℤ → ℕ → Bool
exceeds (pos z) n = ltb n z
exceeds (negsuc z) n = false

-- "auto"
abbrev pub auto : CString
auto = 97 ∷ 117 ∷ 116 ∷ 111 ∷ []

-- The value of a number that is not negative.
abbrev pub magnitude : ℤ → ℕ
magnitude (pos z) = z
magnitude (negsuc z) = 0

abbrev pub is_none : Option CString → Bool
is_none none = true
is_none (some s) = false

module _ (strtol : CString → ℤ) where
  -- The check of --log-level: the new level, or none where main returns 2.
  unfoldable pub choose_level : Option CString → Option ℕ
  choose_level none = some initial_level
  choose_level (some text) =
      let level = strtol text in
      if is_negative level || exceeds level 4
      then none
      else some (wtd_log_set_level initial_level (magnitude level))

  -- The check of the port's value, and the call of wtd_transport_run.
  unfoldable pub check_port : CString → CString → Options → Exit
  check_port cert port_str o =
      let port = strtol port_str in
      if not (exceeds port 0) || exceeds port 65535
      then returns usage
      else serves (record {
        cert = cert;
        key = o.key;
        port = magnitude port % 2 ^ 16;
        exec_path = o.exec_path;
        dir_path = o.dir_path;
      })

  -- The part of main under `if (is_server)`, with `cert` and `port_str`.
  unfoldable pub check_server : Option CString → Option CString → Options → Exit
  unfolding check_port
  check_server none port o = returns usage
  check_server (some cert) none o = returns usage
  check_server (some cert) (some port) o =
      if not (same_string cert auto) && is_none o.key then returns usage else check_port cert port o

  -- main from the level on.
  unfoldable pub run_options : Option ℕ → Options → ℕ × Exit
  unfolding check_server
  run_options none o = (initial_level, returns usage)
  run_options (some level) o =
      (level, if o.is_server then check_server o.cert o.port o else returns usage)

  -- main after the loop: the level that it leaves and how it ends.
  unfoldable pub finish_main : Parsed → ℕ × Exit
  unfolding choose_level run_options
  finish_main (stops e) = (initial_level, returns e)
  finish_main (goes_on o) = run_options (choose_level o.log_level) o

  unfoldable pub main : List CString → ℕ × Exit
  unfolding finish_main parse_args
  main args = finish_main (parse_args args no_options)
