-- ===== src/Tests/MainRuns.antt =====
-- Runs of adapters/main.c.
use webtransportd.Common.{◌≡◌, refl, List, [], ◌∷◌, none, if◌then◌else◌}
use webtransportd.Common.Int.{ℤ, pos}
use webtransportd.Main.{CString, Config, serves, auto, same_string, parse_args, main}
use webtransportd.Main.Arguments.{Served, main-serves}

-- A strtol that reads "443", and everything else as 0.
abbrev reads_port : CString → ℤ
reads_port text = if same_string text (52 ∷ 52 ∷ 51 ∷ []) then pos 443 else pos 0

-- --server --cert=auto --port=443
abbrev arguments : List CString
arguments =
    (45 ∷ 45 ∷ 115 ∷ 101 ∷ 114 ∷ 118 ∷ 101 ∷ 114 ∷ [])
    ∷ (45 ∷ 45 ∷ 99 ∷ 101 ∷ 114 ∷ 116 ∷ 61 ∷ 97 ∷ 117 ∷ 116 ∷ 111 ∷ [])
    ∷ (45 ∷ 45 ∷ 112 ∷ 111 ∷ 114 ∷ 116 ∷ 61 ∷ 52 ∷ 52 ∷ 51 ∷ [])
    ∷ []

abbrev config : Config
config = record { cert = auto; key = none; port = 443; exec_path = none; dir_path = none }

serves_auto : main reads_port arguments ≡ (3, serves config)
unfolding main parse_args
serves_auto = refl

main-serves_example : Served reads_port arguments 3 config
main-serves_example = main-serves reads_port arguments 3 config serves_auto
