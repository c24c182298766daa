-- ===== src/Main/Values.antt =====
-- The arguments of adapters/main.c, read independently of its loop: which argument gives an option
-- its value.
use webtransportd.Common.{◌≡◌, List, [], ◌∷◌, ◌++◌, Option, none, some, All}
use webtransportd.Main.{CString, Options}

-- The options with a value, and what stands in front of it.
pub data Choice : Type 0 where
  of_cert of_key of_port of_exec of_dir of_level : Choice

abbrev pub prefix : Choice → CString
-- "--cert="
prefix of_cert = 45 ∷ 45 ∷ 99 ∷ 101 ∷ 114 ∷ 116 ∷ 61 ∷ []
-- "--key="
prefix of_key = 45 ∷ 45 ∷ 107 ∷ 101 ∷ 121 ∷ 61 ∷ []
-- "--port="
prefix of_port = 45 ∷ 45 ∷ 112 ∷ 111 ∷ 114 ∷ 116 ∷ 61 ∷ []
-- "--exec="
prefix of_exec = 45 ∷ 45 ∷ 101 ∷ 120 ∷ 101 ∷ 99 ∷ 61 ∷ []
-- "--dir="
prefix of_dir = 45 ∷ 45 ∷ 100 ∷ 105 ∷ 114 ∷ 61 ∷ []
-- "--log-level="
prefix of_level = 45 ∷ 45 ∷ 108 ∷ 111 ∷ 103 ∷ 45 ∷ 108 ∷ 101 ∷ 118 ∷ 101 ∷ 108 ∷ 61 ∷ []

-- "--server"
abbrev pub server : CString
server = 45 ∷ 45 ∷ 115 ∷ 101 ∷ 114 ∷ 118 ∷ 101 ∷ 114 ∷ []

abbrev pub value : Choice → Options → Option CString
value of_cert o = o.cert
value of_key o = o.key
value of_port o = o.port
value of_exec o = o.exec_path
value of_dir o = o.dir_path
value of_level o = o.log_level

abbrev pub set : Choice → CString → Options → Options
set of_cert v o = record o { cert = some v }
set of_key v o = record o { key = some v }
set of_port v o = record o { port = some v }
set of_exec v o = record o { exec_path = some v }
set of_dir v o = record o { dir_path = some v }
set of_level v o = record o { log_level = some v }

abbrev pub Lacks : Choice → CString → Type 0
Lacks k arg = (w : CString) → arg ≡ prefix k ++ w → ⊥

-- The last argument with the prefix gives the value; without one there is none.
abbrev pub Given : Choice → List CString → Option CString → Type 0
Given k args none = All (Lacks k) args
Given k args (some v) =
    (before : List CString) × (after : List CString) × (args ≡ before ++ ((prefix k ++ v) ∷ after))
    × All (Lacks k) after

abbrev pub Occurs : CString → List CString → Type 0
Occurs text args =
    (before : List CString) × (after : List CString) × (args ≡ before ++ (text ∷ after))
