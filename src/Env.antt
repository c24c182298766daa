-- ===== src/Env.antt =====
-- adapters/env.h and adapters/env.c: the environment block of the child.
-- A C string is the list of its bytes before the NUL. malloc, calloc, realloc and strdup are answered
-- by `memory`, which is asked with the number of requests so far; `live` counts the blocks that are
-- allocated and not freed. A store behind the end of the block is a fault.
pub mod Build
use webtransportd.Common.{
  ℕ, zero, suc, ◌+◌, ◌-◌, ◌*◌, Bool, true, false, ◌&&◌, ◌||◌, List, [], ◌∷◌, ◌++◌, Option, none,
  some, ◌==◌, leb, ltb, if◌then◌else◌, length,
}

abbrev pub CString : Type 0
CString = List ℕ

pub record Memory : Type 0 where
  pub asked : ℕ
  pub live : ℕ

-- `*p_envp` and `*p_cap`; `*p_count` is the number of entries.
pub record EnvBlock : Type 0 where
  pub entries : List CString
  pub cap : ℕ

-- What env_append and the loops over it do: the block grew, or a request for memory failed.
pub data Appended : Type 0 where
  appended failed : EnvBlock → Memory → Appended
  fault : Appended

-- What follows where nothing failed.
abbrev pub and_then : (EnvBlock → Memory → Appended) → Appended → Appended
and_then f (appended env m) = f env m
and_then f (failed env m) = failed env m
and_then f fault = fault

-- wtd_env_request_t
pub record EnvRequest : Type 0 where
  pub remote_addr : Option CString
  pub remote_port : Option CString
  pub path : Option CString
  pub authority : Option CString
  pub version : Option CString

-- The keys "WEBTRANSPORT_REMOTE_ADDR" and so on.
pub record EnvKeys : Type 0 where
  pub remote_addr : CString
  pub remote_port : CString
  pub path : CString
  pub authority : CString
  pub version : CString

abbrev pub is_empty : CString → Bool
is_empty [] = true
is_empty (c ∷ s) = false

abbrev pub is_blank : ℕ → Bool
is_blank c = c == 32 || c == 9

-- The text "key=value", where a NULL value is "".
abbrev pub key_value : CString → Option CString → CString
key_value key none = key ++ 61 ∷ []
key_value key (some value) = key ++ 61 ∷ value

unfoldable pub trim_start : CString → CString
trim_start [] = []
trim_start (c ∷ s) = let rest = trim_start s in if is_blank c then rest else c ∷ s

unfoldable pub trim_end : CString → CString
trim_end [] = []
trim_end (c ∷ s) = let rest = trim_end s in if is_blank c && is_empty rest then [] else c ∷ rest

unfoldable pub trim : CString → CString
unfolding trim_start trim_end
trim s = trim_end (trim_start s)

abbrev pub grow_first : ℕ → List CString → List CString
grow_first c [] = (c ∷ []) ∷ []
grow_first c (w ∷ ws) = (c ∷ w) ∷ ws

-- The runs between the commas, the empty ones included.
unfoldable pub split_commas : CString → List CString
split_commas [] = [] ∷ []
split_commas (c ∷ s) = let rest = split_commas s in if c == 44 then [] ∷ rest else grow_first c rest

-- What the calls of strtok_r hand out.
unfoldable pub tokens : List CString → List CString
tokens [] = []
tokens (w ∷ ws) = let rest = tokens ws in if is_empty w then rest else w ∷ rest

-- The entries of every child, with the values of the request.
abbrev pub fixed : EnvKeys → EnvRequest → List (CString × Option CString)
fixed keys req =
    (keys.remote_addr, req.remote_addr)
    ∷ (keys.remote_port, req.remote_port)
    ∷ (keys.path, req.path)
    ∷ (keys.authority, req.authority)
    ∷ (keys.version, req.version)
    ∷ []

-- The copy of the list is freed when the loop over it ends, also when it fails.
abbrev pub free_list_copy : Appended → Appended
free_list_copy (appended env m) = appended env (record m { live = m.live - 1 })
free_list_copy (failed env m) = failed env (record m { live = m.live - 1 })
free_list_copy fault = fault

module _ (memory : ℕ → Bool) where
  unfoldable pub kv_alloc : CString → Option CString → Memory → Option CString × Memory
  kv_alloc key value m =
      let asked = suc m.asked in
      if memory m.asked
      then (some (key_value key value), record { asked = asked; live = suc m.live })
      else (none, record { asked = asked; live = m.live })

  -- `(*p_envp)[(*p_count)++] = entry; (*p_envp)[*p_count] = NULL;`
  unfoldable pub env_store : CString → EnvBlock → Memory → Appended
  env_store entry env m =
      if ltb (length env.entries + 1) env.cap
      then appended (record env { entries = env.entries ++ entry ∷ [] }) m
      else fault

  unfoldable pub env_append : Option CString × Memory → EnvBlock → Appended
  unfolding env_store
  env_append (none, m) env = failed env m
  env_append (some entry, m) env =
      let asked = suc m.asked in
      let new_cap = if env.cap == 0 then 8 else env.cap * 2 in
      if leb env.cap (length env.entries + 1)
      then (if memory m.asked
          then env_store entry (record env { cap = new_cap }) (record m { asked = asked })
          else failed env (record { asked = asked; live = m.live - 1 }))
      else env_store entry env m

  -- The chain of `env_append(…) != 0 || …`.
  unfoldable pub append_all : List (CString × Option CString) → EnvBlock → Memory → Appended
  unfolding env_append kv_alloc
  append_all [] env m = appended env m
  append_all ((key, value) ∷ more) env m =
      and_then (append_all more) (env_append (kv_alloc key value m) env)

  -- The loop over the names of --passenv.
  unfoldable pub pass_all : (CString → Option CString) → List CString → EnvBlock → Memory → Appended
  unfolding env_append kv_alloc trim
  pass_all getenv [] env m = appended env m
  pass_all getenv (tok ∷ more) env m =
      let name = trim tok in
      let skipped = pass_all getenv more env m in
      if is_empty name then skipped else elim (getenv name) [
        | none ↦ skipped
        | some value ↦
            and_then (pass_all getenv more) (env_append (kv_alloc name (some value) m) env)
      ]

  unfoldable pub wtd_env_free : EnvBlock → Memory → Memory
  wtd_env_free env m = record m { live = m.live - length env.entries - 1 }

  -- How wtd_env_build ends: with the block or NULL; the block of calloc has room for 6 pointers.
  unfoldable pub finish_build : Appended → Option (Option EnvBlock × Memory)
  unfolding wtd_env_free
  finish_build (appended env m) = some (some env, m)
  finish_build (failed env m) = some (none, wtd_env_free env m)
  finish_build fault = none

  -- The part of wtd_env_build under `passenv != NULL && passenv[0] != '\0'`.
  unfoldable pub pass_env : (CString → Option CString) → CString → EnvBlock → Memory → Appended
  unfolding pass_all tokens split_commas
  pass_env getenv passenv env m =
      let asked = suc m.asked in
      if is_empty passenv
      then appended env m
      else if memory m.asked
      then free_list_copy (
          pass_all getenv (tokens (split_commas passenv)) env
            (record { asked = asked; live = suc m.live }))
      else failed env (record { asked = asked; live = m.live })

  -- wtd_env_build: the block or NULL and the memory; `none` is a store outside the block. A passenv
  -- that is NULL is [].
  unfoldable pub wtd_env_build :
      (CString → Option CString)
      → EnvKeys
      → EnvRequest
      → CString
      → Memory
      → Option (Option EnvBlock × Memory)
  unfolding append_all finish_build pass_env
  wtd_env_build getenv keys req passenv m =
      let m' : Memory = record { asked = suc m.asked; live = suc m.live } in
      if memory m.asked
      then finish_build (
          and_then (pass_env getenv passenv)
            (append_all (fixed keys req) (record { entries = []; cap = 6 }) m'))
      else some (none, record { asked = suc m.asked; live = m.live })
