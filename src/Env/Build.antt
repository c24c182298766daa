-- ===== src/Env/Build.antt =====
-- The environment block that wtd_env_build returns, and its memory.
use webtransportd.Common.{
  ℕ, ◌+◌, ◌≡◌, ◌<◌, Bool, true, false, List, [], ◌∷◌, Option, none, some, if◌then◌else◌, length,
}
use webtransportd.Env.{
  CString, Memory, EnvBlock, Appended, appended, failed, fault, is_empty, key_value, trim,
  split_commas, tokens,
}

-- The block is as large as its entries and the NULL behind them need, and all that is allocated are
-- the block, its entries, and `extra` blocks more.
pub record IsBlock (extra : ℕ) (env : EnvBlock) (m : Memory) : Type 0 where
  pub roomy : length env.entries < env.cap
  pub counted : m.live ≡ length env.entries + 1 + extra

-- The texts of a list of entries.
abbrev pub texts : List (CString × Option CString) → List CString
texts [] = []
texts ((key, value) ∷ more) = key_value key value ∷ texts more

-- The entries for the names of --passenv that are set on the host.
abbrev pub passed : (CString → Option CString) → List CString → List CString
passed getenv [] = []
passed getenv (tok ∷ more) =
    let later = passed getenv more in
    if is_empty (trim tok) then later else elim (getenv (trim tok)) [
      | none ↦ later
      | some value ↦ key_value (trim tok) (some value) ∷ later
    ]

-- The names that a --passenv value lists.
abbrev pub names : CString → List CString
names passenv = tokens (split_commas passenv)

module _ (memory : ℕ → Bool) where
  -- A run that is to leave the entries `wanted`: it does, or a request for memory is refused and the block is still whole.
  abbrev pub Leaves : ℕ → List CString → Appended → Type 0
  Leaves extra wanted (appended env m) = (env.entries ≡ wanted) × IsBlock extra env m
  Leaves extra wanted (failed env m) = IsBlock extra env m × ((n : ℕ) × (memory n ≡ false))
  Leaves extra wanted fault = true ≡ false

  -- What a finished build returns and what it has allocated.
  abbrev pub Built : ℕ → List CString → Option (Option EnvBlock × Memory) → Type 0
  Built live wanted none = true ≡ false
  Built live wanted (some (some env, m)) = (env.entries ≡ wanted) × IsBlock live env m
  Built live wanted (some (none, m)) = (m.live ≡ live) × ((n : ℕ) × (memory n ≡ false))
