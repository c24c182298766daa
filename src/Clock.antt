-- ===== src/Clock.antt =====
-- adapters/wtd_wincompat.c: wintimeofday, gettimeofday on Windows.
-- The 64-bit arithmetic wraps modulo 2 ^ 64; a long has 32 bits on Windows, so the casts wrap too.
pub mod Instants
use webtransportd.Common.{ℕ, ◌+◌, ◌-◌, ◌*◌, ◌/◌, ◌%◌, ◌^◌, Option, none, some, ltb, if◌then◌else◌}
use webtransportd.Common.Int.{ℤ, pos, negsuc}

-- FILETIME: 100 ns since 1601, as two words of 32 bits.
pub record FileTime : Type 0 where
  pub low : ℕ
  pub high : ℕ

pub record Timeval : Type 0 where
  pub tv_sec : ℤ
  pub tv_usec : ℤ

-- From 1601 to 1970, in 100 ns.
abbrev pub epoch : ℕ
epoch = 116444736000000000

-- The cast of an unsigned number to a long of 32 bits.
unfoldable pub to_long : ℕ → ℤ
to_long n = let w = n % 2 ^ 32 in if ltb w (2 ^ 31) then pos w else negsuc (2 ^ 32 - 1 - w)

-- What *tv is afterwards, and the return value; `ft` is what GetSystemTimePreciseAsFileTime writes.
unfoldable pub wintimeofday : FileTime → Option Timeval → ℕ × Option Timeval
unfolding to_long
wintimeofday ft none = (0, none)
wintimeofday ft (some tv) =
    let since_1601 = ft.high * 2 ^ 32 + ft.low in
    let now = (since_1601 + 2 ^ 64 - epoch) % 2 ^ 64 in
    let usec = now / 10 in
    (0, some (record { tv_sec = to_long (usec / 1000000); tv_usec = to_long (usec % 1000000) }))
