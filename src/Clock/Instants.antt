-- ===== src/Clock/Instants.antt =====
-- What wintimeofday says of an instant.
use webtransportd.Common.{ℕ, ◌+◌, ◌-◌, ◌*◌, ◌/◌, ◌%◌, ◌^◌, ◌≡◌, ◌<◌, refl, some, arith, lt→ltb}
use webtransportd.Common.Int.{pos}
use webtransportd.Clock.{FileTime, Timeval, epoch, to_long, wintimeofday}

to_long-small : (n : ℕ) → n < 2 ^ 31 → to_long n ≡ pos n
unfolding to_long
to_long-small n h =
    let same : n % 2 ^ 32 ≡ n = omega arith in rw same (rw (lt→ltb n (2 ^ 31) h) refl)

-- An instant `sec` seconds, `usec` microseconds and less than a microsecond after 1970 is
-- answered by these two numbers, up to 2 ^ 31 seconds (in January 2038).
pub wintimeofday_lem :
    (ft : FileTime) (tv : Timeval) (sec usec rest : ℕ)
    → ft.high * 2 ^ 32 + ft.low ≡ epoch + (sec * 1000000 + usec) * 10 + rest
    → usec < 1000000
    → rest < 10
    → sec < 2 ^ 31
    → wintimeofday ft (some tv) ≡ (0, some (record { tv_sec = pos sec; tv_usec = pos usec }))
unfolding wintimeofday
wintimeofday_lem ft tv sec usec rest e hu hr hs =
    let now : (ft.high * 2 ^ 32 + ft.low + 2 ^ 64 - epoch) % 2 ^ 64
        ≡ (sec * 1000000 + usec) * 10 + rest =
      omega arith in
    let us : ((sec * 1000000 + usec) * 10 + rest) / 10 ≡ sec * 1000000 + usec = omega arith in
    let s : (sec * 1000000 + usec) / 1000000 ≡ sec = omega arith in
    let u : (sec * 1000000 + usec) % 1000000 ≡ usec = omega arith in
    rw (now, us, s, u, to_long-small sec hs, to_long-small usec (omega arith)) refl
