-- ===== src/Tests/ClockRuns.antt =====
-- A run of adapters/wtd_wincompat.c.
use webtransportd.Common.{◌+◌, ◌%◌, ◌/◌, ◌^◌, ◌≡◌, refl, arith, some}
use webtransportd.Common.Int.{pos}
use webtransportd.Clock.{FileTime, Timeval, epoch, wintimeofday}
use webtransportd.Clock.Instants.{wintimeofday_lem}

-- One second and a half after 1970, and 700 ns.
abbrev instant : FileTime
instant = record { low = (epoch + 15000007) % 2 ^ 32; high = (epoch + 15000007) / 2 ^ 32 }

abbrev nothing : Timeval
nothing = record { tv_sec = pos 0; tv_usec = pos 0 }

wintimeofday_lem_example :
    wintimeofday instant (some nothing)
    ≡ (0, some (record { tv_sec = pos 1; tv_usec = pos 500000 }))
wintimeofday_lem_example =
    wintimeofday_lem instant nothing 1 500000 7 refl (omega arith) (omega arith) (omega arith)
