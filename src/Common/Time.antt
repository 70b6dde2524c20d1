-- ===== src/Common/Time.antt =====
-- Points in time, in whole microseconds of UTC, which is the resolution of Python's `datetime`,
-- counted from its first moment, the start of the year 1.
use Prim.Native.Nat.{ℕ, ◌*◌}
use mathlib.Core.Bool.{Bool}
use project_vpn.Common.Tests.{leb}

abbrev pub Instant : Type 0
Instant = ℕ

-- `timedelta(seconds=n)`
abbrev pub seconds : ℕ → ℕ
seconds n = n * 1000000

-- `timedelta(days=n)`
abbrev pub days : ℕ → ℕ
days n = n * 86400000000

-- `datetime.max`, the end of the year 9999
abbrev pub latest : Instant
latest = 315537897599999999

-- Whether a sum of a `datetime` and a `timedelta` is a `datetime`; Python raises OverflowError if not.
unfoldable pub fits : Instant → Bool
fits at = leb at latest
