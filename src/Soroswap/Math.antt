-- ===== src/Soroswap/Math.antt =====
-- soroswap/math.go: the decomposition of LP shares into token amounts, on decimal strings.
pub mod Shares
use lidapters.Common.{ℕ, ◌*◌, ◌/◌, Option, none, some, ◌==◌, if◌then◌else◌, ◌>>=◌}
use lidapters.Common.Int.{ℤ, pos, negsuc}
use lidapters.Common.Str.{Str}
use lidapters.Common.Decimal.{dec, set_string}

-- An error is `none`; its text is not modelled.
unsigned : ℤ → Option ℕ
unsigned (pos n) = some n
unsigned (negsuc n) = none

unfoldable pub parse_uint : Str → Option ℕ
unfolding unsigned
parse_uint s = do n ← set_string s; unsigned n

unfoldable pub pro_rata : Str → Str → Str → Option Str
pro_rata shares reserve total = do
  s ← parse_uint shares
  r ← parse_uint reserve
  t ← parse_uint total
  if t == 0 then none else some (dec (s * r / t))
