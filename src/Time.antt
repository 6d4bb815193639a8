-- ===== src/Time.antt =====
-- Points in time as nanoseconds since the epoch, and Go's `time.Duration`, an int64 of nanoseconds.
use hcvault_mashery_api_auth.Prelude.{ℕ, ℤ, ◌+ℤ◌, ◌-ℤ◌, scale, floor_div, wrap64}

abbrev pub second : ℕ
second = 1000000000

abbrev pub millisecond : ℕ
millisecond = 1000000

-- `t.Unix()`
unfoldable pub unix : ℤ → ℤ
unfolding floor_div
unix t = floor_div t second

-- `time.Unix(s, 0)`
unfoldable pub from_unix : ℤ → ℤ
unfolding scale
from_unix s = scale second s

-- Sums, differences and products of int64 wrap around.
unfoldable pub add64 : ℤ → ℤ → ℤ
unfolding wrap64 ◌+ℤ◌
add64 a b = wrap64 (a +ℤ b)

unfoldable pub sub64 : ℤ → ℤ → ℤ
unfolding wrap64 ◌-ℤ◌
sub64 a b = wrap64 (a -ℤ b)

unfoldable pub scale64 : ℕ → ℤ → ℤ
unfolding wrap64 scale
scale64 k a = wrap64 (scale k a)
