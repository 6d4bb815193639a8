-- ===== src/Prelude/Text.antt =====
-- Facts on texts: what a common head or tail of two texts tells.
use Prim.Native.String
use Prim.Native.String.{String}
use mathlib.Core.Path.{◌≡◌}
use mathlib.Core.Logic.{◌≢◌}
use mathlib.Core.Bool.{false}
use text.Mathlib.Text.{◌==◌}
use text.Mathlib.TextEquality.{eq_iff}
use text.Mathlib.TextLemmas.{append_cancel_left, append_cancel_right}
use native.Mathlib.Omega.{arith}

infixr 65 ◌<>◌
-- Concatenation of texts.
abbrev pub ◌<>◌ : String → String → String
s <> t = String.◌++◌ s t

pub ne_of_not_equal : (s t : String) → (s == t) ≡ false → s ≢ t
ne_of_not_equal s t h = ground (arith, eq_iff s t)

pub not_equal_of_ne : (s t : String) → s ≢ t → (s == t) ≡ false
not_equal_of_ne s t h = ground (arith, eq_iff s t)

-- Two texts with one head differ if their tails do.
pub append-ne_left : (s t u : String) → t ≢ u → s <> t ≢ s <> u
append-ne_left s t u h e = h (append_cancel_left s t u e)

-- Two texts with one tail differ if their heads do.
pub append-ne_right : (s t u : String) → s ≢ t → s <> u ≢ t <> u
append-ne_right s t u h e = h (append_cancel_right s t u e)
