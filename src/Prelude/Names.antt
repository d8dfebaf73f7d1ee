-- ===== src/Prelude/Names.antt =====
-- Tool names and other short texts: the native strings, and `slices.Contains` on them.
use Prim.Native.String.{String}
use mathlib.Core.Path.{◌≡◌}
use mathlib.Core.Bool.{Bool, true, false, ◌||◌}
use mathlib.Core.List.{List, [], ◌∷◌}
use text.Mathlib.Text.{◌==◌ as str_eq}
use text.Mathlib.TextPositions.{eq_refl}

-- slices.Contains
abbrev pub contains : List String → String → Bool
contains [] a = false
contains (x ∷ xs) a = str_eq x a || contains xs a

pub str_eq_refl : (a : String) → str_eq a a ≡ true
str_eq_refl a = eq_refl a
