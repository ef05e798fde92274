-- ===== src/Base/Text.antt =====
-- `str::ends_with`, which the text library lacks.
use Prim.Native.String.{String}
use mathlib.Core.Bool.{Bool, ◌||◌}
use text.Mathlib.Text.{◌==◌}

unfoldable pub ends_with : String → String → Bool
ends_with String.[] t = String.[] == t
ends_with (String.◌∷◌ c s) t = String.◌∷◌ c s == t || ends_with s t
