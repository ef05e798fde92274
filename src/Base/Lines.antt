-- ===== src/Base/Lines.antt =====
-- Texts that are taken apart by character: lists of codes, Rust's `str::lines` and `starts_with`.
use Prim.Native.Nat.{ℕ, zero, suc, compare, Ordering}
use Prim.Native.Char.{code}
use Prim.Native.String.{String}
use mathlib.Core.Bool.{Bool, true, false, ◌&&◌}
use mathlib.Core.List.{List, [], ◌∷◌, ◌++◌}
use trsync.Base.Equality.{◌==◌, nat_eq, if◌then◌else◌}

-- The codes of the characters of a text.
abbrev pub Text : Type 0
Text = List ℕ

abbrev pub codes : String → Text
codes String.[] = []
codes (String.◌∷◌ c s) = code c ∷ codes s

abbrev pub ltb : ℕ → ℕ → Bool
ltb a b = elim (compare a b) [ Ordering.lt ↦ true | _ ↦ false ]

starts_line : Text → Bool
starts_line [] = false
starts_line (c ∷ s) = c == b'\n'

unfoldable pub attach : ℕ → List Text → List Text
attach c [] = (c ∷ []) ∷ []
attach c (line ∷ rest) = (c ∷ line) ∷ rest

-- `str::lines`: a line ends by a line feed, with or without a carriage return before it.
unfoldable pub lines : Text → List Text
unfolding starts_line attach
lines [] = []
lines (c ∷ s) =
    let rest = lines s in
    if c == b'\n' then [] ∷ rest else if c == b'\r' && starts_line s then rest else attach c rest

-- `[String]::join`, by a character
unfoldable pub join : ℕ → List Text → Text
join separator [] = []
join separator (line ∷ []) = line
join separator (line ∷ next ∷ rest) = line ++ (separator ∷ join separator (next ∷ rest))

unfoldable pub drop : ℕ → Text → Text
drop zero s = s
drop (suc n) [] = []
drop (suc n) (c ∷ s) = drop n s

unfoldable pub begins_with : Text → Text → Bool
begins_with s [] = true
begins_with [] (c ∷ prefix) = false
begins_with (d ∷ s) (c ∷ prefix) = d == c && begins_with s prefix
