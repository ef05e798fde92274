-- ===== src/Core/Label.antt =====
-- core/src/instance.rs: the label of a content, taken from its file name. A name is the codes of its
-- characters here.
pub mod Split
pub mod Dots
use trsync.Base.{
  true, false, ℕ, zero, suc, ◌-◌, Option, none, some, List, [], ◌∷◌, length, ◌==◌, nat_eq,
  if◌then◌else◌,
}
use trsync.Base.Lines.{Text, attach, ltb, begins_with}
use trsync.Core.Types.{ContentType, file, folder, html_document}

-- `str::split` at a character
unfoldable pub split : ℕ → Text → List Text
unfolding attach
split dot [] = [] ∷ []
split dot (c ∷ s) = let rest = split dot s in if c == dot then [] ∷ rest else attach c rest

-- `ContentType::label_minus_pos`
unfoldable pub label_minus_pos : ContentType → ℕ
label_minus_pos html_document = 3
label_minus_pos file = 2
label_minus_pos folder = 2

nth : ℕ → List Text → Option Text
nth n [] = none
nth zero (part ∷ rest) = some part
nth (suc n) (part ∷ rest) = nth n rest

-- `ContentFileName::label`; `none` is the panic of an index below the first part.
unfoldable pub label : ContentType → Text → Option Text
unfolding split label_minus_pos nth
label type_ name =
    let parts = split b'.' name in
    if ltb 1 (length parts)
    then (if ltb (length parts) (label_minus_pos type_)
        then none
        else nth (length parts - label_minus_pos type_) parts)
    else some name

-- `str::replace` by the empty text; the number is that of the characters to leave out.
unfoldable pub remove_text : Text → ℕ → Text → Text
unfolding begins_with
remove_text pattern skip [] = []
remove_text pattern (suc skip) (c ∷ s) = remove_text pattern skip s
remove_text pattern zero (c ∷ s) = elim (begins_with (c ∷ s) pattern) [
  | true ↦ remove_text pattern (length pattern - 1) s
  | false ↦ c ∷ remove_text pattern zero s
]
