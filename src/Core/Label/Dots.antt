-- ===== src/Core/Label/Dots.antt =====
-- core/src/instance.rs: the label of a name with dots.
use trsync.Base.{none, some, [], ◌∷◌, ◌++◌, ◌≡◌, refl, nat_eq}
use trsync.Base.Lines.{Text}
use trsync.Core.Types.{file, folder, html_document}
use trsync.Core.Label.Split.{Lacks, split-append, split_last}
use trsync.Core.Label.{split, label, label_minus_pos}

abbrev pub NoDot : Text → Type 0
NoDot = Lacks b'.'

three_parts :
    (a b c : Text)
    → NoDot a
    → NoDot b
    → NoDot c
    → split b'.' (a ++ (b'.' ∷ (b ++ (b'.' ∷ c)))) ≡ a ∷ b ∷ c ∷ []
three_parts a b c ha hb hc =
    rw (split-append b'.' a (b ++ (b'.' ∷ c)) ha, split-append b'.' b c hb, split_last b'.' c hc)
      refl

two_parts : (a b : Text) → NoDot a → NoDot b → split b'.' (a ++ (b'.' ∷ b)) ≡ a ∷ b ∷ []
two_parts a b ha hb = rw (split-append b'.' a b ha, split_last b'.' b hb) refl

-- Of a name with two dots, a file or a folder gets the middle part as its label, without what is in front of
-- it, and only a note the first part. Of a name with one dot a folder too gets the first part alone, and for a
-- note the label panics.
label-dots :
    (a b c : Text)
    → NoDot a
    → NoDot b
    → NoDot c
    → (label file (a ++ (b'.' ∷ (b ++ (b'.' ∷ c)))) ≡ some b)
      × (label folder (a ++ (b'.' ∷ (b ++ (b'.' ∷ c)))) ≡ some b)
      × (label html_document (a ++ (b'.' ∷ (b ++ (b'.' ∷ c)))) ≡ some a)
      × (label folder (a ++ (b'.' ∷ b)) ≡ some a)
      × (label html_document (a ++ (b'.' ∷ b)) ≡ none)
unfolding label label_minus_pos
label-dots a b c ha hb hc =
    let three = three_parts a b c ha hb hc in
    let two = two_parts a b ha hb in
    (
      rw (label, three) refl,
      rw (label, three) refl,
      rw (label, three) refl,
      rw (label, two) refl,
      rw (label, two) refl,
    )
