-- ===== src/Core/Label/Split.antt =====
-- core/src/instance.rs, core/src/config.rs: splitting a text at a character.
use trsync.Base.{ℕ, ◌≢◌, [], ◌∷◌, ◌++◌, All, ◌≡◌, refl, arith, nat_eq}
use trsync.Base.Lines.{Text, attach}
use trsync.Core.Label.{split}

abbrev pub Lacks : ℕ → Text → Type 0
Lacks separator = All (λ c. c ≢ separator)

pub split-append :
    (separator : ℕ) (part rest : Text)
    → Lacks separator part
    → split separator (part ++ (separator ∷ rest)) ≡ part ∷ split separator rest
unfolding split attach
split-append separator [] rest h = ground arith
split-append separator (c ∷ part) rest (p, h) = ground (arith, split-append separator part rest h)

pub split_last :
    (separator : ℕ) (part : Text) → Lacks separator part → split separator part ≡ part ∷ []
unfolding split attach
split_last separator [] h = refl
split_last separator (c ∷ part) (p, h) = ground (arith, split_last separator part h)
