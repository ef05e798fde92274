-- ===== src/Core/Config/Items.antt =====
-- core/src/config.rs: lists that are written with commas.
use Prim.Native.Nat.{◌^◌}
use trsync.Base.{
  ℕ, ◌<◌, false, not, some, List, [], ◌∷◌, map, filter, ◌≡◌, ◌≢◌, refl, ◌∙◌, ap, arith, All, nat_eq,
  list_eq,
}
use trsync.Base.Lines.{Text, join}
use trsync.Core.Label.{split}
use trsync.Core.Label.Split.{Lacks, split-append, split_last}
use trsync.Core.Config.{is_blank, listed, parse_all, is_whitespace, between}
use trsync.Ignore.Decimal.{print, parse-print, IsNumber, print-IsNumber, print_not_empty}

-- A text that can stand between commas.
abbrev pub IsItem : Text → Type 0
IsItem s = Lacks b',' s × (is_blank s ≡ false)

split-join :
    (first : Text) (rest : List Text)
    → All IsItem (first ∷ rest)
    → split b',' (join b',' (first ∷ rest)) ≡ first ∷ rest
unfolding join
split-join first [] ((l, _), _) = split_last b',' first l
split-join first (next ∷ rest) ((l, _), h) =
    split-append b',' first (join b',' (next ∷ rest)) l ∙ ap (◌∷◌ first) (split-join next rest h)

filter-items : (items : List Text) → All IsItem items → filter (λ v. not (is_blank v)) items ≡ items
filter-items [] h = refl
filter-items (s ∷ items) ((_, b), h) = ground (arith, filter-items items h)

pub listed-join : (items : List Text) → All IsItem items → listed (join b',' items) ≡ items
unfolding listed
listed-join [] h = unfold join split is_blank in refl
listed-join (s ∷ items) h = rw (split-join s items h) (filter-items (s ∷ items) h)

IsNumber-Lacks : (s : Text) → IsNumber s → Lacks b',' s
IsNumber-Lacks [] h = tt
IsNumber-Lacks (c ∷ s) ((l, u), h) = (λ e. omega arith, IsNumber-Lacks s h)

IsNumber-is_blank : (s : Text) → IsNumber s → s ≢ [] → is_blank s ≡ false
unfolding is_blank is_whitespace between
IsNumber-is_blank [] h n = absurd (n refl)
IsNumber-is_blank (c ∷ s) ((l, u), h) n = ground arith

pub printed-IsItem : (ids : List ℕ) → All IsItem (map print ids)
printed-IsItem [] = tt
printed-IsItem (id ∷ ids) =
    let number = print-IsNumber id in
    (
      (IsNumber-Lacks (print id) number, IsNumber-is_blank (print id) number (print_not_empty id)),
      printed-IsItem ids,
    )

pub parse_all-map :
    (ids : List ℕ) → All (λ id. id < 2 ^ 32) ids → parse_all (map print ids) ≡ some ids
unfolding parse_all
parse_all-map [] h = refl
parse_all-map (id ∷ ids) (p, h) = ground (arith, parse-print id p, parse_all-map ids h)
