-- ===== src/Ignore/Utf8.antt =====
-- `as_bytes` of a text and its way back in `fs::read_to_string`, for trsync/src/ignore.rs: UTF-8, as Rust's standard
-- library encodes and checks it.
use Prim.Native.Nat.{◌*◌, ◌/◌, ◌%◌}
use trsync.Base.{
  ℕ, zero, suc, ◌+◌, ◌-◌, ◌<◌, true, false, ◌||◌, Option, none, some, List, [], ◌∷◌, ◌++◌, ◌==◌,
  nat_eq, if◌then◌else◌, ◌≡◌, refl, arith, All,
}
use trsync.Base.Lines.{Text, ltb}

abbrev pub Bytes : Type 0
Bytes = List ℕ

-- A character's bytes.
encoded : ℕ → Bytes
encoded c =
    if ltb c 128
    then c ∷ []
    else if ltb c 2048
    then (192 + c / 64) ∷ (128 + c % 64) ∷ []
    else if ltb c 65536
    then (224 + c / 4096) ∷ (128 + c / 64 % 64) ∷ (128 + c % 64) ∷ []
    else (240 + c / 262144) ∷ (128 + c / 4096 % 64) ∷ (128 + c / 64 % 64) ∷ (128 + c % 64) ∷ []

unfoldable pub as_bytes : Text → Bytes
unfolding encoded
as_bytes [] = []
as_bytes (c ∷ s) = encoded c ++ as_bytes s

-- What the first byte of a longer character says: how many follow, its bits, and the bounds of the next byte.
record Lead : Type 0 where
  following : ℕ
  bits : ℕ
  least : ℕ
  most : ℕ

lead : ℕ → Option Lead
lead b =
    if ltb b 194
    then none
    else if ltb b 224
    then some (record { following = 1; bits = b - 192; least = 128; most = 191 })
    else if b == 224
    then some (record { following = 2; bits = 0; least = 160; most = 191 })
    else if b == 237
    then some (record { following = 2; bits = 13; least = 128; most = 159 })
    else if ltb b 240
    then some (record { following = 2; bits = b - 224; least = 128; most = 191 })
    else if b == 240
    then some (record { following = 3; bits = 0; least = 144; most = 191 })
    else if ltb b 244
    then some (record { following = 3; bits = b - 240; least = 128; most = 191 })
    else if b == 244
    then some (record { following = 3; bits = 4; least = 128; most = 143 })
    else none

abbrev with_first : ℕ → Option Text → Option Text
with_first c none = none
with_first c (some s) = some (c ∷ s)

-- With the number of bytes that are still to come of a character, its bits so far and the bounds of the next one.
decode : ℕ → ℕ → ℕ → ℕ → Bytes → Option Text
unfolding lead
decode zero bits least most [] = some []
decode (suc following) bits least most [] = none
decode zero bits least most (b ∷ s) = elim (ltb b 128) [
  | true ↦ with_first b (decode 0 0 0 0 s)
  | false ↦ elim (lead b) [ none ↦ none | some l ↦ decode l.following l.bits l.least l.most s ]
]
decode (suc zero) bits least most (b ∷ s) = elim (ltb b least || ltb most b) [
  | true ↦ none
  | false ↦ with_first (bits * 64 + (b - 128)) (decode 0 0 0 0 s)
]
decode (suc (suc following)) bits least most (b ∷ s) = elim (ltb b least || ltb most b) [
  | true ↦ none
  | false ↦ decode (suc following) (bits * 64 + (b - 128)) 128 191 s
]

-- A text of a file's bytes, where they are one.
unfoldable pub from_utf8 : Bytes → Option Text
unfolding decode
from_utf8 bytes = decode 0 0 0 0 bytes

abbrev pub IsAscii : Text → Type 0
IsAscii = All (λ c. c < 128)

pub as_bytes-ascii : (s : Text) → IsAscii s → as_bytes s ≡ s
unfolding as_bytes encoded
as_bytes-ascii [] h = refl
as_bytes-ascii (c ∷ s) (p, h) = ground (arith, as_bytes-ascii s h)

pub from_utf8-ascii : (s : Text) → IsAscii s → from_utf8 s ≡ some s
unfolding from_utf8 decode
from_utf8-ascii [] h = refl
from_utf8-ascii (c ∷ s) (p, h) = ground (arith, from_utf8-ascii s h)

e_acute : from_utf8 (as_bytes (233 ∷ 35 ∷ [])) ≡ some (233 ∷ 35 ∷ [])
unfolding from_utf8 as_bytes decode encoded lead nat_eq
e_acute = refl

clef : from_utf8 (as_bytes (119070 ∷ 8364 ∷ [])) ≡ some (119070 ∷ 8364 ∷ [])
unfolding from_utf8 as_bytes decode encoded lead nat_eq
clef = refl

cut_short : from_utf8 (35 ∷ 195 ∷ []) ≡ none
unfolding from_utf8 decode lead nat_eq
cut_short = refl
