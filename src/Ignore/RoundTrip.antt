-- ===== src/Ignore/RoundTrip.antt =====
-- trsync/src/ignore.rs: what `write` leaves is read back.
use Prim.Native.Nat.{◌^◌}
use mathlib.Core.List.{append-nil}
use trsync.Base.{
  ℕ, zero, suc, ◌≤◌, ◌<◌, some, List, [], ◌∷◌, ◌++◌, map, length, length-append, ok, All, ◌≡◌, refl,
  arith, nat_eq, ap, ◌∙◌,
}
use trsync.Base.Lines.{Text, attach, lines, join, drop}
use trsync.Core.Types.{ContentId}
use trsync.Ignore.Decimal.{print, IsPlain, IsNumber, parse-print, print-IsPlain, print-IsNumber}
use trsync.Ignore.Utf8.{Bytes, as_bytes, IsAscii, as_bytes-ascii, from_utf8-ascii}
use trsync.Ignore.{
  Ignore, read_line, read_line, read_lines, read, read_to_string, of_content, try_from, line_of,
  to_string, push, overwrite, write,
}

-- The identifiers are those of an `i32`.
abbrev pub IsI32 : List ContentId → Type 0
IsI32 = All (λ id. id < 2 ^ 32)

lines-append :
    (line rest : Text) → IsPlain line → lines (line ++ (b'\n' ∷ rest)) ≡ line ∷ lines rest
unfolding lines attach nat_eq
lines-append [] rest h = refl
lines-append (c ∷ line) rest (p, h) = ground (arith, lines-append line rest h)

lines_last : (c : ℕ) (line : Text) → IsPlain (c ∷ line) → lines (c ∷ line) ≡ (c ∷ line) ∷ []
unfolding lines attach
lines_last c [] (p, h) = ground arith
lines_last c (d ∷ line) (p, h) = ground (arith, lines_last d line h)

lines-join : (ids : List ContentId) → lines (join b'\n' (map line_of ids)) ≡ map line_of ids
unfolding join
lines-join [] = unfold lines in refl
lines-join (id ∷ []) = lines_last b'#' (print id) (omega arith, print-IsPlain id)
lines-join (id ∷ next ∷ rest) =
    rw
      (lines-append (line_of id) (join b'\n' (map line_of (next ∷ rest)))
        (omega arith, print-IsPlain id))
      (ap (λ ls. line_of id ∷ ls) (lines-join (next ∷ rest)))

read_line-line_of : (id : ContentId) → id < 2 ^ 32 → read_line (line_of id) ≡ some id
unfolding read_line nat_eq
read_line-line_of id h = parse-print id h

read_lines-map : (ids : List ContentId) → IsI32 ids → read_lines (map line_of ids) ≡ ids
unfolding read_lines
read_lines-map [] h = refl
read_lines-map (id ∷ ids) (p, h) =
    rw (read_lines, read_line-line_of id p) (ap (λ xs. id ∷ xs) (read_lines-map ids h))

read-to_string : (ignore : Ignore) → IsI32 ignore.content_ids → read (to_string ignore) ≡ ignore
unfolding read to_string
read-to_string ignore h =
    rw (lines-join ignore.content_ids, read_lines-map ignore.content_ids h) refl

number-IsAscii : (s : Text) → IsNumber s → IsAscii s
number-IsAscii [] h = tt
number-IsAscii (c ∷ s) (p, h) = (omega (arith, p), number-IsAscii s h)

append-IsAscii : (s t : Text) → IsAscii s → IsAscii t → IsAscii (s ++ t)
append-IsAscii [] t h k = k
append-IsAscii (c ∷ s) t (p, h) k = (p, append-IsAscii s t h k)

line_of-IsAscii : (id : ContentId) → IsAscii (line_of id)
line_of-IsAscii id = (omega arith, number-IsAscii (print id) (print-IsNumber id))

join-IsAscii : (ids : List ContentId) → IsAscii (join b'\n' (map line_of ids))
unfolding join
join-IsAscii [] = tt
join-IsAscii (id ∷ []) = line_of-IsAscii id
join-IsAscii (id ∷ next ∷ rest) =
    append-IsAscii (line_of id) (b'\n' ∷ join b'\n' (map line_of (next ∷ rest)))
      (line_of-IsAscii id) (omega arith, join-IsAscii (next ∷ rest))

to_string-IsAscii : (ignore : Ignore) → IsAscii (to_string ignore)
unfolding to_string
to_string-IsAscii ignore = join-IsAscii ignore.content_ids

as_bytes-to_string : (ignore : Ignore) → as_bytes (to_string ignore) ≡ to_string ignore
as_bytes-to_string ignore = as_bytes-ascii (to_string ignore) (to_string-IsAscii ignore)

pub try_from-to_string :
    (ignore : Ignore) → IsI32 ignore.content_ids → try_from (ok (to_string ignore)) ≡ ok ignore
unfolding try_from read_to_string of_content
try_from-to_string ignore h =
    rw (try_from, from_utf8-ascii (to_string ignore) (to_string-IsAscii ignore))
      (ap ok (read-to_string ignore h))

drop-all : (n : ℕ) (s : Text) → length s ≤ n → drop n s ≡ []
unfolding drop
drop-all zero [] h = refl
drop-all zero (c ∷ s) h = absurd (omega arith)
drop-all (suc n) [] h = refl
drop-all (suc n) (c ∷ s) h = drop-all n s (omega arith)

-- What is written to a file that had no more bytes than that is read back as it was.
pub try_from-write :
    (ignore : Ignore) (file : Bytes)
    → IsI32 ignore.content_ids
    → length file ≤ length (as_bytes (to_string ignore))
    → (write ignore (ok file) ≡ ok (as_bytes (to_string ignore)))
      × (try_from (ok (as_bytes (to_string ignore))) ≡ ok ignore)
unfolding write overwrite
try_from-write ignore file h fits =
    let nothing_left = drop-all (length (as_bytes (to_string ignore))) file fits in
    (
      rw (nothing_left, append-nil) refl,
      ap (λ bytes. try_from (ok bytes)) (as_bytes-to_string ignore) ∙ try_from-to_string ignore h,
    )

length-join :
    (ids : List ContentId) (id : ContentId)
    → length (join b'\n' (map line_of ids)) ≤ length (join b'\n' (map line_of (ids ++ id ∷ [])))
unfolding join
length-join [] id = omega arith
length-join (first ∷ []) id = omega (arith, length-append (line_of first) (b'\n' ∷ line_of id))
length-join (first ∷ next ∷ rest) id = omega (
  arith,
  length-join (next ∷ rest) id,
  length-append (line_of first) (b'\n' ∷ join b'\n' (map line_of (next ∷ rest))),
  length-append (line_of first) (b'\n' ∷ join b'\n' (map line_of (next ∷ rest ++ id ∷ []))),
)

All-append :
    (ids : List ContentId) (id : ContentId) → IsI32 ids → id < 2 ^ 32 → IsI32 (ids ++ id ∷ [])
All-append [] id h p = (p, tt)
All-append (first ∷ ids) id (q, h) p = (q, All-append ids id h p)

length-to_string :
    (ignore : Ignore) (id : ContentId)
    → length (to_string ignore) ≤ length (to_string (push id ignore))
unfolding to_string push
length-to_string ignore id = length-join ignore.content_ids id

-- A file that the program wrote takes one more identifier.
pub try_from-write-push :
    (ignore : Ignore) (id : ContentId)
    → IsI32 ignore.content_ids
    → id < 2 ^ 32
    → (written : Bytes) × (write (push id ignore) (ok (to_string ignore)) ≡ ok written)
      × (try_from (ok written) ≡ ok (push id ignore))
unfolding push
try_from-write-push ignore id h p =
    let fits : length (to_string ignore) ≤ length (as_bytes (to_string (push id ignore))) =
      rw (as_bytes-to_string (push id ignore)) (length-to_string ignore id) in
    let (w, r) =
      try_from-write (push id ignore) (to_string ignore) (All-append ignore.content_ids id h p)
        fits in
    (as_bytes (to_string (push id ignore)), w, r)
