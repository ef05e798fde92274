-- ===== src/Ignore.antt =====
-- trsync/src/ignore.rs: the contents that the user has chosen to ignore, in the file `.trsyncignore`.
-- What the file system answers is an argument.
pub mod Decimal
pub mod Utf8
pub mod RoundTrip
use trsync.Base.{
  ℕ, zero, suc, Bool, ◌&&◌, Option, none, some, List, [], ◌∷◌, ◌++◌, map, length, contains, Outcome,
  ok, err, ok_or, ◌>>=◌, ◌==◌, nat_eq, if◌then◌else◌,
}
use trsync.Core.Types.{ContentId}
use trsync.Base.Lines.{Text, lines, join, drop}
use trsync.Ignore.Utf8.{Bytes, as_bytes, from_utf8}
use trsync.Ignore.Decimal.{parse, print}

pub record Ignore : Type 0 where
  pub content_ids : List ContentId

-- `io::Error`, by its kind
pub data IoError : Type 0 where
  not_found other : IoError

pub data IgnoreError : Type 0 where
  io_error : IoError → IgnoreError

-- A line that is no `#` and number is passed over.
unfoldable pub read_line : Text → Option ContentId
unfolding parse
read_line [] = none
read_line (c ∷ s) = if c == b'#' then parse s else none

unfoldable pub read_lines : List Text → List ContentId
unfolding read_line
read_lines [] = []
read_lines (line ∷ rest) = elim (read_line line) [
  | none ↦ read_lines rest
  | some id ↦ id ∷ read_lines rest
]

unfoldable pub read : Text → Ignore
unfolding lines read_lines
read file_content = record { content_ids = read_lines (lines file_content) }

-- `fs::read_to_string`: bytes that are no text are an error.
unfoldable pub read_to_string : Outcome IoError Bytes → Outcome IoError Text
unfolding from_utf8
read_to_string (err e) = err e
read_to_string (ok bytes) = ok_or (from_utf8 bytes) other

unfoldable pub of_content : Outcome IoError Text → Outcome IgnoreError Ignore
unfolding read
of_content (ok file_content) = ok (read file_content)
of_content (err not_found) = ok (read [])
of_content (err other) = err (io_error other)

-- `Ignore::try_from`
unfoldable pub try_from : Outcome IoError Bytes → Outcome IgnoreError Ignore
unfolding read_to_string of_content
try_from file = of_content (read_to_string file)

abbrev pub line_of : ContentId → Text
line_of id = b'#' ∷ print id

-- `impl From<&Ignore> for String`
unfoldable pub to_string : Ignore → Text
unfolding join print
to_string value = join b'\n' (map line_of value.content_ids)

unfoldable pub empty : Ignore
empty = record { content_ids = [] }

unfoldable pub push : ContentId → Ignore → Ignore
push content_id ignore = record { content_ids = ignore.content_ids ++ content_id ∷ [] }

unfoldable pub is_ignored : Ignore → ContentId → Bool
is_ignored ignore content_id = contains ignore.content_ids content_id

-- `write_all` at the start of a file that is not truncated.
unfoldable pub overwrite : Bytes → Bytes → Bytes
unfolding drop
overwrite content file = content ++ drop (length content) file

-- `write`, on the bytes of the file that is opened, which is empty where it is created.
unfoldable pub write : Ignore → Outcome IoError Bytes → Outcome IoError Bytes
unfolding overwrite to_string as_bytes
write ignore opened = do file ← opened; ok (overwrite (as_bytes (to_string ignore)) file)
