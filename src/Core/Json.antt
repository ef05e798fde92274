-- ===== src/Core/Json.antt =====
-- What the source uses of `serde_json`. The index of a value gives null where there is nothing; that of an
-- object panics there. A 64-bit number is its pattern of 64 bits.
use Prim.Native.Nat.{◌%◌, ◌^◌}
use trsync.Base.{ℕ, String, Option, Outcome, ok, ok_or, ◌>>=◌}

pub record Json : Type 1 where
  pub Value : Type 0
  pub Object : Type 0
  pub index : Value → String → Value
  pub as_object : Value → Option Object
  pub get : Object → String → Option Value
  pub as_i64 : Value → Option ℕ
  pub as_u64 : Value → Option ℕ

module _ (J : Json) where
  -- `value.as_object()?[key].as_i64()? as i32`, where `no` is the error of both
  abbrev pub integer_of : {E : Type 0} → E → E → J.Value → String → Outcome E ℕ
  integer_of invalid panic value key = do
    object ← ok_or (J.as_object value) invalid
    field ← ok_or (J.get object key) panic
    number ← ok_or (J.as_i64 field) invalid
    ok (number % 2 ^ 32)
