-- ===== src/Ignore/Decimal.antt =====
-- An `i32` in decimal, as Rust's standard library prints and parses it for trsync/src/ignore.rs. An `i32`
-- is its pattern of 32 bits, a number below `2 ^ 32`.
use Prim.Native.Nat.{◌*◌, ◌/◌, ◌%◌, ◌^◌}
use trsync.Base.Lines.{Text, ltb}
use trsync.Base.{
  ℕ, zero, suc, ◌+◌, ◌-◌, ◌≤◌, ◌<◌, ◌||◌, Option, none, some, [], ◌∷◌, ◌==◌, nat_eq, if◌then◌else◌,
  ◌≡◌, ◌≢◌, arith, Bool-cases, inl, inr, All,
}

-- The digits of a number below `10 ^ k`, in front of `out`.
digits : ℕ → ℕ → Text → Text
digits zero n out = out
digits (suc k) n out =
    let more = digits k (n / 10) ((b'0' + n % 10) ∷ out) in
    if ltb n 10 then (b'0' + n % 10) ∷ out else more

unfoldable pub decimal : ℕ → Text
unfolding digits
decimal n = digits 10 n []

-- `impl Display for i32`
unfoldable pub print : ℕ → Text
unfolding decimal
print id = if ltb id (2 ^ 31) then decimal id else b'-' ∷ decimal (2 ^ 32 - id)

-- The loop of `from_str_radix`, whose checked operations refuse what passes the limit.
scan : ℕ → Text → ℕ → Option ℕ
scan limit [] n = some n
scan limit (c ∷ s) n =
    let m = n * 10 + (c - b'0') in
    let rest = scan limit s m in if ltb c b'0' || ltb b'9' c || ltb limit m then none else rest

magnitude : ℕ → Text → Option ℕ
unfolding scan
magnitude limit [] = none
magnitude limit (c ∷ s) = scan limit (c ∷ s) 0

negative : Option ℕ → Option ℕ
negative none = none
negative (some n) = some ((2 ^ 32 - n) % 2 ^ 32)

-- `str::parse::<i32>`
unfoldable pub parse : Text → Option ℕ
unfolding magnitude negative
parse [] = none
parse (c ∷ s) =
    if c == b'-'
    then negative (magnitude (2 ^ 31) s)
    else if c == b'+'
    then magnitude (2 ^ 31 - 1) s
    else magnitude (2 ^ 31 - 1) (c ∷ s)

power : ℕ → ℕ
power zero = 1
power (suc k) = 10 * power k

scan-digits :
    (k n limit : ℕ) (out : Text)
    → n < power k
    → n ≤ limit
    → scan limit (digits k n out) 0 ≡ scan limit out n
unfolding scan digits power
scan-digits zero n limit out h fits = ground arith
scan-digits (suc k) n limit out h fits =
    ground (arith, scan-digits k (n / 10) limit ((b'0' + n % 10) ∷ out))

digits-head :
    (k n : ℕ) (out : Text) → (c : ℕ) × (s : Text) × (digits (suc k) n out ≡ c ∷ s) × (b'0' ≤ c)
unfolding digits
digits-head zero n out = (b'0' + n % 10, out, ground arith, omega arith)
digits-head (suc k) n out = elim (Bool-cases (ltb n 10)) [
  | inl h ↦ (b'0' + n % 10, out, ground arith, omega arith)
  | inr h ↦
      let (c, s, e, b) = digits-head k (n / 10) ((b'0' + n % 10) ∷ out) in (c, s, ground arith, b)
]

magnitude-decimal : (n limit : ℕ) → n < power 10 → n ≤ limit → magnitude limit (decimal n) ≡ some n
unfolding magnitude decimal scan
magnitude-decimal n limit h fits =
    let (c, s, e, b) = digits-head 9 n [] in ground (arith, scan-digits 10 n limit [])

parse-unsigned : (c : ℕ) (s : Text) → b'0' ≤ c → parse (c ∷ s) ≡ magnitude (2 ^ 31 - 1) (c ∷ s)
unfolding parse
parse-unsigned c s h = ground arith

parse-decimal : (n : ℕ) → n < 2 ^ 31 → parse (decimal n) ≡ some n
unfolding decimal power
parse-decimal n h =
    let (c, s, e, b) = digits-head 9 n [] in
    rw (e, parse-unsigned c s b, ← e) (magnitude-decimal n (2 ^ 31 - 1) (omega arith) (omega arith))

parse-negative : (n : ℕ) → 0 < n → n ≤ 2 ^ 31 → parse (b'-' ∷ decimal n) ≡ some (2 ^ 32 - n)
unfolding parse power negative
parse-negative n h k = rw (magnitude-decimal n (2 ^ 31) (omega arith) k) (ground arith)

-- Every `i32` is read back from its print.
pub parse-print : (id : ℕ) → id < 2 ^ 32 → parse (print id) ≡ some id
unfolding print
parse-print id h = ground (arith, parse-decimal id, parse-negative (2 ^ 32 - id))

-- No control character is printed.
abbrev pub IsPlain : Text → Type 0
IsPlain = All (λ c. b'\r' < c)

digits-IsPlain : (k n : ℕ) (out : Text) → IsPlain out → IsPlain (digits k n out)
unfolding digits
digits-IsPlain zero n out h = h
digits-IsPlain (suc k) n out h = ground (arith, digits-IsPlain k (n / 10) ((b'0' + n % 10) ∷ out))

pub print-IsPlain : (id : ℕ) → IsPlain (print id)
unfolding print decimal
print-IsPlain id = ground (arith, digits-IsPlain 10 id [], digits-IsPlain 10 (2 ^ 32 - id) [])

-- What is printed is digits and signs, at least one.
abbrev pub IsNumber : Text → Type 0
IsNumber = All (λ c. (b',' < c) × (c < b':'))

digits-IsNumber : (k n : ℕ) (out : Text) → IsNumber out → IsNumber (digits k n out)
unfolding digits
digits-IsNumber zero n out h = h
digits-IsNumber (suc k) n out h = ground (arith, digits-IsNumber k (n / 10) ((b'0' + n % 10) ∷ out))

pub print-IsNumber : (id : ℕ) → IsNumber (print id)
unfolding print decimal
print-IsNumber id = ground (arith, digits-IsNumber 10 id [], digits-IsNumber 10 (2 ^ 32 - id) [])

pub print_not_empty : (id : ℕ) → print id ≢ []
unfolding print decimal
print_not_empty id = let (c, s, e, b) = digits-head 9 id [] in ground arith
