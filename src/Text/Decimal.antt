-- ===== src/Text/Decimal.antt =====
-- `strconv.Itoa` on natural numbers, `strconv.ParseUint(s, 10, bits)` and `strconv.Atoi`.
use lstk.Prelude.{
  ltb→lt, ℕ, zero, suc, ◌+◌, ◌-◌, ◌*◌, ◌/◌, ◌%◌, ◌^◌, ◌<◌, ◌≡◌, refl, ◌∙◌, Bool, true, false, ◌&&◌,
  Option, none, some, [], ◌∷◌, ◌++◌, arith, ltb, leb, ◌==◌, nat_eq, if◌then◌else◌, all, all-append,
  Bool-cases, inl, inr,
}
use lstk.Text.Basic.{Text, codes, is_digit}

-- The digits of `n`, most significant first; the fuel bounds the number of digits.
unfoldable pub digits : ℕ → ℕ → Text
digits zero n = []
digits (suc fuel) n =
    let more = digits fuel (n / 10) ++ ((b'0' + n % 10) ∷ []) in
    if ltb n 10 then (b'0' + n) ∷ [] else more

-- Fuel `n + 1` is enough: each digit divides by ten.
unfoldable pub itoa : ℕ → Text
unfolding digits
itoa n = digits (suc n) n

-- The number that digits spell behind `n`.
abbrev pub value : ℕ → Text → ℕ
value n [] = n
value n (c ∷ s) = value (n * 10 + (c - b'0')) s

unfoldable pub parse_uint : ℕ → Text → Option ℕ
parse_uint bits [] = none
parse_uint bits (c ∷ s) =
    if all is_digit (c ∷ s) && ltb (value 0 (c ∷ s)) (2 ^ bits)
    then some (value 0 (c ∷ s))
    else none

-- A Go `int`: `negsuc n` is -(n + 1).
pub data ℤ : Type 0 where
  pos : ℕ → ℤ
  negsuc : ℕ → ℤ

abbrev negate : ℕ → ℤ
negate zero = pos 0
negate (suc n) = negsuc n

abbrev signed : Bool → Text → Option ℤ
signed false digits_of = elim (parse_uint 63 digits_of) [ none ↦ none | some n ↦ some (pos n) ]
signed true digits_of = elim (parse_uint 64 digits_of) [
  | none ↦ none
  | some n ↦ if leb n (2 ^ 63) then some (negate n) else none
]

-- `strconv.Atoi`: an optional sign, digits, and a result that fits 64 bits.
unfoldable pub atoi : Text → Option ℤ
unfolding parse_uint
atoi [] = none
atoi (c ∷ s) =
    if c == b'-' then signed true s else if c == b'+' then signed false s else signed false (c ∷ s)

pub value-append : (n : ℕ) (s t : Text) → value n (s ++ t) ≡ value (value n s) t
value-append n [] t = refl
value-append n (c ∷ s) t = value-append (n * 10 + (c - b'0')) s t

pub value-digits : (fuel n : ℕ) → n < fuel → value 0 (digits fuel n) ≡ n
unfolding digits
value-digits zero n h = elim h [ ]
value-digits (suc fuel) n h = elim (Bool-cases (ltb n 10)) [
  | inl small ↦ rw small (omega arith)
  | inr large ↦
      rw (large, value-append 0 (digits fuel (n / 10)), value-digits fuel (n / 10) (ground arith))
        (omega arith)
]

pub all-digits-digits : (fuel n : ℕ) → all is_digit (digits fuel n) ≡ true
unfolding digits
all-digits-digits zero n = refl
all-digits-digits (suc fuel) n = elim (Bool-cases (ltb n 10)) [
  | inl small ↦ rw small (ground arith)
  | inr large ↦ rw (large, all-append is_digit, all-digits-digits fuel (n / 10)) (ground arith)
]

digits_first : (fuel n : ℕ) → (c : ℕ) × (s : Text) × (digits (suc fuel) n ≡ c ∷ s)
unfolding digits
digits_first fuel n = elim (Bool-cases (ltb n 10)) [
  | inl small ↦ (b'0' + n, [], rw small)
  | inr large ↦ first (digits fuel (n / 10)) (rw large)
]
  where
    first :
        (s : Text)
        → digits (suc fuel) n ≡ s ++ ((b'0' + n % 10) ∷ [])
        → (c : ℕ) × (t : Text) × (digits (suc fuel) n ≡ c ∷ t)
    first [] e = (b'0' + n % 10, [], e)
    first (c ∷ s) e = (c, s ++ ((b'0' + n % 10) ∷ []), e)

parse_uint-nonempty :
    (bits : ℕ) (s : Text) (c : ℕ) (t : Text)
    → s ≡ c ∷ t
    → all is_digit s ≡ true
    → value 0 s < 2 ^ bits
    → parse_uint bits s ≡ some (value 0 s)
unfolding parse_uint
parse_uint-nonempty bits s c t e d h = rw e (ground (arith, e))

-- A number that fits is read back from its decimal print.
pub parse_uint-itoa : (bits n : ℕ) → n < 2 ^ bits → parse_uint bits (itoa n) ≡ some n
unfolding itoa
parse_uint-itoa bits n h =
    let (c, s, e) = digits_first n n in
    let v : value 0 (digits (suc n) n) ≡ n = value-digits (suc n) n (omega arith) in
    parse_uint-nonempty bits _ c s e (all-digits-digits (suc n) n) (rw v h) ∙ rw v

pub all_digits-itoa : (n : ℕ) → all is_digit (itoa n) ≡ true
unfolding itoa
all_digits-itoa n = all-digits-digits (suc n) n

-- What is read fits the width that was asked for.
pub parse_uint-lt : (bits : ℕ) (s : Text) {n : ℕ} → parse_uint bits s ≡ some n → n < 2 ^ bits
unfolding parse_uint
parse_uint-lt bits [] h = cc
parse_uint-lt bits (c ∷ s) {n} h =
    let fits : ltb (value 0 (c ∷ s)) (2 ^ bits) ≡ true = ground arith in
    let same : value 0 (c ∷ s) ≡ n = ground (arith, fits) in rw (← same) (ltb→lt _ _ fits)

itoa_test : itoa 4566 ≡ codes "4566"
unfolding itoa
itoa_test = refl
