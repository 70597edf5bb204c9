-- ===== src/Record/Decimal.antt =====
-- Decimal integers print and read back.
use context_fs.Base.{
  ℕ, zero, suc, ◌+◌, ◌-◌, ◌*◌, ◌/◌, ◌%◌, ◌^◌, ◌<◌, ◌≡◌, refl, ap, ◌∙◌, true, false, [], ◌∷◌, ◌++◌,
  ltb, ◌==◌, arith, Bool-cases, inl, inr, ◌≢◌,
}
use context_fs.Base.Order.{Bytes}
use context_fs.Base.Result.{ok}
use context_fs.Record.{
  digits, to_decimal, is_digit, all_digits, decimal_value, parse_u64, parse_u32, newline,
}
use context_fs.Record.Lines.{LacksChar, LacksChar-append}

-- how many numbers have at most so many digits
power : ℕ → ℕ
power zero = 1
power (suc f) = 10 * power f

decimal_value-append :
    (n : ℕ) (xs ys : Bytes) → decimal_value n (xs ++ ys) ≡ decimal_value (decimal_value n xs) ys
unfolding decimal_value
decimal_value-append n [] ys = refl
decimal_value-append n (x ∷ xs) ys = decimal_value-append (10 * n + (x - b'0')) xs ys

decimal_value-digits : (f n : ℕ) → n < power f → decimal_value 0 (digits f n) ≡ n
unfolding decimal_value digits power
decimal_value-digits zero n h = omega (arith, h)
decimal_value-digits (suc f) n h = elim (Bool-cases (ltb n 10)) [
  | inl e ↦ rw e (omega arith)
  | inr e ↦
      rw
        (
          e,
          decimal_value-append 0 (digits f (n / 10)) ((b'0' + n % 10) ∷ []),
          decimal_value-digits f (n / 10) (omega (arith, h)),
        )
        (omega arith)
]

all_digits-append :
    (xs : Bytes) (d : ℕ)
    → all_digits xs ≡ true
    → is_digit d ≡ true
    → all_digits (xs ++ d ∷ []) ≡ true
unfolding all_digits
all_digits-append [] d h e = rw e
all_digits-append (x ∷ xs) d h e = elim (Bool-cases (is_digit x)) [
  | inl f ↦ rw f (all_digits-append xs d (rw f at h) e)
  | inr f ↦ cc (rw f at h)
]

is_digit_code : (n : ℕ) → n < 10 → is_digit (b'0' + n) ≡ true
is_digit_code n h = ground (arith, h)

all_digits-digits : (f n : ℕ) → all_digits (digits f n) ≡ true
unfolding digits
all_digits-digits zero n = unfold all_digits in refl
all_digits-digits (suc f) n = elim (Bool-cases (ltb n 10)) [
  | inl e ↦ rw e (unfold all_digits in rw (is_digit_code n (ground (arith, e))))
  | inr e ↦ rw e (
      all_digits-append (digits f (n / 10)) (b'0' + n % 10) (all_digits-digits f (n / 10))
        (is_digit_code (n % 10) (omega arith)))
]

append_nonempty : (xs : Bytes) (d : ℕ) → (xs ++ d ∷ []) ≢ []
append_nonempty [] d p = cc p
append_nonempty (x ∷ xs) d p = cc p

digits_nonempty : (f n : ℕ) → digits (suc f) n ≢ []
unfolding digits
digits_nonempty f n = elim (Bool-cases (ltb n 10)) [
  | inl e ↦ rw e (λ p. cc p)
  | inr e ↦ rw e (append_nonempty (digits f (n / 10)) (b'0' + n % 10))
]

parse_u64_lem :
    (s : Bytes)
    → s ≢ []
    → all_digits s ≡ true
    → decimal_value 0 s < 2 ^ 64
    → parse_u64 s ≡ ok (decimal_value 0 s)
unfolding parse_u64
parse_u64_lem [] ne d h = absurd (ne refl)
parse_u64_lem (c ∷ s) ne d h = rw d (ground (arith, h))

pub parse_u64-to_decimal : (n : ℕ) → n < 2 ^ 64 → parse_u64 (to_decimal n) ≡ ok n
unfolding to_decimal
parse_u64-to_decimal n h =
    let value = decimal_value-digits 20 n (unfold power in omega (arith, h)) in
    parse_u64_lem (digits 20 n) (digits_nonempty 19 n) (all_digits-digits 20 n) (rw value h)
    ∙ ap ok value

pub parse_u32-to_decimal : (n : ℕ) → n < 2 ^ 32 → parse_u32 (to_decimal n) ≡ ok n
unfolding parse_u32
parse_u32-to_decimal n h = rw (parse_u64-to_decimal n (omega (arith, h))) (ground (arith, h))

-- no digit breaks a line
digit_other : (d : ℕ) → d < 10 → (b'0' + d == newline) ≡ false
digit_other d h = ground (arith, h)

LacksChar-digits : (f n : ℕ) → LacksChar newline (digits f n)
unfolding digits
LacksChar-digits zero n = tt
LacksChar-digits (suc f) n = elim (Bool-cases (ltb n 10)) [
  | inl e ↦ rw e (digit_other n (ground (arith, e)), tt)
  | inr e ↦ rw e (
      LacksChar-append newline (digits f (n / 10)) ((b'0' + n % 10) ∷ [])
        (LacksChar-digits f (n / 10)) (digit_other (n % 10) (omega arith), tt))
]

pub LacksChar-to_decimal : (n : ℕ) → LacksChar newline (to_decimal n)
unfolding to_decimal
LacksChar-to_decimal n = LacksChar-digits 20 n
