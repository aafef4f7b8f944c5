-- ===== src/Libdg/Decimal/Digits.antt =====
-- The digits that `%d` prints: how many there are, and what strtol(3) makes of them.
use madai.Base.{
  ℕ, zero, suc, ◌+◌, ◌*◌, ◌/◌, ◌%◌, ◌≤◌, ◌<◌, pos, true, false, ◌&&◌, Bool, [], ◌∷◌, ◌≡◌, refl,
  arith, Bytes, length, ltb, Bool-cases, inl, inr,
}
use madai.Libdg.Text.{
  digits, is_digit, long_max, strtol, skip_space, from_sign, from_digits, starts_with_digit, signed,
}
use madai.Libdg.Decimal.{print_nat, print_int}

-- Reading the digits of `n` gives `n`, and goes on with what stands behind them.
pub digits-print_nat :
    (k n : ℕ) (rest : Bytes) → n < k → digits 0 (print_nat k n rest) ≡ digits n rest
unfolding print_nat digits
digits-print_nat zero n rest h = absurd (omega arith)
digits-print_nat (suc k) n rest h =
    ground (arith, digits-print_nat k (n / 10) ((n % 10 + b'0') ∷ rest))

-- What is printed begins with a digit.
pub print_nat-digit :
    (k n : ℕ) (rest : Bytes)
    → n < k
    → (c : ℕ) × ((s : Bytes) × (print_nat k n rest ≡ c ∷ s) × (is_digit c ≡ true))
unfolding print_nat
print_nat-digit zero n rest h = absurd (omega arith)
print_nat-digit (suc k) n rest h = elim (Bool-cases (ltb n 10)) [
  | inl small ↦ rw small (n + b'0', (rest, refl, ground arith))
  | inr big ↦ rw big (print_nat-digit k (n / 10) ((n % 10 + b'0') ∷ rest) (ground arith))
]

abbrev pub pow10 : ℕ → ℕ
pow10 zero = 1
pow10 (suc d) = 10 * pow10 d

-- A number of at most `d` digits.
pub length-print_nat :
    (d k n : ℕ) (rest : Bytes)
    → n < 10 * pow10 d
    → length (print_nat k n rest) ≤ suc d + length rest
unfolding print_nat
length-print_nat d zero n rest h = omega arith
length-print_nat zero (suc k) n rest h = ground arith
length-print_nat (suc d) (suc k) n rest h =
    ground (arith, length-print_nat d k (n / 10) ((n % 10 + b'0') ∷ rest))

abbrev pub all_digits : Bytes → Bool
all_digits [] = true
all_digits (c ∷ s) = is_digit c && all_digits s

pub all_digits-print_nat :
    (k n : ℕ) (rest : Bytes)
    → n < k
    → all_digits rest ≡ true
    → all_digits (print_nat k n rest) ≡ true
unfolding print_nat
all_digits-print_nat zero n rest h ok = ok
all_digits-print_nat (suc k) n rest h ok =
    ground (arith, all_digits-print_nat k (n / 10) ((n % 10 + b'0') ∷ rest))

-- A text that begins with a digit is read by strtol(3) from its first byte.
strtol-digit :
    (c : ℕ) (s : Bytes) → is_digit c ≡ true → strtol (c ∷ s) ≡ signed false (digits 0 (c ∷ s))
unfolding strtol skip_space from_sign from_digits starts_with_digit
strtol-digit c s h = ground arith

-- strtol(3) gives back each `int` from 0 that `%d` prints, and leaves no text behind it.
pub strtol-print_int :
    (n : ℕ)
    → n ≤ long_max
    → strtol (print_int (pos n)) ≡ record { value = pos n; rest = []; out_of_range = false }
unfolding print_int signed digits
strtol-print_int n h =
    let (c, (s, e, first)) = print_nat-digit (suc n) n [] (omega arith) in
    let read = rw e at (digits-print_nat (suc n) n [] (omega arith)) in
    rw e (rw (strtol-digit c s first, read) (ground arith))
