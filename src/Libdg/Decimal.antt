-- ===== src/Libdg/Decimal.antt =====
-- How printf prints an `int` by `%d`.
pub mod Digits
use madai.Base.{ℕ, zero, suc, ◌+◌, ◌/◌, ◌%◌, ℤ, pos, negsuc, [], ◌∷◌, Bytes, ltb, if◌then◌else◌}

-- The decimal digits of a number in front of `rest`, on enough rounds.
unfoldable pub print_nat : ℕ → ℕ → Bytes → Bytes
print_nat zero n rest = rest
print_nat (suc k) n rest =
    let more = print_nat k (n / 10) ((n % 10 + b'0') ∷ rest) in
    if ltb n 10 then (n + b'0') ∷ rest else more

unfoldable pub print_int : ℤ → Bytes
unfolding print_nat
print_int (pos n) = print_nat (suc n) n []
print_int (negsuc n) = b'-' ∷ print_nat (suc (suc n)) (suc n) []
