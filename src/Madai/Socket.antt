-- ===== src/Madai/Socket.antt =====
-- The socket text of `main`, `inet:PORT@ADDRESS`, and the array of 30 bytes that it is printed into.
use madai.Base.{◌+◌, ◌≤◌, ◌<◌, ℕ, suc, pos, [], ◌∷◌, ◌++◌, ◌≡◌, arith, Bytes, length}
use madai.Libdg.Decimal.{print_int}
use madai.Libdg.Decimal.Digits.{length-print_nat}
use madai.Madai.{oconn, oconn_length}

length-append : (s t : Bytes) → length (s ++ t) ≡ length s + length t
length-append [] t = omega arith
length-append (c ∷ s) t = omega (arith, length-append s t)

-- A port that fits 16 bits prints at most five digits.
length-print_port : (n : ℕ) → n ≤ 65535 → length (print_int (pos n)) ≤ 5
unfolding print_int
length-print_port n h = omega (arith, length-print_nat 4 (suc n) n [] (omega arith))

-- For a port of at most 65535 and an address of at most 18 bytes, what sprintf(3) writes fits the
-- array of 30 bytes with its NUL.
pub oconn-length_lem :
    (port : ℕ) (ip : Bytes)
    → port ≤ 65535
    → length ip ≤ 18
    → length (oconn (pos port) ip) < oconn_length
oconn-length_lem port ip h short =
    let total = length-append (print_int (pos port)) (b'@' ∷ ip) in
    omega (arith, length-print_port port h, total)
