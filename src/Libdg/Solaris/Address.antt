-- ===== src/Libdg/Solaris/Address.antt =====
-- `_inet_aton` on the address that four numbers print with dots between them.
use madai.Base.{ℕ, suc, ◌≤◌, true, false, some, [], ◌∷◌, ◌≡◌, refl, ap, ◌∙◌, arith, Bytes}
use madai.Libdg.Text.{skip_space, digits, starts_with_digit, is_digit}
use madai.Libdg.Decimal.{print_nat}
use madai.Libdg.Decimal.Digits.{digits-print_nat, print_nat-digit}
use madai.Libdg.Solaris.{
  octet_of, unsigned, unsigned_from, unsigned_sign, strtoul, dotted_octet, last_octet, inet_aton,
}

-- `%u` of `n` before `rest`.
abbrev printed : ℕ → Bytes → Bytes
printed n rest = print_nat (suc n) n rest

-- The text of `%u.%u.%u.%u`.
abbrev pub dotted : ℕ → ℕ → ℕ → ℕ → Bytes
dotted a b c d = printed a (b'.' ∷ printed b (b'.' ∷ printed c (b'.' ∷ printed d [])))

-- A text that begins with a digit is read by strtoul(3) from its first byte.
strtoul-digit :
    (c : ℕ) (s : Bytes) → is_digit c ≡ true → strtoul (c ∷ s) ≡ unsigned false (digits 0 (c ∷ s))
unfolding strtoul skip_space unsigned_sign unsigned_from starts_with_digit
strtoul-digit c s h = ground arith

strtoul-printed :
    (n : ℕ) (rest : Bytes)
    → n ≤ 255
    → digits n rest ≡ (n, rest)
    → strtoul (printed n rest) ≡ record { value = n; rest = rest; moved = true }
unfolding unsigned
strtoul-printed n rest h behind =
    let (c, (s, e, first)) = print_nat-digit (suc n) n rest (omega arith) in
    let read = rw e at (digits-print_nat (suc n) n rest (omega arith)) in
    rw e (rw (strtoul-digit c s first, read, behind) (ground arith))

small_octet :
    (n : ℕ) (rest : Bytes)
    → n ≤ 255
    → octet_of (record { value = n; rest = rest; moved = true }) ≡ n
small_octet n rest h = omega arith

dotted_octet-printed :
    (n : ℕ) (rest : Bytes)
    → n ≤ 255
    → dotted_octet (strtoul (printed n (b'.' ∷ rest))) ≡ some (n, rest)
unfolding dotted_octet digits
dotted_octet-printed n rest h =
    ap dotted_octet (strtoul-printed n (b'.' ∷ rest) h refl)
    ∙ ground (arith, small_octet n (b'.' ∷ rest) h)

last_octet-printed : (n : ℕ) → n ≤ 255 → last_octet (strtoul (printed n [])) ≡ some n
unfolding last_octet digits
last_octet-printed n h =
    ap last_octet (strtoul-printed n [] h refl) ∙ ground (arith, small_octet n [] h)

-- `_inet_aton` reads back each dotted address, whose four numbers are at most 255.
pub inet_aton-dotted :
    (a b c d : ℕ)
    → a ≤ 255
    → b ≤ 255
    → c ≤ 255
    → d ≤ 255
    → inet_aton (dotted a b c d) ≡ some (a ∷ b ∷ c ∷ d ∷ [])
unfolding inet_aton
inet_aton-dotted a b c d ha hb hc hd =
    rw
      (
        inet_aton,
        dotted_octet-printed a (printed b (b'.' ∷ printed c (b'.' ∷ printed d []))) ha,
        dotted_octet-printed b (printed c (b'.' ∷ printed d [])) hb,
        dotted_octet-printed c (printed d []) hc,
        last_octet-printed d hd,
      )
      refl
