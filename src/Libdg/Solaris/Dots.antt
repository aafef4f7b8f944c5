-- ===== src/Libdg/Solaris/Dots.antt =====
-- The texts that `_inet_aton` accepts, and what is_ipaddr and is_inetaddr make of them.
use madai.Base.{
  ℕ, ◌+◌, ◌-◌, ◌*◌, ◌≤◌, true, false, Bool, some, [], ◌∷◌, ◌≡◌, refl, sym, ◌∙◌, arith, Bytes,
  length, Option-cases, inl, inr, is_some,
}
use mathlib.Core.Option.{none-ne-some, some-injective}
use madai.Sys.{Env}
use madai.Libdg.Text.{skip_space, digits}
use madai.Libdg.Checks.{count_dots, is_ipaddr, is_inetaddr}
use madai.Libdg.Solaris.{
  Unsigned, unsigned, unsigned_from, unsigned_sign, strtoul, dotted_octet, last_octet, inet_aton,
}

count_dots-digits : (s : Bytes) (n acc : ℕ) → count_dots n (digits acc s).1 ≡ count_dots n s
unfolding count_dots digits
count_dots-digits [] n acc = refl
count_dots-digits (c ∷ s) n acc = ground (arith, count_dots-digits s n (acc * 10 + (c - b'0')))

count_dots-skip_space : (s : Bytes) (n : ℕ) → count_dots n (skip_space s) ≡ count_dots n s
unfolding count_dots skip_space
count_dots-skip_space [] n = refl
count_dots-skip_space (c ∷ s) n = ground (arith, count_dots-skip_space s n)

count_dots-unsigned_from :
    (str s : Bytes) (negative : Bool) (n : ℕ)
    → count_dots n s ≡ count_dots n str
    → count_dots n (unsigned_from str negative s).rest ≡ count_dots n str
unfolding unsigned_from unsigned
count_dots-unsigned_from str s negative n same = ground (arith, count_dots-digits s n 0)

count_dots-unsigned_sign :
    (str s : Bytes) (n : ℕ)
    → count_dots n s ≡ count_dots n str
    → count_dots n (unsigned_sign str s).rest ≡ count_dots n str
unfolding unsigned_sign count_dots
count_dots-unsigned_sign str [] n same = count_dots-unsigned_from str [] false n same
count_dots-unsigned_sign str (c ∷ s) n same = ground (
  arith,
  count_dots-unsigned_from str s true n,
  count_dots-unsigned_from str s false n,
  count_dots-unsigned_from str (c ∷ s) false n,
)

-- The number that strtoul(3) reads has no dot in it.
count_dots-strtoul : (s : Bytes) (n : ℕ) → count_dots n (strtoul s).rest ≡ count_dots n s
unfolding strtoul
count_dots-strtoul s n = count_dots-unsigned_sign s (skip_space s) n (count_dots-skip_space s n)

accepted_dot :
    (u : Unsigned) (o : ℕ) (rest r : Bytes)
    → u.rest ≡ r
    → dotted_octet u ≡ some (o, rest)
    → (o ≤ 255) × (r ≡ b'.' ∷ rest)
unfolding dotted_octet
accepted_dot u o rest [] at_end e = ground (arith, rw at_end at e)
accepted_dot u o rest (c ∷ s) at_end e = ground (arith, rw at_end at e)

dotted_octet-dot :
    (u : Unsigned) (o : ℕ) (rest : Bytes)
    → dotted_octet u ≡ some (o, rest)
    → (o ≤ 255) × (u.rest ≡ b'.' ∷ rest)
dotted_octet-dot u o rest e = accepted_dot u o rest u.rest refl e

accepted_end :
    (u : Unsigned) (o : ℕ) (r : Bytes) → u.rest ≡ r → last_octet u ≡ some o → (o ≤ 255) × (r ≡ [])
unfolding last_octet
accepted_end u o [] at_end e = ground (arith, rw at_end at e)
accepted_end u o (c ∷ s) at_end e = ground (arith, rw at_end at e)

last_octet-end : (u : Unsigned) (o : ℕ) → last_octet u ≡ some o → (o ≤ 255) × (u.rest ≡ [])
last_octet-end u o e = accepted_end u o u.rest refl e

dotted_octet-count_dots :
    (s : Bytes) (n o : ℕ) (rest : Bytes)
    → dotted_octet (strtoul s) ≡ some (o, rest)
    → (o ≤ 255) × (count_dots n s ≡ count_dots (n + 1) rest)
unfolding count_dots
dotted_octet-count_dots s n o rest e =
    let (small, dot) = dotted_octet-dot (strtoul s) o rest e in
    (small, sym (count_dots-strtoul s n) ∙ rw dot refl)

-- What `_inet_aton` accepts: four bytes, from a text with three dots.
abbrev pub AllBytes : Bytes → Type 0
AllBytes [] = Unit {0}
AllBytes (c ∷ s) = (c ≤ 255) × AllBytes s

pub record IsAddress (s a : Bytes) : Type 0 where
  pub four : length a ≡ 4
  pub bytes : AllBytes a
  pub dots : count_dots 0 s ≡ 3

-- Where `_inet_aton` accepts a text, the text has three dots and the address is four bytes.
pub inet_aton-IsAddress : (s a : Bytes) → inet_aton s ≡ some a → IsAddress s a
unfolding inet_aton count_dots
inet_aton-IsAddress s a e = elim (Option-cases (dotted_octet (strtoul s))) [
  | inl stop ↦ absurd (none-ne-some _ (rw stop at e))
  | inr ((a1, s2), e1) ↦ elim (Option-cases (dotted_octet (strtoul s2))) [
    | inl stop ↦ absurd (none-ne-some _ (rw (e1, stop) at e))
    | inr ((a2, s3), e2) ↦ elim (Option-cases (dotted_octet (strtoul s3))) [
      | inl stop ↦ absurd (none-ne-some _ (rw (e1, e2, stop) at e))
      | inr ((a3, s4), e3) ↦ elim (Option-cases (last_octet (strtoul s4))) [
        | inl stop ↦ absurd (none-ne-some _ (rw (e1, e2, e3, stop) at e))
        | inr (a4, e4) ↦
            let (b1, d1) = dotted_octet-count_dots s 0 a1 s2 e1 in
            let (b2, d2) = dotted_octet-count_dots s2 1 a2 s3 e2 in
            let (b3, d3) = dotted_octet-count_dots s3 2 a3 s4 e3 in
            let (b4, stop) = last_octet-end (strtoul s4) a4 e4 in
            let d4 : count_dots 3 s4 ≡ 3 = sym (count_dots-strtoul s4 3) ∙ rw stop refl in
            let all : (a1 ∷ a2 ∷ a3 ∷ a4 ∷ []) ≡ a =
              some-injective _ _ (rw (e1, e2, e3, e4) at e) in
            rw (sym all)
              (record { four = refl; bytes = (b1, (b2, (b3, (b4, tt)))); dots = d1 ∙ d2 ∙ d3 ∙ d4 })
      ]
    ]
  ]
]

-- Where `inet_aton` is the `_inet_aton` of the program, the loop of is_ipaddr that counts the dots
-- never changes the answer: is_ipaddr accepts the same texts as is_inetaddr, with the same message
-- for the others.
pub is_ipaddr-is_inetaddr :
    (env : Env) (s : Bytes)
    → env.inet_aton s ≡ is_some (inet_aton s)
    → is_ipaddr env s ≡ is_inetaddr env s
unfolding is_ipaddr is_inetaddr
is_ipaddr-is_inetaddr env s solaris = elim (Option-cases (inet_aton s)) [
  | inl refused ↦ rw (solaris, refused) refl
  | inr (a, good) ↦ rw (solaris, good, (inet_aton-IsAddress s a good).dots) refl
]
