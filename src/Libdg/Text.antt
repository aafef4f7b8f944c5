-- ===== src/Libdg/Text.antt =====
-- The C library's functions on strings that src/libdg/libdgconfig.c calls, in the C locale.
use madai.Base.{
  ℕ, suc, ◌+◌, ◌-◌, ◌*◌, ◌^◌, ℤ, pos, negsuc, Bool, true, false, ◌&&◌, ◌||◌, Option, none, some, [],
  ◌∷◌, Bytes, leb, ◌==◌, if◌then◌else◌,
}

abbrev pub is_space : ℕ → Bool
is_space c = (leb 9 c && leb c 13) || c == b' '

abbrev pub is_blank : ℕ → Bool
is_blank c = c == 9 || c == b' '

abbrev pub is_digit : ℕ → Bool
is_digit c = leb b'0' c && leb c b'9'

abbrev pub to_lower : ℕ → ℕ
to_lower c = if leb b'A' c && leb c b'Z' then c + 32 else c

-- `strchr(s, c) != NULL`
unfoldable pub contains : ℕ → Bytes → Bool
contains c [] = false
contains c (d ∷ s) = c == d || contains c s

-- `strcasecmp(s, t) == 0`, and `strcmp(s, t) == 0`
unfoldable pub same_nocase : Bytes → Bytes → Bool
same_nocase [] [] = true
same_nocase (c ∷ s) (d ∷ t) = to_lower c == to_lower d && same_nocase s t
same_nocase _ _ = false

unfoldable pub same : Bytes → Bytes → Bool
same [] [] = true
same (c ∷ s) (d ∷ t) = c == d && same s t
same _ _ = false

-- What stands behind `prefix` in the text: `strncasecmp(s, prefix, strlen(prefix)) == 0`.
unfoldable pub strip_nocase : Bytes → Bytes → Option Bytes
strip_nocase [] s = some s
strip_nocase (c ∷ p) [] = none
strip_nocase (c ∷ p) (d ∷ s) = if to_lower c == to_lower d then strip_nocase p s else none

-- All characters are white space, as the loop over `line[j]` finds.
unfoldable pub all_space : Bytes → Bool
all_space [] = true
all_space (c ∷ s) = is_space c && all_space s

unfoldable pub skip_space : Bytes → Bytes
skip_space [] = []
skip_space (c ∷ s) = let rest = skip_space s in if is_space c then rest else c ∷ s

unfoldable pub skip_blank : Bytes → Bytes
skip_blank [] = []
skip_blank (c ∷ s) = let rest = skip_blank s in if is_blank c then rest else c ∷ s

-- The digits at the front, as a number onto `acc`, and what follows them.
unfoldable pub digits : ℕ → Bytes → ℕ × Bytes
digits acc [] = (acc, [])
digits acc (c ∷ s) =
    let rest = digits (acc * 10 + (c - b'0')) s in if is_digit c then rest else (acc, c ∷ s)

abbrev pub long_max : ℕ
long_max = 2 ^ 63 - 1

-- `strtol`: the value, the text behind the number, and whether the number was out of range.
pub record Number : Type 0 where
  pub value : ℤ
  pub rest : Bytes
  pub out_of_range : Bool

abbrev negate : ℕ → ℤ
negate (ℕ.zero) = pos 0
negate (suc n) = negsuc n

-- The number that begins at the first digit, with its sign.
unfoldable pub signed : Bool → ℕ × Bytes → Number
signed false (n, rest) =
    if leb n long_max
    then record { value = pos n; rest = rest; out_of_range = false }
    else record { value = pos long_max; rest = rest; out_of_range = true }
signed true (n, rest) =
    if leb n (suc long_max)
    then record { value = negate n; rest = rest; out_of_range = false }
    else record { value = negsuc long_max; rest = rest; out_of_range = true }

unfoldable pub starts_with_digit : Bytes → Bool
starts_with_digit [] = false
starts_with_digit (c ∷ s) = is_digit c

-- Behind the white space and the sign. With no digit the value is 0 and the rest is all of `str`.
unfoldable pub from_digits : Bytes → Bool → Bytes → Number
from_digits str negative s =
    if starts_with_digit s
    then signed negative (digits 0 s)
    else record { value = pos 0; rest = str; out_of_range = false }

unfoldable pub from_sign : Bytes → Bytes → Number
from_sign str [] = from_digits str false []
from_sign str (c ∷ s) =
    if c == b'-'
    then from_digits str true s
    else if c == b'+'
    then from_digits str false s
    else from_digits str false (c ∷ s)

unfoldable pub strtol : Bytes → Number
unfolding skip_space from_sign from_digits starts_with_digit signed digits
strtol str = from_sign str (skip_space str)
