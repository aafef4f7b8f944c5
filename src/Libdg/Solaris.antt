-- ===== src/Libdg/Solaris.antt =====
-- What src/libdg/libdgconfig.c defines under `#ifdef SOLARIS`: the table of syslog facilities, and
-- `_inet_aton`, which then stands for `inet_aton`.
pub mod Address
pub mod Dots
pub mod Host
use madai.Base.{
  ℕ, ◌+◌, ◌-◌, ◌*◌, ◌^◌, ◌%◌, Bool, true, false, not, ◌||◌, Option, none, some, List, [], ◌∷◌,
  Bytes, codes, ltb, leb, ◌==◌, if◌then◌else◌,
}
use madai.Libdg.Text.{skip_space, digits, starts_with_digit}

-- The `LOG_` constants of syslog.h that the table names.
pub data Facility : Type 0 where
  log_auth log_cron log_daemon log_kern log_lpr log_mail log_news log_syslog log_user log_uucp :
      Facility
  log_local0 log_local1 log_local2 log_local3 log_local4 log_local5 log_local6 log_local7 : Facility

-- `facilitynames`, whose last entry ends the loops over it.
abbrev pub facilitynames : (Facility → ℕ) → List (Bytes × ℕ)
facilitynames code =
    (codes "auth", code log_auth)
    ∷ (codes "cron", code log_cron)
    ∷ (codes "daemon", code log_daemon)
    ∷ (codes "kern", code log_kern)
    ∷ (codes "lpr", code log_lpr)
    ∷ (codes "mail", code log_mail)
    ∷ (codes "news", code log_news)
    ∷ (codes "syslog", code log_syslog)
    ∷ (codes "user", code log_user)
    ∷ (codes "uucp", code log_uucp)
    ∷ (codes "local0", code log_local0)
    ∷ (codes "local1", code log_local1)
    ∷ (codes "local2", code log_local2)
    ∷ (codes "local3", code log_local3)
    ∷ (codes "local4", code log_local4)
    ∷ (codes "local5", code log_local5)
    ∷ (codes "local6", code log_local6)
    ∷ (codes "local7", code log_local7)
    ∷ []

abbrev pub ulong_max : ℕ
ulong_max = 2 ^ 64 - 1

-- strtoul(3): the value, the text behind the number, and whether a number was found, that is
-- whether the end pointer has moved.
pub record Unsigned : Type 0 where
  pub value : ℕ
  pub rest : Bytes
  pub moved : Bool

-- A number behind its sign. Out of range it is ULONG_MAX, and a minus sign negates it in the type.
unsigned : Bool → ℕ × Bytes → Unsigned
unsigned negative (n, rest) =
    if leb n ulong_max
    then record { value = if negative then (2 ^ 64 - n) % 2 ^ 64 else n; rest = rest; moved = true }
    else record { value = ulong_max; rest = rest; moved = true }

unsigned_from : Bytes → Bool → Bytes → Unsigned
unfolding unsigned
unsigned_from str negative s =
    if starts_with_digit s
    then unsigned negative (digits 0 s)
    else record { value = 0; rest = str; moved = false }

unsigned_sign : Bytes → Bytes → Unsigned
unfolding unsigned_from
unsigned_sign str [] = unsigned_from str false []
unsigned_sign str (c ∷ s) =
    if c == b'-'
    then unsigned_from str true s
    else if c == b'+'
    then unsigned_from str false s
    else unsigned_from str false (c ∷ s)

unfoldable pub strtoul : Bytes → Unsigned
unfolding unsigned_sign
strtoul str = unsigned_sign str (skip_space str)

-- The `unsigned int` that an `unsigned long` becomes.
abbrev pub octet_of : Unsigned → ℕ
octet_of u = u.value % 2 ^ 32

-- The three tests behind each strtoul, where a dot has to follow, and where the text has to end.
pub dotted_octet : Unsigned → Option (ℕ × Bytes)
dotted_octet u =
    if ltb 255 (octet_of u) || not u.moved
    then none
    else elim u.rest [ [] ↦ none | c ∷ s ↦ if c == b'.' then some (octet_of u, s) else none ]

pub last_octet : Unsigned → Option ℕ
last_octet u =
    if ltb 255 (octet_of u) || not u.moved
    then none
    else elim u.rest [ [] ↦ some (octet_of u) | c ∷ s ↦ none ]

infixl 10 ◌>>=◌
abbrev ◌>>=◌ : {A B : Type 0} → Option A → (A → Option B) → Option B
none >>= next = none
some a >>= next = next a

-- `_inet_aton`: the four bytes of the address, as they stand in memory, or none where it returns 0.
unfoldable pub inet_aton : Bytes → Option Bytes
unfolding strtoul dotted_octet last_octet
inet_aton s = do
  (ret1, s2) ← dotted_octet (strtoul s)
  (ret2, s3) ← dotted_octet (strtoul s2)
  (ret3, s4) ← dotted_octet (strtoul s3)
  ret4 ← last_octet (strtoul s4)
  some (ret1 ∷ ret2 ∷ ret3 ∷ ret4 ∷ [])
