-- ===== src/Libdg/Checks.antt =====
-- The `is_…` functions of src/libdg/libdgconfig.c. `none` is the NULL that they return when the
-- value is good.
use madai.Base.{
  ℕ, ◌+◌, ◌^◌, ◌-◌, ℤ, pos, negsuc, is_neg, is_pos, eq_ℤ, Bool, true, false, not, ◌&&◌, ◌||◌,
  Option, none, some, List, [], ◌∷◌, Bytes, codes, ltb, ◌==◌, if◌then◌else◌, ◌++◌, length,
}
use madai.Sys.{Trace, Env, Cmd, ok, fault}
use madai.Libdg.Text.{same_nocase, same, contains}

-- The messages of src/libdg/libdgconfig.h, and what `ERR_CONF_FILEDIR` has printed into `errbuf`.
pub data ConfErr : Type 0 where
  syslogfacility ipaddr plus port bool mailaddr ldapver ldapscape oneattr : ConfErr
  filedir : Bytes → ConfErr

-- The index of the first facility of that name gives its code.
pub find_facility : Bytes → List (Bytes × ℕ) → ℤ
find_facility str [] = negsuc 0
find_facility str ((name, val) ∷ rest) =
    if same_nocase str name then pos val else find_facility str rest

unfoldable pub syslog_facility : Env → Bytes → ℤ
unfolding find_facility same_nocase
syslog_facility env str = find_facility str env.facilitynames

abbrev pub facility_stderr : Bytes
facility_stderr = codes "stderr"

abbrev pub facility_none : Bytes
facility_none = codes "none"

unfoldable pub is_syslog_facility : Env → Bytes → Option ConfErr
unfolding syslog_facility same_nocase
is_syslog_facility env str =
    if same_nocase str facility_stderr
    then none
    else if same_nocase str facility_none
    then none
    else if is_neg (syslog_facility env str)
    then some ConfErr.syslogfacility
    else none

-- Why `is_writable_directory` refuses `str`: the text of its `errno`.
unfoldable pub unwritable : Env → Trace → Bytes → Option Bytes
unwritable env t str = elim (env.stat t str) [
  | none ↦ some (env.stat_error t str)
  | some is_dir ↦
      if not is_dir
      then some env.enotdir
      else if not (env.access_w t str)
      then some (env.access_error t str)
      else none
]

-- Why `is_readable_file` refuses `str`.
unfoldable pub unreadable : Env → Trace → Bytes → Option Bytes
unreadable env t str = elim (env.stat t str) [
  | none ↦ some (env.stat_error t str)
  | some is_dir ↦
      if is_dir
      then some env.eisdir
      else if not (env.access_r t str)
      then some (env.access_error t str)
      else none
]

-- `errbuf` is an array of MAX_CONFIG_LINE bytes.
abbrev pub errbuf_len : ℕ
errbuf_len = 1024

-- ERR_CONF_FILEDIR, "%s: %s"
abbrev pub filedir_text : Bytes → Bytes → Bytes
filedir_text str why = str ++ (codes ": " ++ why)

-- `sprintf(errbuf, ERR_CONF_FILEDIR, str, strerror(errno))`, without a bound
abbrev pub refuse : Bytes → Option Bytes → Cmd (Option ConfErr)
refuse str none s = ok none s
refuse str (some why) s =
    if ltb (length (filedir_text str why)) errbuf_len
    then ok (some (ConfErr.filedir (filedir_text str why))) s
    else fault

unfoldable pub is_writable_directory : Env → Bytes → Cmd (Option ConfErr)
unfolding unwritable
is_writable_directory env str s = refuse str (unwritable env s.trace str) s

unfoldable pub is_readable_file : Env → Bytes → Cmd (Option ConfErr)
unfolding unreadable
is_readable_file env str s = refuse str (unreadable env s.trace str) s

unfoldable pub is_inetaddr : Env → Bytes → Option ConfErr
is_inetaddr env str = if not (env.inet_aton str) then some ConfErr.ipaddr else none

-- The loop of `is_ipaddr`: each round finds the next dot.
unfoldable pub count_dots : ℕ → Bytes → ℕ
count_dots n [] = n
count_dots n (c ∷ s) = count_dots (if c == b'.' then n + 1 else n) s

unfoldable pub is_ipaddr : Env → Bytes → Option ConfErr
unfolding count_dots
is_ipaddr env str =
    if not (env.inet_aton str)
    then some ConfErr.ipaddr
    else if not (count_dots 0 str == 3)
    then some ConfErr.ipaddr
    else none

unfoldable pub is_plus : ℤ → Option ConfErr
is_plus value = if not (is_pos value) then some ConfErr.plus else none

abbrev pub ushrt_max : ℕ
ushrt_max = 2 ^ 16 - 1

-- `value > USHRT_MAX`
abbrev above_ushrt : ℤ → Bool
above_ushrt (pos n) = ltb ushrt_max n
above_ushrt (negsuc n) = false

unfoldable pub is_port : ℤ → Option ConfErr
is_port value = if is_neg value || above_ushrt value then some ConfErr.port else none

unfoldable pub is_boolean : ℤ → Option ConfErr
is_boolean value =
    if not (eq_ℤ value (pos 0)) && not (eq_ℤ value (pos 1)) then some ConfErr.bool else none

unfoldable pub is_mailaddr : Bytes → Option ConfErr
unfolding contains
is_mailaddr str =
    if not (contains b'@' str) || not (contains b'.' str) then some ConfErr.mailaddr else none

abbrev below : ℤ → ℕ → Bool
below (pos n) k = ltb n k
below (negsuc n) k = true

abbrev above : ℤ → ℕ → Bool
above (pos n) k = ltb k n
above (negsuc n) k = false

unfoldable pub is_ldapversion : ℤ → Option ConfErr
is_ldapversion value = if below value 2 || above value 3 then some ConfErr.ldapver else none

unfoldable pub is_ldapscope : Bytes → Option ConfErr
unfolding same
is_ldapscope str =
    if not (same str (codes "onelevel")) && not (same str (codes "subtree"))
    then some ConfErr.ldapscape
    else none

unfoldable pub is_oneattr : Bytes → Option ConfErr
unfolding contains
is_oneattr str = if contains b' ' str then some ConfErr.oneattr else none
