-- ===== src/Libdg/Solaris/Host.antt =====
-- A host on which the program's own `_inet_aton` and table of facilities stand for the system's.
use madai.Base.{ℕ, Bytes, is_some, ◌≡◌, refl}
use madai.Sys.{Env}
use madai.Libdg.Text.{skip_space, starts_with_digit, digits}
use madai.Libdg.Checks.{syslog_facility}
use madai.Libdg.Solaris.{Facility, facilitynames, inet_aton}
use madai.Config.Valid.{HostLaws}

pub record IsSolaris (env : Env) (code : Facility → ℕ) : Type 0 where
  pub own_table : env.facilitynames ≡ facilitynames code
  pub own_inet_aton : (s : Bytes) → env.inet_aton s ≡ is_some (inet_aton s)

-- On such a host the default address and the default facility are good, and no facility has an
-- empty name, whatever the numbers of the facilities are.
pub IsSolaris-HostLaws : (env : Env) (code : Facility → ℕ) → IsSolaris env code → HostLaws env
unfolding syslog_facility inet_aton skip_space starts_with_digit digits
IsSolaris-HostLaws env code solaris = record {
  loopback = rw solaris.own_inet_aton refl;
  has_local1 = rw solaris.own_table refl;
  none_empty = rw solaris.own_table refl;
}
