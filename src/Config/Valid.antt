-- ===== src/Config/Valid.antt =====
-- What a configuration that was read from a file is sure to hold.
use madai.Base.{
  ℕ, ◌≤◌, ◌<◌, ℤ, pos, negsuc, is_neg, true, false, Option, none, some, ◌≡◌, refl, arith, Bytes,
  codes, [], Bool-cases, inl, inr,
}
use madai.Types.{ConfigData}
use madai.Sys.{Env}
use madai.Libdg.Text.{strtol}
use madai.Libdg.Checks.{syslog_facility, is_syslog_facility, is_ipaddr, is_port, is_plus}
use madai.Libdg.Reader.{unchecked}
use madai.Libdg.Reader.Fields.{TextOk}
use madai.Libdg.Reader.Terms.{IsTable, TermsOk}
use madai.Libdg.Reader.Defaults.{DefaultsOk, AllOk}
use madai.Config.Load.{cfe, cleared}

-- The default address is one, the facility local1 exists, and no facility has an empty name.
pub record HostLaws (env : Env) : Type 0 where
  pub loopback : env.inet_aton (codes "127.0.0.1") ≡ true
  pub has_local1 : is_neg (syslog_facility env (codes "local1")) ≡ false
  pub none_empty : is_neg (syslog_facility env []) ≡ true

pub record IsValid (env : Env) (cfg : ConfigData) : Type 0 where
  pub facility : (v : Bytes) × (cfg.syslogfacility ≡ some v) × (is_syslog_facility env v ≡ none)
  pub listen : (v : Bytes) × (cfg.listenip ≡ some v) × (is_ipaddr env v ≡ none)
  pub listen_port : (n : ℕ) × (cfg.listenport ≡ pos n) × (n ≤ 65535)
  pub milter_timeout : (n : ℕ) × (cfg.miltertimeout ≡ pos n) × (0 < n)
  pub copy_server : (v : Bytes) × (cfg.copyserverip ≡ some v) × (is_ipaddr env v ≡ none)
  pub copy_port : (n : ℕ) × (cfg.copyport ≡ pos n) × (n ≤ 65535)
  pub copy_timeout : (n : ℕ) × (cfg.copymailtimeout ≡ pos n) × (0 < n)

pub cfe-IsTable : (env : Env) → IsTable (cfe env)
cfe-IsTable env = (
  tt,
  (
    refl,
    refl,
    (refl, refl, (refl, refl, (refl, refl, (refl, refl, (refl, refl, (refl, refl, tt)))))),
  ),
  (
    tt,
    (refl, refl, (refl, refl, (refl, refl, (refl, refl, (refl, refl, (refl, refl, tt)))))),
    (
      tt,
      (refl, refl, (refl, refl, (refl, refl, (refl, refl, (refl, refl, tt))))),
      (
        tt,
        (refl, refl, (refl, refl, (refl, refl, (refl, refl, tt)))),
        (
          tt,
          (refl, refl, (refl, refl, (refl, refl, tt))),
          (tt, (refl, refl, (refl, refl, tt)), (tt, (refl, refl, tt), (tt, tt, tt))),
        ),
      ),
    ),
  ),
)

pub cleared-TermsOk : (env : Env) → TermsOk (cfe env) (unchecked (cfe env)) cleared
cleared-TermsOk env = (refl, (refl, (tt, (tt, (refl, (tt, (tt, (refl, tt))))))))

is_ipaddr-loopback : (env : Env) → HostLaws env → is_ipaddr env (codes "127.0.0.1") ≡ none
unfolding is_ipaddr
is_ipaddr-loopback env laws = rw (laws.loopback, is_ipaddr) refl

pub cfe-DefaultsOk : (env : Env) → HostLaws env → DefaultsOk (cfe env)
unfolding strtol is_port is_plus is_ipaddr is_syslog_facility
cfe-DefaultsOk env laws = (
  rw laws.has_local1 refl,
  (is_ipaddr-loopback env laws, (refl, (refl, (tt, (tt, (refl, (refl, tt))))))),
)

is_port-bounds : (v : ℤ) → is_port v ≡ none → (n : ℕ) × (v ≡ pos n) × (n ≤ 65535)
unfolding is_port
is_port-bounds (pos n) h = (n, refl, ground arith)
is_port-bounds (negsuc n) h = cc

is_plus-bounds : (v : ℤ) → is_plus v ≡ none → (n : ℕ) × (v ≡ pos n) × (0 < n)
unfolding is_plus
is_plus-bounds (pos n) h = (n, refl, ground arith)
is_plus-bounds (negsuc n) h = cc

is_ipaddr-some :
    (env : Env) (o : Option Bytes)
    → TextOk (some (is_ipaddr env)) o
    → (v : Bytes) × (o ≡ some v) × (is_ipaddr env v ≡ none)
unfolding is_ipaddr
is_ipaddr-some env none h = elim (Bool-cases (env.inet_aton [])) [ inl b ↦ cc | inr b ↦ cc ]
is_ipaddr-some env (some v) h = (v, refl, h)

is_syslog_facility-some :
    (env : Env) (o : Option Bytes)
    → HostLaws env
    → TextOk (some (is_syslog_facility env)) o
    → (v : Bytes) × (o ≡ some v) × (is_syslog_facility env v ≡ none)
unfolding is_syslog_facility
is_syslog_facility-some env none laws h = cc (laws.none_empty)
is_syslog_facility-some env (some v) laws h = (v, refl, h)

pub AllOk-IsValid :
    (env : Env) (cfg : ConfigData) → HostLaws env → AllOk (cfe env) cfg → IsValid env cfg
AllOk-IsValid env cfg laws h = record {
  facility = is_syslog_facility-some env _ laws h.0;
  listen = is_ipaddr-some env _ h.1.0;
  listen_port = is_port-bounds _ h.1.1.0;
  milter_timeout = is_plus-bounds _ h.1.1.1.0;
  copy_server = is_ipaddr-some env _ h.1.1.1.1.0;
  copy_port = is_port-bounds _ h.1.1.1.1.1.0;
  copy_timeout = is_plus-bounds _ h.1.1.1.1.1.1.0;
}
