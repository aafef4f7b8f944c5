-- ===== src/Examples/Loading.antt =====
-- The theorems on the configuration file and the start, at concrete inputs.
use madai.Base.{true, none, pos, minus_one, some, [], ◌∷◌, ◌≡◌, ◌⊎◌, refl, sym, arith, Bytes, codes}
use mathlib.Core.Option.{some-injective}
use madai.Sys.{Env, pure}
use madai.Sys.Ends.{Ends, ends}
use madai.Config.Threads.{Reach-IsCounted}
use madai.Libdg.Checks.{
  syslog_facility, is_syslog_facility, is_ipaddr, is_port, is_plus, unreadable,
}
use madai.Config.Print.{terms_text}
use madai.Config.Print.ReadBack.{AllPrintable, read_config-terms_text}
use madai.Libdg.Reader.{read_config}
use madai.Libdg.Reader.Valid.{SmallFile, Loads, read_config-Loads}
use madai.Libdg.Entry.{number, cd_copyport}
use madai.Libdg.Reader.{match_key, behind_equals}
use madai.Libdg.Reader.Meaning.{given, absent, lines_give}
use madai.Config.Load.{cfe, cleared, startup_config, reload_config}
use madai.Config.Valid.{HostLaws, cfe-IsTable, cfe-DefaultsOk, cleared-TermsOk}
use madai.Config.Reload.{Reloads, reload_config-Reloads}
use madai.Config.Startup.{Starts, startup_config-Starts}
use madai.ThreadControl.{do_hup}
use madai.ThreadControl.Hup.{Renews, do_hup-Renews}
use madai.ThreadControl.Replaced.{Replaced, do_hup-Replaced}
use madai.Libdg.Decimal.{print_int}
use madai.Madai.{serve}
use madai.Madai.Start.{Serves, serve-Serves}
use madai.Examples.{
  blank_state, Reach-got, cfg, first_world, first_world-IsCounted, state_got, state_with, steady,
}

pub steady-HostLaws : HostLaws steady
unfolding syslog_facility
steady-HostLaws = record { loopback = refl; has_local1 = refl; none_empty = refl }

pub steady-SmallFile : (path : Bytes) → SmallFile steady (cfe steady) path
unfolding unreadable
steady-SmallFile path = record {
  small = λ t content e.
      let same =
        some-injective (codes "CopyServerIP=10.0.0.2\nCopyPort=25\nHeloDomain=example.com\n")
          content e in
      rw (sym same) (omega arith);
  tells = λ t why e. cc;
}

read_config-Loads_example :
    Ends
      (Loads (cfe steady) (state_with (pos 0) minus_one))
      (read_config steady (codes "madai.conf") (cfe steady) cleared (state_with (pos 0) minus_one))
read_config-Loads_example =
    read_config-Loads steady (cfe steady) (cfe-IsTable steady)
      (cfe-DefaultsOk steady steady-HostLaws) (codes "madai.conf") cleared
      (state_with (pos 0) minus_one) (cleared-TermsOk steady)
      (steady-SmallFile (codes "madai.conf"))

-- The last of two lines for a port is the one that counts.
last_port_counts :
    lines_give
      (cfe steady)
      5
      (number true none cd_copyport)
      (codes "CopyPort=25" ∷ codes "#CopyPort=27" ∷ codes "CopyPort=26" ∷ [])
      absent
    ≡ given (codes "26")
unfolding match_key behind_equals
last_port_counts = refl

reload_config-Reloads_example :
    Ends (Reloads steady (0 ∷ []) [] [] state_got) (reload_config steady state_got)
reload_config-Reloads_example =
    reload_config-Reloads steady steady-HostLaws state_got
      (Reach-IsCounted Reach-got first_world-IsCounted)
      (steady-SmallFile (codes "/etc/madai/madai.conf"))

startup_config-Starts_example :
    Ends (Starts steady blank_state.mem) (startup_config steady (codes "madai.conf") blank_state)
startup_config-Starts_example =
    startup_config-Starts steady steady-HostLaws (codes "madai.conf") blank_state (λ p. refl)
      (omega arith) (steady-SmallFile (codes "madai.conf"))

do_hup-Renews_example :
    Ends (λ _ t. Renews steady (0 ∷ []) [] [] state_got t) (do_hup steady state_got)
do_hup-Renews_example =
    do_hup-Renews steady steady-HostLaws refl state_got
      (Reach-IsCounted Reach-got first_world-IsCounted)
      (steady-SmallFile (codes "/etc/madai/madai.conf"))

do_hup-Replaced_example :
    Ends
      (λ _ t. (t.mem ≡ state_got.mem) ⊎ Replaced (0 ∷ []) 0 state_got t)
      (do_hup steady state_got)
do_hup-Replaced_example =
    do_hup-Replaced steady steady-HostLaws refl 0 state_got
      (Reach-IsCounted Reach-got first_world-IsCounted) refl
      (steady-SmallFile (codes "/etc/madai/madai.conf"))

serve-Serves_example :
    Ends
      (Serves (codes "inet:20026@127.0.0.1") (pos 120))
      (serve steady (pure tt) 0 first_world.state)
unfolding print_int
serve-Serves_example =
    serve-Serves steady cfg (codes "127.0.0.1") 0 (pure tt) (λ t. ends refl) first_world.state refl
      first_world-IsCounted refl refl (omega arith)

-- A file that holds what was printed for `cfg`.
abbrev printed : Env
printed = record steady { fopen = λ t f. some (terms_text (cfe steady) cfg) }

cfg-AllPrintable : AllPrintable printed (cfe printed) cfg
unfolding is_syslog_facility is_ipaddr is_port is_plus
cfg-AllPrintable = (
  (b'l', (codes "ocal1", refl, refl, refl, omega arith, refl)),
  (
    (b'1', (codes "27.0.0.1", refl, refl, refl, omega arith, refl)),
    (
      (refl, (20026, refl, omega arith, refl)),
      (
        (refl, (120, refl, omega arith, refl)),
        (
          (b'1', (codes "0.0.0.2", refl, refl, refl, omega arith, refl)),
          (
            (refl, (25, refl, omega arith, refl)),
            (
              (refl, (30, refl, omega arith, refl)),
              ((b'e', (codes "xample.com", refl, refl, refl, omega arith, refl)), tt),
            ),
          ),
        ),
      ),
    ),
  ),
)

read_config-terms_text_example :
    Ends
      (λ r t. (r.ret ≡ pos 0) × (r.cfg ≡ cfg) × (t.mem ≡ (state_with (pos 0) minus_one).mem))
      (read_config printed
        (codes "madai.conf")
        (cfe printed)
        cleared
        (state_with (pos 0) minus_one))
unfolding unreadable
read_config-terms_text_example =
    read_config-terms_text printed (codes "madai.conf") cfg (state_with (pos 0) minus_one)
      cfg-AllPrintable refl refl (λ v. refl) refl
