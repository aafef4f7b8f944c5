-- ===== src/Examples.antt =====
-- Concrete inputs for the theorems: a kernel that takes five bytes at a write, one configuration,
-- and the states of one reload under a session.
mod Callbacks
mod Sending
mod Loading
mod Sets
mod Hosts
mod Lives
use madai.Base.{
  ℕ, ◌==◌, ◌≤◌, ℤ, pos, pos_part, minus_one, Bool, true, false, none, some, List, [], ◌∷◌, ◌++◌,
  ◌+◌, ◌<◌, ◌⊎◌, ◌≡◌, ◌≢◌, refl, sym, arith, Bytes, codes, length, take, to_int, if◌then◌else◌,
}
use mathlib.Core.Option.{some-injective}
use madai.Types.{Addr, Fd, ConfigData, ConfigSet, errorlog, to_stderr}
use madai.Sys.{Env, Memory, State, ok, fault, update}
use madai.Sys.Ends.{Ends}
use madai.Sys.Wire.{WriteLaws, Delivers}
use madai.Smtp.{rcpt_line, write_msg, send_from, send_rcpt, send_header}
use madai.Smtp.Compose.{Sound}
use madai.Smtp.Start.{open_fds, Connects, start_smtp, start_smtp-Connects}
use madai.Smtp.Write.{write_msg-Delivers}
use madai.Smtp.Commands.{
  Configured, IsShort, greeting, host_for, send_from-Delivers, send_rcpt-Delivers,
  send_header-Delivers,
}
use madai.Config.{get_config, release_config, reload_locked, release_locked, free_config_set}
use madai.Config.Refs.{Counted, count, place_set}
use madai.Config.Threads.{
  World, get, release, build, install, Reach, here, next, IsCounted, Reach-IsCounted,
}
use madai.Config.Safety.{
  Alive, held-Alive, doomed_once, quiet-no_leak, get_config_returns, release_locked_returns,
  reload_locked_returns, free_config_set_returns, release_config-Counted,
}
use madai.Libdg.Checks.{syslog_facility}
use madai.Libdg.Reader.{read_config}
use madai.Libdg.Reader.Valid.{SmallFile, Loads, read_config-Loads}
use madai.Config.Load.{cfe, cleared, setup_config_set, startup_config, reload_config}
use madai.Config.Valid.{HostLaws, cfe-IsTable, cfe-DefaultsOk, cleared-TermsOk}
use madai.Config.Setup.{Builds, setup_config_set-Builds}
use madai.Config.Reload.{Reloads, reload_config-Reloads}
use madai.Config.Startup.{Starts, startup_config-Starts}
use madai.Milter.{
  mdfi_connect, mdfi_close, Callback, envfrom, envrcpt, header, eoh, body, eom, data_command,
}
use madai.ThreadControl.{do_hup}
use madai.ThreadControl.Hup.{Renews, do_hup-Renews}
use madai.Smtp.Faults.{send_rcpt-outcomes}
use madai.Libdg.Decimal.{print_int}
use madai.Madai.{serve}
use madai.Madai.Start.{Serves, serve-Serves}
use madai.Milter.Whole.{Leaves, mail_and_close, mail_and_close-Leaves}
use madai.Milter.Opening.{Opened, mdfi_connect-Opened}
use madai.Milter.Sessions.{Closes, mdfi_close-Closes}
use madai.Milter.Relay.{run_callbacks, Relays, sends_all, run_callbacks-Relays}

pub length-take-le : (n : ℕ) (s : Bytes) → length (take n s) ≤ length s
length-take-le (ℕ.zero) s = omega arith
length-take-le (ℕ.suc n) [] = omega arith
length-take-le (ℕ.suc n) (c ∷ s) = omega (arith, length-take-le n s)

-- The sum of the descriptors, which is above each of them.
abbrev pub sum_of : List Fd → ℕ
sum_of [] = 0
sum_of (fd ∷ fds) = pos_part fd + sum_of fds

abbrev pub steady : Env
steady = record {
  socket = λ t. pos (3 + sum_of (open_fds t));
  connect = λ t fd a p. pos 0;
  inet_addr = λ ip. 1;
  htons = λ n. n;
  write = λ t fd buf. pos (length (take 5 buf));
  read = λ t fd n. pos 1;
  gethostname = λ t. (pos 0, codes "mx");
  malloc = λ t b. true;
  setpriv = λ t ctx p. true;
  inet_aton = λ ip. true;
  facilitynames = (codes "mail", 16) ∷ (codes "local1", 136) ∷ [];
  stat = λ t f. some false;
  access_w = λ t f. true;
  access_r = λ t f. true;
  stat_error = λ t f. codes "No such file or directory";
  access_error = λ t f. codes "Permission denied";
  eisdir = codes "Is a directory";
  enotdir = codes "Not a directory";
  prints_null = true;
  fopen = λ t f. some (codes "CopyServerIP=10.0.0.2\nCopyPort=25\nHeloDomain=example.com\n");
  strdup = λ s. true;
  erange = false;
  sigmask = λ t. pos 0;
  sigaction = λ t. pos 0;
  pthread_create = λ t. pos 0;
  milter = λ t c. true;
  spare = λ n. true;
  rounds = 2000;
}

pub steady-WriteLaws : WriteLaws steady
steady-WriteLaws = record {
  bounded = λ t fd buf. length-take-le 5 buf;
  progress = λ t fd buf ne. ground arith;
}

pub steady-Sound : Sound steady
steady-Sound = record { laws = steady-WriteLaws; enough = omega arith }

abbrev pub cfg : ConfigData
cfg = record {
  syslogfacility = some (codes "local1");
  listenip = some (codes "127.0.0.1");
  listenport = pos 20026;
  miltertimeout = pos 120;
  copyserverip = some (codes "10.0.0.2");
  copyport = pos 25;
  copymailtimeout = pos 30;
  helodomain = some (codes "example.com");
}

-- One set at address 0, held `n` times; one session at address 1, on `fd`; private data of
-- context 7.
abbrev pub mem_with : ℤ → Fd → Memory
mem_with n fd = record {
  sets = λ p.
      if p == 0 then some (record { config = some cfg; refcount = n; delflg = false }) else none;
  sessions = λ p. if p == 1 then some (record { config = some 0; socket = fd }) else none;
  next = 2;
  cur_config = some 0;
  privs = λ c. if c == 7 then some 1 else none;
  logfunc = errorlog;
  dgconfig_log = to_stderr;
  debugmode = false;
  config_filepath = codes "/etc/madai/madai.conf";
}

abbrev pub state_with : ℤ → Fd → State
state_with n fd = record { mem = mem_with n fd; trace = [] }

pub connected : (fd : Fd) → Configured (mem_with (pos 1) fd) 1 fd cfg
connected fd = record {
  session = record { config = some 0; socket = fd };
  set_at = 0;
  cfg_set = record { config = some cfg; refcount = pos 1; delflg = false };
  live = refl;
  points = refl;
  allocated = refl;
  holds = refl;
  on_socket = refl;
}

-- A session takes the set at 0, a reload puts the set at 2 in its place, and the session gives the
-- old set back and frees it.
abbrev pub old_set : ℤ → Bool → ConfigSet
old_set n del = record { config = some cfg; refcount = n; delflg = del }

abbrev pub put_old : State → ℤ → Bool → State
put_old s n del = record s {
  mem = record s.mem { sets = update s.mem.sets 0 (some (old_set n del)) };
}

abbrev pub state_got : State
state_got = put_old (state_with (pos 0) minus_one) (pos 1) false

abbrev pub state_built : State
state_built = record state_got { mem = place_set state_got.mem cfg }

abbrev pub state_installed : State
state_installed =
    let s = put_old state_built (pos 1) true in
    record s { mem = record s.mem { cur_config = some 2 } }

abbrev pub state_released : State
state_released = put_old state_installed (pos 0) true

abbrev pub world : State → List Addr → List Addr → List Addr → World
world s held doomed fresh = record { state = s; held = held; doomed = doomed; fresh = fresh }

abbrev pub first_world : World
first_world = world (state_with (pos 0) minus_one) [] [] []

pub first_world-IsCounted : IsCounted first_world
first_world-IsCounted = record {
  started = (0, refl);
  unused = λ q le. ground arith;
  status = λ q. ground arith;
}

pub Reach-got : Reach first_world (world state_got (0 ∷ []) [] [])
unfolding get_config
Reach-got = next here (get 0 state_got (omega arith) refl)

pub Reach-built : Reach first_world (world state_built (0 ∷ []) [] (2 ∷ []))
Reach-built = next Reach-got (build cfg)

pub Reach-installed : Reach first_world (world state_installed (0 ∷ []) [] [])
unfolding reload_locked
Reach-installed = next Reach-built (install 2 (0, false) state_installed (omega arith) refl)

pub Reach-released : Reach first_world (world state_released [] (0 ∷ []) [])
unfolding release_locked
Reach-released = next Reach-installed (release 0 true state_released (omega arith) refl)

-- The memory before a set is built.
abbrev pub blank_state : State
blank_state = record {
  mem = record (mem_with (pos 0) minus_one) { sets = λ p. none; cur_config = none };
  trace = [];
}
