-- ===== src/Madai.antt =====
-- src/madai.c, and `milter_start` of src/milter.c: the command line and the order of the start.
pub mod Start
pub mod Socket
pub mod Main
use madai.Base.{
  ℕ, zero, suc, ◌+◌, ◌/◌, ◌%◌, ℤ, pos, negsuc, eq_ℤ, Bool, true, false, not, Option, none, some,
  List, [], ◌∷◌, ◌++◌, Bytes, codes, ltb, if◌then◌else◌,
}
use madai.Types.{Addr, ConfigData, Message}
use madai.Sys.{
  MilterCall, Event, Env, Cmd, pure, ◌>>=◌, ◌>>◌, deref, memory, set_memory, emit, ask, log,
  load_set,
}
use madai.Libdg.Decimal.{print_int}
use madai.Log.{init_log, switch_log}
use madai.Smtp.{copy_into}
use madai.Config.Load.{path_max, startup_config}
use madai.Config.Print.{print_config_data}

-- What `getopt` with "df:" answers, one after the other.
pub data Opt : Type 0 where
  opt_d : Opt
  opt_f : Bytes → Opt
  opt_other : Opt

abbrev pub default_conffile : Bytes
default_conffile = codes "/etc/madai/madai.conf"

abbrev pub oconn_length : ℕ
oconn_length = 30

-- `exit(1)`, or the value that `main` returns.
pub data Exit : Type 0 where
  exit_failure exit_success : Exit

abbrev usage_exit : {A : Type 0} → Cmd (Option A)
usage_exit = do emit Event.usage_printed; pure none

abbrev is_empty : Bytes → Bool
is_empty [] = true
is_empty (c ∷ s) = false

-- The loop over the options: the path of the configuration file, or `none` after `exit(1)`.
unfoldable pub parse_options : List Opt → Bytes → Cmd (Option Bytes)
parse_options [] filepath = pure (some filepath)
parse_options (opt_d ∷ opts) filepath = do
  m ← memory
  set_memory (record m { debugmode = true })
  parse_options opts filepath
parse_options (opt_f optarg ∷ opts) filepath =
    if is_empty optarg
    then usage_exit
    else (do path ← copy_into path_max optarg; parse_options opts path)
parse_options (opt_other ∷ opts) filepath = usage_exit

abbrev pub oconn : ℤ → Bytes → Bytes
oconn port ip = codes "inet:" ++ (print_int port ++ (b'@' ∷ ip))

module _ (env : Env) where
  abbrev call : MilterCall → Cmd Bool
  call c = ask (λ t. env.milter t c) (Event.milter_called c)

  -- What `config_data` points to, in the set at `p`.
  abbrev pub config_data_of : Addr → Cmd ConfigData
  config_data_of p = do cfg_set ← load_set p; deref cfg_set.config

  -- `milter_start`: 1 at the first call that fails.
  unfoldable pub milter_start : Bytes → ℤ → Cmd ℤ
  milter_start socket timeout = do
    set ← call (MilterCall.setconn socket)
    if not set then pure (pos 1) else do
      timed ← call (MilterCall.settimeout timeout)
      if not timed then pure (pos 1) else do
        registered ← call MilterCall.register
        if not registered
            then pure (pos 1)
            else do ran ← call MilterCall.main_loop; pure (if ran then pos 0 else pos 1)

  -- `main` behind `startup_config`. `config_data` points into the set at `p`, and is followed each
  -- time. `meanwhile` is what the thread that is started does before `main` reads it again.
  unfoldable pub serve : Cmd (Unit {0}) → Addr → Cmd Exit
  unfolding milter_start print_int
  serve meanwhile p = do
    config_data ← config_data_of p
    switch_log env config_data.syslogfacility
    log Message.success_read_config_file
    m ← memory
    if m.debugmode then print_config_data env else pure tt
    started ← ask env.pthread_create Event.thread_started
    if not (eq_ℤ started (pos 0)) then (do log Message.err_thread_create; pure exit_failure) else do
      meanwhile
      blocked ← ask env.sigmask Event.masked
      if not (eq_ℤ blocked (pos 0))
          then (do log Message.err_block_signal; pure exit_failure)
          else do
            config_data' ← config_data_of p
            listenip ← deref config_data'.listenip
            socket ← copy_into oconn_length (oconn config_data'.listenport listenip)
            config_data'' ← config_data_of p
            ret ← milter_start socket config_data''.miltertimeout
            pure (if eq_ℤ ret (pos 0) then exit_success else exit_failure)

  unfoldable pub start_from : Cmd (Unit {0}) → Bytes → Cmd Exit
  unfolding serve
  start_from meanwhile filepath = do
    init_log
    config_set ← startup_config env filepath
    elim config_set [
      | none ↦ (do log (Message.stderr_config_read filepath); pure exit_failure)
      | some p ↦ serve meanwhile p
    ]

  -- `operands` is whether there are arguments that are no options.
  unfoldable pub main : Cmd (Unit {0}) → List Opt → Bool → Cmd Exit
  unfolding parse_options start_from
  main meanwhile opts operands = do
    options ← parse_options opts default_conffile
    elim options [
      | none ↦ pure exit_failure
      | some filepath ↦
          if operands
          then (do emit Event.usage_printed; pure exit_failure)
          else start_from meanwhile filepath
    ]
