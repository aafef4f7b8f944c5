-- ===== src/ThreadControl.antt =====
-- src/thread_control.c: the thread that reloads the configuration on SIGHUP.
pub mod Hup
pub mod Replaced
pub mod Hushed
use madai.Base.{ℤ, pos, minus_one, eq_ℤ, if◌then◌else◌}
use madai.Types.{Message}
use madai.Sys.{Event, Env, Cmd, pure, ◌>>=◌, ◌>>◌, deref, memory, emit, ask, log, load_set}
use madai.Config.Load.{reload_config}
use madai.Config.Print.{print_config_data}

abbrev pub reload_message : ℤ → Message
reload_message ret =
    if eq_ℤ ret (pos 0) then Message.success_conf_change else Message.err_use_old_param

-- `do_hup` once the signal is blocked.
unfoldable pub reload_unblock : Env → Cmd (Unit {0})
reload_unblock env = do
  reloaded_cfg ← reload_config env
  log (reload_message reloaded_cfg)
  pthread_ret ← ask env.sigmask Event.unmasked
  if eq_ℤ pthread_ret minus_one then log Message.err_unblock_signal else pure tt
  m ← memory
  if m.debugmode then print_config_data env else pure tt

unfoldable pub do_hup : Env → Cmd (Unit {0})
unfolding reload_unblock
do_hup env = do
  pthread_ret ← ask env.sigmask Event.masked
  if eq_ℤ pthread_ret minus_one then log Message.err_unblock_signal else reload_unblock env

-- How `wait_hup` goes on: it returns NULL, or sleeps for ever between signals.
pub data Waiting : Type 0 where
  returned sleeping : Waiting

unfoldable pub wait_hup : Env → Cmd Waiting
wait_hup env = do
  sig_ret ← ask env.sigaction Event.handler_set
  if eq_ℤ sig_ret minus_one then (do log Message.err_catch_signal; pure returned) else pure sleeping
