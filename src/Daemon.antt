-- ===== src/Daemon.antt =====
-- The daemon once `startup_config` is behind it: the callbacks of libmilter for all connections
-- (src/milter.c) and the reloads on SIGHUP (src/thread_control.c), one after the other in any order.
pub mod Table
pub mod Sockets
pub mod Path
pub mod Serving
pub mod Callbacks
pub mod Contract
pub mod Turns
pub mod Frames
pub mod Silence
pub mod Order
pub mod Life
pub mod Kept
pub mod Wire
use madai.Base.{Option, none, some, List, [], ◌∷◌, Bytes}
use madai.Types.{Addr}
use madai.Sys.{Env, Cmd, pure, ◌>>=◌, ◌>>◌}
use madai.Config.Load.{startup_config}
use madai.Milter.{Callback, mdfilter}
use madai.ThreadControl.{do_hup}

pub data DaemonEvent : Type 0 where
  called : Addr → Callback → DaemonEvent
  hup : DaemonEvent

-- libmilter keeps the answer of a callback to itself.
abbrev pub handle : Env → DaemonEvent → Cmd (Unit {0})
handle env (called ctx c) = do mdfilter env ctx c; pure tt
handle env hup = do_hup env

unfoldable pub daemon : Env → List DaemonEvent → Cmd (Unit {0})
daemon env [] = pure tt
daemon env (e ∷ es) = do handle env e; daemon env es

-- Without a configuration the daemon does not start.
abbrev pub daemon_if : Env → List DaemonEvent → Option Addr → Cmd (Unit {0})
daemon_if env es none = pure tt
daemon_if env es (some p) = daemon env es

unfoldable pub life : Env → Bytes → List DaemonEvent → Cmd (Unit {0})
life env filepath es = do cfg_set ← startup_config env filepath; daemon_if env es cfg_set
