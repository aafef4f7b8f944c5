-- ===== src/Log.antt =====
-- The two places that messages go to: `logfunc` of src/log.c and `dgconfig_log` of
-- src/libdg/libdgconfig.c. Writing a message is one event, whatever it goes through.
use madai.Base.{is_neg, Option, none, some, Bytes, if◌then◌else◌}
use madai.Types.{LogFunc, DgLog, errorlog, systemlog, to_syslog, to_stderr, nowhere}
use madai.Sys.{Event, Env, Cmd, ◌>>=◌, ◌>>◌, deref, memory, set_memory, emit}
use madai.Libdg.Text.{same_nocase}
use madai.Libdg.Checks.{facility_stderr, facility_none, syslog_facility}

abbrev set_logfunc : LogFunc → Cmd (Unit {0})
set_logfunc f = do m ← memory; set_memory (record m { logfunc = f })

abbrev set_dgconfig_log : DgLog → Cmd (Unit {0})
set_dgconfig_log f = do m ← memory; set_memory (record m { dgconfig_log = f })

unfoldable pub init_log : Cmd (Unit {0})
init_log = set_logfunc errorlog

unfoldable pub switch_log : Env → Option Bytes → Cmd (Unit {0})
switch_log env none = do emit Event.syslog_closed; set_logfunc errorlog
switch_log env (some newfacility) = do
  emit Event.syslog_closed
  let facility = syslog_facility env newfacility
  if is_neg facility
      then set_logfunc errorlog
      else (do emit (Event.syslog_opened facility); set_logfunc systemlog)

unfoldable pub dgloginit : Cmd (Unit {0})
dgloginit = set_dgconfig_log to_stderr

-- `strcasecmp` reads the facility, so NULL is a fault.
unfoldable pub dglogchange : Env → Option Bytes → Cmd (Unit {0})
dglogchange env facility_name = do
  name ← deref facility_name
  if same_nocase name facility_stderr
      then set_dgconfig_log to_stderr
      else if same_nocase name facility_none
      then set_dgconfig_log nowhere
      else (do
        emit Event.syslog_closed
        emit (Event.syslog_opened (syslog_facility env name))
        set_dgconfig_log to_syslog)
