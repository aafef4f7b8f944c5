-- ===== src/Config/Load.antt =====
-- The rest of src/config.c: reading a configuration into a new set, at the start and on reload.
use madai.Base.{
  ℕ, suc, ℤ, pos, is_neg, is_pos, Bool, true, false, Option, none, some, List, [], ◌∷◌, Bytes,
  codes, if◌then◌else◌,
}
use madai.Types.{Addr, ConfigData, Message}
use madai.Sys.{
  Block, Event, Env, Cmd, pure, ◌>>=◌, ◌>>◌, deref, memory, set_memory, ask, log, update, load_set,
}
use madai.Log.{switch_log, dgloginit, dglogchange}
use madai.Libdg.Checks.{is_syslog_facility, is_ipaddr, is_port, is_plus}
use madai.Libdg.Entry.{
  CfEntry, number, text, cd_listenport, cd_miltertimeout, cd_copyport, cd_copymailtimeout,
  cd_syslogfacility, cd_listenip, cd_copyserverip, cd_helodomain,
}
use madai.Libdg.Reader.{read_config}
use madai.Config.{free_config_data, free_config_set, reload_locked}
use madai.Smtp.{copy_into}

abbrev pub path_max : ℕ
path_max = 4096

-- The table of terms.
abbrev pub cfe : Env → List CfEntry
cfe env =
    record {
      name = codes "SyslogFacility";
      type = text (some (is_syslog_facility env)) cd_syslogfacility;
      default = some (codes "local1");
    }
    ∷ record {
      name = codes "ListenIP";
      type = text (some (is_ipaddr env)) cd_listenip;
      default = some (codes "127.0.0.1");
    }
    ∷ record {
      name = codes "ListenPort";
      type = number true (some is_port) cd_listenport;
      default = some (codes "20026");
    }
    ∷ record {
      name = codes "MilterTimeout";
      type = number true (some is_plus) cd_miltertimeout;
      default = some (codes "120");
    }
    ∷ record {
      name = codes "CopyServerIP";
      type = text (some (is_ipaddr env)) cd_copyserverip;
      default = none;
    }
    ∷ record {
      name = codes "CopyPort";
      type = number true (some is_port) cd_copyport;
      default = none;
    }
    ∷ record {
      name = codes "CopyMailTimeout";
      type = number true (some is_plus) cd_copymailtimeout;
      default = some (codes "30");
    }
    ∷ record { name = codes "HeloDomain"; type = text none cd_helodomain; default = some [] }
    ∷ []

-- `memset(cfg_data, 0, …)`
abbrev pub cleared : ConfigData
cleared = record {
  syslogfacility = none;
  listenip = none;
  listenport = pos 0;
  miltertimeout = pos 0;
  copyserverip = none;
  copyport = pos 0;
  copymailtimeout = pos 0;
  helodomain = none;
}

-- `DEBUG_LOG`
abbrev pub debug_log : Message → Cmd (Unit {0})
debug_log msg = do m ← memory; if m.debugmode then log msg else pure tt

-- `malloc`, as `init_config_data` and `init_config_set` call it.
abbrev take_memory : Env → Block → Cmd Bool
take_memory env blk = do
  room ← ask (λ t. env.malloc t blk) (Event.allocated blk)
  if room then pure true else (do log Message.err_memory_allocate; pure false)

-- `make_config_data`: `none` if the file could not be read or has an error.
unfoldable pub make_config_data : Env → ConfigData → Cmd (Option ConfigData)
unfolding free_config_data
make_config_data env cfg_data = do
  m ← memory
  reading ← read_config env m.config_filepath (cfe env) cfg_data
  if is_pos reading.ret
      then (do
        debug_log Message.err_read_config_file
        free_config_data (some reading.cfg)
        pure none)
      else if is_neg reading.ret
      then (do free_config_data (some reading.cfg); pure none)
      else pure (some reading.cfg)

-- `init_config_set` and `make_config_set`. Where there is no memory for the set, the configuration
-- is not freed.
unfoldable pub place_config : Env → Option ConfigData → Cmd (Option Addr)
place_config env none = do debug_log Message.err_func_make_c_data; pure none
place_config env (some cfg_data) = do
  room ← take_memory env Block.config_set
  m ← memory
  if room
      then (do
        set_memory (record m {
          sets =
              update m.sets m.next
                (some (record { config = some cfg_data; refcount = pos 0; delflg = false }));
          next = suc m.next;
        })
        pure (some m.next))
      else (do debug_log Message.err_func_init_c_set; pure none)

unfoldable pub setup_config_set : Env → Cmd (Option Addr)
unfolding make_config_data place_config
setup_config_set env = do
  room ← take_memory env Block.config_data
  if room
      then (do cfg_data ← make_config_data env cleared; place_config env cfg_data)
      else (do debug_log Message.err_func_init_c_data; pure none)

-- `_cur_config->cs_config->cd_syslogfacility`, as any thread reads it, without the lock
abbrev pub current_facility : Cmd (Option Bytes)
current_facility = do
  m ← memory
  p ← deref m.cur_config
  cfg_set ← load_set p
  cfg ← deref cfg_set.config
  pure cfg.syslogfacility

unfoldable pub startup_with : Env → Option Addr → Cmd (Option Addr)
startup_with env none = do debug_log Message.err_setup_config_set; pure none
startup_with env (some p) = do
  cfg_set ← load_set p
  cfg ← deref cfg_set.config
  dglogchange env cfg.syslogfacility
  m ← memory
  set_memory (record m { cur_config = some p })
  pure (some p)

unfoldable pub startup_config : Env → Bytes → Cmd (Option Addr)
unfolding setup_config_set startup_with
startup_config env filepath = do
  path ← copy_into path_max filepath
  m ← memory
  set_memory (record m { config_filepath = path })
  dgloginit
  cfg_set ← setup_config_set env
  startup_with env cfg_set

unfoldable pub reload_with : Env → Option Addr → Cmd ℤ
reload_with env none = pure (pos 1)
reload_with env (some new_config) = do
  (old_config, conf_delflg) ← reload_locked new_config
  facility ← current_facility
  switch_log env facility
  facility' ← current_facility
  dglogchange env facility'
  if conf_delflg then free_config_set old_config else pure tt
  pure (pos 0)

unfoldable pub reload_config : Env → Cmd ℤ
unfolding setup_config_set reload_with
reload_config env = do new_config ← setup_config_set env; reload_with env new_config
