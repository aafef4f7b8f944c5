-- ===== src/Types.antt =====
-- The structs of src/config.h and src/milter.h, and the values that handlers and loggers share.
-- A `char *` is `Option Bytes`, with `none` for NULL and the terminating NUL left out; a pointer
-- to a struct is an `Addr`, and `Option Addr` where it may be NULL.
use madai.Base.{ℕ, ℤ, Bool, Option, Bytes}

abbrev pub Addr : Type 0
Addr = ℕ

abbrev pub Fd : Type 0
Fd = ℤ

-- `struct config_data`
pub record ConfigData : Type 0 where
  pub syslogfacility : Option Bytes
  pub listenip : Option Bytes
  pub listenport : ℤ
  pub miltertimeout : ℤ
  pub copyserverip : Option Bytes
  pub copyport : ℤ
  pub copymailtimeout : ℤ
  pub helodomain : Option Bytes

-- `struct config_set`. No two sets share a `config_data`, so it is a value here.
pub record ConfigSet : Type 0 where
  pub config : Option ConfigData
  pub refcount : ℤ
  pub delflg : Bool

-- `struct session_data`
pub record SessionData : Type 0 where
  pub config : Option Addr
  pub socket : Fd

-- What a callback tells libmilter.
pub data Sfsistat : Type 0 where
  accept continue : Sfsistat

-- What `logfunc` points to.
pub data LogFunc : Type 0 where
  errorlog systemlog : LogFunc

-- What `dgconfig_log` points to: syslog(3), `LOG` or `NoLOG`.
pub data DgLog : Type 0 where
  to_syslog to_stderr nowhere : DgLog

-- The messages of src/log.h, with the arguments that vary.
pub data Message : Type 0 where
  err_create_socket err_connect_socket : Message
  err_write err_read : Option Bytes → ℤ → Message
  err_get_priv : Message
  err_memory_allocate : Message
  err_func_gethostname : Message
  err_use_old_param success_conf_change : Message
  err_block_signal err_unblock_signal err_catch_signal err_thread_create : Message
  stderr_config_read : Bytes → Message
  success_read_config_file : Message
  err_func_init_c_data err_func_make_c_data err_func_init_c_set : Message
  err_read_config_file err_setup_config_set : Message
