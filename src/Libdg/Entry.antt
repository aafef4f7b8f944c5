-- ===== src/Libdg/Entry.antt =====
-- `struct cfentry`: one configuration term. Its type and the type of its check go together here,
-- and `cf_dataoffset` is the field of `struct config_data` that it is the offset of.
use madai.Base.{ℕ, ℤ, Bool, Option, some, Bytes}
use madai.Types.{ConfigData}
use madai.Libdg.Checks.{ConfErr}

pub data IntField : Type 0 where
  cd_listenport cd_miltertimeout cd_copyport cd_copymailtimeout : IntField

pub data TextField : Type 0 where
  cd_syslogfacility cd_listenip cd_copyserverip cd_helodomain : TextField

-- `cf_type` and `cf_check`: CF_INTEGER or, if the flag is set, CF_INT_PLUS; CF_STRING; CF_FUNCTION;
-- and any other number.
pub data CfType : Type 0 where
  number : Bool → Option (ℤ → Option ConfErr) → IntField → CfType
  text : Option (Bytes → Option ConfErr) → TextField → CfType
  function : (Bytes → ConfigData → ConfigData × Option ConfErr) → CfType
  other : ℕ → CfType

pub record CfEntry : Type 0 where
  pub name : Bytes
  pub type : CfType
  pub default : Option Bytes

abbrev pub set_int : IntField → ℤ → ConfigData → ConfigData
set_int cd_listenport v cfg = record cfg { listenport = v }
set_int cd_miltertimeout v cfg = record cfg { miltertimeout = v }
set_int cd_copyport v cfg = record cfg { copyport = v }
set_int cd_copymailtimeout v cfg = record cfg { copymailtimeout = v }

abbrev pub set_text : TextField → Bytes → ConfigData → ConfigData
set_text cd_syslogfacility v cfg = record cfg { syslogfacility = some v }
set_text cd_listenip v cfg = record cfg { listenip = some v }
set_text cd_copyserverip v cfg = record cfg { copyserverip = some v }
set_text cd_helodomain v cfg = record cfg { helodomain = some v }

abbrev pub get_int : IntField → ConfigData → ℤ
get_int cd_listenport cfg = cfg.listenport
get_int cd_miltertimeout cfg = cfg.miltertimeout
get_int cd_copyport cfg = cfg.copyport
get_int cd_copymailtimeout cfg = cfg.copymailtimeout

abbrev pub get_text : TextField → ConfigData → Option Bytes
get_text cd_syslogfacility cfg = cfg.syslogfacility
get_text cd_listenip cfg = cfg.listenip
get_text cd_copyserverip cfg = cfg.copyserverip
get_text cd_helodomain cfg = cfg.helodomain
