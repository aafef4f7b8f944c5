-- ===== src/Config.antt =====
-- src/config.c: the current configuration set, shared by the sessions and replaced on reload.
-- `config_lock` makes the locked part of `get_config`, of `release_config` and of `reload_config`
-- one step each, so each is a command of its own here. An `int` counter that would pass
-- 2^31 - 1 is a `fault`.
pub mod Refs
pub mod Threads
pub mod Steps
pub mod Load
pub mod Print
pub mod Valid
pub mod Setup
pub mod Reload
pub mod Startup
pub mod Safety
pub mod Snapshot
use madai.Base.{
  ℕ, suc, ◌+◌, ◌-◌, ◌^◌, ℤ, pos, negsuc, eq_ℤ, Bool, true, false, ◌&&◌, Option, none, some, ltb,
  if◌then◌else◌,
}
use madai.Types.{Addr, ConfigData, ConfigSet}
use madai.Sys.{
  Block, Event, Env, Memory, State, Cmd, ok, pure, ◌>>=◌, ◌>>◌, crash, deref, memory, set_memory,
  emit, update, load_set, store_set,
}

abbrev pub int_max : ℕ
int_max = 2 ^ 31 - 1

-- `n++` and `n--` on an `int`
abbrev pub incr : ℤ → Cmd ℤ
incr (pos n) = if ltb n int_max then pure (pos (suc n)) else crash
incr (negsuc (ℕ.zero)) = pure (pos 0)
incr (negsuc (suc n)) = pure (negsuc n)

abbrev pub decr : ℤ → Cmd ℤ
decr (pos (suc n)) = pure (pos n)
decr (pos (ℕ.zero)) = pure (negsuc 0)
decr (negsuc n) = if ltb n int_max then pure (negsuc (suc n)) else crash

-- `_free_config_data`, on what the set points to
unfoldable pub free_config_data : Option ConfigData → Cmd (Unit {0})
free_config_data data_ptr = do deref data_ptr; emit (Event.freed Block.config_data)

-- `free_config_set`
unfoldable pub free_config_set : Addr → Cmd (Unit {0})
unfolding free_config_data
free_config_set p = do
  cfg_set ← load_set p
  free_config_data cfg_set.config
  m ← memory
  set_memory (record m { sets = update m.sets p none })
  emit (Event.freed Block.config_set)

-- `get_config`: the whole function but its return stands under the lock.
unfoldable pub get_config : Cmd Addr
get_config = do
  m ← memory
  p ← deref m.cur_config
  cfg_set ← load_set p
  refcount ← incr cfg_set.refcount
  store_set p (record cfg_set { refcount = refcount })
  pure p

-- The locked part of `release_config`: the result is `cfg_delflg`.
unfoldable pub release_locked : Addr → Cmd Bool
release_locked p = do
  cfg_set ← load_set p
  refcount ← decr cfg_set.refcount
  store_set p (record cfg_set { refcount = refcount })
  pure (eq_ℤ refcount (pos 0) && cfg_set.delflg)

unfoldable pub release_config : Addr → Cmd (Unit {0})
unfolding release_locked free_config_set
release_config p = do
  cfg_delflg ← release_locked p
  if cfg_delflg then free_config_set p else pure tt

-- The locked part of `reload_config`: `_cur_config` becomes the new set. The result is the old
-- set and `conf_delflg`.
unfoldable pub reload_locked : Addr → Cmd (Addr × Bool)
reload_locked new_config = do
  m ← memory
  old_config ← deref m.cur_config
  cfg_set ← load_set old_config
  store_set old_config (record cfg_set { delflg = true })
  m' ← memory
  set_memory (record m' { cur_config = some new_config })
  pure (old_config, eq_ℤ cfg_set.refcount (pos 0))
