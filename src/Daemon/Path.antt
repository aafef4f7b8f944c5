-- ===== src/Daemon/Path.antt =====
-- The path of the configuration file over the callbacks that begin and end a connection
-- (src/milter.c).
use madai.Base.{
  ℤ, pos, suc, negsuc, ℕ, minus_one, eq_ℤ, ltb, Option, none, some, ◌≡◌, if◌then◌else◌, Bool-cases,
  inl, inr,
}
use madai.Types.{Addr, SessionData, Message, Sfsistat, accept, continue}
use madai.Sys.{
  Block, Event, Env, State, Cmd, pure, ◌>>◌, emit, log, load_session, store_session, load_set,
}
use madai.Smtp.Keeping.{
  Keeping, bind-Keeping, cond-Keeping, pure-Keeping, deref-Keeping, crash-Keeping,
}
use madai.Config.{
  int_max, incr, decr, get_config, release_locked, release_config, free_config_data,
  free_config_set,
}
use madai.Milter.{
  session_data_init, connect_session, mdfi_connect, mdfi_abort, mdfi_close, free_session_data,
  with_priv, set_priv,
}

-- The path of the configuration file is the same.
abbrev pub SamePath : State → State → Type 0
SamePath s t = t.mem.config_filepath ≡ s.mem.config_filepath

abbrev Pathless : {A : Type 0} → Cmd A → Type 0
Pathless = Keeping SamePath

log-Pathless : (m : Message) → Pathless (log m)
log-Pathless m = record { keeps = λ s t h. h }

emit-Pathless : (e : Event) → Pathless (emit e)
emit-Pathless e = record { keeps = λ s t h. h }

load_session-Pathless : (p : Addr) → Pathless (load_session p)
load_session-Pathless p = record {
  keeps = λ s t h. (deref-Keeping {R = SamePath} (t.mem.sessions p)).keeps s t h;
}

store_session-Pathless : (p : Addr) (x : SessionData) → Pathless (store_session p x)
store_session-Pathless p x =
    bind-Keeping (load_session-Pathless p) λ _. record { keeps = λ s t h. h }

load_set-Pathless : (p : Addr) → Pathless (load_set p)
load_set-Pathless p = record {
  keeps = λ s t h. (deref-Keeping {R = SamePath} (t.mem.sets p)).keeps s t h;
}

incr-Pathless : (z : ℤ) → Pathless (incr z)
incr-Pathless (pos n) = cond-Keeping (ltb n int_max) (pure-Keeping (pos (suc n))) crash-Keeping
incr-Pathless (negsuc (ℕ.zero)) = pure-Keeping (pos 0)
incr-Pathless (negsuc (suc n)) = pure-Keeping (negsuc n)

decr-Pathless : (z : ℤ) → Pathless (decr z)
decr-Pathless (pos (suc n)) = pure-Keeping (pos n)
decr-Pathless (pos (ℕ.zero)) = pure-Keeping (negsuc 0)
decr-Pathless (negsuc n) =
    cond-Keeping (ltb n int_max) (pure-Keeping (negsuc (suc n))) crash-Keeping

get_config-Pathless : Pathless get_config
unfolding get_config
get_config-Pathless = record {
  keeps = λ s t h.
      (bind-Keeping {R = SamePath} (deref-Keeping t.mem.cur_config) λ p.
          bind-Keeping (load_set-Pathless p) λ cfg_set.
            bind-Keeping (incr-Pathless cfg_set.refcount) λ refcount.
              bind-Keeping
                (bind-Keeping (load_set-Pathless p) λ _. record { keeps = λ s' t' h'. h' })
                λ _. pure-Keeping p).keeps
        s t h;
}

release_locked-Pathless : (p : Addr) → Pathless (release_locked p)
unfolding release_locked
release_locked-Pathless p = bind-Keeping (load_set-Pathless p) λ cfg_set.
    bind-Keeping (decr-Pathless cfg_set.refcount) λ refcount.
      bind-Keeping (bind-Keeping (load_set-Pathless p) λ _. record { keeps = λ s' t' h'. h' })
        λ _. pure-Keeping _

free_config_set-Pathless : (p : Addr) → Pathless (free_config_set p)
unfolding free_config_set free_config_data
free_config_set-Pathless p = bind-Keeping (load_set-Pathless p) λ cfg_set.
    bind-Keeping
      (bind-Keeping (deref-Keeping cfg_set.config)
        λ _. emit-Pathless (Event.freed Block.config_data))
      λ _. record { keeps = λ s t h. h }

release_config-Pathless : (p : Addr) → Pathless (release_config p)
unfolding release_config
release_config-Pathless p =
    bind-Keeping (release_locked-Pathless p)
      λ del. cond-Keeping del (free_config_set-Pathless p) (pure-Keeping tt)

free_session_data-Pathless : (p : Addr) → Pathless (free_session_data p)
unfolding free_session_data
free_session_data-Pathless p = bind-Keeping (load_session-Pathless p) λ session.
    bind-Keeping (deref-Keeping session.config)
      λ config. bind-Keeping (release_config-Pathless config) λ _. record { keeps = λ s t h. h }

private_data :
    (o : Option Addr) (rest : Addr → Cmd Sfsistat)
    → ((p : Addr) → Pathless (rest p))
    → Pathless (elim o as (λ _. Cmd Sfsistat) [
      | none ↦ (do log Message.err_get_priv; pure accept)
      | some p ↦ rest p
    ])
private_data none rest q = bind-Keeping (log-Pathless Message.err_get_priv) λ _. pure-Keeping accept
private_data (some p) rest q = q p

with_priv-Pathless :
    (ctx : Addr) (rest : Addr → Cmd Sfsistat)
    → ((p : Addr) → Pathless (rest p))
    → Pathless (with_priv ctx rest)
with_priv-Pathless ctx rest q = record {
  keeps = λ s t h. (private_data (t.mem.privs ctx) rest q).keeps s t h;
}

module _ (env : Env) where
  set_priv-Pathless : (ctx : Addr) (p : Option Addr) → Pathless (set_priv env ctx p)
  set_priv-Pathless ctx p = record {
    keeps = λ s t h. elim (Bool-cases (env.setpriv t.trace ctx p)) [
      | inl done ↦ rw done h
      | inr refused ↦ rw refused h
    ];
  }

  session_data_init-Pathless : Pathless (session_data_init env)
  unfolding session_data_init
  session_data_init-Pathless = record {
    keeps = λ s t h. elim (Bool-cases (env.malloc t.trace Block.session_data)) [
      | inl room ↦ rw room h
      | inr no_room ↦ rw no_room h
    ];
  }

  connect_session-Pathless : (ctx : Addr) (o : Option Addr) → Pathless (connect_session env ctx o)
  unfolding connect_session
  connect_session-Pathless ctx none = pure-Keeping accept
  connect_session-Pathless ctx (some p) = bind-Keeping get_config-Pathless λ config.
      bind-Keeping (load_session-Pathless p) λ session.
        bind-Keeping (store_session-Pathless p (record session { config = some config })) λ _.
          bind-Keeping (set_priv-Pathless ctx (some p))
            λ done. pure-Keeping (if done then continue else accept)

  pub mdfi_connect-Pathless : (ctx : Addr) → Pathless (mdfi_connect env ctx)
  unfolding mdfi_connect
  mdfi_connect-Pathless ctx =
      bind-Keeping session_data_init-Pathless λ o. connect_session-Pathless ctx o

  pub mdfi_abort-Pathless : (ctx : Addr) → Pathless (mdfi_abort env ctx)
  unfolding mdfi_abort
  mdfi_abort-Pathless ctx = with_priv-Pathless ctx _ λ p.
      bind-Keeping (load_session-Pathless p) λ session.
        bind-Keeping (emit-Pathless (Event.closed session.socket)) λ _.
          bind-Keeping (store_session-Pathless p (record session { socket = minus_one }))
            λ _. bind-Keeping (set_priv-Pathless ctx (some p)) λ _. pure-Keeping continue

  pub mdfi_close-Pathless : (ctx : Addr) → Pathless (mdfi_close env ctx)
  unfolding mdfi_close
  mdfi_close-Pathless ctx = with_priv-Pathless ctx _ λ p.
      bind-Keeping (load_session-Pathless p) λ session.
        bind-Keeping
          (cond-Keeping (eq_ℤ session.socket minus_one) (pure-Keeping tt)
            (emit-Pathless (Event.closed session.socket)))
          λ _.
            bind-Keeping (free_session_data-Pathless p)
              λ _. bind-Keeping (set_priv-Pathless ctx none) λ _. pure-Keeping continue
