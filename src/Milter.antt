-- ===== src/Milter.antt =====
-- src/milter.c: the callbacks that libmilter makes for one connection, and the private data that
-- they share. `ctx` is the `SMFICTX` pointer. The arguments that a callback ignores are left out.
pub mod Relay
pub mod Socket
pub mod Beside
pub mod Stays
pub mod Greeting
pub mod Abort
pub mod Receiver
pub mod Sockets
pub mod Connection
pub mod Mail
pub mod Release
pub mod Sessions
pub mod Whole
pub mod Opening
use madai.Base.{
  ℕ, suc, ◌+◌, ℤ, minus_one, eq_ℤ, Bool, Option, none, some, Bytes, length, if◌then◌else◌,
}
use madai.Types.{Addr, SessionData, Sfsistat, accept, continue, Message}
use madai.Sys.{
  crash, Block, Event, Env, Memory, Cmd, pure, ◌>>=◌, ◌>>◌, deref, memory, set_memory, emit, ask,
  log, update, load_session, store_session,
}
use madai.Config.{get_config, release_config}
use madai.Smtp.{send_from, send_rcpt, send_header, send_eoh, send_body, send_eom, send_data}
use madai.Smtp.Start.{start_smtp}

-- What each callback makes of the result of a send function.
abbrev pub answer : ℤ → Sfsistat
answer ret = if eq_ℤ ret minus_one then accept else continue

-- `smfi_getpriv`, the guard on it that each callback begins with, and the rest of the callback.
abbrev pub with_priv : Addr → (Addr → Cmd Sfsistat) → Cmd Sfsistat
with_priv ctx rest = do
  m ← memory
  elim (m.privs ctx) [ none ↦ (do log Message.err_get_priv; pure accept) | some p ↦ rest p ]

-- `free_session_data`
unfoldable pub free_session_data : Addr → Cmd (Unit {0})
free_session_data p = do
  session ← load_session p
  config ← deref session.config
  release_config config
  m ← memory
  set_memory (record m { sessions = update m.sessions p none })
  emit (Event.freed Block.session_data)

module _ (env : Env) where
  -- `smfi_setpriv`: libmilter keeps the pointer if it answers MI_SUCCESS.
  abbrev pub set_priv : Addr → Option Addr → Cmd Bool
  set_priv ctx p = do
    m ← memory
    done ← ask (λ t. env.setpriv t ctx p) Event.set_private
    set_memory (if done then record m { privs = update m.privs ctx p } else m)
    pure done

  -- `session_data_init`
  unfoldable pub session_data_init : Cmd (Option Addr)
  session_data_init = do
    room ← ask (λ t. env.malloc t Block.session_data) (Event.allocated Block.session_data)
    m ← memory
    if room
        then (do
          set_memory (record m {
            sessions =
                update m.sessions m.next (some (record { config = none; socket = minus_one }));
            next = suc m.next;
          })
          pure (some m.next))
        else (do log Message.err_memory_allocate; pure none)

  unfoldable pub connect_session : Addr → Option Addr → Cmd Sfsistat
  connect_session ctx none = pure accept
  connect_session ctx (some p) = do
    config ← get_config
    session ← load_session p
    store_session p (record session { config = some config })
    done ← set_priv ctx (some p)
    pure (if done then continue else accept)

  unfoldable pub mdfi_connect : Addr → Cmd Sfsistat
  unfolding session_data_init connect_session
  mdfi_connect ctx = do session_list ← session_data_init; connect_session ctx session_list

  abbrev pub after_from : Addr → Addr → ℤ → Cmd Sfsistat
  after_from ctx p ret =
      if eq_ℤ ret minus_one
      then pure accept
      else do done ← set_priv ctx (some p); pure (if done then continue else accept)

  -- `mdfi_envfrom` behind the assignment of `sd_socket`
  pub greet_session : Addr → Addr → ℤ → Cmd Sfsistat
  greet_session ctx p socket =
      if eq_ℤ socket minus_one then pure accept else do ret ← send_from env p; after_from ctx p ret

  unfoldable pub mdfi_envfrom : Addr → Cmd Sfsistat
  unfolding greet_session
  mdfi_envfrom ctx = with_priv ctx λ p. do
    socket ← start_smtp env p
    session ← load_session p
    store_session p (record session { socket = socket })
    greet_session ctx p socket

  unfoldable pub mdfi_envrcpt : Addr → Bytes → Cmd Sfsistat
  mdfi_envrcpt ctx rcptto = with_priv ctx λ p. do ret ← send_rcpt env p rcptto; pure (answer ret)

  unfoldable pub mdfi_header : Addr → Bytes → Bytes → Cmd Sfsistat
  mdfi_header ctx headerf headerv =
      with_priv ctx λ p. do ret ← send_header env p headerf headerv; pure (answer ret)

  unfoldable pub mdfi_eoh : Addr → Cmd Sfsistat
  mdfi_eoh ctx = with_priv ctx λ p. do ret ← send_eoh env p; pure (answer ret)

  -- `body[bodylen + 1] = '\0'` stores behind the array of `bodylen + 1` bytes: undefined, unless the
  -- byte there is no one's.
  unfoldable pub mdfi_body : Addr → Bytes → Cmd Sfsistat
  mdfi_body ctx bodyp = with_priv ctx λ p. do
    if env.spare (length bodyp + 1)
        then emit (Event.stray_store (length bodyp + 1) (length bodyp + 1))
        else crash
    ret ← send_body env p bodyp
    pure (answer ret)

  unfoldable pub mdfi_eom : Addr → Cmd Sfsistat
  mdfi_eom ctx = with_priv ctx λ p. do ret ← send_eom env p; pure (answer ret)

  unfoldable pub mdfi_data : Addr → Cmd Sfsistat
  mdfi_data ctx = with_priv ctx λ p. do ret ← send_data env p; pure (answer ret)

  unfoldable pub mdfi_abort : Addr → Cmd Sfsistat
  mdfi_abort ctx = with_priv ctx λ p. do
    session ← load_session p
    emit (Event.closed session.socket)
    store_session p (record session { socket = minus_one })
    set_priv ctx (some p)
    pure continue

  unfoldable pub mdfi_close : Addr → Cmd Sfsistat
  unfolding free_session_data
  mdfi_close ctx = with_priv ctx λ p. do
    session ← load_session p
    if eq_ℤ session.socket minus_one then pure tt else emit (Event.closed session.socket)
    free_session_data p
    set_priv ctx none
    pure continue

-- The callbacks, and `mdfilter`, which says which function takes each.
pub data Callback : Type 0 where
  connect envfrom : Callback
  envrcpt : Bytes → Callback
  header : Bytes → Bytes → Callback
  eoh : Callback
  body : Bytes → Callback
  eom abort close data_command : Callback

abbrev pub mdfilter : Env → Addr → Callback → Cmd Sfsistat
mdfilter env ctx connect = mdfi_connect env ctx
mdfilter env ctx envfrom = mdfi_envfrom env ctx
mdfilter env ctx (envrcpt rcptto) = mdfi_envrcpt env ctx rcptto
mdfilter env ctx (header headerf headerv) = mdfi_header env ctx headerf headerv
mdfilter env ctx eoh = mdfi_eoh env ctx
mdfilter env ctx (body bodyp) = mdfi_body env ctx bodyp
mdfilter env ctx eom = mdfi_eom env ctx
mdfilter env ctx abort = mdfi_abort env ctx
mdfilter env ctx close = mdfi_close env ctx
mdfilter env ctx data_command = mdfi_data env ctx
