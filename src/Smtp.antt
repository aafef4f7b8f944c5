-- ===== src/Smtp.antt =====
-- src/smtp.c and src/smtp.h: the client that copies a mail to the second server, one SMTP
-- command at a time. `env.rounds` bounds the rounds of the `while` loop in `write_msg`.
pub mod Start
pub mod Write
pub mod Compose
pub mod Header
pub mod Commands
pub mod Faults
pub mod Keeping
pub mod Quiet
use madai.Base.{
  ℕ, zero, suc, ◌^◌, ◌%◌, ℤ, pos, minus_one, pos_part, is_neg, is_pos, eq_ℤ, to_int, ◌-ℤ◌, Bool,
  true, false, not, Option, none, some, [], ◌∷◌, ◌++◌, Bytes, codes, length, take, drop, ltb, leb,
  ◌==◌, if◌then◌else◌,
}
use madai.Types.{Addr, Fd, ConfigData, SessionData, Message}
use madai.Sys.{
  Event, Env, Cmd, hang, pure, ◌>>=◌, ◌>>◌, crash, deref, emit, ask, log, load_session, load_set,
}

abbrev pub host_len : ℕ
host_len = 256

-- The size of the buffer `buf` of each function.
abbrev pub buf_len : ℕ
buf_len = 1024

abbrev pub crlf : Bytes
crlf = b'\r' ∷ b'\n' ∷ []

abbrev pub helo_line : Bytes → Bytes
helo_line host = codes "HELO " ++ (host ++ crlf)

abbrev pub from_line : Bytes
from_line = codes "MAIL FROM: <>\r\n"

abbrev pub rcpt_line : Bytes → Bytes
rcpt_line rcpt = codes "RCPT TO:" ++ (rcpt ++ crlf)

abbrev pub data_line : Bytes
data_line = codes "DATA\r\n"

abbrev pub eom_line : Bytes
eom_line = codes ".\r\n"

-- `sprintf` or `strcpy` of a text and its NUL into an array of `size` bytes.
abbrev pub copy_into : ℕ → Bytes → Cmd Bytes
copy_into size text = if ltb (length text) size then pure text else crash

-- `strchr(s, '\n')`: what stands before the first newline, and what stands behind it.
pub split_newline : Bytes → Option (Bytes × Bytes)
split_newline [] = none
split_newline (c ∷ cs) =
    if c == b'\n'
    then some ([], cs)
    else elim (split_newline cs) [ none ↦ none | some (a, b) ↦ some (c ∷ a, b) ]

abbrev pub config_of : SessionData → Cmd ConfigData
config_of session = do
  config ← deref session.config
  cfg_set ← load_set config
  deref cfg_set.config

-- `if (step < 0) { LOG(failure, …); return -1; }`, and then the rest of the function.
abbrev pub check : Cmd ℤ → Message → Cmd ℤ → Cmd ℤ
check step failure rest = do
  ret ← step
  if is_neg ret then (do log failure; pure minus_one) else rest

abbrev pub write_failed : ConfigData → Message
write_failed cfg = Message.err_write cfg.copyserverip cfg.copyport

abbrev pub read_failed : ConfigData → Message
read_failed cfg = Message.err_read cfg.copyserverip cfg.copyport

module _ (env : Env) where
  -- write(2), on the first `len` bytes of `buf`
  abbrev pub sys_write : Fd → Bytes → Cmd ℤ
  sys_write fd buf = ask (λ t. env.write t fd buf) (Event.wrote fd buf)

  -- The loop of `write_msg`: `buf` is what the moving pointer points at.
  pub write_loop : ℕ → Fd → Bytes → ℤ → Cmd ℤ
  write_loop zero fd buf left_len = λ s. hang
  write_loop (suc k) fd buf left_len =
      if is_pos left_len
      then (do
        size ← sys_write fd (take (pos_part left_len) buf)
        if is_neg size
            then pure minus_one
            else write_loop k fd (drop (pos_part size) buf) (left_len -ℤ size))
      else pure (pos 0)

  unfoldable pub write_msg : Fd → Bytes → ℤ → Cmd ℤ
  unfolding write_loop
  write_msg fd buf len = write_loop env.rounds fd buf len

  -- `n` may be 0, at the end of the stream: only -1 is an error. What was read is thrown away.
  unfoldable pub read_msg : Fd → Cmd ℤ
  read_msg fd = do
    n ← ask (λ t. env.read t fd buf_len) (Event.received fd)
    if eq_ℤ n minus_one then pure minus_one else pure (pos 0)

  -- A command and the reply to it: the pair of guards that most functions are made of. The
  -- length goes through `int`.
  pub write_then : ConfigData → Fd → Bytes → Cmd ℤ → Cmd ℤ
  unfolding write_msg
  write_then cfg fd text rest =
      check (write_msg fd text (to_int (length text))) (write_failed cfg) rest

  pub read_then : ConfigData → Fd → Cmd ℤ → Cmd ℤ
  unfolding read_msg
  read_then cfg fd rest = check (read_msg fd) (read_failed cfg) rest

  -- `hostname`, from the configuration or the kernel. `none` is the `return -1`.
  pub helo_name : ConfigData → Bytes → Cmd (Option Bytes)
  helo_name cfg [] = do
    (ret, name) ← ask env.gethostname (λ r. Event.named r.0)
    if eq_ℤ ret (pos 0)
        then (do name' ← copy_into host_len name; pure (some name'))
        else (do log Message.err_func_gethostname; pure none)
  helo_name cfg (c ∷ cs) = do name ← copy_into host_len (c ∷ cs); pure (some name)

  pub from_with : ConfigData → Fd → Option Bytes → Cmd ℤ
  unfolding write_then read_then
  from_with cfg fd none = pure minus_one
  from_with cfg fd (some hostname) = do
    buf ← copy_into buf_len (helo_line hostname)
    write_then cfg fd buf
        (read_then cfg fd (write_then cfg fd from_line (read_then cfg fd (pure (pos 0)))))

  unfoldable pub send_from : Addr → Cmd ℤ
  unfolding helo_name from_with
  send_from p = do
    session ← load_session p
    cfg ← config_of session
    helodomain ← deref cfg.helodomain
    hostname ← helo_name cfg helodomain
    from_with cfg session.socket hostname

  unfoldable pub send_rcpt : Addr → Bytes → Cmd ℤ
  unfolding write_then read_then
  send_rcpt p rcptto = do
    session ← load_session p
    cfg ← config_of session
    buf ← copy_into buf_len (rcpt_line rcptto)
    write_then cfg session.socket buf (read_then cfg session.socket (pure (pos 0)))

  -- The loop over the lines of a header value, on as many rounds as the value has bytes.
  pub header_loop : ℕ → ConfigData → Fd → Bytes → Cmd ℤ
  unfolding write_then split_newline
  header_loop zero cfg fd l_start = λ s. hang
  header_loop (suc k) cfg fd l_start = elim (split_newline l_start) [
    | none ↦ write_then cfg fd l_start (write_then cfg fd crlf (pure (pos 0)))
    | some (line, rest) ↦
        write_then cfg fd line (write_then cfg fd crlf (header_loop k cfg fd rest))
  ]

  unfoldable pub send_header : Addr → Bytes → Bytes → Cmd ℤ
  unfolding write_then header_loop
  send_header p headerf headerv = do
    session ← load_session p
    cfg ← config_of session
    write_then cfg session.socket headerf (
        write_then cfg session.socket (b':' ∷ [])
          (header_loop (suc (length headerv)) cfg session.socket headerv))

  unfoldable pub send_eoh : Addr → Cmd ℤ
  unfolding write_then
  send_eoh p = do
    session ← load_session p
    cfg ← config_of session
    write_then cfg session.socket crlf (pure (pos 0))

  unfoldable pub send_body : Addr → Bytes → Cmd ℤ
  unfolding write_then
  send_body p bodyp = do
    session ← load_session p
    cfg ← config_of session
    write_then cfg session.socket bodyp (pure (pos 0))

  unfoldable pub send_eom : Addr → Cmd ℤ
  unfolding write_then read_then
  send_eom p = do
    session ← load_session p
    cfg ← config_of session
    write_then cfg session.socket eom_line (read_then cfg session.socket (pure (pos 0)))

  unfoldable pub send_data : Addr → Cmd ℤ
  unfolding write_then read_then
  send_data p = do
    session ← load_session p
    cfg ← config_of session
    write_then cfg session.socket data_line (read_then cfg session.socket (pure (pos 0)))
