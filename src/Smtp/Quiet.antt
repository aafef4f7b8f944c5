-- ===== src/Smtp/Quiet.antt =====
-- The open descriptors and the sessions over the send functions of src/smtp.c, whether these succeed
-- or not.
use madai.Base.{
  ℕ, zero, suc, ℤ, pos, minus_one, pos_part, is_neg, is_pos, eq_ℤ, to_int, ◌-ℤ◌, Option, none, some,
  [], ◌∷◌, ◌≡◌, Bytes, length, take, drop, Option-cases, inl, inr,
}
use madai.Types.{Addr, Fd, ConfigData, SessionData, Message}
use madai.Sys.{Event, Env, State, Cmd, pure, ◌>>=◌, ask, log, load_session}
use madai.Smtp.{
  config_of, check, write_failed, read_failed, write_loop, write_msg, read_msg, write_then,
  read_then, helo_name, from_with, send_from, send_rcpt, split_newline, header_loop, send_header,
  send_eoh, send_body, send_eom, send_data, sys_write, crlf, rcpt_line, eom_line, data_line,
  helo_line, from_line, host_len, buf_len,
}
use madai.Smtp.Start.{open_fds}
use madai.Smtp.Keeping.{
  Keeping, bind-Keeping, cond-Keeping, pure-Keeping, deref-Keeping, copy_into-Keeping,
}

-- From `s` to `t` no descriptor is opened or closed, and no session changes, nor does the path of
-- the configuration file.
abbrev pub Untouched : State → State → Type 0
Untouched s t =
    (open_fds t.trace ≡ open_fds s.trace)
    × (t.mem.sessions ≡ s.mem.sessions)
    × (t.mem.config_filepath ≡ s.mem.config_filepath)

-- A command that has this effect at most, on each run that returns.
abbrev pub Quiet : {A : Type 0} → Cmd A → Type 0
Quiet = Keeping Untouched

pub log-Quiet : (m : Message) → Quiet (log m)
log-Quiet m = record { keeps = λ s t h. h }

pub load_session-Quiet : (p : Addr) → Quiet (load_session p)
load_session-Quiet p = record {
  keeps = λ s t h. (deref-Keeping {R = Untouched} (t.mem.sessions p)).keeps s t h;
}

config_of-Quiet : (session : SessionData) → Quiet (config_of session)
config_of-Quiet session = bind-Keeping (deref-Keeping session.config) λ config.
    bind-Keeping
      (record { keeps = λ s t h. (deref-Keeping {R = Untouched} (t.mem.sets config)).keeps s t h })
      λ cfg_set. deref-Keeping cfg_set.config

check-Quiet :
    (step : Cmd ℤ) (failure : Message) (rest : Cmd ℤ)
    → Quiet step
    → Quiet rest
    → Quiet (check step failure rest)
check-Quiet step failure rest q r = bind-Keeping q λ ret.
    cond-Keeping (is_neg ret) (bind-Keeping (log-Quiet failure) λ _. pure-Keeping minus_one) r

module _ (env : Env) where
  sys_write-Quiet : (fd : Fd) (buf : Bytes) → Quiet (sys_write env fd buf)
  sys_write-Quiet fd buf = record { keeps = λ s t h. h }

  sys_read-Quiet : (fd : Fd) → Quiet (ask (λ t. env.read t fd buf_len) (Event.received fd))
  sys_read-Quiet fd = record { keeps = λ s t h. h }

  named-Quiet : Quiet (ask env.gethostname (λ r. Event.named r.0))
  named-Quiet = record { keeps = λ s t h. h }

  write_loop-Quiet :
      (k : ℕ) (fd : Fd) (buf : Bytes) (left_len : ℤ) → Quiet (write_loop env k fd buf left_len)
  unfolding write_loop
  write_loop-Quiet zero fd buf left_len = record { keeps = λ s t h. tt }
  write_loop-Quiet (suc k) fd buf left_len =
      cond-Keeping (is_pos left_len)
        (bind-Keeping (sys_write-Quiet fd (take (pos_part left_len) buf)) λ size.
          cond-Keeping (is_neg size) (pure-Keeping minus_one)
            (write_loop-Quiet k fd (drop (pos_part size) buf) (left_len -ℤ size)))
        (pure-Keeping (pos 0))

  write_then-Quiet :
      (cfg : ConfigData) (fd : Fd) (text : Bytes) {rest : Cmd ℤ}
      → Quiet rest
      → Quiet (write_then env cfg fd text rest)
  unfolding write_then write_msg
  write_then-Quiet cfg fd text {rest} r =
      check-Quiet (write_msg env fd text (to_int (length text))) (write_failed cfg) rest
        (write_loop-Quiet env.rounds fd text (to_int (length text))) r

  read_then-Quiet :
      (cfg : ConfigData) (fd : Fd) {rest : Cmd ℤ} → Quiet rest → Quiet (read_then env cfg fd rest)
  unfolding read_then read_msg
  read_then-Quiet cfg fd {rest} r =
      check-Quiet (read_msg env fd) (read_failed cfg) rest
        (bind-Keeping (sys_read-Quiet fd)
          λ n. cond-Keeping (eq_ℤ n minus_one) (pure-Keeping minus_one) (pure-Keeping (pos 0)))
        r

  -- Each send function begins with the configuration of its session.
  session-Quiet :
      (p : Addr) (rest : SessionData → ConfigData → Cmd ℤ)
      → ((x : SessionData) (cfg : ConfigData) → Quiet (rest x cfg))
      → Quiet (do session ← load_session p; cfg ← config_of session; rest session cfg)
  session-Quiet p rest q =
      bind-Keeping (load_session-Quiet p)
        λ session. bind-Keeping (config_of-Quiet session) λ cfg. q session cfg

  done-Quiet : Quiet {A = ℤ} (pure (pos 0))
  done-Quiet = pure-Keeping (pos 0)

  helo_name-Quiet : (cfg : ConfigData) (configured : Bytes) → Quiet (helo_name env cfg configured)
  unfolding helo_name
  helo_name-Quiet cfg [] = bind-Keeping named-Quiet λ r.
      cond-Keeping (eq_ℤ r.0 (pos 0))
        (bind-Keeping (copy_into-Keeping host_len r.1) λ name. pure-Keeping (some name))
        (bind-Keeping (log-Quiet Message.err_func_gethostname) λ _. pure-Keeping none)
  helo_name-Quiet cfg (c ∷ cs) =
      bind-Keeping (copy_into-Keeping host_len (c ∷ cs)) λ name. pure-Keeping (some name)

  from_with-Quiet :
      (cfg : ConfigData) (fd : Fd) (hostname : Option Bytes) → Quiet (from_with env cfg fd hostname)
  unfolding from_with
  from_with-Quiet cfg fd none = pure-Keeping minus_one
  from_with-Quiet cfg fd (some hostname) =
      bind-Keeping (copy_into-Keeping buf_len (helo_line hostname)) λ buf.
        write_then-Quiet cfg fd buf (
          read_then-Quiet cfg fd
            (write_then-Quiet cfg fd from_line (read_then-Quiet cfg fd done-Quiet)))

  pub send_from-Quiet : (p : Addr) → Quiet (send_from env p)
  unfolding send_from
  send_from-Quiet p = bind-Keeping (load_session-Quiet p) λ session.
      bind-Keeping (config_of-Quiet session) λ cfg.
        bind-Keeping (deref-Keeping cfg.helodomain) λ helodomain.
          bind-Keeping (helo_name-Quiet cfg helodomain)
            λ hostname. from_with-Quiet cfg session.socket hostname

  pub send_rcpt-Quiet : (p : Addr) (rcptto : Bytes) → Quiet (send_rcpt env p rcptto)
  unfolding send_rcpt
  send_rcpt-Quiet p rcptto = bind-Keeping (load_session-Quiet p) λ session.
      bind-Keeping (config_of-Quiet session) λ cfg.
        bind-Keeping (copy_into-Keeping buf_len (rcpt_line rcptto)) λ buf.
          write_then-Quiet cfg session.socket buf (read_then-Quiet cfg session.socket done-Quiet)

  header_loop-Quiet :
      (k : ℕ) (cfg : ConfigData) (fd : Fd) (l_start : Bytes)
      → Quiet (header_loop env k cfg fd l_start)
  unfolding header_loop
  header_loop-Quiet zero cfg fd l_start = record { keeps = λ s t h. tt }
  header_loop-Quiet (suc k) cfg fd l_start = elim (Option-cases (split_newline l_start)) [
    | inl last ↦
        rw (header_loop, last)
          (write_then-Quiet cfg fd l_start (write_then-Quiet cfg fd crlf done-Quiet))
    | inr ((line, rest), more) ↦
        rw (header_loop, more)
          (write_then-Quiet cfg fd line
            (write_then-Quiet cfg fd crlf (header_loop-Quiet k cfg fd rest)))
  ]

  pub send_header-Quiet :
      (p : Addr) (headerf headerv : Bytes) → Quiet (send_header env p headerf headerv)
  unfolding send_header
  send_header-Quiet p headerf headerv = session-Quiet p _ λ session cfg.
      write_then-Quiet cfg session.socket headerf (
        write_then-Quiet cfg session.socket (b':' ∷ [])
          (header_loop-Quiet (suc (length headerv)) cfg session.socket headerv))

  pub send_eoh-Quiet : (p : Addr) → Quiet (send_eoh env p)
  unfolding send_eoh
  send_eoh-Quiet p =
      session-Quiet p _ λ session cfg. write_then-Quiet cfg session.socket crlf done-Quiet

  pub send_body-Quiet : (p : Addr) (bodyp : Bytes) → Quiet (send_body env p bodyp)
  unfolding send_body
  send_body-Quiet p bodyp =
      session-Quiet p _ λ session cfg. write_then-Quiet cfg session.socket bodyp done-Quiet

  pub send_eom-Quiet : (p : Addr) → Quiet (send_eom env p)
  unfolding send_eom
  send_eom-Quiet p = session-Quiet p _ λ session cfg.
      write_then-Quiet cfg session.socket eom_line (read_then-Quiet cfg session.socket done-Quiet)

  pub send_data-Quiet : (p : Addr) → Quiet (send_data env p)
  unfolding send_data
  send_data-Quiet p = session-Quiet p _ λ session cfg.
      write_then-Quiet cfg session.socket data_line (read_then-Quiet cfg session.socket done-Quiet)
