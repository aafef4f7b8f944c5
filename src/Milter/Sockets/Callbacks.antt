-- ===== src/Milter/Sockets/Callbacks.antt =====
-- The open descriptors over the callbacks between MAIL FROM and the end of a mail.
use madai.Base.{
  ℕ, minus_one, eq_ℤ, none, some, List, [], ◌∷◌, length, ◌+◌, ℤ, Option, Bool-cases, inl, inr,
  if◌then◌else◌,
}
use madai.Types.{Addr, Message, Sfsistat, accept, continue}
use madai.Sys.{Event, Env, Cmd, pure, ◌>>=◌, ◌>>◌, emit, log}
use madai.Smtp.Keeping.{bind-Keeping, cond-Keeping, pure-Keeping, crash-Keeping}
use madai.Smtp.Quiet.{
  Quiet, log-Quiet, send_from-Quiet, send_rcpt-Quiet, send_header-Quiet, send_eoh-Quiet,
  send_body-Quiet, send_eom-Quiet, send_data-Quiet,
}
use madai.Milter.{
  answer, Callback, envrcpt, header, eoh, body, eom, data_command, mdfilter, mdfi_envrcpt,
  mdfi_header, mdfi_eoh, mdfi_body, mdfi_eom, mdfi_data, with_priv, set_priv, greet_session,
}
use madai.Milter.Relay.{IsSendable, AllSendable, run_callbacks, unless_accept}

private_data :
    (o : Option Addr) (rest : Addr → Cmd Sfsistat)
    → ((p : Addr) → Quiet (rest p))
    → Quiet (elim o as (λ _. Cmd Sfsistat) [
      | none ↦ (do log Message.err_get_priv; pure accept)
      | some p ↦ rest p
    ])
private_data none rest q = bind-Keeping (log-Quiet Message.err_get_priv) λ _. pure-Keeping accept
private_data (some p) rest q = q p

with_priv-Quiet :
    (ctx : Addr) (rest : Addr → Cmd Sfsistat)
    → ((p : Addr) → Quiet (rest p))
    → Quiet (with_priv ctx rest)
with_priv-Quiet ctx rest q = record {
  keeps = λ s t h. (private_data (t.mem.privs ctx) rest q).keeps s t h;
}

module _ (env : Env) where
  set_priv-Quiet : (ctx : Addr) (p : Option Addr) → Quiet (set_priv env ctx p)
  set_priv-Quiet ctx p = record {
    keeps = λ s t h. elim (Bool-cases (env.setpriv t.trace ctx p)) [
      | inl done ↦ rw done h
      | inr refused ↦ rw refused h
    ];
  }

  pub set_then-Quiet : (ctx p : Addr) → Quiet (do set_priv env ctx (some p); pure continue)
  set_then-Quiet ctx p = bind-Keeping (set_priv-Quiet ctx (some p)) λ done. pure-Keeping continue

  pub greet_session-Quiet : (ctx p : Addr) (socket : ℤ) → Quiet (greet_session env ctx p socket)
  unfolding greet_session
  greet_session-Quiet ctx p socket = cond-Keeping (eq_ℤ socket minus_one) (pure-Keeping accept) (
      bind-Keeping (send_from-Quiet env p) λ ret.
        cond-Keeping (eq_ℤ ret minus_one) (pure-Keeping accept) (
          bind-Keeping (set_priv-Quiet ctx (some p))
            λ done. pure-Keeping (if done then continue else accept)))

  answer-Quiet : (step : Cmd ℤ) → Quiet step → Quiet (do ret ← step; pure (answer ret))
  answer-Quiet step q = bind-Keeping q λ ret. pure-Keeping (answer ret)

  stray-Quiet : (n : ℕ) → Quiet (emit (Event.stray_store n n))
  stray-Quiet n = record { keeps = λ s t h. h }

  pub callback-Quiet : (ctx : Addr) (c : Callback) → IsSendable env c → Quiet (mdfilter env ctx c)
  unfolding mdfi_envrcpt mdfi_header mdfi_eoh mdfi_body mdfi_eom mdfi_data
  callback-Quiet ctx (envrcpt rcptto) fits =
      with_priv-Quiet ctx _ λ p. answer-Quiet _ (send_rcpt-Quiet env p rcptto)
  callback-Quiet ctx (header headerf headerv) fits =
      with_priv-Quiet ctx _ λ p. answer-Quiet _ (send_header-Quiet env p headerf headerv)
  callback-Quiet ctx eoh fits = with_priv-Quiet ctx _ λ p. answer-Quiet _ (send_eoh-Quiet env p)
  callback-Quiet ctx (body bodyp) fits = with_priv-Quiet ctx _ λ p.
      bind-Keeping
        (cond-Keeping (env.spare (length bodyp + 1)) (stray-Quiet (length bodyp + 1)) crash-Keeping)
        λ _. answer-Quiet _ (send_body-Quiet env p bodyp)
  callback-Quiet ctx eom fits = with_priv-Quiet ctx _ λ p. answer-Quiet _ (send_eom-Quiet env p)
  callback-Quiet ctx data_command fits =
      with_priv-Quiet ctx _ λ p. answer-Quiet _ (send_data-Quiet env p)
  callback-Quiet ctx _ fits = absurd fits

  unless_accept-Quiet :
      (rest : Cmd Sfsistat) (stat : Sfsistat) → Quiet rest → Quiet (unless_accept rest stat)
  unless_accept-Quiet rest accept q = pure-Keeping accept
  unless_accept-Quiet rest continue q = q

  run_callbacks-Quiet :
      (ctx : Addr) (cs : List Callback) → AllSendable env cs → Quiet (run_callbacks env ctx cs)
  unfolding run_callbacks
  run_callbacks-Quiet ctx [] fits = pure-Keeping continue
  run_callbacks-Quiet ctx (c ∷ cs) fits = bind-Keeping (callback-Quiet ctx c fits.0) λ stat.
      unless_accept-Quiet (run_callbacks env ctx cs) stat (run_callbacks-Quiet ctx cs fits.1)

  -- What follows MAIL FROM, behind the greeting.
  pub rest_of_mail-Quiet :
      (ctx : Addr) (cs : List Callback) (stat : Sfsistat)
      → AllSendable env cs
      → Quiet (unless_accept (run_callbacks env ctx cs) stat)
  rest_of_mail-Quiet ctx cs stat fits =
      unless_accept-Quiet (run_callbacks env ctx cs) stat (run_callbacks-Quiet ctx cs fits)
