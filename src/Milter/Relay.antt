-- ===== src/Milter/Relay.antt =====
-- What a callback puts on the wire to the copy server, and what a row of callbacks does.
use madai.Base.{
  true, ◌+◌, ◌<◌, ℤ, pos, minus_one, eq_ℤ, false, some, List, [], ◌∷◌, ◌++◌, ◌≡◌, refl, sym, ap,
  ◌∙◌, Bytes, length,
}
use mathlib.Core.List.{append-nil, append_assoc}
use madai.Types.{Addr, Fd, ConfigData, Sfsistat, accept, continue}
use madai.Sys.{Event, Env, State, Cmd, pure, ◌>>=◌}
use madai.Sys.Ends
use madai.Sys.Ends.{Ends, ends}
use madai.Sys.Wire.{sent, Outcome, whole, part, Delivers}
use madai.Smtp.{
  crlf, rcpt_line, data_line, eom_line, send_rcpt, send_header, send_eoh, send_body, send_eom,
  send_data,
}
use madai.Smtp.Compose.{Fits, Sound, Delivers-append}
use madai.Smtp.Header.{to_crlf}
use madai.Smtp.Commands.{
  Configured, send_rcpt-Delivers, send_header-Delivers, send_eoh-Delivers, send_body-Delivers,
  send_eom-Delivers, send_data-Delivers,
}
use madai.Milter.{
  answer, Callback, envrcpt, header, eoh, body, eom, data_command, mdfilter, mdfi_envrcpt,
  mdfi_header, mdfi_eoh, mdfi_body, mdfi_eom, mdfi_data,
}

-- The callbacks behind MAIL FROM, and what the copy server is to be sent for each.
abbrev pub sends : Callback → Bytes
sends (envrcpt rcptto) = rcpt_line rcptto
sends (header headerf headerv) = headerf ++ (b':' ∷ (to_crlf headerv ++ crlf))
sends eoh = crlf
sends (body bodyp) = bodyp
sends eom = eom_line
sends data_command = data_line
sends _ = []

-- The arguments fit the buffers and the counters of the functions that send them. The byte that is
-- stored behind the copy of a body chunk is no one's.
abbrev pub IsSendable : Env → Callback → Type 0
IsSendable env (envrcpt rcptto) = length rcptto + 10 < 1024
IsSendable env (header headerf headerv) = Fits env headerf × Fits env headerv
IsSendable env eoh = Unit {0}
IsSendable env (body bodyp) = Fits env bodyp × (env.spare (length bodyp + 1) ≡ true)
IsSendable env eom = Unit {0}
IsSendable env data_command = Unit {0}
IsSendable env _ = ⊥

abbrev pub sends_all : List Callback → Bytes
sends_all [] = []
sends_all (c ∷ cs) = sends c ++ sends_all cs

abbrev pub AllSendable : Env → List Callback → Type 0
AllSendable env [] = Unit {0}
AllSendable env (c ∷ cs) = IsSendable env c × AllSendable env cs

abbrev pub unless_accept : Cmd Sfsistat → Sfsistat → Cmd Sfsistat
unless_accept rest accept = pure accept
unless_accept rest continue = rest

-- libmilter makes the callbacks of a message in order, until one answers SMFIS_ACCEPT.
unfoldable pub run_callbacks : Env → Addr → List Callback → Cmd Sfsistat
run_callbacks env ctx [] = pure continue
run_callbacks env ctx (c ∷ cs) = do
  stat ← mdfilter env ctx c
  unless_accept (run_callbacks env ctx cs) stat

-- The answer is SMFIS_CONTINUE if all of `bytes` was sent, and SMFIS_ACCEPT if a part was.
pub record Relays (fd : Fd) (bytes : Bytes) (s : State) (stat : Sfsistat) (t : State) : Type 0 where
  pub code : ℤ
  pub stat_is : stat ≡ answer code
  pub delivers : Delivers fd bytes s code t

abbrev stray : Bytes → Event
stray bodyp = Event.stray_store (length bodyp + 1) (length bodyp + 1)

answer-Relays :
    (fd : Fd) (bytes : Bytes) (s : State) (step : Cmd ℤ)
    → Ends (Delivers fd bytes s) (step s)
    → Ends (Relays fd bytes s) ((do ret ← step; pure (answer ret)) s)
answer-Relays fd bytes s step e =
    Ends.feed-Ends _ e λ r t d. ends (record { code = r; stat_is = refl; delivers = d })

module _ (env : Env) (sound : Sound env) {ctx p : Addr} {fd : Fd} {cfg : ConfigData} where
  -- A callback with the private data of a connected session.
  pub callback-Relays :
      (c : Callback) (s : State)
      → IsSendable env c
      → s.mem.privs ctx ≡ some p
      → Configured s.mem p fd cfg
      → Ends (Relays fd (sends c) s) (mdfilter env ctx c s)
  unfolding mdfi_envrcpt mdfi_header mdfi_eoh mdfi_body mdfi_eom mdfi_data
  callback-Relays (envrcpt rcptto) s fits priv has =
      rw priv (
        answer-Relays fd _ s (send_rcpt env p rcptto)
          (send_rcpt-Delivers env sound has rcptto fits))
  callback-Relays (header headerf headerv) s fits priv has = rw priv (
      answer-Relays fd _ s (send_header env p headerf headerv)
        (send_header-Delivers env sound has headerf headerv fits.0 fits.1))
  callback-Relays eoh s fits priv has =
      rw priv (answer-Relays fd _ s (send_eoh env p) (send_eoh-Delivers env sound has))
  callback-Relays (body bodyp) s fits priv has =
      let u = record s { trace = stray bodyp ∷ s.trace } in
      let stray_has : Configured u.mem p fd cfg = has in
      rw (priv, fits.1)
        (Ends.weaken
          (answer-Relays fd bodyp u (send_body env p bodyp)
            (send_body-Delivers env sound stray_has bodyp fits.0))
          λ stat t d. record {
            code = d.code;
            stat_is = d.stat_is;
            delivers = record {
              same_mem = d.delivers.same_mem;
              outcome = d.delivers.outcome;
              others = d.delivers.others;
            };
          })
  callback-Relays eom s fits priv has =
      rw priv (answer-Relays fd _ s (send_eom env p) (send_eom-Delivers env sound has))
  callback-Relays data_command s fits priv has =
      rw priv (answer-Relays fd _ s (send_data env p) (send_data-Delivers env sound has))
  callback-Relays _ s fits priv has = absurd fits

  -- Over a kernel that keeps the laws of write(2) and with rounds enough, in a session that is
  -- connected, and for callbacks of a mail behind MAIL FROM whose texts fit, and the byte behind
  -- the copy of each body chunk is no one's: the callbacks end without a fault, change no memory,
  -- and the socket is sent each one's command in order, all of it where the last answer is
  -- SMFIS_CONTINUE, and a part of it where that is SMFIS_ACCEPT. Nothing is sent on any other
  -- descriptor.
  pub run_callbacks-Relays :
      (cs : List Callback) (s : State)
      → AllSendable env cs
      → s.mem.privs ctx ≡ some p
      → Configured s.mem p fd cfg
      → Ends (Relays fd (sends_all cs) s) (run_callbacks env ctx cs s)
  unfolding run_callbacks
  run_callbacks-Relays [] s fits priv has = ends (record {
    code = pos 0;
    stat_is = refl;
    delivers = record {
      same_mem = refl;
      outcome = whole refl (sym (append-nil _));
      others = λ g apart. refl;
    };
  })
  run_callbacks-Relays (c ∷ cs) s fits priv has =
      Ends.feed-Ends _ (callback-Relays c s fits.0 priv has) λ stat t d.
        after_callback stat t d.code d.stat_is d.delivers.same_mem d.delivers.others
          d.delivers.outcome λ m. run_callbacks-Relays cs t fits.1 (rw m priv) (rw m has)
    where
      after_callback :
          (stat : Sfsistat) (t : State) (code : ℤ)
          → stat ≡ answer code
          → t.mem ≡ s.mem
          → ((g : Fd) → eq_ℤ g fd ≡ false → sent g t.trace ≡ sent g s.trace)
          → Outcome (sends c) (sent fd s.trace) (sent fd t.trace) code
          → (t.mem ≡ s.mem → Ends (Relays fd (sends_all cs) t) (run_callbacks env ctx cs t))
          → Ends
              (Relays fd (sends c ++ sends_all cs) s)
              (unless_accept (run_callbacks env ctx cs) stat t)
      after_callback stat t code e m same (whole z x) rest =
          rw (e, z)
            (Ends.weaken (rest m) λ stat' u d. record {
              code = d.code;
              stat_is = d.stat_is;
              delivers = Delivers-append fd (sends c) (sends_all cs) m x same d.delivers;
            })
      after_callback stat t code e m same (part now later z y x) rest =
          rw (e, z)
            (ends (record {
              code = minus_one;
              stat_is = refl;
              delivers = record {
                same_mem = m;
                outcome =
                    part now (later ++ sends_all cs) refl
                      (ap (λ w. w ++ sends_all cs) y ∙ append_assoc now later (sends_all cs)) x;
                others = same;
              };
            }))
