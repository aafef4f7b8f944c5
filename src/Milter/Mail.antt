-- ===== src/Milter/Mail.antt =====
-- A whole mail: MAIL FROM opens or keeps the connection to the copy server, and what follows goes
-- over it.
use madai.Base.{
  ◌<◌, ℤ, minus_one, is_neg, eq_ℤ, false, some, List, [], ◌∷◌, ◌++◌, ◌≡◌, ◌≢◌, refl, ap, ◌∙◌, Bytes,
  length,
}
use mathlib.Core.List.{append_assoc}
use madai.Types.{Addr, Fd, ConfigData, Sfsistat}
use madai.Sys.{Env, State}
use madai.Sys.Ends
use madai.Sys.Ends.{Ends, ends, deref-Ends}
use madai.Sys.Wire.{sent, Outcome, Outcome-append, whole, part}
use madai.Smtp.{host_len}
use madai.Smtp.Compose.{Sound}
use madai.Milter.Socket.{IsSocket}
use madai.Smtp.Commands.{Configured}
use madai.Milter.{answer, Callback, envfrom}
use madai.Milter.Stays.{Stays}
use madai.Milter.Relay.{AllSendable, sends_all, run_callbacks, unless_accept, run_callbacks-Relays}
use madai.Milter.Greeting.{hello, host_for-named, Greets, mdfi_envfrom-Greets}

-- The mail `bytes` reaches the copy server on some descriptor, whole if the answer is
-- SMFIS_CONTINUE, and else in part, and nothing is sent on any other. The session keeps its set.
pub record Copies (ctx p : Addr) (cfg : ConfigData) (q : Addr) (before : Fd) (bytes : Bytes)
    (s : State) (stat : Sfsistat) (t : State) : Type 0 where
  pub fd : Fd
  pub reused : is_neg before ≡ false → fd ≡ before
  pub code : ℤ
  pub stat_is : stat ≡ answer code
  pub outcome : Outcome bytes (sent fd s.trace) (sent fd t.trace) code
  pub others : (g : Fd) → eq_ℤ g fd ≡ false → sent g t.trace ≡ sent g s.trace
  pub stays : Stays ctx p cfg q s.mem t.mem

module _ (env : Env) (sound : Sound env) (ctx p : Addr) (cfg : ConfigData) (name : Bytes) where
  pub mail-Copies :
      (ip : Bytes) (cs : List Callback) (s : State) (before : Fd)
      → name ≢ []
      → length name < host_len
      → cfg.helodomain ≡ some name
      → cfg.copyserverip ≡ some ip
      → AllSendable env cs
      → s.mem.privs ctx ≡ some p
      → IsSocket before
      → (has : Configured s.mem p before cfg)
      → Ends
          (Copies ctx p cfg has.set_at before (hello name ++ sends_all cs) s)
          (run_callbacks env ctx (envfrom ∷ cs) s)
  unfolding run_callbacks
  mail-Copies ip cs s before ne short helo addr fits priv socket has =
      Ends.feed-Ends _
        (mdfi_envfrom-Greets env sound ctx p cfg name ip s before
          (λ u. rw (host_for-named env u name ne) short) helo addr priv socket has)
        λ stat t g. go stat t g (rw (g.configured ne) at g.outcome)
    where
      go :
          (stat : Sfsistat) (t : State) (g : Greets env ctx p cfg name has.set_at before s stat t)
          → Outcome (hello name) (sent g.fd s.trace) (sent g.fd t.trace) g.code
          → Ends
              (Copies ctx p cfg has.set_at before (hello name ++ sends_all cs) s)
              (unless_accept (run_callbacks env ctx cs) stat t)
      go stat t g (whole z x) =
          let (priv', has') = g.ready z in
          rw (g.stat_is, z)
            (Ends.weaken (run_callbacks-Relays env sound cs t fits priv' has') λ stat' u d. record {
              fd = g.fd;
              reused = g.reused;
              code = d.code;
              stat_is = d.stat_is;
              outcome = Outcome-append (hello name) (sends_all cs) x d.delivers.outcome;
              others = λ h apart. d.delivers.others h apart ∙ g.others h apart;
              stays = rw d.delivers.same_mem g.stays;
            })
      go stat t g (part now later z y x) =
          rw (g.stat_is, z)
            (ends (record {
              fd = g.fd;
              reused = g.reused;
              code = minus_one;
              stat_is = refl;
              outcome =
                  part now (later ++ sends_all cs) refl
                    (ap (λ w. w ++ sends_all cs) y ∙ append_assoc now later (sends_all cs)) x;
              others = g.others;
              stays = g.stays;
            }))
