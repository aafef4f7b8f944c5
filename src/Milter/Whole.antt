-- ===== src/Milter/Whole.antt =====
-- A mail and the end of its connection.
use madai.Base.{◌<◌, none, some, List, ◌∷◌, ◌≡◌, ◌≢◌, [], Bytes, length}
use madai.Types.{Addr, Fd, ConfigData, Sfsistat}
use madai.Sys.{Env, State, Cmd, ◌>>◌}
use madai.Sys.Ends
use madai.Sys.Ends.{Ends}
use madai.Sys.Wire.{sent}
use madai.Smtp.{host_len}
use madai.Smtp.Compose.{Sound}
use madai.Smtp.Commands.{Configured}
use madai.Config.Refs.{Counted, SameSets-Counted, count, remove_one}
use madai.Milter.{Callback, envfrom, mdfi_close}
use madai.Milter.Relay.{AllSendable, run_callbacks}
use madai.Milter.Mail.{mail-Copies}
use madai.Milter.Socket.{IsSocket}
use madai.Milter.Stays.{Stays, set_of}
use madai.Milter.Sessions.{mdfi_close-Closes}

-- The callbacks of a mail, and then that of the end of the connection.
unfoldable pub mail_and_close : Env → Addr → List Callback → Cmd Sfsistat
mail_and_close env ctx cs = do run_callbacks env ctx (envfrom ∷ cs); mdfi_close env ctx

-- The session is freed, and its set is given back.
pub record Leaves (p q : Addr) (held doomed fresh : List Addr) (t : State) : Type 0 where
  pub gone : t.mem.sessions p ≡ none
  pub counted : Counted t.mem (remove_one q held) doomed fresh

module _ (env : Env) (sound : Sound env) (ctx p : Addr) (cfg : ConfigData) (name : Bytes)
    {held doomed fresh : List Addr} where
  pub close_after :
      (q : Addr) (s t : State)
      → Stays ctx p cfg q s.mem t.mem
      → Counted s.mem held doomed fresh
      → 0 < count q held
      → Ends
          (λ _ u. Leaves p q held doomed fresh u × ((g : Fd) → sent g u.trace ≡ sent g t.trace))
          (mdfi_close env ctx t)
  close_after q s t stays c one =
      let has = stays.session in
      let at : has.set_at ≡ q = set_of q s.mem t.mem stays in
      Ends.weaken
        (mdfi_close-Closes env ctx p t has stays.priv (SameSets-Counted stays.same c) (rw at one))
        λ _ u d. (record { gone = d.gone; counted = rw at at d.counted }, d.silent)

  -- Over a kernel that keeps the laws of write(2) and with rounds enough, where the counts are
  -- right, in a session that holds its set, with no socket or with one that an earlier mail opened,
  -- whose configuration has a copy server and a `HeloDomain` that is not empty and fits `hostname`,
  -- and for callbacks whose texts fit: a mail and the end of its connection end without a fault,
  -- whatever becomes of the connection to the copy server. The session is freed, its set is given
  -- back once, and nothing more is left to free.
  pub mail_and_close-Leaves :
      (ip : Bytes) (cs : List Callback) (s : State) (before : Fd)
      → name ≢ []
      → length name < host_len
      → cfg.helodomain ≡ some name
      → cfg.copyserverip ≡ some ip
      → AllSendable env cs
      → s.mem.privs ctx ≡ some p
      → IsSocket before
      → (has : Configured s.mem p before cfg) → Counted s.mem held doomed fresh
      → 0 < count has.set_at held
      → Ends (λ _ t. Leaves p has.set_at held doomed fresh t) (mail_and_close env ctx cs s)
  unfolding mail_and_close
  mail_and_close-Leaves ip cs s before ne short helo addr fits priv socket has c one =
      Ends.feed-Ends _
        (mail-Copies env sound ctx p cfg name ip cs s before ne short helo addr fits priv socket
          has)
        λ stat t d.
          Ends.weaken (close_after has.set_at s t d.stays c one) λ _ u (left, silent). left
