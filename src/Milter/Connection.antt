-- ===== src/Milter/Connection.antt =====
-- One connection, from `mdfi_connect` to `mdfi_close`, with any number of mails in between.
use madai.Base.{
  ◌<◌, ◌==◌, true, false, none, some, List, [], ◌∷◌, ◌≡◌, ◌≢◌, inl, refl, sym, ap, ◌∙◌, ◌++◌, arith,
  Bytes, length, minus_one,
}
use mathlib.Core.Option.{some-injective}
use madai.Types.{Addr, Fd, ConfigData, Sfsistat, accept, continue}
use madai.Sys.{Trace, Env, State, Memory, Cmd, ok, pure, ◌>>=◌, ◌>>◌}
use madai.Sys.Ends
use madai.Sys.Ends.{Ends, ends, Ends-self}
use madai.Sys.Wire.{sent}
use madai.Smtp.Start.{open_fds}
use madai.Smtp.{host_len}
use madai.Smtp.Compose.{Sound}
use madai.Smtp.Commands.{Configured}
use madai.Config.{int_max}
use madai.Config.Refs.{Counted, count}
use madai.Config.Reload.{Current}
use madai.Milter.{Callback, envfrom, mdfi_connect, mdfi_abort, mdfi_close}
use madai.Milter.Relay.{AllSendable, sends_all, run_callbacks}
use madai.Milter.Stays.{Stays, Stays-trans, set_of}
use madai.Milter.Beside.{same-Beside}
use madai.Milter.Greeting.{hello}
use madai.Milter.Mail.{Copies, mail-Copies}
use madai.Milter.Abort.{Resets, mdfi_abort-Resets}
use madai.Milter.Opening.{Opened, no_memory, lost, opened, mdfi_connect-Opened}
use madai.Milter.Whole.{close_after}

-- What happens on a connection: a mail, whose callbacks follow MAIL FROM, or the end of one that
-- was given up.
pub data Exchange : Type 0 where
  mail : List Callback → Exchange
  aborted : Exchange

abbrev pub exchange : Env → Addr → Exchange → Cmd Sfsistat
exchange env ctx (mail cs) = run_callbacks env ctx (envfrom ∷ cs)
exchange env ctx aborted = mdfi_abort env ctx

-- SMFIS_ACCEPT ends the callbacks of one mail only.
unfoldable pub exchanges : Env → Addr → List Exchange → Cmd (Unit {0})
exchanges env ctx [] = pure tt
exchanges env ctx (x ∷ xs) = do exchange env ctx x; exchanges env ctx xs

-- SMFIS_ACCEPT from `mdfi_connect` leaves only the callback of the end.
abbrev pub unless_refused : Env → Addr → List Exchange → Sfsistat → Cmd (Unit {0})
unless_refused env ctx xs accept = pure tt
unless_refused env ctx xs continue = exchanges env ctx xs

unfoldable pub connection : Env → Addr → List Exchange → Cmd Sfsistat
connection env ctx xs = do
  stat ← mdfi_connect env ctx
  unless_refused env ctx xs stat
  mdfi_close env ctx

abbrev pub AllExchanges : Env → List Exchange → Type 0
AllExchanges env [] = Unit {0}
AllExchanges env (mail cs ∷ xs) = AllSendable env cs × AllExchanges env xs
AllExchanges env (aborted ∷ xs) = AllExchanges env xs

module _ (env : Env) (ctx p : Addr) (cfg : ConfigData) (q : Addr) (name : Bytes) where
  -- What the exchanges of a connection do, one after the other: the callbacks of each mail are run
  -- and it is copied, whole or in part as the answer of that run says, and each mail that was given
  -- up is aborted, which closes the socket.
  pub data Follows : List Exchange → State → State → Type 0 where
    done : {s : State} → Follows [] s s
    mailed :
        {cs : List Callback} {xs : List Exchange} {before : Fd} {stat : Sfsistat} {s t u : State}
        → run_callbacks env ctx (envfrom ∷ cs) s ≡ ok stat t
        → Copies ctx p cfg q before (hello name ++ sends_all cs) s stat t
        → Follows xs t u
        → Follows (mail cs ∷ xs) s u
    given_up :
        {xs : List Exchange} {before : Fd} {stat : Sfsistat} {s t u : State}
        → mdfi_abort env ctx s ≡ ok stat t
        → Resets ctx p cfg q before s stat t
        → Follows xs t u
        → Follows (aborted ∷ xs) s u

-- What a connection leaves. If there is no memory for a session nothing has changed. If libmilter
-- refuses the pointer to it, the session and its reference to the set are lost. Else the exchanges
-- follow one another, with nothing sent before and after them, the session is freed and its set is
-- given back.
pub data Finished (env : Env) (ctx : Addr) (cfg : ConfigData) (q : Addr) (name : Bytes)
    (xs : List Exchange) (held doomed fresh : List Addr) (s : State) : State → Type 0 where
  no_session : {t : State} → t.mem ≡ s.mem → Finished env ctx cfg q name xs held doomed fresh s t
  session_lost :
      {t : State} (refused_at : Trace)
      → env.setpriv refused_at ctx (some s.mem.next) ≡ false
      → Counted t.mem (q ∷ held) doomed fresh
      → Finished env ctx cfg q name xs held doomed fresh s t
  served :
      {t first last : State}
      → ((g : Fd) → sent g first.trace ≡ sent g s.trace)
      → Follows env ctx s.mem.next cfg q name xs first last
      → ((g : Fd) → sent g t.trace ≡ sent g last.trace)
      → t.mem.sessions s.mem.next ≡ none
      → Counted t.mem held doomed fresh
      → Finished env ctx cfg q name xs held doomed fresh s t

-- No session is the private data of `ctx`, so the callback of the end has nothing to do.
pub nothing_to_close :
    (env : Env) (ctx : Addr) {P : State → Type 0} (t : State)
    → t.mem.privs ctx ≡ none
    → ((u : State) → u.mem ≡ t.mem → open_fds u.trace ≡ open_fds t.trace → P u)
    → Ends (λ _ u. P u) (mdfi_close env ctx t)
unfolding mdfi_close
nothing_to_close env ctx t gone then_P = rw gone (ends (then_P _ refl refl))

-- There is one current set.
pub Current-unique :
    {m : Memory} (p q : Addr) {cfg cfg' : ConfigData}
    → Current m p cfg
    → Current m q cfg'
    → (p ≡ q) × (cfg ≡ cfg')
Current-unique p q c d =
    let same : p ≡ q = some-injective _ _ (sym c.points ∙ d.points) in (same, cc)

-- A session that has just been opened.
pub just_opened :
    (ctx p q : Addr) (t : State) {cfg cfg' : ConfigData} (has : Configured t.mem p minus_one cfg')
    → has.set_at ≡ q
    → cfg' ≡ cfg
    → t.mem.privs ctx ≡ some p
    → Stays ctx p cfg q t.mem t.mem
just_opened ctx p q t has is_q same priv = record {
  same = record { sets = refl; cur_config = refl; grown = omega arith };
  priv = priv;
  fd = minus_one;
  usable = inl refl;
  session = record {
    session = has.session;
    set_at = has.set_at;
    cfg_set = has.cfg_set;
    live = has.live;
    points = has.points;
    allocated = has.allocated;
    holds = has.holds ∙ ap some same;
    on_socket = has.on_socket;
  };
  holds = (has.session, (has.live, has.points ∙ ap some is_q));
  beside = same-Beside refl refl;
}

module _ (env : Env) (sound : Sound env) (ctx : Addr) (cfg : ConfigData) (name ip : Bytes)
    (ne : name ≢ []) (short : length name < host_len) (helo : cfg.helodomain ≡ some name)
    (addr : cfg.copyserverip ≡ some ip) where
  exchanges-Follows :
      (p q : Addr) (xs : List Exchange) (s t : State)
      → AllExchanges env xs
      → Stays ctx p cfg q s.mem t.mem
      → Ends
          (λ _ u. Follows env ctx p cfg q name xs t u × Stays ctx p cfg q s.mem u.mem)
          (exchanges env ctx xs t)
  unfolding exchanges
  exchanges-Follows p q [] s t fits stays = ends (done, stays)
  exchanges-Follows p q (mail cs ∷ xs) s t fits stays =
      Ends.feed-Ends _
        (Ends-self (
          mail-Copies env sound ctx p cfg name ip cs t stays.fd ne short helo addr fits.0 stays.priv
            stays.usable stays.session))
        λ _ u (d, runs).
          Ends.weaken
            (exchanges-Follows p q xs s u fits.1 (Stays-trans q s.mem t.mem u.mem stays d.stays))
            λ _ v (follows, now). (mailed runs (rw (set_of q s.mem t.mem stays) at d) follows, now)
  exchanges-Follows p q (aborted ∷ xs) s t fits stays =
      Ends.feed-Ends _ (Ends-self (mdfi_abort-Resets env ctx p cfg t stays.session stays.priv))
        λ _ u (d, runs).
          Ends.weaken
            (exchanges-Follows p q xs s u fits (Stays-trans q s.mem t.mem u.mem stays d.stays))
            λ _ v (follows, now).
              (given_up runs (rw (set_of q s.mem t.mem stays) at d) follows, now)

  module _ {held doomed fresh : List Addr} where
    after_connect :
        (q : Addr) (xs : List Exchange) (s t : State) (stat : Sfsistat)
        → AllExchanges env xs
        → s.mem.privs ctx ≡ none
        → Current s.mem q cfg
        → Opened env ctx held doomed fresh s stat t
        → Ends
            (λ _ u. Finished env ctx cfg q name xs held doomed fresh s u)
            ((do unless_refused env ctx xs stat; mdfi_close env ctx) t)
    after_connect q xs s t stat fits none_yet cur (no_memory m _ _) =
        nothing_to_close env ctx t (rw m none_yet) λ u e _. no_session (e ∙ m)
    after_connect q xs s t stat fits none_yet cur (lost r refused_at e at_r c privs _ _) =
        let is_q : r ≡ q = some-injective _ _ (sym at_r ∙ cur.points) in
        nothing_to_close env ctx t (rw privs none_yet)
          λ u m _. session_lost refused_at e (rw m (rw is_q at c))
    after_connect q xs s t stat fits none_yet cur (opened has now c priv _ _ _ _ silent _) =
        let p = s.mem.next in
        let (is_q, same) = Current-unique has.set_at q now cur in
        let holding : Counted t.mem (q ∷ held) doomed fresh = rw is_q at c in
        let once : 0 < count q (q ∷ held) = ground arith in
        let at_q : (q == q) ≡ true = ground arith in
        Ends.feed-Ends _
          (exchanges-Follows p q xs t t fits (just_opened ctx p q t has is_q same priv))
          λ _ u (follows, stays).
            Ends.weaken (close_after env sound ctx p cfg name q t u stays holding once)
              λ _ v (left, quiet). served silent follows quiet left.gone (rw at_q at left.counted)

    -- Over a kernel that keeps the laws of write(2) and with rounds enough, where the counts are
    -- right, fewer than 2^31 - 1 sets are held, the current configuration has a copy server and a
    -- `HeloDomain` that is not empty and fits `hostname`, no session is the private data of
    -- `ctx`, the texts of all callbacks fit, and the byte behind the copy of each body chunk is
    -- no one's: a whole connection ends without a fault, whatever becomes of the connections to
    -- the copy server. Either there was no memory for a session and nothing has changed; or
    -- libmilter refused the pointer to the session, which is lost with its reference to the set;
    -- or the mails were copied one after the other, each whole or in part as the answer of its
    -- run says, nothing else was sent, the session is freed, its set is given back, and the
    -- counts are as before it.
    pub connection-Finished :
        (q : Addr) (xs : List Exchange) (s : State)
        → AllExchanges env xs
        → s.mem.privs ctx ≡ none
        → Current s.mem q cfg
        → Counted s.mem held doomed fresh
        → length held < int_max
        → Ends
            (λ _ t. Finished env ctx cfg q name xs held doomed fresh s t)
            (connection env ctx xs s)
    unfolding connection
    connection-Finished q xs s fits none_yet cur c few =
        Ends.feed-Ends _ (mdfi_connect-Opened env ctx s c few)
          λ stat t o. after_connect q xs s t stat fits none_yet cur o
