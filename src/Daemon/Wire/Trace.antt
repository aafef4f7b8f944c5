-- ===== src/Daemon/Wire/Trace.antt =====
-- A row of events, as the copy server of one connection sees it.
use madai.Base.{
  ◌∙◌, ◌+◌, ◌<◌, arith, some, List, [], ◌∷◌, ◌≡◌, ◌≢◌, sym, ap, false, is_neg, ◌==◌, ◌⊎◌,
  Bool-cases, inl, inr, Bytes, length,
}
use mathlib.Core.Option.{some-injective}
use madai.Types.{Addr, Sfsistat}
use madai.Sys.{Env, State, Run, ok, fault, hang, feed, pure}
use madai.Sys.Ends.{Ends-ok}
use madai.Smtp.{host_len}
use madai.Config.{int_max}
use madai.Milter.{Callback, connect, envfrom, abort, close, mdfilter}
use madai.Daemon.{DaemonEvent, called, hup, handle, daemon}
use madai.Daemon.Sockets.{FreshSockets, Single}
use madai.Daemon.Table.{Link, data_of, link_of, link_of-session}
use madai.Daemon.Serving.{Serving}
use madai.Daemon.Contract.{Hosted, Allowed, Turn}
use madai.Daemon.Order.{AllTimely, Begun}
use madai.Daemon.Silence.{handle-Frames}
use madai.Daemon.Life.{Plays, still, turn, Lives, over, unnamed, daemon-Lives}
use madai.Daemon.Kept.{Turn-keeps}
use madai.Daemon.Wire.{InMails, InMails-before, Copied, finished, of_others, of_own}
use madai.Daemon.Wire.Own.{Sends, own-Sends}
use madai.Daemon.Wire.Others.{other_link, unheard}

-- The answer of a callback, which `handle` drops.
answered :
    {A : Type 0} (r : Run A) (t : State) → feed (λ a. pure tt) r ≡ ok tt t → (a : A) × (r ≡ ok a t)
answered (ok a s) t e = let same : s ≡ t = cc in (a, ap (ok a) same)
answered fault t e = cc
answered hang t e = cc

-- Whose event it is.
by_whom :
    (c : Addr) (e : DaemonEvent)
    → ((cb : Callback) × (e ≡ called c cb)) ⊎ ((cb : Callback) → e ≢ called c cb)
by_whom c hup = inr λ cb e. cc
by_whom c (called d cb) = elim (Bool-cases (d == c)) [
  | inl this ↦ let same : d ≡ c = ground arith in inl (cb, ap (λ x. called x cb) same)
  | inr apart ↦ inr λ cb' e. let same : d ≡ c = cc in ground (arith, same)
]

module _ (env : Env) (hosted : Hosted env) (name : Bytes) (named : name ≢ [])
    (few : length name < host_len) (c : Addr) (fresh : FreshSockets env) where
  -- The link after an own callback: the session has kept its socket.
  own_link :
      (cb : Callback) (l : Link) (ls ms : List Link) (s t : State) (stat : Sfsistat)
      → Serving env ls s
      → Turn s (called c cb) ls ms
      → Serving env ms t
      → cb ≢ connect
      → cb ≢ close
      → link_of c ls ≡ some l
      → Sends name cb l s stat t
      → link_of c ms ≡ some l
  own_link cb l ls ms s t stat now turned after a b has (_, (x, (live, on_socket))) =
      let (g, linked) =
        Turn-keeps s (called c cb) c s.mem.next l ls ms turned now.distinct (λ e. a cc) (λ e. b cc)
          has in
      let in_table =
        after.sessions l.session
        ∙ link_of-session (record l { socket = g }) c t.mem.next ms after.distinct linked in
      let same : x ≡ data_of (record l { socket = g }) = some-injective _ _ (sym live ∙ in_table) in
      let at : g ≡ l.socket = ap (λ y. y.socket) (sym same) ∙ on_socket in
      linked ∙ ap (λ h. some (record l { socket = h })) at

  own_callback :
      (cb : Callback) (es : List DaemonEvent) (l : Link) (ls ms : List Link) (s t u : State)
      → Serving env ls s
      → Allowed env ls (called c cb)
      → handle env (called c cb) s ≡ ok tt t
      → Turn s (called c cb) ls ms
      → Serving env ms t
      → cb ≢ connect
      → cb ≢ close
      → cb ≢ abort
      → link_of c ls ≡ some l
      → l.cfg.helodomain ≡ some name
      → is_neg l.socket ≡ false
      → (link_of c ms ≡ some l → Copied env name c l.socket t es u)
      → Copied env name c l.socket s (called c cb ∷ es) u
  own_callback cb es l ls ms s t u now can runs turned after a b d has helo nonneg rest =
      let (stat, returns) = answered (mdfilter env c cb s) t runs in
      let sends_it =
        Ends-ok (own-Sends env hosted name named few c ls s now l has cb can a b d helo nonneg)
          returns in
      let ((code, (stat_is, outcome)), _) = sends_it in
      of_own code returns stat_is outcome
        (rest (own_link cb l ls ms s t stat now turned after a b has sends_it))

  Plays-Copied :
      {ls ms : List Link} {s u : State} {es : List DaemonEvent} (l : Link)
      → Plays env ls s es ms u
      → Serving env ls s
      → Single s
      → InMails c es
      → link_of c ls ≡ some l
      → l.cfg.helodomain ≡ some name
      → is_neg l.socket ≡ false
      → Copied env name c l.socket s es u
  Plays-Copied l still now one mails has helo nonneg = finished
  Plays-Copied {ls} {s} {u} l (turn {e} {es} {ms} {t} can runs turned after plays) now one
        (a, b, d, mails) has helo nonneg =
      let frames = Ends-ok (handle-Frames env hosted fresh ls e s now can) runs in
      elim (by_whom c e) [
        | inl (cb, by_c) ↦ rw by_c (
            own_callback cb es l ls ms s t u now (rw by_c at can) (rw by_c at runs)
              (rw by_c at turned) after (λ x. a (by_c ∙ ap (called c) x))
              (λ x. b (by_c ∙ ap (called c) x)) (λ x. d (by_c ∙ ap (called c) x)) has helo nonneg
              λ linked. Plays-Copied l plays after (frames.single one) mails linked helo nonneg)
        | inr apart ↦ of_others apart runs (unheard c e ls s t l now one frames apart has nonneg) (
            Plays-Copied l plays after (frames.single one) mails
              (other_link s e c s.mem.next l ls ms turned now.distinct apart has) helo nonneg)
      ]

module _ (env : Env) (hosted : Hosted env) (fresh : FreshSockets env) (open_ctxs : List Addr)
    (ls : List Link) (es : List DaemonEvent) (s : State) (now : Serving env ls s) (one : Single s)
    (begun : Begun open_ctxs ls) (timely : AllTimely env open_ctxs es)
    (few : length ls + length es < int_max) where
  -- Over a host that keeps the laws of `Hosted` and where a new socket is no open one, from a
  -- state that stands for its table of open connections, which libmilter has begun, with no
  -- descriptor open twice, where the callbacks come in time with texts that fit, and the byte
  -- behind the copy of each body chunk is no one's, and there are fewer than 2^31 - 1 of them and
  -- of connections, and where the connection `c` is open with a socket, its configuration has a
  -- `HeloDomain` that is not empty and fits `hostname`, and it makes only MAIL FROM and the
  -- callbacks behind it: the daemon handles the events without a fault, and whatever the other
  -- connections and the reloads do, the socket of `c` is sent the greeting for each MAIL FROM of
  -- `c` and the command for each other callback of `c`, in order, whole where the answer is
  -- SMFIS_CONTINUE and a part where it is SMFIS_ACCEPT, and nothing else. The one exception is a
  -- MAIL FROM on a connection whose configuration has no `HeloDomain`, or one that does not fit
  -- `hostname`: up to there it holds.
  pub daemon-Copied :
      (name : Bytes) (c : Addr) (l : Link)
      → name ≢ []
      → length name < host_len
      → link_of c ls ≡ some l
      → l.cfg.helodomain ≡ some name
      → is_neg l.socket ≡ false
      → InMails c es
      → Lives env (λ handled _ t. Copied env name c l.socket s handled t) ls s es (daemon env es s)
  daemon-Copied name c l named short has helo nonneg mails =
      copied (daemon-Lives env hosted open_ctxs ls es s now begun timely few)
    where
      copied :
          {r : Run (Unit {0})}
          → Lives env (λ _. Serving env) ls s es r
          → Lives env (λ handled _ t. Copied env name c l.socket s handled t) ls s es r
      copied (over plays last) =
          over plays
            (Plays-Copied env hosted name named short c fresh l plays now one mails has helo nonneg)
      copied (unnamed before behind ctx k split plays last linked no_name goes) =
          unnamed before behind ctx k split plays
            (Plays-Copied env hosted name named short c fresh l plays now one
              (InMails-before c before (called ctx envfrom ∷ behind) (rw split at mails)) has helo
              nonneg)
            linked no_name goes
