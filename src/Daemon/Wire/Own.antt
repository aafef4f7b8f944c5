-- ===== src/Daemon/Wire/Own.antt =====
-- What a callback of a connection with a socket sends.
use madai.Base.{◌∙◌, ◌<◌, some, List, [], ◌≡◌, ◌≢◌, refl, ℤ, false, is_neg, inl, inr, Bytes, length}
use madai.Types.{Addr, Fd, Sfsistat, SessionData}
use madai.Sys.{Env, State}
use madai.Sys.Ends
use madai.Sys.Ends.{Ends, ends, Ends-with, Ends-ok, Ends-returns}
use madai.Sys.Wire.{sent, Outcome}
use madai.Smtp.{host_len}
use madai.Smtp.Start.{open_fds}
use madai.Milter.{
  answer, Callback, connect, envfrom, envrcpt, header, eoh, body, eom, abort, close, data_command,
  mdfilter, mdfi_envfrom,
}
use madai.Milter.Socket.{Opens}
use madai.Milter.Relay.{sends, IsSendable, callback-Relays}
use madai.Milter.Greeting.{mdfi_envfrom-Greets}
use madai.Milter.Sockets.Opens.{envfrom-Opens}
use madai.Daemon.{called}
use madai.Daemon.Table.{Link, link_of}
use madai.Daemon.Serving.{Serving, Serving-Configured, Serving-priv}
use madai.Daemon.Contract.{Hosted, Allowed}
use madai.Daemon.Turns.{name-IsShort}
use madai.Daemon.Wire.{text_for}

-- What an own callback leaves: its text is sent on the socket, which the session keeps.
abbrev pub Sends : Bytes → Callback → Link → State → Sfsistat → State → Type 0
Sends name cb l s stat t =
    ((code : ℤ) × ((stat ≡ answer code)
        × Outcome (text_for name cb) (sent l.socket s.trace) (sent l.socket t.trace) code))
    × ((x : SessionData) × ((t.mem.sessions l.session ≡ some x) × (x.socket ≡ l.socket)))

module _ (env : Env) (hosted : Hosted env) (name : Bytes) (named : name ≢ [])
    (few : length name < host_len) (c : Addr) where
  module _ (ls : List Link) (s : State) (now : Serving env ls s) (l : Link)
      (e : link_of c ls ≡ some l) where
    own_in_mail :
        (cb : Callback)
        → IsSendable env cb
        → sends cb ≡ text_for name cb
        → Ends (Sends name cb l s) (mdfilter env c cb s)
    own_in_mail cb fits is_text =
        let (has, _) = Serving-Configured c l now e in
        Ends.weaken (callback-Relays env hosted.sound cb s fits (Serving-priv c l now e) has)
          λ stat t d. (
            (d.code, (d.stat_is, rw is_text at d.delivers.outcome)),
            (has.session, (rw d.delivers.same_mem has.live, has.on_socket)),
          )

    own_greeting :
        l.cfg.helodomain ≡ some name
        → is_neg l.socket ≡ false
        → Ends (Sends name envfrom l s) (mdfi_envfrom env c s)
    own_greeting helo nonneg =
        let (has, at) = Serving-Configured c l now e in
        let (_, (valid, socket)) = now.joined c l e in
        let (ip, addr, _) = valid.copy_server in
        let priv = Serving-priv c l now e in
        Ends.weaken
          (Ends-with
            (mdfi_envfrom-Greets env hosted.sound c l.session l.cfg name ip s l.socket
              (name-IsShort env hosted ls name few) helo addr priv socket has)
            (envfrom-Opens env c l.session ip s addr priv socket has))
          λ stat t (d, (r, ((x, (live, on_r)), opens, _, _))).
            let kept : r ≡ l.socket = same_socket r t opens in
            (
              (d.code, (d.stat_is, rw (d.reused nonneg, d.configured named) at d.outcome)),
              (x, (live, on_r ∙ kept)),
            )
      where
        same_socket :
            (r : Fd) (t : State)
            → Opens l.socket r (open_fds s.trace) (open_fds t.trace)
            → r ≡ l.socket
        same_socket r t (inl (kept, _)) = kept
        same_socket r t (inr (none_yet, _)) = absurd (let neg = rw none_yet at nonneg in cc)

    pub own-Sends :
        (cb : Callback)
        → Allowed env ls (called c cb)
        → cb ≢ connect
        → cb ≢ close
        → cb ≢ abort
        → l.cfg.helodomain ≡ some name
        → is_neg l.socket ≡ false
        → Ends (Sends name cb l s) (mdfilter env c cb s)
    own-Sends connect can a b d helo nonneg = absurd (a refl)
    own-Sends close can a b d helo nonneg = absurd (b refl)
    own-Sends abort can a b d helo nonneg = absurd (d refl)
    own-Sends envfrom can a b d helo nonneg = own_greeting helo nonneg
    own-Sends (envrcpt rcptto) can a b d helo nonneg = own_in_mail (envrcpt rcptto) can refl
    own-Sends (header headerf headerv) can a b d helo nonneg =
        own_in_mail (header headerf headerv) can refl
    own-Sends eoh can a b d helo nonneg = own_in_mail eoh can refl
    own-Sends (body bodyp) can a b d helo nonneg = own_in_mail (body bodyp) can refl
    own-Sends eom can a b d helo nonneg = own_in_mail eom can refl
    own-Sends data_command can a b d helo nonneg = own_in_mail data_command can refl
