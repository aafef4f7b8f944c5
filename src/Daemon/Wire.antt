-- ===== src/Daemon/Wire.antt =====
-- What the copy server is sent for one connection, while the daemon serves all of them.
pub mod Own
pub mod Others
pub mod Trace
use madai.Base.{
  ◌∙◌, ◌+◌, ◌≤◌, ◌<◌, arith, none, some, Option, List, [], ◌∷◌, ◌++◌, ◌≡◌, ◌≢◌, refl, sym, ap, ℤ,
  false, is_neg, minus_one, eq_ℤ, eq_ℤ_refl, ◌==◌, ◌⊎◌, Bool-cases, Option-cases, inl, inr, Bytes,
  length,
}
use mathlib.Core.Option.{some-injective}
use madai.Types.{Addr, Fd, Sfsistat, SessionData}
use madai.Sys.{Env, State, Run, ok, fault, hang, feed, pure}
use madai.Sys.Ends
use madai.Sys.Ends.{Ends, ends, Ends-with, Ends-ok, Ends-returns}
use madai.Sys.Wire.{sent, Outcome}
use madai.Smtp.{host_len}
use madai.Smtp.Start.{open_fds}
use madai.Config.{int_max}
use madai.Milter.{
  answer, Callback, connect, envfrom, envrcpt, header, eoh, body, eom, abort, close, data_command,
  mdfilter, mdfi_envfrom,
}
use madai.Milter.Socket.{Opens}
use madai.Milter.Relay.{sends, IsSendable, callback-Relays}
use madai.Milter.Greeting.{hello, mdfi_envfrom-Greets}
use madai.Milter.Sockets.Callbacks.{callback-Quiet}
use madai.Milter.Sockets.Opens.{envfrom-Opens}
use madai.Daemon.{DaemonEvent, called, hup, handle, daemon}
use madai.Daemon.Sockets.{
  count_fd, is_socket, FreshSockets, Single, sockets_of, sockets_of-without, apart_sockets,
}
use madai.Daemon.Table.{
  Link, data_of, link_of, with_fd, link_of-without, link_of-with_fd, link_of-session, with_fd-none,
  IsDistinct,
}
use madai.Daemon.Serving.{Serving, Serving-Configured, Serving-priv}
use madai.Daemon.Contract.{Hosted, CanGreet, Allowed, Turn}
use madai.Daemon.Order.{AllTimely, Begun, Turn-cases}
use madai.Daemon.Turns.{name-IsShort}
use madai.Daemon.Frames.{Apart, Frames}
use madai.Daemon.Silence.{handle-Frames}
use madai.Daemon.Life.{Plays, still, turn, Lives, over, unnamed, daemon-Lives}
use madai.Daemon.Kept.{Turn-keeps}

-- What the copy server is to be sent for a callback, where `name` is what HELO gives.
abbrev pub text_for : Bytes → Callback → Bytes
text_for name envfrom = hello name
text_for name c = sends c

-- The connection `c` makes only MAIL FROM and the callbacks of a mail behind it.
abbrev pub InMails : Addr → List DaemonEvent → Type 0
InMails c [] = Unit {0}
InMails c (e ∷ es) =
    (e ≢ called c connect) × (e ≢ called c close) × (e ≢ called c abort) × InMails c es

pub InMails-before :
    (c : Addr) (before behind : List DaemonEvent) → InMails c (before ++ behind) → InMails c before
InMails-before c [] behind mails = tt
InMails-before c (e ∷ es) behind (a, b, d, mails) = (a, b, d, InMails-before c es behind mails)

-- A row of events as it runs from state `s`, seen from connection `c` with the socket `fd`: each of
-- its own callbacks sends its text, whole where the answer is SMFIS_CONTINUE and a part of it where
-- that is SMFIS_ACCEPT, and any other event sends nothing on `fd`.
pub data Copied (env : Env) (name : Bytes) (c : Addr) (fd : Fd)
    : State → List DaemonEvent → State → Type 0 where
  finished : {s : State} → Copied env name c fd s [] s
  of_others :
      {e : DaemonEvent} {es : List DaemonEvent} {s t u : State}
      → ((cb : Callback) → e ≢ called c cb)
      → handle env e s ≡ ok tt t
      → sent fd t.trace ≡ sent fd s.trace
      → Copied env name c fd t es u
      → Copied env name c fd s (e ∷ es) u
  of_own :
      {cb : Callback} {es : List DaemonEvent} {s t u : State} {stat : Sfsistat} (code : ℤ)
      → mdfilter env c cb s ≡ ok stat t
      → stat ≡ answer code
      → Outcome (text_for name cb) (sent fd s.trace) (sent fd t.trace) code
      → Copied env name c fd t es u
      → Copied env name c fd s (called c cb ∷ es) u
