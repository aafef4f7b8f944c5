-- ===== src/Daemon/Contract.antt =====
-- What one event does to the table of connections, and when it may come.
use madai.Base.{◌<◌, none, some, List, [], ◌≡◌, true, minus_one, length, Bytes}
use madai.Types.{Fd, ConfigData}
use madai.Sys.{Env, State}
use madai.Smtp.{host_len}
use madai.Smtp.Compose.{Sound}
use madai.Smtp.Commands.{IsShort, host_for}
use madai.Config.{int_max}
use madai.Config.Valid.{HostLaws}
use madai.Milter.{connect, envfrom, abort, close}
use madai.Milter.Relay.{IsSendable}
use madai.Daemon.{DaemonEvent, called, hup}
use madai.Daemon.Table.{Link, link_of, without, with_fd}
use madai.Daemon.Serving.{Serving}
use madai.Daemon.Callbacks.{Grants, Joins}

-- What the program relies on: the kernel keeps the laws of write(2) and its own name fits
-- `hostname`, printf(3) prints something for a NULL text, and libmilter keeps each pointer.
pub record Hosted (env : Env) : Type 0 where
  pub sound : Sound env
  pub laws : HostLaws env
  pub prints : env.prints_null ≡ true
  pub grants : Grants env
  pub short : (s : State) → IsShort (host_for env s [])

-- HELO can be given a name: `HeloDomain` is not NULL and fits `hostname`.
abbrev pub CanGreet : ConfigData → Type 0
CanGreet cfg = (name : Bytes) × ((cfg.helodomain ≡ some name) × (length name < host_len))

-- What libmilter keeps to: it begins a connection once, with room to count it, and the texts fit. A
-- mail begins only where HELO has a name.
abbrev pub Allowed : Env → List Link → DaemonEvent → Type 0
Allowed env ls hup = Unit {0}
Allowed env ls (called ctx connect) = (link_of ctx ls ≡ none) × (length ls < int_max)
Allowed env ls (called ctx envfrom) = (l : Link) → link_of ctx ls ≡ some l → CanGreet l.cfg
Allowed env ls (called ctx abort) = Unit {0}
Allowed env ls (called ctx close) = Unit {0}
Allowed env ls (called ctx c) = IsSendable env c

-- The table `ms` after an event that finds the table `ls`. A reload and the callbacks of a mail
-- leave every connection its set, its configuration and its session.
abbrev pub Turn : State → DaemonEvent → List Link → List Link → Type 0
Turn s hup ls ms = ms ≡ ls
Turn s (called ctx connect) ls ms = Joins ctx ls s ms
Turn s (called ctx envfrom) ls ms = (fd : Fd) × (ms ≡ with_fd ctx fd ls)
Turn s (called ctx abort) ls ms = ms ≡ with_fd ctx minus_one ls
Turn s (called ctx close) ls ms = ms ≡ without ctx ls
Turn s (called ctx c) ls ms = ms ≡ ls

-- What an event leaves, from state `s` with the table `ls`.
abbrev pub Turns : Env → State → DaemonEvent → List Link → State → Type 0
Turns env s e ls t = (ms : List Link) × (Turn s e ls ms × Serving env ms t)
