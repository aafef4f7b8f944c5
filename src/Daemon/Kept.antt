-- ===== src/Daemon/Kept.antt =====
-- What the connections and the sets come to over a row of events.
use madai.Base.{
  ◌+◌, ◌<◌, ◌++◌, length, none, some, List, [], ◌∷◌, ◌≡◌, ◌≢◌, ◌∙◌, sym, ap, refl, arith, ◌==◌,
  Bool-cases, Option-cases, inl, inr,
}
use mathlib.Core.Option.{some-injective}
use madai.Types.{Addr, Fd}
use madai.Sys.{Env, State, Run}
use madai.Config.Snapshot.{config_at}
use madai.Config.Threads.{here}
use madai.Config.Safety.{quiet-no_leak}
use madai.Config.Steps.{threads}
use madai.Config.{int_max}
use madai.Milter.{connect, envfrom, close}
use madai.Daemon.{DaemonEvent, called, daemon}
use madai.Smtp.Start.{open_fds}
use madai.Daemon.Sockets.{count_fd-none}
use madai.Daemon.Table.{
  Link, link_of, with_fd, link_of-without, link_of-with_fd, link_of-session, with_fd-none,
  IsDistinct,
}
use madai.Daemon.Serving.{Serving, Serving-priv}
use madai.Daemon.Contract.{Hosted, Turn}
use madai.Daemon.Order.{AllTimely, Begun, Turn-cases}
use madai.Daemon.Life.{Plays, still, turn, Lives, over, unnamed, daemon-Lives}

-- No event begins or ends the connection `c`.
abbrev pub StaysOpen : Addr → List DaemonEvent → Type 0
StaysOpen c [] = Unit {0}
StaysOpen c (e ∷ es) = (e ≢ called c connect) × ((e ≢ called c close) × StaysOpen c es)

Plays-Serving :
    {env : Env} {ls ms : List Link} {s t : State} {es : List DaemonEvent}
    → Plays env ls s es ms t
    → Serving env ls s
    → Serving env ms t
Plays-Serving still now = now
Plays-Serving (turn _ _ _ after plays) now = Plays-Serving plays after

with_fd-keeps :
    (c d : Addr) (fd : Fd) (l : Link) (ls : List Link)
    → link_of c ls ≡ some l
    → (g : Fd) × (link_of c (with_fd d fd ls) ≡ some (record l { socket = g }))
with_fd-keeps c d fd l ls e = elim (Option-cases (link_of d ls)) [
  | inl free ↦ (l.socket, rw (with_fd-none d fd ls free) e)
  | inr (k, f) ↦ elim (Bool-cases (c == d)) [
    | inl this ↦
        let is_d : c ≡ d = ground arith in
        let same : k ≡ l = some-injective _ _ (sym f ∙ (rw is_d at e)) in
        (fd, rw (link_of-with_fd k d c fd ls f, this, same) refl)
    | inr other ↦ (l.socket, rw (link_of-with_fd k d c fd ls f, other) e)
  ]
]

pub Turn-keeps :
    (s : State) (e : DaemonEvent) (c bound : Addr) (l : Link) (ls ms : List Link)
    → Turn s e ls ms
    → IsDistinct bound ls
    → e ≢ called c connect
    → e ≢ called c close
    → link_of c ls ≡ some l
    → (g : Fd) × (link_of c ms ≡ some (record l { socket = g }))
Turn-keeps s e c bound l ls ms t d no_connect no_close has = elim (Turn-cases s e ls ms t) [
  | inl (inl same) ↦ (l.socket, rw same has)
  | inl (inr (d, (fd, (same, _)))) ↦ rw same (with_fd-keeps c d fd l ls has)
  | inr (inl (ctx, (k, (is_connect, at, joined)))) ↦ elim (Bool-cases (c == k.ctx)) [
    | inl this ↦
        let is_k : c ≡ ctx = ground arith in
        absurd (no_connect (is_connect ∙ ap (λ x. called x connect) (sym is_k)))
    | inr other ↦ (l.socket, rw (joined, other) has)
  ]
  | inr (inr (ctx, (is_close, gone))) ↦ elim (Bool-cases (c == ctx)) [
    | inl this ↦
        let is_ctx : c ≡ ctx = ground arith in
        absurd (no_close (is_close ∙ ap (λ x. called x close) (sym is_ctx)))
    | inr other ↦ (l.socket, rw (gone, link_of-without ctx c bound ls d, other) has)
  ]
]

keeps_link :
    {env : Env} {ls ms : List Link} {s t : State} {es : List DaemonEvent} (c : Addr) (l : Link)
    → Plays env ls s es ms t
    → Serving env ls s
    → StaysOpen c es
    → link_of c ls ≡ some l
    → (g : Fd) × (link_of c ms ≡ some (record l { socket = g }))
keeps_link c l still now open_still e = (l.socket, e)
keeps_link {ls} {s} c l (turn {e = event} {ms} _ runs turned after plays) now (a, (b, open_still))
      e =
    let (g, f) = Turn-keeps s event c s.mem.next l ls ms turned now.distinct a b e in
    keeps_link c (record l { socket = g }) plays after open_still f

pub StaysOpen-before :
    (c : Addr) (before behind : List DaemonEvent)
    → StaysOpen c (before ++ behind)
    → StaysOpen c before
StaysOpen-before c [] behind open_still = tt
StaysOpen-before c (e ∷ es) behind (a, (b, open_still)) =
    (a, (b, StaysOpen-before c es behind open_still))

-- The session of connection `c` is its private data, and has the set and the configuration of `l`.
abbrev pub Keeps : Addr → Link → State → Type 0
Keeps c l t =
    (t.mem.privs c ≡ some l.session)
    × ((g : Fd) × ((t.mem.sessions l.session ≡ some (record { config = some l.set; socket = g }))
          × (config_at t.mem l.set ≡ some l.cfg)))

Plays-Keeps :
    {env : Env} {ls ms : List Link} {s t : State} {es : List DaemonEvent} (c : Addr) (l : Link)
    → Plays env ls s es ms t
    → Serving env ls s
    → StaysOpen c es
    → link_of c ls ≡ some l
    → Keeps c l t
Plays-Keeps {ms} {t} c l plays now open_still e =
    let (g, f) = keeps_link c l plays now open_still e in
    let last = Plays-Serving plays now in
    let (holds, _) = last.joined c _ f in
    (
      Serving-priv c _ last f,
      (g, (last.sessions l.session ∙ link_of-session _ c t.mem.next ms last.distinct f, holds)),
    )

-- Only the current set is allocated, no session is, no private data is set and no descriptor is
-- open.
abbrev pub NoLeak : State → Type 0
NoLeak t =
    ((p : Addr) → t.mem.sets p ≢ none → t.mem.cur_config ≡ some p)
    × (((x : Addr) → t.mem.sessions x ≡ none)
        × (((c : Addr) → t.mem.privs c ≡ none) × (open_fds t.trace ≡ [])))

Serving-NoLeak : {env : Env} (t : State) → Serving env [] t → NoLeak t
Serving-NoLeak t last = (
  quiet-no_leak {w = threads t [] [] []} here last.counted refl refl refl,
  (last.sessions, (last.privs, count_fd-none (open_fds t.trace) last.fds)),
)

module _ (env : Env) (hosted : Hosted env) (open_ctxs : List Addr) (ls : List Link)
    (es : List DaemonEvent) (s : State) (now : Serving env ls s) (begun : Begun open_ctxs ls)
    (timely : AllTimely env open_ctxs es) (few : length ls + length es < int_max) where
  -- Over a host that keeps the laws of `Hosted`, from a state that stands for its table of open
  -- connections, which libmilter has begun, where the callbacks come in time with texts that fit,
  -- and the byte behind the copy of each body chunk is no one's, and there are fewer than 2^31 -
  -- 1 of them and of connections, and the connection `c` is open and none of them begins or ends
  -- it: the daemon handles them without a fault, and whatever the mails of `c`, the other
  -- connections and the reloads do, `c` then has the same session as its private data, with the
  -- same set and the same configuration. The one exception is a MAIL FROM on a connection whose
  -- configuration has no `HeloDomain`, or one that does not fit `hostname`: up to there it holds.
  pub daemon-Keeps :
      (c : Addr) (l : Link)
      → link_of c ls ≡ some l
      → StaysOpen c es
      → Lives env (λ _ ms t. Keeps c l t) ls s es (daemon env es s)
  daemon-Keeps c l e open_still =
      kept (daemon-Lives env hosted open_ctxs ls es s now begun timely few)
    where
      kept :
          {r : Run (Unit {0})}
          → Lives env (λ _. Serving env) ls s es r
          → Lives env (λ _ ms t. Keeps c l t) ls s es r
      kept (over plays last) = over plays (Plays-Keeps c l plays now open_still e)
      kept (unnamed before behind ctx k split plays last linked no_name goes) =
          unnamed before behind ctx k split plays
            (Plays-Keeps c l plays now
              (StaysOpen-before c before (called ctx envfrom ∷ behind) (rw split at open_still)) e)
            linked no_name goes

  -- Over a host that keeps the laws of `Hosted`, from a state that stands for its table of open
  -- connections, which libmilter has begun, where the callbacks come in time with texts that fit,
  -- and the byte behind the copy of each body chunk is no one's, and there are fewer than 2^31 -
  -- 1 of them and of connections: the daemon handles them without a fault, and if no connection
  -- is open then, only the current set is allocated, no session is, no private data is set and no
  -- descriptor is open. The one exception is a MAIL FROM on a connection whose configuration has
  -- no `HeloDomain`, or one that does not fit `hostname`: up to there it holds.
  pub daemon-NoLeak : Lives env (λ _ ms t. ms ≡ [] → NoLeak t) ls s es (daemon env es s)
  daemon-NoLeak = closed (daemon-Lives env hosted open_ctxs ls es s now begun timely few)
    where
      closed :
          {r : Run (Unit {0})}
          → Lives env (λ _. Serving env) ls s es r
          → Lives env (λ _ ms t. ms ≡ [] → NoLeak t) ls s es r
      closed (over {t} plays last) = over plays λ none_open. Serving-NoLeak t (rw none_open at last)
      closed (unnamed before behind ctx k {t} split plays last linked no_name goes) =
          unnamed before behind ctx k split plays
            (λ none_open. Serving-NoLeak t (rw none_open at last)) linked no_name goes
