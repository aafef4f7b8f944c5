-- ===== src/Milter/Sockets.antt =====
-- The sockets of a session: what each exchange opens and closes.
pub mod Callbacks
pub mod Closed
pub mod Opens
use madai.Base.{
  minus_one, eq_ℤ, eq_ℤ_refl, true, false, some, List, [], ◌∷◌, ◌≡◌, refl, ◌∙◌, sym, Bytes, arith,
  Bool-cases, inl, inr, ◌==◌, if◌then◌else◌,
}
use mathlib.Core.Option.{some-injective}
use madai.Types.{Addr, Fd, ConfigData, SessionData, Sfsistat}
use madai.Sys.{Event, Env, State, Run, ok, fault, hang, Cmd, feed, pure, ◌>>◌}
use madai.Sys.Ends.{Ends, ends, WhenOk, feed-WhenOk, feed_both-WhenOk}
use madai.Smtp.Commands.{Configured}
use madai.Smtp.Start.{open_fds, erase_fd}
use madai.Smtp.Quiet.{Untouched, Quiet}
use madai.Milter.{Callback, envfrom, mdfi_envfrom, mdfi_abort, set_priv, greet_session}
use madai.Milter.Relay.{AllSendable, run_callbacks, unless_accept}
use madai.Milter.Socket.{IsSocket, held_by, start_smtp-Uses}
use madai.Milter.Sockets.Callbacks.{rest_of_mail-Quiet, greet_session-Quiet, set_then-Quiet}

-- The socket of the session at `p` is the one open descriptor beside those of `base`.
pub record Sockets (base : List Fd) (p : Addr) (s : State) : Type 0 where
  pub session : SessionData
  pub live : s.mem.sessions p ≡ some session
  pub only : open_fds s.trace ≡ held_by session.socket base

Untouched-Sockets :
    {base : List Fd} {p : Addr} (s t : State) → Sockets base p s → Untouched s t → Sockets base p t
Untouched-Sockets s t k (fds, sessions, _) = record {
  session = k.session;
  live = rw sessions k.live;
  only = fds ∙ k.only;
}

kept_by :
    {A : Type 0} {base : List Fd} {p : Addr} (s : State) (r : Run A)
    → Sockets base p s
    → WhenOk (λ _ t. Untouched s t) r
    → WhenOk (λ _ t. Sockets base p t) r
kept_by s (ok a t) k h = Untouched-Sockets s t k h
kept_by s fault k h = tt
kept_by s hang k h = tt

-- A quiet command keeps the sockets.
Quiet-Sockets :
    {A : Type 0} {base : List Fd} {p : Addr} (c : Cmd A) (s : State)
    → Quiet c
    → Sockets base p s
    → WhenOk (λ _ t. Sockets base p t) (c s)
Quiet-Sockets c s q k = kept_by s (c s) k (q.keeps s s (refl, refl, refl))

-- Closing the socket of the session leaves the descriptors of `base`.
pub erase-held_by :
    (fd : Fd) (base : List Fd)
    → erase_fd minus_one base ≡ base
    → erase_fd fd (held_by fd base) ≡ base
erase-held_by fd base clean = elim (Bool-cases (eq_ℤ fd minus_one)) [
  | inl unset ↦ let is_none : fd ≡ minus_one = ground arith in rw is_none clean
  | inr set ↦ rw (set, eq_ℤ_refl fd) refl
]

module _ (env : Env) (ctx p : Addr) {base : List Fd} where
  envfrom-Sockets :
      {before : Fd} {cfg : ConfigData} (ip : Bytes) (s : State)
      → cfg.copyserverip ≡ some ip
      → s.mem.privs ctx ≡ some p
      → IsSocket before
      → Configured s.mem p before cfg
      → Sockets base p s
      → WhenOk (λ _ t. Sockets base p t) (mdfi_envfrom env ctx s)
  unfolding mdfi_envfrom
  envfrom-Sockets ip s addr priv socket has k =
      let at_p : (p == p) ≡ true = ground arith in
      let same : k.session ≡ has.session = some-injective _ _ (sym k.live ∙ has.live) in
      let only = rw (same, has.on_socket) at k.only in
      rw priv (
        feed-WhenOk (λ _ t. Sockets base p t) _ (start_smtp-Uses env has ip socket addr)
          λ r t u.
            rw (u.same_mem, has.live, has.live)
              (Quiet-Sockets (greet_session env ctx p r) _ (greet_session-Quiet env ctx p r)
                (record {
                  session = record has.session { socket = r };
                  live = rw at_p refl;
                  only = u.fds base only;
                })))

  pub mail-Sockets :
      {before : Fd} {cfg : ConfigData} (ip : Bytes) (cs : List Callback) (s : State)
      → cfg.copyserverip ≡ some ip
      → AllSendable env cs
      → s.mem.privs ctx ≡ some p
      → IsSocket before
      → Configured s.mem p before cfg
      → Sockets base p s
      → WhenOk (λ _ t. Sockets base p t) (run_callbacks env ctx (envfrom ∷ cs) s)
  unfolding run_callbacks
  mail-Sockets ip cs s addr fits priv socket has k =
      feed_both-WhenOk (λ _ t. Sockets base p t) (λ _ t. Sockets base p t) (mdfi_envfrom env ctx s)
        (unless_accept (run_callbacks env ctx cs)) (envfrom-Sockets ip s addr priv socket has k)
        λ stat t l.
          Quiet-Sockets (unless_accept (run_callbacks env ctx cs) stat) t
            (rest_of_mail-Quiet env ctx cs stat fits) l

  pub abort-Sockets :
      (s : State)
      → erase_fd minus_one base ≡ base
      → s.mem.privs ctx ≡ some p
      → Sockets base p s
      → WhenOk (λ _ t. Sockets base p t) (mdfi_abort env ctx s)
  unfolding mdfi_abort
  abort-Sockets s clean priv k =
      let at_p : (p == p) ≡ true = ground arith in
      rw (priv, k.live, k.live)
        (Quiet-Sockets _ _ (set_then-Quiet env ctx p) (record {
          session = record k.session { socket = minus_one };
          live = rw at_p refl;
          only = rw k.only (erase-held_by k.session.socket base clean);
        }))
