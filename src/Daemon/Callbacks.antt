-- ===== src/Daemon/Callbacks.antt =====
-- What the callbacks of one connection do to the table of all connections.
use madai.Base.{
  ◌+◌, ◌≤◌, ◌<◌, Option, none, some, List, [], ◌∷◌, ◌≡◌, ◌∙◌, ◌⊎◌, refl, sym, ap, arith, ◌==◌,
  Bool-cases, inl, inr, true, minus_one, length,
}
use mathlib.Core.Option.{some-injective}
use madai.Types.{Addr, Fd, ConfigData, SessionData, Sfsistat}
use madai.Sys.{Trace, Env, State}
use madai.Sys.Ends
use madai.Sys.Ends.{Ends, Ends-with}
use madai.Config.{int_max}
use madai.Config.Refs.{count, count-remove_one}
use madai.Config.Reload.{Current}
use madai.Config.Snapshot.{config_at}
use madai.Config.Threads.{here}
use madai.Config.Steps.{goes_on}
use madai.Milter.{mdfi_close, mdfi_connect}
use madai.Milter.Stays.{Stays, set_of}
use madai.Milter.Opening.{Opened, no_memory, lost, opened, mdfi_connect-Opened}
use madai.Milter.Sessions.{Closes, mdfi_close-Closes}
use madai.Smtp.Start.{open_fds}
use madai.Daemon.Sockets.{
  count_fd, is_socket, sockets_of-with_fd, sockets_of-without, closing-count_fd,
}
use madai.Daemon.Table.{
  Link, link_of, data_of, sets_of, without, with_fd, IsDistinct-grown, IsDistinct-with_fd,
  IsDistinct-without, sets_of-with_fd, sets_of-without, link_of-set, link_of-with_fd,
  link_of-without, session_of-with_fd, session_of-without, session_of-bound,
}
use madai.Daemon.Path.{SamePath, mdfi_close-Pathless, mdfi_connect-Pathless}
use madai.Daemon.Serving.{
  Serving, Serving-Configured, Serving-priv, Serving-next, Serving-same_mem, still_current,
}

-- Every pointer that a callback hands to libmilter is kept.
abbrev pub Grants : Env → Type 0
Grants env = (t : Trace) (ctx : Addr) (p : Option Addr) → env.setpriv t ctx p ≡ true

data_by_field :
    (x : SessionData) (q : Addr) (fd : Fd)
    → x.config ≡ some q
    → x.socket ≡ fd
    → x ≡ record { config = some q; socket = fd }
data_by_field x q fd e f = λ i. record { config = e i; socket = f i }

-- The table after `mdfi_connect`: as it was, where there is no memory, or with a new connection
-- that has the current configuration and no socket.
abbrev pub Joins : Addr → List Link → State → List Link → Type 0
Joins ctx ls s ms =
    (ms ≡ ls)
    ⊎ ((q : Addr) × ((cfg : ConfigData) × (Current s.mem q cfg
            × (ms
                ≡ record { ctx = ctx; session = s.mem.next; set = q; cfg = cfg; socket = minus_one }
                  ∷ ls))))

module _ (env : Env) (ctx : Addr) (ls : List Link) where
  -- A callback that keeps its session leaves the table but for the socket.
  pub Stays-Serving :
      {l : Link} (s t : State) (now : Serving env ls s)
      → link_of ctx ls ≡ some l
      → (stays : Stays ctx l.session l.cfg l.set s.mem t.mem)
      → ((g : Fd)
          → is_socket g l.socket + count_fd g (open_fds t.trace)
            ≡ is_socket g stays.fd + count_fd g (open_fds s.trace))
      → SamePath s t
      → Serving env (with_fd ctx stays.fd ls) t
  Stays-Serving {l} s t now e stays fds path =
      let fd = stays.fd in
      let has = stays.session in
      let new : Link = record l { socket = fd } in
      let at_q : has.set_at ≡ l.set = set_of l.set s.mem t.mem stays in
      let live : t.mem.sessions l.session ≡ some (data_of new) =
        has.live
        ∙ ap some (data_by_field has.session l.set fd (has.points ∙ ap some at_q) has.on_socket) in
      let r = goes_on t here stays.same in
      Serving-next ls (with_fd ctx fd ls) s t (sets_of ls) now
        (inl (IsDistinct-with_fd ctx s.mem.next fd ls now.distinct)) r
        (λ q. rw (sets_of-with_fd ctx fd ls) refl)
        (λ c. elim (Bool-cases (c == ctx)) [
          | inl this ↦ ground (arith, link_of-with_fd l ctx c fd ls e, stays.priv)
          | inr other ↦
              let kept = stays.beside.privs c other ∙ now.privs c in
              rw (link_of-with_fd l ctx c fd ls e, other) kept
        ])
        (λ x. elim (Bool-cases (x == l.session)) [
          | inl this ↦
              let is_p : x ≡ l.session = ground arith in
              rw (session_of-with_fd l ctx x s.mem.next fd ls now.distinct e, this) (rw is_p live)
          | inr other ↦
              rw (session_of-with_fd l ctx x s.mem.next fd ls now.distinct e, other)
                (stays.beside.sessions x other ∙ now.sessions x)
        ])
        (λ g. omega (arith, fds g, now.fds g, sockets_of-with_fd ctx g fd l ls e))
        (λ c m f. elim (Bool-cases (c == ctx)) [
          | inl this ↦
              let is_new : some new ≡ some m = rw (link_of-with_fd l ctx c fd ls e, this) at f in
              let (holds, (valid, _)) = now.joined ctx l e in
              rw (sym (some-injective _ _ is_new)) (holds, (valid, stays.usable))
          | inr other ↦ now.joined c m (rw (link_of-with_fd l ctx c fd ls e, other) at f)
        ])
        (still_current now r stays.same.cur_config) path

  pub close-Serving :
      {l : Link} (s : State)
      → Grants env
      → Serving env ls s
      → link_of ctx ls ≡ some l
      → Ends (λ _ t. Serving env (without ctx ls) t) (mdfi_close env ctx s)
  close-Serving {l} s grants now e =
      let (has, at) = Serving-Configured ctx l now e in
      let one : 0 < count has.set_at (sets_of ls) = rw at (link_of-set l ctx ls e) in
      Ends.weaken
        (Ends-with
          (mdfi_close-Closes env ctx l.session s has (Serving-priv ctx l now e) now.counted one)
          ((mdfi_close-Pathless env ctx).keeps s s refl))
        λ _ t (c, path). closed t at path c
    where
      closed :
          {q : Addr} {stat : Sfsistat} (t : State)
          → q ≡ l.set
          → SamePath s t
          → Closes env ctx l.session q l.socket (sets_of ls) [] [] s stat t
          → Serving env (without ctx ls) t
      closed t at path c =
          let gone : t.mem.privs ctx ≡ none = elim c.private [
            | inl none_now ↦ none_now
            | inr (u, (refused, _)) ↦ absurd (let granted = grants u ctx none in cc)
          ] in
          Serving-next ls (without ctx ls) s t _ now
            (inl (IsDistinct-without ctx s.mem.next ls now.distinct)) c.reached
            (λ q.
              ground
                (arith, count-remove_one q l.set (sets_of ls), sets_of-without l ctx q ls e, at))
            (λ b. elim (Bool-cases (b == ctx)) [
              | inl this ↦
                  let is_ctx : b ≡ ctx = ground arith in
                  rw (link_of-without ctx b s.mem.next ls now.distinct, this) (rw is_ctx gone)
              | inr other ↦
                  rw (link_of-without ctx b s.mem.next ls now.distinct, other)
                    (c.beside.privs b other ∙ now.privs b)
            ])
            (λ x. elim (Bool-cases (x == l.session)) [
              | inl this ↦
                  let is_p : x ≡ l.session = ground arith in
                  rw (session_of-without l ctx x s.mem.next ls now.distinct e, this)
                    (rw is_p c.gone)
              | inr other ↦
                  rw (session_of-without l ctx x s.mem.next ls now.distinct e, other)
                    (c.beside.sessions x other ∙ now.sessions x)
            ])
            (λ g.
              let one : is_socket g l.socket ≤ count_fd g (open_fds s.trace) =
                omega (arith, now.fds g, sockets_of-without ctx g l ls e) in
              let fewer =
                closing-count_fd g l.socket (open_fds s.trace) (open_fds t.trace) c.closed one in
              omega (arith, fewer, now.fds g, sockets_of-without ctx g l ls e))
            (λ b m f. elim (Bool-cases (b == ctx)) [
              | inl this ↦ absurd (
                  let lost = rw (link_of-without ctx b s.mem.next ls now.distinct, this) at f in cc)
              | inr other ↦
                  now.joined b m (rw (link_of-without ctx b s.mem.next ls now.distinct, other) at f)
            ])
            (still_current now c.reached c.same_cur) path

  pub connect-Serving :
      (s : State)
      → Grants env
      → Serving env ls s
      → link_of ctx ls ≡ none
      → length (sets_of ls) < int_max
      → Ends
          (λ _ t. (ms : List Link) × (Joins ctx ls s ms × Serving env ms t))
          (mdfi_connect env ctx s)
  connect-Serving s grants now free few =
      Ends.weaken
        (Ends-with (mdfi_connect-Opened env ctx s now.counted few)
          ((mdfi_connect-Pathless env ctx).keeps s s refl))
        λ stat t (o, path). joined stat t path o
    where
      joined :
          (stat : Sfsistat) (t : State)
          → SamePath s t
          → Opened env ctx (sets_of ls) [] [] s stat t
          → (ms : List Link) × (Joins ctx ls s ms × Serving env ms t)
      joined stat t path (no_memory m _ fds) = (ls, (inl refl, Serving-same_mem s t m fds now))
      joined stat t path (lost q u refused _ _ _ _ _) =
          absurd (let granted = grants u ctx (some s.mem.next) in cc)
      joined stat t path (opened {cfg} has cur _ priv r beside same_cur grown _ fds) =
          let p = s.mem.next in
          let new : Link = record {
            ctx = ctx;
            session = p;
            set = has.set_at;
            cfg = cfg;
            socket = minus_one;
          } in
          let (q0, (cfg0, (at_q, (holds, valid)))) = now.current in
          let same_q : q0 ≡ has.set_at = some-injective _ _ (sym at_q ∙ cur.points) in
          let here_now : config_at s.mem has.set_at ≡ some cfg = rw cur.allocated cur.holds in
          let same_cfg : cfg0 ≡ cfg = some-injective _ _ (sym holds ∙ (rw same_q here_now)) in
          let live : t.mem.sessions p ≡ some (data_of new) =
            has.live
            ∙ ap some (data_by_field has.session has.set_at minus_one has.points has.on_socket) in
          (
            new ∷ ls,
            (
              inr (has.set_at, (cfg, (cur, refl))),
              Serving-next ls (new ∷ ls) s t (has.set_at ∷ sets_of ls) now
                  (inr (
                    free,
                    session_of-bound p p ls now.distinct (omega arith),
                    grown,
                    IsDistinct-grown ls (omega (arith, grown)) now.distinct,
                  ))
                  r (λ q. refl)
                  (λ c. elim (Bool-cases (c == ctx)) [
                    | inl this ↦ let is_ctx : c ≡ ctx = ground arith in rw this (rw is_ctx priv)
                    | inr other ↦ rw other (beside.privs c other ∙ now.privs c)
                  ])
                  (λ x. elim (Bool-cases (x == p)) [
                    | inl this ↦ let is_p : x ≡ p = ground arith in rw this (rw is_p live)
                    | inr other ↦ rw other (beside.sessions x other ∙ now.sessions x)
                  ])
                  (λ g. rw fds (now.fds g))
                  (λ c m f. elim (Bool-cases (c == ctx)) [
                    | inl this ↦
                        let is_new : some new ≡ some m = rw this at f in
                        rw (sym (some-injective _ _ is_new))
                          (here_now, (rw same_cfg at valid, inl refl))
                    | inr other ↦ now.joined c m (rw other at f)
                  ])
                  (still_current now r same_cur) path,
            ),
          )
