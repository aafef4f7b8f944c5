-- ===== src/Milter/Opening.antt =====
-- The first callback of a connection: what it takes, and what it leaves to the others.
use madai.Base.{
  suc, ◌<◌, pos, minus_one, true, false, none, some, List, ◌∷◌, ◌≡◌, refl, arith, length, lt→ltb,
  ◌==◌, if◌then◌else◌, Bool-cases, Option-cases, inl, inr,
}
use madai.Types.{Addr, Fd, ConfigData, ConfigSet, SessionData, Sfsistat, accept, continue}
use madai.Sys.{Trace, Env, Memory, State, Block, pure, ◌>>=◌, update, Event}
use madai.Sys.Ends
use madai.Sys.Ends.{Ends, ends, Ends-both}
use madai.Sys.Wire.{sent}
use madai.Smtp.Start.{open_fds}
use madai.Smtp.Commands.{Configured}
use madai.Config.{int_max, get_config}
use madai.Config.Refs.{
  Counted, SameSets, SameSets-Counted, count, count-le-length, get_config-Counted,
}
use madai.Config.Threads.{Reach, here}
use madai.Config.Steps.{threads, goes_on, get_config-Reach}
use madai.Config.Reload.{Current, SameSets-Current}
use madai.Milter.Beside.{Beside, Beside-trans, same-Beside, store-Beside, set_priv-Beside}
use madai.Milter.{set_priv, mdfi_connect, connect_session, session_data_init}

-- What `mdfi_connect` leaves. If there is no memory the state is as it was. If libmilter refuses
-- the pointer, the session has taken the current set and is lost. Else the private data of `ctx` is
-- a new session that has taken the current set, with the configuration that it has, and the other
-- connections are as they were.
pub data Opened (env : Env) (ctx : Addr) (held doomed fresh : List Addr) (s : State)
    : Sfsistat → State → Type 0 where
  no_memory :
      {t : State}
      → t.mem ≡ s.mem
      → ((g : Fd) → sent g t.trace ≡ sent g s.trace)
      → open_fds t.trace ≡ open_fds s.trace
      → Opened env ctx held doomed fresh s accept t
  lost :
      {t : State} (q : Addr) (refused_at : Trace)
      → env.setpriv refused_at ctx (some s.mem.next) ≡ false
      → s.mem.cur_config ≡ some q
      → Counted t.mem (q ∷ held) doomed fresh
      → t.mem.privs ≡ s.mem.privs
      → ((g : Fd) → sent g t.trace ≡ sent g s.trace)
      → open_fds t.trace ≡ open_fds s.trace
      → Opened env ctx held doomed fresh s accept t
  opened :
      {t : State} {cfg : ConfigData} (session : Configured t.mem s.mem.next minus_one cfg)
      → Current s.mem session.set_at cfg
      → Counted t.mem (session.set_at ∷ held) doomed fresh
      → t.mem.privs ctx ≡ some s.mem.next
      → Reach (threads s held doomed fresh) (threads t (session.set_at ∷ held) doomed fresh)
      → Beside ctx s.mem.next s.mem t.mem
      → t.mem.cur_config ≡ s.mem.cur_config
      → s.mem.next < t.mem.next
      → ((g : Fd) → sent g t.trace ≡ sent g s.trace)
      → open_fds t.trace ≡ open_fds s.trace
      → Opened env ctx held doomed fresh s continue t

module _ {held doomed fresh : List Addr} where
  -- Where the counts are right a set is current.
  Counted-Current :
      (m : Memory)
      → Counted m held doomed fresh
      → (q : Addr) × ((cfg : ConfigData) × Current m q cfg)
  Counted-Current m c =
      let (q, cur) = c.started in
      let here = c.status q in
      elim (Option-cases (m.sets q)) [
        | inl gone ↦ absurd (ground arith)
        | inr (a, e) ↦ elim (Option-cases a.config) [
          | inl empty ↦ absurd (ground arith)
          | inr (cfg, holds) ↦
              (q, (cfg, record { cfg_set = a; points = cur; allocated = e; holds = holds }))
        ]
      ]

  -- What taking the current set leaves alone, its configuration too.
  get_config-Keeps :
      (s : State) (q : Addr) (cfg : ConfigData)
      → Current s.mem q cfg
      → Counted s.mem held doomed fresh
      → length held < int_max
      → Ends
          (λ p t.
            (p ≡ q)
            × ((t.mem.sessions ≡ s.mem.sessions)
                × (t.mem.next ≡ s.mem.next)
                × (t.mem.cur_config ≡ s.mem.cur_config)
                × ((t.mem.privs ≡ s.mem.privs)
                    × (((g : Fd) → sent g t.trace ≡ sent g s.trace)
                        × (open_fds t.trace ≡ open_fds s.trace)
                        × ((a : ConfigSet) × ((t.mem.sets q ≡ some a) × (a.config ≡ some cfg)))))))
          (get_config s)
  unfolding get_config
  get_config-Keeps s q cfg now c few =
      let at_q : (q == q) ≡ true = ground arith in
      let here = c.status q in
      let e = now.allocated in
      let n : now.cfg_set.refcount ≡ pos (count q held) = ground arith in
      let below = lt→ltb (count q held) int_max (omega (arith, count-le-length q held)) in
      rw (now.points, e, n, below, e)
        (ends (
          refl,
          (
            refl,
            refl,
            refl,
            (
              refl,
              (
                λ g. refl,
                refl,
                (
                  record now.cfg_set { refcount = pos (suc (count q held)) },
                  (rw at_q refl, now.holds),
                ),
              ),
            ),
          ),
        ))

module _ (env : Env) (ctx : Addr) {held doomed fresh : List Addr} where
  -- The pointer to the session is handed to libmilter.
  handed :
      (s t : State) (q : Addr) (cfg : ConfigData) (a : ConfigSet)
      → Current s.mem q cfg
      → Counted t.mem (q ∷ held) doomed fresh
      → Reach (threads s held doomed fresh) (threads t (q ∷ held) doomed fresh)
      → t.mem.privs ≡ s.mem.privs
      → Beside ctx s.mem.next s.mem t.mem
      → t.mem.cur_config ≡ s.mem.cur_config
      → s.mem.next < t.mem.next
      → ((g : Fd) → sent g t.trace ≡ sent g s.trace)
      → open_fds t.trace ≡ open_fds s.trace
      → t.mem.sets q ≡ some a
      → a.config ≡ some cfg
      → t.mem.sessions s.mem.next ≡ some (record { config = some q; socket = minus_one })
      → Ends (Opened env ctx held doomed fresh s) (
          (do done ← set_priv env ctx (some s.mem.next); pure (if done then continue else accept))
            t)
  handed s t q cfg a cur d r privs beside same_cur grown silent fds e holds live =
      let at_ctx : (ctx == ctx) ≡ true = ground arith in
      elim (Bool-cases (env.setpriv t.trace ctx (some s.mem.next))) [
        | inr refused ↦ rw refused (ends (lost q t.trace refused cur.points d privs silent fds))
        | inl done ↦ rw done (
            ends (
              opened
                (record {
                  session = record { config = some q; socket = minus_one };
                  set_at = q;
                  cfg_set = a;
                  live = live;
                  points = refl;
                  allocated = e;
                  holds = holds;
                  on_socket = refl;
                })
                cur
                (SameSets-Counted (record { sets = refl; cur_config = refl; grown = omega arith })
                  d)
                (rw at_ctx refl)
                (goes_on _ r (record { sets = refl; cur_config = refl; grown = omega arith }))
                (Beside-trans beside (set_priv-Beside _ refl refl)) same_cur grown silent fds))
      ]

  -- Where the counts are right and fewer than 2^31 - 1 sets are held: `mdfi_connect` ends without a
  -- fault. On SMFIS_CONTINUE a new session with no socket is the private data of `ctx`, and it has
  -- taken the current set with its configuration.
  -- Nothing is sent, and no descriptor is opened or closed. On SMFIS_ACCEPT the memory is as it was, or
  -- libmilter refused the pointer, the current set is taken and no private data has changed.
  pub mdfi_connect-Opened :
      (s : State)
      → Counted s.mem held doomed fresh
      → length held < int_max
      → Ends (Opened env ctx held doomed fresh s) (mdfi_connect env ctx s)
  unfolding mdfi_connect session_data_init connect_session
  mdfi_connect-Opened s c few = elim (Bool-cases (env.malloc s.trace Block.session_data)) [
    | inr no_room ↦ rw no_room (ends (no_memory refl (λ g. refl) refl))
    | inl room ↦
        let at_new : (s.mem.next == s.mem.next) ≡ true = ground arith in
        let placed = record s.mem {
          sessions =
              update s.mem.sessions s.mem.next
                (some (record { config = none; socket = minus_one }));
          next = suc s.mem.next;
        } in
        let now : State = record {
          mem = placed;
          trace = Event.allocated Block.session_data true ∷ s.trace;
        } in
        let above : s.mem.next < now.mem.next = omega arith in
        let placed_beside : Beside ctx s.mem.next s.mem now.mem = store-Beside _ refl refl in
        let same_sets : SameSets s.mem now.mem = record {
          sets = refl;
          cur_config = refl;
          grown = omega arith;
        } in
        let ready : Counted now.mem held doomed fresh = SameSets-Counted same_sets c in
        let (q, (cfg, cur)) = Counted-Current s.mem c in
        let still : Current now.mem q cfg = SameSets-Current same_sets cur in
        rw room (
          Ends.feed-Ends _
            (Ends-both
              (Ends-both (get_config-Counted now ready few)
                (get_config-Reach c now (goes_on now here same_sets) few))
              (get_config-Keeps now q cfg still ready few))
            λ p t
                (
                  ((_, d), r),
                  (is_q, (same, at_next, same_cur, (privs, (silent, fds, (a, (e, holds)))))),
                ).
              let live : t.mem.sessions s.mem.next
                  ≡ some (record { config = none; socket = minus_one }) =
                rw (same, at_new) refl in
              let taken : SessionData = record { config = some p; socket = minus_one } in
              let u : State = record t {
                mem = record t.mem { sessions = update t.mem.sessions s.mem.next (some taken) };
              } in
              let stored : SameSets t.mem u.mem = record {
                sets = refl;
                cur_config = refl;
                grown = omega arith;
              } in
              let kept : Counted u.mem (p ∷ held) doomed fresh = SameSets-Counted stored d in
              rw (live, live)
                (handed s u p cfg a (rw is_q cur) kept (goes_on u r stored) privs
                  (Beside-trans (Beside-trans placed_beside (same-Beside {n = t.mem} same privs))
                    (store-Beside _ refl refl))
                  same_cur (rw at_next above) silent fds (rw is_q e) holds (rw at_new refl)))
  ]
