-- ===== src/Milter/Sessions.antt =====
-- The last callback of a connection, and what it gives back.
use madai.Base.{
  ◌<◌, minus_one, eq_ℤ, true, false, none, some, List, ◌∷◌, ◌≡◌, ◌⊎◌, refl, arith, ◌==◌,
  if◌then◌else◌, Bool-cases, inl, inr,
}
use madai.Types.{Addr, Fd, ConfigData, Sfsistat, continue}
use madai.Sys.{Trace, Env, State, pure, ◌>>◌, Event}
use madai.Sys.Ends
use madai.Sys.Ends.{Ends, ends, Ends-both}
use madai.Sys.Wire.{sent}
use madai.Smtp.Start.{open_fds, erase_fd}
use madai.Smtp.Commands.{Configured}
use madai.Config.Refs.{Counted, SameSets-Counted, count, remove_one}
use madai.Config.Threads.{Reach, here}
use madai.Config.Steps.{threads, goes_on, Reach-trans, release_config-Reach}
use madai.Milter.Beside.{Beside, Beside-trans, same-Beside, store-Beside, set_priv-Beside}
use madai.Milter.Release.{release_config-Gives}
use madai.Milter.{set_priv, mdfi_close, free_session_data}

-- What `mdfi_close` leaves: the session at `p` is freed, the set at `q` is given back, and the
-- socket is closed if there is one. The other connections are as they were. The private data of
-- `ctx` is cleared where libmilter does that.
pub record Closes (env : Env) (ctx p q : Addr) (fd : Fd) (held doomed fresh : List Addr) (s : State)
    (stat : Sfsistat) (t : State) : Type 0 where
  pub stat_is : stat ≡ continue
  pub gone : t.mem.sessions p ≡ none
  pub counted : Counted t.mem (remove_one q held) doomed fresh
  pub closed :
      open_fds t.trace
      ≡ (if eq_ℤ fd minus_one then open_fds s.trace else erase_fd fd (open_fds s.trace))
  pub silent : (g : Fd) → sent g t.trace ≡ sent g s.trace
  pub reached : Reach (threads s held doomed fresh) (threads t (remove_one q held) doomed fresh)
  pub same_cur : t.mem.cur_config ≡ s.mem.cur_config
  pub beside : Beside ctx p s.mem t.mem
  pub private :
      (t.mem.privs ctx ≡ none)
      ⊎ ((refused_at : Trace) × ((env.setpriv refused_at ctx none ≡ false)
            × (t.mem.privs ctx ≡ s.mem.privs ctx)))

module _ (env : Env) (ctx p : Addr) {fd : Fd} {held doomed fresh : List Addr} where
  free_session_data-Gives :
      {cfg : ConfigData} (s : State) (has : Configured s.mem p fd cfg)
      → Counted s.mem held doomed fresh
      → 0 < count has.set_at held
      → Ends
          (λ _ t.
            Counted t.mem (remove_one has.set_at held) doomed fresh
            × Reach
                (threads s held doomed fresh)
                (threads t (remove_one has.set_at held) doomed fresh)
            × ((t.mem.sessions p ≡ none)
                × (t.mem.privs ≡ s.mem.privs)
                × (t.mem.cur_config ≡ s.mem.cur_config)
                × Beside ctx p s.mem t.mem
                × (open_fds t.trace ≡ open_fds s.trace)
                × ((g : Fd) → sent g t.trace ≡ sent g s.trace)))
          (free_session_data p s)
  unfolding free_session_data
  free_session_data-Gives s has c one =
      let at_p : (p == p) ≡ true = ground arith in
      rw (has.live, has.points)
        (Ends.feed-Ends _
          (Ends-both (release_config-Gives s has.set_at c one)
            (release_config-Reach c s has.set_at here one))
          λ _ t ((d, k), r). ends (
            SameSets-Counted (record { sets = refl; cur_config = refl; grown = omega arith }) d,
            goes_on _ r (record { sets = refl; cur_config = refl; grown = omega arith }),
            (
              rw at_p,
              k.privs,
              k.same_cur,
              Beside-trans (same-Beside {n = t.mem} k.sessions k.privs) (store-Beside _ refl refl),
              k.fds,
              k.silent,
            ),
          ))

  -- The last step of `mdfi_close`: the private data is cleared.
  cleared :
      (s t : State) (q : Addr)
      → Counted t.mem (remove_one q held) doomed fresh
      → Reach (threads s held doomed fresh) (threads t (remove_one q held) doomed fresh)
      → (t.mem.sessions p ≡ none)
        × (t.mem.privs ≡ s.mem.privs)
        × (t.mem.cur_config ≡ s.mem.cur_config)
        × Beside ctx p s.mem t.mem
        × (open_fds t.trace
            ≡ (if eq_ℤ fd minus_one then open_fds s.trace else erase_fd fd (open_fds s.trace)))
        × ((g : Fd) → sent g t.trace ≡ sent g s.trace)
      → Ends
          (Closes env ctx p q fd held doomed fresh s)
          ((do set_priv env ctx none; pure continue) t)
  cleared s t q d r (gone, same, cur, beside, fds, silent) =
      let at_ctx : (ctx == ctx) ≡ true = ground arith in
      elim (Bool-cases (env.setpriv t.trace ctx none)) [
        | inl done ↦ rw done (
            ends (record {
              stat_is = refl;
              gone = gone;
              counted =
                  SameSets-Counted (record { sets = refl; cur_config = refl; grown = omega arith })
                    d;
              closed = fds;
              silent = silent;
              same_cur = cur;
              reached =
                  goes_on _ r (record { sets = refl; cur_config = refl; grown = omega arith });
              beside = Beside-trans beside (set_priv-Beside _ refl refl);
              private = inl (rw at_ctx refl);
            }))
        | inr refused ↦ rw refused (
            ends (record {
              stat_is = refl;
              gone = gone;
              counted = d;
              closed = fds;
              silent = silent;
              same_cur = cur;
              reached =
                  goes_on _ r (record { sets = refl; cur_config = refl; grown = omega arith });
              beside = beside;
              private = inr (t.trace, (refused, rw same refl));
            }))
      ]

  -- Where the counts are right, for a session that is the private data of `ctx` and holds a set:
  -- `mdfi_close` ends without a fault and answers SMFIS_CONTINUE. The session is freed, its set is
  -- given back once, with nothing more left to free, and its socket, if it has one, is closed. Nothing
  -- is sent. The private data is cleared, or is as it was.
  pub mdfi_close-Closes :
      {cfg : ConfigData} (s : State) (has : Configured s.mem p fd cfg)
      → s.mem.privs ctx ≡ some p
      → Counted s.mem held doomed fresh
      → 0 < count has.set_at held
      → Ends (Closes env ctx p has.set_at fd held doomed fresh s) (mdfi_close env ctx s)
  unfolding mdfi_close
  mdfi_close-Closes s has priv c one = elim (Bool-cases (eq_ℤ fd minus_one)) [
    | inl unset ↦
        rw (priv, has.live, has.on_socket, unset)
          (Ends.feed-Ends _ (free_session_data-Gives s has c one)
            λ _ t (d, r, (gone, same, cur, beside, fds, silent)).
              cleared s t has.set_at d r (gone, same, cur, beside, rw unset fds, silent))
    | inr set ↦
        let now = record s { trace = Event.closed fd ∷ s.trace } in
        rw (priv, has.live, has.on_socket, set)
          (Ends.feed-Ends _ (free_session_data-Gives now has c one)
            λ _ t (d, r, (gone, same, cur, beside, fds, silent)).
              cleared s t has.set_at d
                (Reach-trans
                  (goes_on now here
                    (record { sets = refl; cur_config = refl; grown = omega arith }))
                  r)
                (gone, same, cur, beside, rw set fds, silent))
  ]
