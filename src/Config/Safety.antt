-- ===== src/Config/Safety.antt =====
-- What right counts mean for use after free, double free and leaks, and for the steps that threads
-- have before them.
use madai.Base.{
  ◌<◌, Bool, true, false, none, some, List, [], ◌∷◌, ◌≡◌, ◌≢◌, arith, length, ◌==◌, if◌then◌else◌,
  Option-cases, inl, inr,
}
use madai.Types.{Addr, ConfigData, ConfigSet}
use madai.Sys.{State, ok, pure}
use madai.Sys.Ends
use madai.Sys.Ends.{Ends, ends, Ends-returns}
use madai.Config.{
  int_max, free_config_set, get_config, release_locked, release_config, reload_locked,
}
use madai.Config.Refs.{
  Counted, count, remove_one, get_config-Counted, release_locked-Counted, reload_locked-Counted,
  free_config_set-Counted,
}
use madai.Config.Threads.{World, Reach, IsCounted, Reach-IsCounted}

-- A set with its configuration stands at `p`.
pub record Alive (s : State) (p : Addr) : Type 0 where
  pub cfg_set : ConfigSet
  pub cfg : ConfigData
  pub allocated : s.mem.sets p ≡ some cfg_set
  pub holds : cfg_set.config ≡ some cfg

module _ {w v : World} (r : Reach w v) (c : IsCounted w) where
  pub Alive-of_status : (p : Addr) → v.state.mem.sets p ≢ none → Alive v.state p
  Alive-of_status p there =
      let inv = Reach-IsCounted r c in
      let here = inv.status p in
      elim (Option-cases (v.state.mem.sets p)) [
        | inl gone ↦ absurd (there gone)
        | inr (a, e) ↦ elim (Option-cases a.config) [
          | inl empty ↦ absurd (ground arith)
          | inr (cfg, h) ↦ record { cfg_set = a; cfg = cfg; allocated = e; holds = h }
        ]
      ]

  -- In every world that is reached from one with right counts, whatever sessions and reloads have
  -- done and in whatever order: a set that some session holds is allocated with its configuration,
  -- and no thread is about to free it.
  pub held-Alive : (p : Addr) → 0 < count p v.held → Alive v.state p × (count p v.doomed ≡ 0)
  held-Alive p one =
      let inv = Reach-IsCounted r c in
      let here = inv.status p in (Alive-of_status p (λ gone. ground arith), ground arith)

  -- In every world that is reached from one with right counts, whatever sessions and reloads have
  -- done and in whatever order: a set that a thread is about to free is allocated, is about to be
  -- freed once only, is not held by any session and is not the current set.
  pub doomed_once :
      (p : Addr)
      → 0 < count p v.doomed
      → Alive v.state p
        × (count p v.doomed ≡ 1)
        × (count p v.held ≡ 0)
        × (v.state.mem.cur_config ≢ some p)
  doomed_once p one =
      let inv = Reach-IsCounted r c in
      let here = inv.status p in
      (Alive-of_status p (λ gone. ground arith), ground arith, ground arith, λ cur. ground arith)

  -- In every world that is reached from one with right counts, whatever sessions and reloads have
  -- done and in whatever order: if no session holds a set and no thread has one to free or to
  -- install, the current set is the only one that is allocated.
  pub quiet-no_leak :
      v.held ≡ []
      → v.doomed ≡ []
      → v.fresh ≡ []
      → (p : Addr) → v.state.mem.sets p ≢ none
      → v.state.mem.cur_config ≡ some p
  quiet-no_leak h d f p there =
      let inv = Reach-IsCounted r c in
      let here = inv.status p in
      elim (Option-cases (v.state.mem.sets p)) [
        | inl gone ↦ absurd (there gone)
        | inr (a, e) ↦ ground arith
      ]

  -- In every world that is reached from one with right counts, whatever sessions and reloads have
  -- done and in whatever order: `get_config` returns a set, as long as fewer than 2^31 - 1 are
  -- held.
  pub get_config_returns :
      length v.held < int_max → (q : Addr) × (t : State) × (get_config v.state ≡ ok q t)
  get_config_returns few = Ends-returns (get_config-Counted v.state (Reach-IsCounted r c) few)

  -- In every world that is reached from one with right counts, whatever sessions and reloads have
  -- done and in whatever order: the locked part of `release_config` returns for a session that
  -- holds the set.
  pub release_locked_returns :
      (p : Addr)
      → 0 < count p v.held
      → (del : Bool) × (t : State) × (release_locked p v.state ≡ ok del t)
  release_locked_returns p one =
      Ends-returns (release_locked-Counted v.state p (Reach-IsCounted r c) one)

  -- In every world that is reached from one with right counts, whatever sessions and reloads have
  -- done and in whatever order: the locked part of `reload_config` returns for a set that a reload
  -- has built and not installed.
  pub reload_locked_returns :
      (p : Addr)
      → 0 < count p v.fresh
      → (old : Addr × Bool) × (t : State) × (reload_locked p v.state ≡ ok old t)
  reload_locked_returns p new =
      Ends-returns (reload_locked-Counted v.state p (Reach-IsCounted r c) new)

  -- In every world that is reached from one with right counts, whatever sessions and reloads have
  -- done and in whatever order: `free_config_set` returns for a set that some thread has to free.
  pub free_config_set_returns :
      (p : Addr)
      → 0 < count p v.doomed
      → (u : Unit {0}) × (t : State) × (free_config_set p v.state ≡ ok u t)
  free_config_set_returns p one =
      Ends-returns (free_config_set-Counted v.state p (Reach-IsCounted r c) one)

-- Where the counts are right, `release_config` by a holder, with nothing in between, ends without a
-- fault: the set is held once less, nothing more is left to free, and the counts are right.
pub release_config-Counted :
    {held doomed fresh : List Addr} (s : State) (p : Addr)
    → Counted s.mem held doomed fresh
    → 0 < count p held
    → Ends (λ _ t. Counted t.mem (remove_one p held) doomed fresh) (release_config p s)
unfolding release_config
release_config-Counted {held} {doomed} {fresh} s p c one =
    Ends.feed-Ends _ (release_locked-Counted s p c one) λ del t d. free_if del t d
  where
    again : (p == p) ≡ true
    again = ground arith

    free_if :
        (del : Bool) (t : State)
        → Counted t.mem (remove_one p held) (if del then p ∷ doomed else doomed) fresh
        → Ends
            (λ _ u. Counted u.mem (remove_one p held) doomed fresh)
            ((if del then free_config_set p else pure tt) t)
    free_if false t d = ends d
    free_if true t d = rw again at (free_config_set-Counted t p d (ground arith))
