-- ===== src/Config/Threads.antt =====
-- All interleavings of the sessions and of reloads: each locked part and each free is one step.
use madai.Base.{◌<◌, Bool, List, ◌∷◌, ◌≡◌, length, if◌then◌else◌}
use madai.Types.{Addr, ConfigData}
use madai.Sys.{State, ok}
use madai.Sys.Ends.{Ends-ok}
use madai.Config.{int_max, free_config_set, get_config, release_locked, reload_locked}
use madai.Config.Refs.{
  Counted, count, remove_one, place_set, get_config-Counted, release_locked-Counted,
  reload_locked-Counted, free_config_set-Counted, build-Counted, SameSets, SameSets-Counted,
}

-- The state, and what the threads are about to do with the sets.
pub record World : Type 0 where
  pub state : State
  pub held : List Addr
  pub doomed : List Addr
  pub fresh : List Addr

-- One thread does its next step. A step is there only where the command that it runs returns.
pub data Step (w : World) : World → Type 0 where
  -- a session takes the current set
  get :
      (p : Addr) (t : State)
      → length w.held < int_max
      → get_config w.state ≡ ok p t
      → Step w (record w { state = t; held = p ∷ w.held })
  -- a session gives its set back; if it was the last holder of a replaced set, it has to free it
  release :
      (p : Addr) (del : Bool) (t : State)
      → 0 < count p w.held
      → release_locked p w.state ≡ ok del t
      → Step w (record w {
        state = t;
        held = remove_one p w.held;
        doomed = if del then p ∷ w.doomed else w.doomed;
      })
  -- a reload has read the file
  build :
      (cfg : ConfigData)
      → Step w (record w {
        state = record w.state { mem = place_set w.state.mem cfg };
        fresh = w.state.mem.next ∷ w.fresh;
      })
  -- a reload puts its set in place of the current one; if no one holds that, it has to free it
  install :
      (p : Addr) (r : Addr × Bool) (t : State)
      → 0 < count p w.fresh
      → reload_locked p w.state ≡ ok r t
      → Step w (record w {
        state = t;
        doomed = if r.1 then r.0 ∷ w.doomed else w.doomed;
        fresh = remove_one p w.fresh;
      })
  -- a thread frees what it has to free, outside the lock
  free :
      (p : Addr) (t : State)
      → 0 < count p w.doomed
      → free_config_set p w.state ≡ ok tt t
      → Step w (record w { state = t; doomed = remove_one p w.doomed })
  -- anything that leaves the sets and the current set alone, and hands out no address twice
  elsewhere : (t : State) → SameSets w.state.mem t.mem → Step w (record w { state = t })

pub data Reach (w : World) : World → Type 0 where
  here : Reach w w
  next : {u v : World} → Reach w u → Step u v → Reach w v

abbrev pub IsCounted : World → Type 0
IsCounted w = Counted w.state.mem w.held w.doomed w.fresh

Step-IsCounted : {w v : World} → Step w v → IsCounted w → IsCounted v
Step-IsCounted {w} (get p t few e) c = (Ends-ok (get_config-Counted w.state c few) e).1
Step-IsCounted {w} (release p del t one e) c = Ends-ok (release_locked-Counted w.state p c one) e
Step-IsCounted {w} (build cfg) c = build-Counted w.state.mem cfg c
Step-IsCounted {w} (install p r t one e) c = Ends-ok (reload_locked-Counted w.state p c one) e
Step-IsCounted {w} (free p t one e) c = Ends-ok (free_config_set-Counted w.state p c one) e
Step-IsCounted {w} (elsewhere t same) c = SameSets-Counted same c

-- From a world with right counts, whatever the threads do and in whatever order, the counts are
-- right: each reference count is the number of holders, and each replaced set without a holder is
-- about to be freed once.
pub Reach-IsCounted : {w v : World} → Reach w v → IsCounted w → IsCounted v
Reach-IsCounted here c = c
Reach-IsCounted (next r st) c = Step-IsCounted st (Reach-IsCounted r c)
