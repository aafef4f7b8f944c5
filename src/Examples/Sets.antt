-- ===== src/Examples/Sets.antt =====
-- The theorems on the configuration sets, at concrete inputs.
use madai.Base.{some, [], ◌∷◌, ◌≡◌, ◌≢◌, refl, arith}
use madai.Types.{Addr}
use madai.Sys.{State, ok}
use madai.Sys.Ends.{Ends}
use madai.Config.{get_config, release_config}
use madai.Config.Refs.{Counted, count}
use madai.Config.Threads.{here, IsCounted, Reach-IsCounted}
use madai.Config.Safety.{
  Alive, held-Alive, doomed_once, quiet-no_leak, get_config_returns, release_config-Counted,
}
use madai.Config.Snapshot.{Turns, view, config_at, moves}
use madai.Config.Snapshot.Refines.{Reach-Turns}
use madai.Config.Snapshot.Holds.{held_config-Keeps}
use madai.Examples.{
  cfg, Reach-installed, Reach-released, first_world, first_world-IsCounted, state_installed,
  state_released, world,
}

Reach-IsCounted_example : IsCounted (world state_released [] (0 ∷ []) [])
Reach-IsCounted_example = Reach-IsCounted Reach-released first_world-IsCounted

held-Alive_example : Alive state_installed 0 × (count 0 [] ≡ 0)
held-Alive_example = held-Alive Reach-installed first_world-IsCounted 0 (omega arith)

doomed_once_example :
    Alive state_released 0
    × (count 0 (0 ∷ []) ≡ 1)
    × (count 0 [] ≡ 0)
    × (state_released.mem.cur_config ≢ some 0)
doomed_once_example = doomed_once Reach-released first_world-IsCounted 0 (omega arith)

quiet-no_leak_example : first_world.state.mem.cur_config ≡ some 0
quiet-no_leak_example =
    quiet-no_leak {w = first_world} {v = first_world} here first_world-IsCounted refl refl refl 0
      (λ e. cc)

get_config_returns_example : (q : Addr) × (t : State) × (get_config state_installed ≡ ok q t)
get_config_returns_example = get_config_returns Reach-installed first_world-IsCounted (omega arith)

release_config-Counted_example :
    Ends (λ _ t. Counted t.mem [] [] []) (release_config 0 state_installed)
release_config-Counted_example =
    release_config-Counted state_installed 0 (Reach-IsCounted Reach-installed first_world-IsCounted)
      (omega arith)

Reach-Turns_example :
    Turns (view first_world) (moves Reach-released) (view (world state_released [] (0 ∷ []) []))
Reach-Turns_example = Reach-Turns Reach-released first_world-IsCounted

held_config-Keeps_example : config_at state_installed.mem 0 ≡ some cfg
held_config-Keeps_example =
    held_config-Keeps Reach-installed first_world-IsCounted 0 cfg refl (omega arith)
