-- ===== src/Config/Steps.antt =====
-- The functions of src/config.c that take more than one step of a thread, as rows of the steps of
-- Config/Threads. Each lemma goes on from a world `v` that has been reached from one with right counts.
use madai.Base.{◌<◌, Bool, true, false, List, ◌∷◌, ◌≡◌, refl, arith, length, ◌==◌, if◌then◌else◌}
use madai.Types.{Addr, ConfigData}
use madai.Sys.{Memory, State, pure}
use madai.Sys.Ends
use madai.Sys.Ends.{Ends, ends, Ends-self}
use madai.Config.{int_max, free_config_set, get_config, release_config, reload_locked}
use madai.Config.Refs.{
  SameSets, count, remove_one, place_set, get_config-Counted, release_locked-Counted,
  reload_locked-Counted, free_config_set-Counted,
}
use madai.Config.Threads.{
  World, get, release, build, install, free, elsewhere, Reach, here, next, IsCounted,
  Reach-IsCounted,
}

abbrev pub threads : State → List Addr → List Addr → List Addr → World
threads s held doomed fresh = record { state = s; held = held; doomed = doomed; fresh = fresh }

-- A step that changes no set.
pub goes_on :
    {w v : World} (t : State)
    → Reach w v
    → SameSets v.state.mem t.mem
    → Reach w (record v { state = t })
goes_on t r same = next r (elsewhere t same)

pub same_mem-SameSets : {m n : Memory} → n ≡ m → SameSets m n
same_mem-SameSets e = rw e (record { sets = refl; cur_config = refl; grown = omega arith })

pub Reach-trans : {w u v : World} → Reach w u → Reach u v → Reach w v
Reach-trans r here = r
Reach-trans r (next q st) = next (Reach-trans r q) st

module _ {w : World} (c : IsCounted w) {held doomed fresh : List Addr} where
  pub get_config-Reach :
      (s : State)
      → Reach w (threads s held doomed fresh)
      → length held < int_max
      → Ends (λ p t. Reach w (threads t (p ∷ held) doomed fresh)) (get_config s)
  get_config-Reach s r few =
      Ends.weaken (Ends-self (get_config-Counted s (Reach-IsCounted r c) few))
        λ p t (_, e). next r (get p t few e)

  pub free_config_set-Reach :
      (s : State) (p : Addr)
      → Reach w (threads s held (p ∷ doomed) fresh)
      → Ends (λ _ t. Reach w (threads t held doomed fresh)) (free_config_set p s)
  free_config_set-Reach s p r =
      let one : 0 < count p (p ∷ doomed) = ground arith in
      let again : (p == p) ≡ true = ground arith in
      Ends.weaken (Ends-self (free_config_set-Counted s p (Reach-IsCounted r c) one))
        λ _ t (_, e). rw again at (next r (free p t one e))

  pub free_if-Reach :
      (del : Bool) (s : State) (p : Addr)
      → Reach w (threads s held (if del then p ∷ doomed else doomed) fresh)
      → Ends
          (λ _ t. Reach w (threads t held doomed fresh))
          ((if del then free_config_set p else pure tt) s)
  free_if-Reach true s p r = free_config_set-Reach s p r
  free_if-Reach false s p r = ends r

  pub reload_locked-Reach :
      (s : State) (p : Addr)
      → Reach w (threads s held doomed (p ∷ fresh))
      → Ends
          (λ r t. Reach w (threads t held (if r.1 then r.0 ∷ doomed else doomed) fresh))
          (reload_locked p s)
  reload_locked-Reach s p r =
      let one : 0 < count p (p ∷ fresh) = ground arith in
      let again : (p == p) ≡ true = ground arith in
      Ends.weaken (Ends-self (reload_locked-Counted s p (Reach-IsCounted r c) one))
        λ a t (_, e). rw again at (next r (install p a t one e))

  -- A new set, with what is read in between.
  pub build-Reach :
      (s t : State) (cfg : ConfigData)
      → Reach w (threads s held doomed fresh)
      → t.mem ≡ place_set s.mem cfg
      → Reach w (threads t held doomed (s.mem.next ∷ fresh))
  build-Reach s t cfg r e = goes_on t (next r (build cfg)) (same_mem-SameSets e)

module _ {w : World} (c : IsCounted w) {held doomed fresh : List Addr} where
  pub release_config-Reach :
      (s : State) (p : Addr)
      → Reach w (threads s held doomed fresh)
      → 0 < count p held
      → Ends (λ _ t. Reach w (threads t (remove_one p held) doomed fresh)) (release_config p s)
  unfolding release_config
  release_config-Reach s p r one =
      Ends.feed-Ends _ (Ends-self (release_locked-Counted s p (Reach-IsCounted r c) one))
        λ del t (_, e). free_if-Reach c del t p (next r (release p del t one e))
