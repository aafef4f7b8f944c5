-- ===== src/Config/Snapshot/Holds.antt =====
-- The configuration that a session reads through its set, over time.
use madai.Base.{◌<◌, ◌≤◌, Option, none, some, ◌≡◌, sym, ◌∙◌, arith, ◌==◌, ltb, Bool-cases, inl, inr}
use mathlib.Core.Option.{none-ne-some}
use madai.Types.{Addr, ConfigData}
use madai.Sys.{Memory}
use madai.Sys.Ends.{Ends-ok}
use madai.Config.Refs.{count}
use madai.Config.Threads.{
  World, Step, get, release, build, install, free, elsewhere, Reach, here, next, IsCounted,
  Reach-IsCounted,
}
use madai.Config.Safety.{Alive, Alive-of_status, held-Alive}
use madai.Config.Snapshot.{config_at}
use madai.Config.Snapshot.Kept.{
  SameConfigs, get_config-SameConfigs, release_locked-SameConfigs, reload_locked-SameConfigs,
  free_config_set-Frees, SameSets-SameConfigs, old_kept,
}

-- What is there at an address that was handed out before, was there with the same configuration.
record Earlier (m n : Memory) : Type 0 where
  grown : m.next ≤ n.next
  was :
      (q : Addr) (cfg : ConfigData)
      → q < m.next
      → config_at n q ≡ some cfg
      → config_at m q ≡ some cfg

SameConfigs-Earlier : {m n : Memory} (cur : Option Addr) → SameConfigs m n cur → Earlier m n
SameConfigs-Earlier cur same = record {
  grown = same.grown;
  was = λ q cfg old e. sym (same.same q) ∙ e;
}

Step-Earlier : {w v : World} → Step w v → IsCounted w → Earlier w.state.mem v.state.mem
Step-Earlier {w} (get p t few e) c =
    SameConfigs-Earlier _ (Ends-ok (get_config-SameConfigs w.state c few) e).1
Step-Earlier {w} (release p del t one e) c =
    SameConfigs-Earlier _ (Ends-ok (release_locked-SameConfigs w.state p c one) e)
Step-Earlier {w} (build cfg) c = record {
  grown = omega arith;
  was = λ q d old e. sym (old_kept w.state.mem cfg q (ground arith)) ∙ e;
}
Step-Earlier {w} (install p r t one e) c =
    SameConfigs-Earlier _ (Ends-ok (reload_locked-SameConfigs w.state p c one) e)
Step-Earlier {w} (free p t one e) c =
    let freed = Ends-ok (free_config_set-Frees w.state p c one) e in
    record {
      grown = freed.grown;
      was = λ q d old there. elim (Bool-cases (q == p)) [
        | inl it ↦ let is_p : q ≡ p = ground arith in absurd (cc (freed.gone))
        | inr other ↦ sym (freed.others q other) ∙ there
      ];
    }
Step-Earlier {w} (elsewhere t same) c = SameConfigs-Earlier _ (SameSets-SameConfigs same)

Reach-Earlier : {w v : World} → Reach w v → IsCounted w → Earlier w.state.mem v.state.mem
Reach-Earlier here c = record { grown = omega arith; was = λ q cfg old e. e }
Reach-Earlier (next r st) c =
    let before = Reach-Earlier r c in
    let step = Step-Earlier st (Reach-IsCounted r c) in
    record {
      grown = omega (arith, before.grown, step.grown);
      was =
          λ q cfg old e. before.was q cfg old (step.was q cfg (omega (arith, old, before.grown)) e);
    }

handed_out :
    (m : Memory) (p : Addr) (cfg : ConfigData)
    → ((q : Addr) → m.next ≤ q → m.sets q ≡ none)
    → config_at m p ≡ some cfg
    → p < m.next
handed_out m p cfg unused e = elim (Bool-cases (ltb p m.next)) [
  | inl below ↦ ground arith
  | inr above ↦ let gone = unused p (ground arith) in absurd (none-ne-some _ (rw gone at e))
]

-- A set that is there later, with whatever configuration, has the one that it had.
config-Keeps :
    {w v : World}
    → Reach w v
    → IsCounted w
    → (p : Addr) (cfg : ConfigData) → config_at w.state.mem p ≡ some cfg
    → Alive v.state p
    → config_at v.state.mem p ≡ some cfg
config-Keeps {w} {v} r c p cfg e alive =
    let there : config_at v.state.mem p ≡ some alive.cfg = rw alive.allocated alive.holds in
    let old : p < w.state.mem.next = handed_out w.state.mem p cfg c.unused e in
    there ∙ sym ((Reach-Earlier r c).was p alive.cfg old there) ∙ e

-- The current set too keeps its configuration.
pub current_config-Keeps :
    {w v : World}
    → Reach w v
    → IsCounted w
    → (p : Addr) (cfg : ConfigData) → config_at w.state.mem p ≡ some cfg
    → v.state.mem.cur_config ≡ some p
    → config_at v.state.mem p ≡ some cfg
current_config-Keeps {w} {v} r c p cfg e cur =
    let here = (Reach-IsCounted r c).status p in
    config-Keeps r c p cfg e (Alive-of_status r c p λ gone. ground arith)

pub Reach-grown : {w v : World} → Reach w v → IsCounted w → w.state.mem.next ≤ v.state.mem.next
Reach-grown r c = (Reach-Earlier r c).grown

-- From a world with right counts, whatever sessions and reloads do and in whatever order: a set that
-- has a configuration and is held later has that configuration then.
pub held_config-Keeps :
    {w v : World}
    → Reach w v
    → IsCounted w
    → (p : Addr) (cfg : ConfigData) → config_at w.state.mem p ≡ some cfg
    → 0 < count p v.held
    → config_at v.state.mem p ≡ some cfg
held_config-Keeps {w} {v} r c p cfg e one = config-Keeps r c p cfg e (held-Alive r c p one).0
