-- ===== src/Config/Snapshot.antt =====
-- What the reference counts are for, without addresses and counts: each session has a copy of the
-- configuration that was current when it began, and a reload replaces the current one.
pub mod Kept
pub mod Refines
pub mod Holds
use madai.Base.{ℕ, Option, none, some, List, [], ◌∷◌, Bool}
use madai.Types.{Addr, ConfigData, ConfigSet}
use madai.Sys.{Memory}
use madai.Config.Threads.{
  World, Step, get, release, build, install, free, elsewhere, Reach, here, next,
}

-- The current configuration, the copies of the sessions, and what reloads have read.
pub record View : Type 0 where
  pub current : Option ConfigData
  pub copies : List (Option ConfigData)
  pub ready : List (Option ConfigData)

-- `ys` is `xs` less one `x`.
pub data Removes {A : Type 0} (x : A) : List A → List A → Type 0 where
  first : {xs : List A} → Removes x (x ∷ xs) xs
  later : {y : A} {xs ys : List A} → Removes x xs ys → Removes x (y ∷ xs) (y ∷ ys)

-- What a step of the threads is, seen from outside.
pub data Move : Type 0 where
  -- a session copies the current configuration
  copy : Move
  -- a session drops its copy, which is this
  drop_copy : Option ConfigData → Move
  -- a reload has read a configuration
  read : ConfigData → Move
  -- what a reload has read becomes current
  replace : Option ConfigData → Move
  -- nothing that can be seen
  rest : Move

-- What each move does to the view: only what it names changes.
pub data Turn (v : View) : Move → View → Type 0 where
  copies : Turn v copy (record v { copies = v.current ∷ v.copies })
  drops :
      {x : Option ConfigData} {ys : List (Option ConfigData)}
      → Removes x v.copies ys
      → Turn v (drop_copy x) (record v { copies = ys })
  reads : {cfg : ConfigData} → Turn v (read cfg) (record v { ready = some cfg ∷ v.ready })
  replaces :
      {x : Option ConfigData} {ys : List (Option ConfigData)}
      → Removes x v.ready ys
      → Turn v (replace x) (record v { current = x; ready = ys })
  rests : Turn v rest v

-- The moves one after the other; the last is at the head.
pub data Turns (v : View) : List Move → View → Type 0 where
  still : Turns v [] v
  after : {u w : View} {m : Move} {ms : List Move} → Turns v ms u → Turn u m w → Turns v (m ∷ ms) w

abbrev config_in : Option ConfigSet → Option ConfigData
config_in none = none
config_in (some a) = a.config

abbrev pub config_at : Memory → Addr → Option ConfigData
config_at m q = config_in (m.sets q)

abbrev pub config_of_current : (Addr → Option ConfigData) → Option Addr → Option ConfigData
config_of_current f none = none
config_of_current f (some q) = f q

abbrev pub configs_at : (Addr → Option ConfigData) → List Addr → List (Option ConfigData)
configs_at f [] = []
configs_at f (q ∷ qs) = f q ∷ configs_at f qs

-- What can be seen of the sets and their holders.
abbrev pub view : World → View
view w = record {
  current = config_of_current (config_at w.state.mem) w.state.mem.cur_config;
  copies = configs_at (config_at w.state.mem) w.held;
  ready = configs_at (config_at w.state.mem) w.fresh;
}

-- The move of a step. What a session drops, or a reload installs, is what the set had before.
abbrev pub move : {w v : World} → Step w v → Move
move (get p t few e) = copy
move {w} (release p del t one e) = drop_copy (config_at w.state.mem p)
move (build cfg) = read cfg
move {w} (install p r t one e) = replace (config_at w.state.mem p)
move (free p t one e) = rest
move (elsewhere t same) = rest

-- The moves of all the steps on the way.
abbrev pub moves : {w v : World} → Reach w v → List Move
moves here = []
moves (next r st) = move st ∷ moves r
