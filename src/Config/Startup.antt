-- ===== src/Config/Startup.antt =====
-- `startup_config`: the first set, from which all reloads go on.
use madai.Base.{◌<◌, ◌≤◌, Option, none, some, [], ◌≡◌, refl, ◌∙◌, arith, Bytes, length, lt→ltb}
use madai.Types.{Addr, ConfigData, Message, to_stderr}
use madai.Sys.{Env, Memory, State}
use madai.Sys.Ends
use madai.Sys.Ends.{Ends, ends}
use madai.Log.{dgloginit}
use madai.Libdg.Reader.Valid.{SmallFile}
use madai.Config.Refs.{Counted, SameSets, SameSessions, SameSessions-trans, place_set}
use madai.Config.Load.{path_max, cfe, startup_with, startup_config}
use madai.Config.Valid.{HostLaws, IsValid}
use madai.Config.Setup.{Builds, refused, setup_config_set-Builds}
use madai.Config.Reload.{Current, Relogs-SameSets, Relogs-SameSessions, unheld, dglogchange-Relogs}

-- No set has been built.
abbrev pub Blank : Memory → Type 0
Blank m = (p : Addr) → m.sets p ≡ none

-- Without a set no set is there, else the set is current, valid and the only one, and not held, and
-- no session and no private data has changed.
abbrev pub Starts : Env → Memory → Option Addr → State → Type 0
Starts env m none t = Blank t.mem
Starts env m (some p) t =
    ((cfg : ConfigData) × IsValid env cfg × Current t.mem p cfg)
    × Counted t.mem [] [] []
    × SameSessions m t.mem

module _ (env : Env) (laws : HostLaws env) where
  startup_with-Starts :
      (s : State) (o : Option Addr) (t : State)
      → Blank s.mem
      → Builds env s o t
      → Ends (Starts env s.mem) (startup_with env o t)
  unfolding startup_with
  startup_with-Starts s none t blank m =
      refused Message.err_setup_config_set t λ u e q. rw (e, m) (blank q)
  startup_with-Starts s (some p) t blank (at_next, (cfg, valid, m)) =
      let (v, named, good) = valid.facility in
      let new : t.mem.sets p ≡ some (unheld cfg) = ground (arith, m) in
      rw (new, named)
        (Ends.feed-Ends _ (dglogchange-Relogs env v t) λ _ u logs.
          let placed : SameSessions s.mem t.mem = rw m (record { sessions = refl; privs = refl }) in
          let same : SameSets t.mem u.mem = Relogs-SameSets logs in
          let apart : SameSessions t.mem u.mem = Relogs-SameSessions logs in
          let sets : u.mem.sets ≡ (place_set s.mem cfg).sets = rw (same.sets, m) refl in
          let grown : (place_set s.mem cfg).next ≤ u.mem.next = rw m at same.grown in
          ends (
            (
              cfg,
              valid,
              record {
                cfg_set = unheld cfg;
                points = refl;
                allocated = rw same.sets new;
                holds = refl;
              },
            ),
            record {
              started = (p, refl);
              unused = λ q le. rw sets (ground (arith, blank q));
              status = λ q. rw sets (ground (arith, blank q));
            },
            record {
              sessions = apart.sessions ∙ placed.sessions;
              privs = apart.privs ∙ placed.privs;
            },
          ))

  -- The sessions and the private data are all that matters of the state before.
  Starts-before :
      (m n : Memory) (o : Option Addr) (t : State)
      → SameSessions n m
      → Starts env m o t
      → Starts env n o t
  Starts-before m n none t same st = st
  Starts-before m n (some p) t same (now, c, apart) = (now, c, SameSessions-trans same apart)

  -- Where the default address and facility are good, no facility has an empty name, the file is
  -- shorter than an `int` can count, and the file can be read or why it cannot be fits the 1024
  -- bytes of `errbuf` with its path and stands for a format, no set has been built and the path
  -- fits its array: `startup_config` ends without a fault. Either it returns NULL and no set is
  -- there, or the set that it returns is the current one, holds a configuration in which each
  -- term but `HeloDomain` has a value that its check accepts, the counts are right with no
  -- holder, and no session and no private data has changed.
  pub startup_config-Starts :
      (filepath : Bytes) (s : State)
      → Blank s.mem
      → length filepath < path_max
      → SmallFile env (cfe env) filepath
      → Ends (Starts env s.mem) (startup_config env filepath s)
  unfolding startup_config dgloginit
  startup_config-Starts filepath s blank short small =
      let ready = record s.mem { dgconfig_log = to_stderr; config_filepath = filepath } in
      let now = record s { mem = ready } in
      rw (lt→ltb (length filepath) path_max short) (
        Ends.feed-Ends _ (setup_config_set-Builds env laws now small) λ o t b.
          Ends.weaken (startup_with-Starts now o t blank b)
            λ p u st. Starts-before now.mem s.mem p u (record { sessions = refl; privs = refl }) st)
