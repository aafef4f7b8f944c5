-- ===== src/Config/Reload.antt =====
-- `reload_config`, run by one thread with nothing in between.
use madai.Base.{
  ◌<◌, ℤ, pos, is_neg, Bool, true, false, Option, none, some, List, ◌∷◌, ◌≡◌, ◌⊎◌, refl, arith,
  Bytes, ◌==◌, if◌then◌else◌, Bool-cases, Option-cases, inl, inr,
}
use madai.Types.{Addr, ConfigData, ConfigSet, LogFunc, DgLog}
use madai.Sys.{Env, Memory, State, pure, ◌>>◌}
use madai.Sys.Ends
use madai.Sys.Ends.{Ends, ends, Ends-both}
use madai.Libdg.Text.{same_nocase}
use madai.Libdg.Checks.{facility_stderr, facility_none, syslog_facility}
use madai.Log.{switch_log, dglogchange}
use madai.Libdg.Reader.Valid.{SmallFile}
use madai.Config.{free_config_set, reload_locked}
use madai.Config.Refs.{Counted, SameSets, SameSessions, SameSessions-trans, count}
use madai.Config.Threads.{Reach, here, Reach-IsCounted}
use madai.Config.Steps.{threads, goes_on, free_config_set-Reach, reload_locked-Reach, build-Reach}
use madai.Config.Load.{cfe, current_facility, reload_with, reload_config}
use madai.Config.Valid.{HostLaws, IsValid}
use madai.Config.Setup.{Builds, setup_config_set-Builds}

-- The set at `p` is current, and holds `cfg`.
pub record Current (m : Memory) (p : Addr) (cfg : ConfigData) : Type 0 where
  pub cfg_set : ConfigSet
  pub points : m.cur_config ≡ some p
  pub allocated : m.sets p ≡ some cfg_set
  pub holds : cfg_set.config ≡ some cfg

pub SameSets-Current :
    {m n : Memory} {p : Addr} {cfg : ConfigData} → SameSets m n → Current m p cfg → Current n p cfg
SameSets-Current same c = record {
  cfg_set = c.cfg_set;
  points = rw same.cur_config c.points;
  allocated = rw same.sets c.allocated;
  holds = c.holds;
}

-- Only the loggers change.
abbrev pub Relogs : Memory → Memory → Type 0
Relogs m n = (f : LogFunc) × ((d : DgLog) × (n ≡ record m { logfunc = f; dgconfig_log = d }))

pub Relogs-SameSets : {m n : Memory} → Relogs m n → SameSets m n
Relogs-SameSets (f, (d, e)) = rw e (record { sets = refl; cur_config = refl; grown = omega arith })

pub Relogs-SameSessions : {m n : Memory} → Relogs m n → SameSessions m n
Relogs-SameSessions (f, (d, e)) = rw e (record { sessions = refl; privs = refl })

pub switch_log-Relogs :
    (env : Env) (o : Option Bytes) (s : State)
    → Ends (λ _ t. Relogs s.mem t.mem) (switch_log env o s)
unfolding switch_log
switch_log-Relogs env none s = ends (_, (_, refl))
switch_log-Relogs env (some v) s = elim (Bool-cases (is_neg (syslog_facility env v))) [
  | inl b ↦ rw b (ends (_, (_, refl)))
  | inr b ↦ rw b (ends (_, (_, refl)))
]

pub dglogchange-Relogs :
    (env : Env) (v : Bytes) (s : State)
    → Ends (λ _ t. Relogs s.mem t.mem) (dglogchange env (some v) s)
unfolding dglogchange
dglogchange-Relogs env v s = elim (Bool-cases (same_nocase v facility_stderr)) [
  | inl b ↦ rw b (ends (_, (_, refl)))
  | inr b ↦ elim (Bool-cases (same_nocase v facility_none)) [
    | inl n ↦ rw (b, n) (ends (_, (_, refl)))
    | inr n ↦ rw (b, n) (ends (_, (_, refl)))
  ]
]

current_facility-Reads :
    {p : Addr} {cfg : ConfigData} {v : Bytes} (s : State)
    → Current s.mem p cfg
    → cfg.syslogfacility ≡ some v
    → Ends (λ o t. (o ≡ some v) × (t ≡ s)) (current_facility s)
current_facility-Reads s c named = rw (c.points, c.allocated, c.holds) (ends (named, refl))

-- The set that is put in place, and the one whose place it takes.
reload_locked-Installs :
    {held doomed fresh : List Addr} {cfg_set : ConfigSet} {cfg : ConfigData} (s : State) (p : Addr)
    → Counted s.mem held doomed fresh
    → 0 < count p fresh
    → s.mem.sets p ≡ some cfg_set
    → cfg_set.config ≡ some cfg
    → Ends (λ _ t. Current t.mem p cfg × SameSessions s.mem t.mem) (reload_locked p s)
unfolding reload_locked
reload_locked-Installs {cfg_set} s p c new there holds =
    let (old, cur) = c.started in
    let old_status = c.status old in
    let new_status = c.status p in
    elim (Option-cases (s.mem.sets old)) [
      | inl gone ↦ absurd (ground arith)
      | inr (v, e) ↦
          let apart : (p == old) ≡ false = ground arith in
          rw (cur, e, e)
            (ends (
              record {
                cfg_set = cfg_set;
                points = refl;
                allocated = rw apart there;
                holds = holds;
              },
              record { sessions = refl; privs = refl },
            ))
    ]

-- A set that is to be freed is not the current one.
free_config_set-Current :
    {held doomed fresh : List Addr} {p : Addr} {cfg : ConfigData} (s : State) (q : Addr)
    → Counted s.mem held doomed fresh
    → 0 < count q doomed
    → Current s.mem p cfg
    → Ends (λ _ t. Current t.mem p cfg × SameSessions s.mem t.mem) (free_config_set q s)
unfolding free_config_set
free_config_set-Current {p} s q c one now =
    let here = c.status q in
    elim (Option-cases (s.mem.sets q)) [
      | inl gone ↦ absurd (ground arith)
      | inr (v, e) ↦ elim (Option-cases v.config) [
        | inl empty ↦ absurd (ground arith)
        | inr (cfg, holds) ↦
            let apart : (p == q) ≡ false = ground (arith, now.points) in
            rw (e, holds)
              (ends (
                record {
                  cfg_set = now.cfg_set;
                  points = now.points;
                  allocated = rw apart now.allocated;
                  holds = now.holds;
                },
                record { sessions = refl; privs = refl },
              ))
      ]
    ]

-- What a reload leaves, by the code that it answers, as a row of steps of its thread.
abbrev pub Reloads : Env → List Addr → List Addr → List Addr → State → ℤ → State → Type 0
Reloads env held doomed fresh s code t =
    ((code ≡ pos 1) × (t.mem ≡ s.mem))
    ⊎ ((code ≡ pos 0)
        × ((cfg : ConfigData) × IsValid env cfg × Current t.mem s.mem.next cfg)
        × Counted t.mem held doomed fresh
        × SameSessions s.mem t.mem
        × Reach (threads s held doomed fresh) (threads t held doomed fresh))

abbrev pub unheld : ConfigData → ConfigSet
unheld cfg = record { config = some cfg; refcount = pos 0; delflg = false }

module _ (env : Env) (laws : HostLaws env) {held doomed fresh : List Addr} where
  -- The last step of `reload_config`: the old set is freed, if it has no holder.
  free_old :
      {cfg : ConfigData} (s t : State) (old : Addr) (del : Bool)
      → Counted s.mem held doomed fresh
      → IsValid env cfg
      → Current t.mem s.mem.next cfg
      → SameSessions s.mem t.mem
      → Reach
          (threads s held doomed fresh)
          (threads t held (if del then old ∷ doomed else doomed) fresh)
      → Ends
          (Reloads env held doomed fresh s)
          ((do if del then free_config_set old else pure tt; pure (pos 0)) t)
  free_old s t old false c valid now apart r =
      ends (inr (refl, (_, valid, now), Reach-IsCounted r c, apart, r))
  free_old s t old true c valid now apart r =
      let one : 0 < count old (old ∷ doomed) = ground arith in
      Ends.feed-Ends _
        (Ends-both (free_config_set-Reach c t old r)
          (free_config_set-Current t old (Reach-IsCounted r c) one now))
        λ _ u (q, (live, same)).
          ends (inr (refl, (_, valid, live), Reach-IsCounted q c, SameSessions-trans apart same, q))

  reload_with-Reloads :
      (s : State) (o : Option Addr) (t : State)
      → Counted s.mem held doomed fresh
      → Builds env s o t
      → Ends (Reloads env held doomed fresh s) (reload_with env o t)
  unfolding reload_with
  reload_with-Reloads s none t c m = ends (inl (refl, m))
  reload_with-Reloads s (some p) t c (at_next, (cfg, valid, m)) =
      let (v, named, good) = valid.facility in
      let built : Reach (threads s held doomed fresh) (threads t held doomed (p ∷ fresh)) =
        rw at_next (build-Reach c s t cfg here m) in
      let one : 0 < count p (p ∷ fresh) = ground arith in
      let new : t.mem.sets p ≡ some (unheld cfg) = ground (arith, m) in
      let first : SameSessions s.mem t.mem = rw m (record { sessions = refl; privs = refl }) in
      Ends.feed-Ends _
        (Ends-both (reload_locked-Reach c t p built)
          (reload_locked-Installs {cfg = cfg} t p (Reach-IsCounted built c) one new refl))
        λ (old, del) u (r, (now, apart)).
          Ends.feed-Ends _ (current_facility-Reads u now named) λ o1 u1 (is_some, is_u).
            Ends.feed-Ends _ (switch_log-Relogs env o1 u1) λ _ u2 logs.
              let logs2 : Relogs u.mem u2.mem = rw is_u at logs in
              let now2 = SameSets-Current (Relogs-SameSets logs2) now in
              Ends.feed-Ends _ (current_facility-Reads u2 now2 named) λ o3 u3 (still_some, is_u2).
                rw (still_some, is_u2)
                  (Ends.feed-Ends _ (dglogchange-Relogs env v u2) λ _ u4 logs4.
                    let same4 = Relogs-SameSets logs4 in
                    free_old s u4 old del c valid (rw at_next at (SameSets-Current same4 now2))
                      (SameSessions-trans first (
                        SameSessions-trans apart (
                          SameSessions-trans (Relogs-SameSessions logs2)
                            (Relogs-SameSessions logs4))))
                      (goes_on u4 (goes_on u2 r (Relogs-SameSets logs2)) same4))

  -- Where the default address and facility are good, no facility has an empty name, the file is
  -- shorter than an `int` can count, and the file can be read or why it cannot be fits the 1024
  -- bytes of `errbuf` with its path and stands for a format, and the counts are right: a reload
  -- with nothing in between ends without a fault. Either it answers 1 and the memory is as it
  -- was, or it answers 0, the new set is current and holds a configuration in which each term but
  -- `HeloDomain` has a value that its check accepts, the counts are right with nothing more to
  -- free or to install, no session and no private data has changed, and the reload was a row of
  -- steps of the interleavings.
  pub reload_config-Reloads :
      (s : State)
      → Counted s.mem held doomed fresh
      → SmallFile env (cfe env) s.mem.config_filepath
      → Ends (Reloads env held doomed fresh s) (reload_config env s)
  unfolding reload_config
  reload_config-Reloads s c small =
      Ends.feed-Ends _ (setup_config_set-Builds env laws s small)
        λ o t b. reload_with-Reloads s o t c b
