-- ===== src/Config/Snapshot/Kept.antt =====
-- Which configurations the steps of src/config.c leave as they are.
use madai.Base.{
  ◌<◌, ◌≤◌, suc, pos, false, Option, none, some, List, ◌≡◌, refl, arith, length, lt→ltb, ◌==◌, ◌-◌,
  Option-cases, inl, inr,
}
use madai.Types.{Addr, ConfigData}
use madai.Sys.{Memory, State}
use madai.Sys.Ends.{Ends, ends}
use madai.Config.{int_max, free_config_set, get_config, release_locked, reload_locked}
use madai.Config.Refs.{SameSets, place_set, Counted, count, count-le-length}
use madai.Config.Snapshot.{config_at}

-- Each set has in `n` the configuration that it has in `m`, `cur` is current, and no address is handed
-- out twice.
pub record SameConfigs (m n : Memory) (cur : Option Addr) : Type 0 where
  pub now : n.cur_config ≡ cur
  pub same : (q : Addr) → config_at n q ≡ config_at m q
  pub grown : m.next ≤ n.next

module _ {held doomed fresh : List Addr} where
  pub get_config-SameConfigs :
      (s : State)
      → Counted s.mem held doomed fresh
      → length held < int_max
      → Ends
          (λ p t. (s.mem.cur_config ≡ some p) × SameConfigs s.mem t.mem s.mem.cur_config)
          (get_config s)
  unfolding get_config
  get_config-SameConfigs s c few =
      let (p, cur) = c.started in
      let here = c.status p in
      elim (Option-cases (s.mem.sets p)) [
        | inl gone ↦ absurd (ground arith)
        | inr (v, e) ↦
            let n : v.refcount ≡ pos (count p held) = ground arith in
            let below = lt→ltb (count p held) int_max (omega (arith, count-le-length p held)) in
            rw (cur, e, n, below, e)
              (ends (refl, record { now = refl; same = λ q. ground arith; grown = omega arith }))
      ]

  pub release_locked-SameConfigs :
      (s : State) (p : Addr)
      → Counted s.mem held doomed fresh
      → 0 < count p held
      → Ends (λ del t. SameConfigs s.mem t.mem s.mem.cur_config) (release_locked p s)
  unfolding release_locked
  release_locked-SameConfigs s p c one =
      let here = c.status p in
      elim (Option-cases (s.mem.sets p)) [
        | inl gone ↦ absurd (ground arith)
        | inr (v, e) ↦
            let n : v.refcount ≡ pos (suc (count p held - 1)) = ground arith in
            rw (e, n, e)
              (ends (record { now = refl; same = λ q. ground arith; grown = omega arith }))
      ]

  pub reload_locked-SameConfigs :
      (s : State) (p : Addr)
      → Counted s.mem held doomed fresh
      → 0 < count p fresh
      → Ends (λ r t. SameConfigs s.mem t.mem (some p)) (reload_locked p s)
  unfolding reload_locked
  reload_locked-SameConfigs s p c new =
      let (old, cur) = c.started in
      let here = c.status old in
      elim (Option-cases (s.mem.sets old)) [
        | inl gone ↦ absurd (ground arith)
        | inr (v, e) ↦
            let n : v.refcount ≡ pos (count old held) = ground arith in
            rw (cur, e, n, e)
              (ends (record { now = refl; same = λ q. ground arith; grown = omega arith }))
      ]

-- From `m` to `n` the set at `p` goes, and nothing else changes.
pub record Frees (p : Addr) (m n : Memory) : Type 0 where
  pub now : n.cur_config ≡ m.cur_config
  pub others : (q : Addr) → (q == p) ≡ false → config_at n q ≡ config_at m q
  pub gone : config_at n p ≡ none
  pub grown : m.next ≤ n.next

pub free_config_set-Frees :
    {held doomed fresh : List Addr} (s : State) (p : Addr)
    → Counted s.mem held doomed fresh
    → 0 < count p doomed
    → Ends (λ _ t. Frees p s.mem t.mem) (free_config_set p s)
unfolding free_config_set
free_config_set-Frees s p c one =
    let here = c.status p in
    elim (Option-cases (s.mem.sets p)) [
      | inl gone ↦ absurd (ground arith)
      | inr (v, e) ↦ elim (Option-cases v.config) [
        | inl empty ↦ absurd (ground arith)
        | inr (cfg, holds) ↦
            rw (e, holds)
              (ends (record {
                now = refl;
                others = λ q other. ground arith;
                gone = ground arith;
                grown = omega arith;
              }))
      ]
    ]

pub SameSets-SameConfigs : {m n : Memory} → SameSets m n → SameConfigs m n m.cur_config
SameSets-SameConfigs same = record {
  now = same.cur_config;
  same = λ q. rw same.sets refl;
  grown = same.grown;
}

-- A set that is built has a new address.
pub old_kept :
    (m : Memory) (cfg : ConfigData) (q : Addr)
    → (q == m.next) ≡ false
    → config_at (place_set m cfg) q ≡ config_at m q
old_kept m cfg q old = ground arith
