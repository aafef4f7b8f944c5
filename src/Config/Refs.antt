-- ===== src/Config/Refs.antt =====
-- What the reference counts mean. `held` lists a set once for each `get_config` that has not been
-- released, `doomed` the sets that some thread has decided to free and not freed yet, and `fresh`
-- those that a reload has built and not installed yet.
use madai.Base.{
  is_some, ℕ, suc, ◌+◌, ◌-◌, ◌≤◌, ◌<◌, pos, Bool, true, false, ◌&&◌, Option, none, some, List, [],
  ◌∷◌, ◌≡◌, ◌⊎◌, refl, arith, length, lt→ltb, ◌∙◌, ◌==◌, if◌then◌else◌, Option-cases, inl, inr,
}
use madai.Types.{Addr, ConfigData, ConfigSet}
use madai.Sys.{Memory, State, update}
use madai.Sys.Ends.{Ends, ends}
use madai.Config.{int_max, free_config_set, get_config, release_locked, reload_locked}

abbrev pub count : Addr → List Addr → ℕ
count q [] = 0
count q (p ∷ ps) = (if q == p then 1 else 0) + count q ps

abbrev pub remove_one : Addr → List Addr → List Addr
remove_one q [] = []
remove_one q (p ∷ ps) = if q == p then ps else p ∷ remove_one q ps

abbrev pub is_at : Option Addr → Addr → Bool
is_at none q = false
is_at (some p) q = q == p

abbrev pub bit : Bool → ℕ
bit true = 1
bit false = 0

-- What is known of one address: whether a set is there, whether it is current, and how often it
-- is held, doomed and fresh.
abbrev pub Status : Option ConfigSet → Bool → ℕ → ℕ → ℕ → Type 0
Status none current h d f = (current ≡ false) × (h ≡ 0) × (d ≡ 0) × (f ≡ 0)
Status (some c) current h d f =
    (c.refcount ≡ pos h)
    × (is_some c.config ≡ true)
    × (f + bit current + bit c.delflg ≡ 1)
    × ((f ≡ 0) ⊎ (h ≡ 0))
    × (d ≡ (if c.delflg && h == 0 then 1 else 0))

pub record Counted (m : Memory) (held doomed fresh : List Addr) : Type 0 where
  pub started : (p : Addr) × (m.cur_config ≡ some p)
  pub unused : (q : Addr) → m.next ≤ q → m.sets q ≡ none
  pub status :
      (q : Addr)
      → Status (m.sets q) (is_at m.cur_config q) (count q held) (count q doomed) (count q fresh)

-- The memory after `setup_config_set` has built a set that holds `cfg`.
abbrev pub place_set : Memory → ConfigData → Memory
place_set m cfg = record m {
  sets =
      update m.sets m.next (some (record { config = some cfg; refcount = pos 0; delflg = false }));
  next = suc m.next;
}

-- `n` has the sets and the current set of `m`, and has handed out no address twice.
pub record SameSets (m n : Memory) : Type 0 where
  pub sets : n.sets ≡ m.sets
  pub cur_config : n.cur_config ≡ m.cur_config
  pub grown : m.next ≤ n.next

-- `n` has the sessions and the private data of `m`.
pub record SameSessions (m n : Memory) : Type 0 where
  pub sessions : n.sessions ≡ m.sessions
  pub privs : n.privs ≡ m.privs

pub SameSessions-trans : {l m n : Memory} → SameSessions l m → SameSessions m n → SameSessions l n
SameSessions-trans a b = record { sessions = b.sessions ∙ a.sessions; privs = b.privs ∙ a.privs }

pub count-le-length : (q : Addr) (ps : List Addr) → count q ps ≤ length ps
count-le-length q [] = omega arith
count-le-length q (p ∷ ps) = ground (arith, count-le-length q ps)

pub count-remove_one :
    (q p : Addr) (ps : List Addr)
    → count q (remove_one p ps) ≡ (if q == p then count q ps - 1 else count q ps)
count-remove_one q p [] = ground arith
count-remove_one q p (r ∷ ps) = ground (arith, count-remove_one q p ps)

module _ {held doomed fresh : List Addr} where
  -- `get_config` hands out the current set, and counts the caller.
  pub get_config-Counted :
      (s : State)
      → Counted s.mem held doomed fresh
      → length held < int_max
      → Ends
          (λ p t. (s.mem.cur_config ≡ some p) × Counted t.mem (p ∷ held) doomed fresh)
          (get_config s)
  unfolding get_config
  get_config-Counted s c few =
      let (p, cur) = c.started in
      let here = c.status p in
      elim (Option-cases (s.mem.sets p)) [
        | inl gone ↦ absurd (ground arith)
        | inr (v, e) ↦
            let n : v.refcount ≡ pos (count p held) = ground arith in
            let below = lt→ltb (count p held) int_max (omega (arith, count-le-length p held)) in
            rw (cur, e, n, below, e)
              (ends (
                refl,
                record {
                  started = (p, refl);
                  unused = λ q le. ground (arith, c.unused q);
                  status = λ q. ground (arith, c.status q);
                },
              ))
      ]

  -- The locked part of `release_config` on a held set: it is one holder fewer, and the result says
  -- whether the caller has to free it.
  pub release_locked-Counted :
      (s : State) (p : Addr)
      → Counted s.mem held doomed fresh
      → 0 < count p held
      → Ends
          (λ del t. Counted t.mem (remove_one p held) (if del then p ∷ doomed else doomed) fresh)
          (release_locked p s)
  unfolding release_locked
  release_locked-Counted s p c one =
      let here = c.status p in
      elim (Option-cases (s.mem.sets p)) [
        | inl gone ↦ absurd (ground arith)
        | inr (v, e) ↦
            let n : v.refcount ≡ pos (suc (count p held - 1)) = ground arith in
            rw (e, n, e)
              (ends (record {
                started = c.started;
                unused = λ q le. ground (arith, c.unused q);
                status = λ q. ground (arith, c.status q, count-remove_one q p held);
              }))
      ]

  -- The locked part of `reload_config`, for a set that was built for it: the new set is current,
  -- and the result says whether the old one has to be freed.
  pub reload_locked-Counted :
      (s : State) (p : Addr)
      → Counted s.mem held doomed fresh
      → 0 < count p fresh
      → Ends
          (λ r t. Counted t.mem held (if r.1 then r.0 ∷ doomed else doomed) (remove_one p fresh))
          (reload_locked p s)
  unfolding reload_locked
  reload_locked-Counted s p c new =
      let (old, cur) = c.started in
      let here = c.status old in
      elim (Option-cases (s.mem.sets old)) [
        | inl gone ↦ absurd (ground arith)
        | inr (v, e) ↦
            let n : v.refcount ≡ pos (count old held) = ground arith in
            rw (cur, e, n, e)
              (ends (record {
                started = (p, refl);
                unused = λ q le. ground (arith, c.unused q);
                status = λ q. ground (arith, c.status q, c.status p, count-remove_one q p fresh);
              }))
      ]

  -- `free_config_set` on a set that some thread has decided to free: it is there to be freed.
  pub free_config_set-Counted :
      (s : State) (p : Addr)
      → Counted s.mem held doomed fresh
      → 0 < count p doomed
      → Ends (λ _ t. Counted t.mem held (remove_one p doomed) fresh) (free_config_set p s)
  unfolding free_config_set
  free_config_set-Counted s p c one =
      let here = c.status p in
      elim (Option-cases (s.mem.sets p)) [
        | inl gone ↦ absurd (ground arith)
        | inr (v, e) ↦ elim (Option-cases v.config) [
          | inl empty ↦ absurd (ground arith)
          | inr (cfg, holds) ↦
              rw (e, holds)
                (ends (record {
                  started = c.started;
                  unused = λ q le. ground (arith, c.unused q);
                  status = λ q. ground (arith, c.status q, count-remove_one q p doomed);
                }))
        ]
      ]

  -- A set that a reload builds, at an address that `malloc` has not handed out before.
  pub build-Counted :
      (m : Memory) (cfg : ConfigData)
      → Counted m held doomed fresh
      → Counted (place_set m cfg) held doomed (m.next ∷ fresh)
  build-Counted m cfg c =
      let new = c.unused m.next (omega arith) in
      let here = c.status m.next in
      record {
        started = c.started;
        unused = λ q le. ground (arith, c.unused q);
        status = λ q. ground (arith, c.status q);
      }

  -- The order of the holders does not matter.
  pub count-Counted :
      {m : Memory} {others : List Addr}
      → ((q : Addr) → count q held ≡ count q others)
      → Counted m held doomed fresh
      → Counted m others doomed fresh
  count-Counted e c = record {
    started = c.started;
    unused = c.unused;
    status = λ q. rw (e q) at (c.status q);
  }

  -- The counts say nothing of the rest of the memory.
  pub SameSets-Counted :
      {m n : Memory} → SameSets m n → Counted m held doomed fresh → Counted n held doomed fresh
  SameSets-Counted same c = record {
    started = rw same.cur_config c.started;
    unused = λ q le. rw same.sets (c.unused q (omega (arith, same.grown)));
    status = λ q. rw (same.sets, same.cur_config) (c.status q);
  }
