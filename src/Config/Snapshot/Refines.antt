-- ===== src/Config/Snapshot/Refines.antt =====
-- The steps of the sets and their counts, as turns of the view.
use madai.Base.{
  ◌<◌, false, Option, some, List, [], ◌∷◌, ◌≡◌, refl, sym, ap, ◌∙◌, arith, ◌==◌, Bool-cases, inl,
  inr,
}
use mathlib.Core.Path.{subst}
use madai.Types.{Addr, ConfigData}
use madai.Sys.{Memory}
use madai.Sys.Ends.{Ends-ok}
use madai.Config.Refs.{Counted, count, remove_one, place_set}
use madai.Config.Threads.{
  World, Step, get, release, build, install, free, elsewhere, Reach, here, next, IsCounted,
  Reach-IsCounted,
}
use madai.Config.Snapshot.{
  View, Removes, first, later, Move, Turn, copies, drops, reads, replaces, rests, Turns, still,
  after, config_at, config_of_current, configs_at, view, move, moves,
}
use madai.Config.Snapshot.Kept.{
  SameConfigs, get_config-SameConfigs, release_locked-SameConfigs, reload_locked-SameConfigs,
  free_config_set-Frees, SameSets-SameConfigs, old_kept,
}

configs_at-same :
    (f g : Addr → Option ConfigData) (qs : List Addr)
    → ((q : Addr) → 0 < count q qs → g q ≡ f q)
    → configs_at g qs ≡ configs_at f qs
configs_at-same f g [] same = refl
configs_at-same f g (q ∷ qs) same =
    let head = same q (ground arith) in
    let tail = configs_at-same f g qs (λ r one. same r (ground arith)) in cc

Removes-remove_one :
    (f : Addr → Option ConfigData) (p : Addr) (qs : List Addr)
    → 0 < count p qs
    → Removes (f p) (configs_at f qs) (configs_at f (remove_one p qs))
Removes-remove_one f p [] one = absurd (omega arith)
Removes-remove_one f p (q ∷ qs) one = elim (Bool-cases (p == q)) [
  | inl it ↦ let is_q : p ≡ q = ground arith in rw (it, is_q) first
  | inr other ↦ rw other (later (Removes-remove_one f p qs (ground arith)))
]

-- A turn to a view that is equal in its parts.
Turn-to :
    {v u : View} {k : Move} (u' : View)
    → Turn v k u
    → u'.current ≡ u.current
    → u'.copies ≡ u.copies
    → u'.ready ≡ u.ready
    → Turn v k u'
Turn-to {v} {u} {k} u' turn a b c =
    let same : u' ≡ u = λ i. record { current = a i; copies = b i; ready = c i } in
    subst (λ w. Turn v k w) (sym same) turn

module _ {m : Memory} {held doomed fresh : List Addr} (c : Counted m held doomed fresh)
    (p q : Addr) where
  held-apart : 0 < count p doomed → 0 < count q held → (q == p) ≡ false
  held-apart one two = let here = c.status p in ground arith

  fresh-apart : 0 < count p doomed → 0 < count q fresh → (q == p) ≡ false
  fresh-apart one two = let here = c.status p in ground arith

  current-apart : 0 < count p doomed → m.cur_config ≡ some q → (q == p) ≡ false
  current-apart one cur = let here = c.status p in ground arith

-- A step that changes no configuration and not the current set shows only in the lists.
parts_same :
    {m n : Memory} {cur : Option Addr} (same : SameConfigs m n cur) → config_at n ≡ config_at m
parts_same same = λ i q. same.same q i

current_same :
    {m n : Memory} {cur : Option Addr} (same : SameConfigs m n cur)
    → config_of_current (config_at n) n.cur_config ≡ config_of_current (config_at m) cur
current_same {m} {n} {cur} same =
    ap (config_of_current (config_at n)) same.now
    ∙ ap (λ f. config_of_current f cur) (parts_same same)

lists_same :
    {m n : Memory} {cur : Option Addr} (same : SameConfigs m n cur) (qs : List Addr)
    → configs_at (config_at n) qs ≡ configs_at (config_at m) qs
lists_same same qs = ap (λ f. configs_at f qs) (parts_same same)

module _ {m : Memory} {held doomed fresh : List Addr} (c : Counted m held doomed fresh)
    (q : Addr) where
  -- An address that is held, or that a reload has built, or that is current, has been handed out.
  held-old : 0 < count q held → (q == m.next) ≡ false
  held-old one =
      let new = c.unused m.next (omega arith) in let here = c.status m.next in ground arith

  fresh-old : 0 < count q fresh → (q == m.next) ≡ false
  fresh-old one =
      let new = c.unused m.next (omega arith) in let here = c.status m.next in ground arith

  current-old : m.cur_config ≡ some q → (q == m.next) ≡ false
  current-old cur =
      let new = c.unused m.next (omega arith) in let here = c.status m.next in ground arith

-- Where the current set keeps its configuration.
current_kept :
    (m n : Memory) (q : Addr)
    → n.cur_config ≡ m.cur_config
    → m.cur_config ≡ some q
    → config_at n q ≡ config_at m q
    → config_of_current (config_at n) n.cur_config ≡ config_of_current (config_at m) m.cur_config
current_kept m n q now cur same =
    ap (config_of_current (config_at n)) (now ∙ cur)
    ∙ same
    ∙ sym (ap (config_of_current (config_at m)) cur)

cons_same : {A : Type 0} {x y : A} {xs ys : List A} → x ≡ y → xs ≡ ys → x ∷ xs ≡ y ∷ ys
cons_same a b = cc

Step-Turn : {w v : World} (st : Step w v) → IsCounted w → Turn (view w) (move st) (view v)
Step-Turn {w} (get p t few e) c =
    let (cur, same) = Ends-ok (get_config-SameConfigs w.state c few) e in
    let head = same.same p ∙ sym (ap (config_of_current (config_at w.state.mem)) cur) in
    let tail = lists_same same w.held in
    Turn-to _ copies (current_same same) (cons_same head tail) (lists_same same w.fresh)
Step-Turn {w} (release p del t one e) c =
    let same = Ends-ok (release_locked-SameConfigs w.state p c one) e in
    Turn-to _ (drops (Removes-remove_one (config_at w.state.mem) p w.held one)) (current_same same)
      (lists_same same (remove_one p w.held)) (lists_same same w.fresh)
Step-Turn {w} (build cfg) c =
    let m = w.state.mem in
    let (q, cur) = c.started in
    let new_is : config_at (place_set m cfg) m.next ≡ some cfg = ground arith in
    let fresh_same = configs_at-same _ _ w.fresh λ r two. old_kept m cfg r (fresh-old c r two) in
    Turn-to _ reads
      (current_kept m (place_set m cfg) q refl cur (old_kept m cfg q (current-old c q cur)))
      (configs_at-same _ _ w.held λ r two. old_kept m cfg r (held-old c r two)) cc
Step-Turn {w} (install p r t one e) c =
    let same = Ends-ok (reload_locked-SameConfigs w.state p c one) e in
    Turn-to _ (replaces (Removes-remove_one (config_at w.state.mem) p w.fresh one))
      (current_same same) (lists_same same w.held) (lists_same same (remove_one p w.fresh))
Step-Turn {w} (free p t one e) c =
    let freed = Ends-ok (free_config_set-Frees w.state p c one) e in
    let (q, cur) = c.started in
    Turn-to _ rests
      (current_kept w.state.mem t.mem q freed.now cur
        (freed.others q (current-apart c p q one cur)))
      (configs_at-same _ _ w.held (λ r two. freed.others r (held-apart c p r one two)))
      (configs_at-same _ _ w.fresh (λ r two. freed.others r (fresh-apart c p r one two)))
Step-Turn {w} (elsewhere t same) c =
    let kept = SameSets-SameConfigs same in
    Turn-to _ rests (current_same kept) (lists_same kept w.held) (lists_same kept w.fresh)

-- From a world with right counts, whatever sessions and reloads do and in whatever order: step by
-- step, what is seen makes just the move of that step. Taking a set copies the configuration that
-- is current then, giving it back drops one copy of the configuration that the set has, reading a
-- file makes that configuration ready, a reload makes one that is ready current, and no step
-- changes a copy or anything else that is seen.
pub Reach-Turns : {w v : World} (r : Reach w v) → IsCounted w → Turns (view w) (moves r) (view v)
Reach-Turns here c = still
Reach-Turns (next r st) c = after (Reach-Turns r c) (Step-Turn st (Reach-IsCounted r c))
