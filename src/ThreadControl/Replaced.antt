-- ===== src/ThreadControl/Replaced.antt =====
-- What becomes of the set that a reload replaces.
use madai.Base.{true, ◌<◌, none, some, List, [], ◌≡◌, ◌⊎◌, arith, inl, inr, Option-cases}
use madai.Types.{Addr, ConfigData}
use madai.Sys.{Env, State}
use madai.Sys.Ends
use madai.Sys.Ends.{Ends}
use madai.Libdg.Reader.Valid.{SmallFile}
use madai.Config.Refs.{Counted, count}
use madai.Config.Load.{cfe}
use madai.Config.Valid.{HostLaws}
use madai.Config.Snapshot.{config_at}
use madai.Config.Snapshot.Holds.{held_config-Keeps}
use madai.ThreadControl.{do_hup}
use madai.ThreadControl.Hup.{Renews, do_hup-Renews}

-- The set at `p` is gone if no one holds it, and is as it was if someone does.
abbrev pub Replaced : List Addr → Addr → State → State → Type 0
Replaced held p s t =
    (count p held ≡ 0 → t.mem.sets p ≡ none)
    × (0 < count p held
        → (cfg : ConfigData) → config_at s.mem p ≡ some cfg
        → config_at t.mem p ≡ some cfg)

module _ (env : Env) (laws : HostLaws env) (prints : env.prints_null ≡ true)
    {held : List Addr} where
  -- Where the default address and facility are good, no facility has an empty name, the file is
  -- shorter than an `int` can count, and the file can be read or why it cannot be fits the 1024
  -- bytes of `errbuf` with its path and stands for a format, printf(3) prints something for a
  -- NULL text, the counts are right and no set waits to be freed: `do_hup` with nothing in
  -- between ends without a fault. Either the memory is as it was, or the set that was current is
  -- freed if no one holds it, and keeps its configuration if someone does.
  pub do_hup-Replaced :
      (p : Addr) (s : State)
      → Counted s.mem held [] []
      → s.mem.cur_config ≡ some p
      → SmallFile env (cfe env) s.mem.config_filepath
      → Ends (λ _ t. (t.mem ≡ s.mem) ⊎ Replaced held p s t) (do_hup env s)
  do_hup-Replaced p s c cur small =
      Ends.weaken (do_hup-Renews env laws prints s c small) λ _ t renews. replaced t renews
    where
      replaced : (t : State) → Renews env held [] [] s t → (t.mem ≡ s.mem) ⊎ Replaced held p s t
      replaced t (inl same, _) = inl same
      replaced t (inr ((cfg, valid, now), d, _), r) =
          let before = c.status p in
          let unused = c.unused p in
          let after = d.status p in
          inr (
            (λ none_held. elim (Option-cases (t.mem.sets p)) [
              | inl gone ↦ gone
              | inr (a, e) ↦ absurd (ground (arith, now.points))
            ]),
            (λ one old holds. held_config-Keeps r c p old holds one),
          )
