-- ===== src/Milter/Release.antt =====
-- What giving a set back leaves of the sessions, the private data and the descriptors.
use madai.Base.{
  suc, ◌-◌, ◌<◌, pos, Bool, true, false, List, ◌∷◌, ◌≡◌, refl, ◌∙◌, arith, ◌==◌, if◌then◌else◌,
  Option-cases, inl, inr,
}
use madai.Types.{Addr, Fd}
use madai.Sys.{State, pure}
use madai.Sys.Ends
use madai.Sys.Ends.{Ends, ends, Ends-both}
use madai.Sys.Wire.{sent}
use madai.Smtp.Start.{open_fds}
use madai.Config.{release_locked, release_config, free_config_set}
use madai.Config.Refs.{Counted, count, remove_one, release_locked-Counted, free_config_set-Counted}

-- What the release of a set leaves alone.
pub record Keeps (s t : State) : Type 0 where
  pub same_cur : t.mem.cur_config ≡ s.mem.cur_config
  pub sessions : t.mem.sessions ≡ s.mem.sessions
  pub privs : t.mem.privs ≡ s.mem.privs
  pub fds : open_fds t.trace ≡ open_fds s.trace
  pub silent : (g : Fd) → sent g t.trace ≡ sent g s.trace

module _ {held doomed fresh : List Addr} where
  release_locked-Keeps :
      (s : State) (p : Addr)
      → Counted s.mem held doomed fresh
      → 0 < count p held
      → Ends (λ _ t. Keeps s t) (release_locked p s)
  unfolding release_locked
  release_locked-Keeps s p c one =
      let here = c.status p in
      elim (Option-cases (s.mem.sets p)) [
        | inl gone ↦ absurd (ground arith)
        | inr (v, e) ↦
            let n : v.refcount ≡ pos (suc (count p held - 1)) = ground arith in
            rw (e, n, e)
              (ends (record {
                same_cur = refl;
                sessions = refl;
                privs = refl;
                fds = refl;
                silent = λ g. refl;
              }))
      ]

  free_config_set-Keeps :
      (s : State) (p : Addr)
      → Counted s.mem held doomed fresh
      → 0 < count p doomed
      → Ends (λ _ t. Keeps s t) (free_config_set p s)
  unfolding free_config_set
  free_config_set-Keeps s p c one =
      let here = c.status p in
      elim (Option-cases (s.mem.sets p)) [
        | inl gone ↦ absurd (ground arith)
        | inr (v, e) ↦ elim (Option-cases v.config) [
          | inl empty ↦ absurd (ground arith)
          | inr (cfg, holds) ↦
              rw (e, holds)
                (ends (record {
                  same_cur = refl;
                  sessions = refl;
                  privs = refl;
                  fds = refl;
                  silent = λ g. refl;
                }))
        ]
      ]

-- A holder gives a set back, and frees it if it has to.
pub release_config-Gives :
    {held doomed fresh : List Addr} (s : State) (p : Addr)
    → Counted s.mem held doomed fresh
    → 0 < count p held
    → Ends (λ _ t. Counted t.mem (remove_one p held) doomed fresh × Keeps s t) (release_config p s)
unfolding release_config
release_config-Gives {held} {doomed} {fresh} s p c one =
    Ends.feed-Ends _ (Ends-both (release_locked-Counted s p c one) (release_locked-Keeps s p c one))
      λ del t (d, k). free_if del t d k
  where
    again : (p == p) ≡ true
    again = ground arith

    free_if :
        (del : Bool) (t : State)
        → Counted t.mem (remove_one p held) (if del then p ∷ doomed else doomed) fresh
        → Keeps s t
        → Ends
            (λ _ u. Counted u.mem (remove_one p held) doomed fresh × Keeps s u)
            ((if del then free_config_set p else pure tt) t)
    free_if false t d k = ends (d, k)
    free_if true t d k =
        Ends.weaken
          (Ends-both (rw again at (free_config_set-Counted t p d (ground arith)))
            (free_config_set-Keeps t p d (ground arith)))
          λ _ u (e, l). (
            e,
            record {
              same_cur = l.same_cur ∙ k.same_cur;
              sessions = l.sessions ∙ k.sessions;
              privs = l.privs ∙ k.privs;
              fds = l.fds ∙ k.fds;
              silent = λ g. l.silent g ∙ k.silent g;
            },
          )
