-- ===== src/ThreadControl/Hup.antt =====
-- `do_hup`: a reload on SIGHUP, whatever the file holds.
use madai.Base.{
  Bool, ◌||◌, Bool, true, false, List, ◌∷◌, ◌≡◌, ◌⊎◌, refl, arith, ◌∙◌, eq_ℤ, minus_one,
  if◌then◌else◌, Bool-cases, Option-cases, inl, inr, ℤ,
}
use madai.Types.{Addr, ConfigData, Message}
use madai.Sys.{Event, Env, State, log, memory, pure, ◌>>=◌, ◌>>◌}
use madai.Sys.Ends
use madai.Sys.Ends.{Ends, ends}
use madai.Libdg.Reader.Valid.{SmallFile}
use madai.Config.Refs.{Counted, SameSessions}
use madai.Config.Threads.{Reach, here}
use madai.Config.Steps.{threads, goes_on, same_mem-SameSets, Reach-trans}
use madai.Config.Load.{cfe}
use madai.Config.Print.{no_null, print_config_data}
use madai.Config.Valid.{HostLaws, IsValid}
use madai.Config.Reload.{Current, Reloads, reload_config-Reloads}
use madai.ThreadControl.{do_hup, reload_unblock, reload_message}

-- The memory is as it was, or a new and valid set is current, the counts are right, and the sessions
-- are as they were. What is done to the sets is a row of steps of the interleavings.
abbrev pub Renews : Env → List Addr → List Addr → List Addr → State → State → Type 0
Renews env held doomed fresh s t =
    ((t.mem ≡ s.mem)
      ⊎ (((cfg : ConfigData) × IsValid env cfg × Current t.mem s.mem.next cfg)
          × Counted t.mem held doomed fresh
          × SameSessions s.mem t.mem))
    × Reach (threads s held doomed fresh) (threads t held doomed fresh)

or_true : (b : Bool) → (b || true) ≡ true
or_true false = refl
or_true true = refl

module _ (env : Env) (prints : env.prints_null ≡ true) {held doomed fresh : List Addr} where
  print_config_data-same_mem :
      (s : State)
      → Counted s.mem held doomed fresh
      → Ends (λ _ t. t.mem ≡ s.mem) (print_config_data env s)
  unfolding print_config_data
  print_config_data-same_mem s c =
      let (p, cur) = c.started in
      let here = c.status p in
      elim (Option-cases (s.mem.sets p)) [
        | inl gone ↦ absurd (ground arith)
        | inr (a, e) ↦ elim (Option-cases a.config) [
          | inl empty ↦ absurd (ground arith)
          | inr (cfg, holds) ↦
              let shown : (no_null (cfe env) cfg || env.prints_null) ≡ true =
                rw prints (or_true (no_null (cfe env) cfg)) in
              rw (cur, e, holds, shown) (ends refl)
        ]
      ]

  pub print_if :
      (b : Bool) (s : State)
      → Counted s.mem held doomed fresh
      → Ends (λ _ t. t.mem ≡ s.mem) ((if b then print_config_data env else pure tt) s)
  print_if true s c = print_config_data-same_mem s c
  print_if false s c = ends refl

  unblocked :
      (failed : Bool) (s : State)
      → Counted s.mem held doomed fresh
      → Ends
          (λ _ t. t.mem ≡ s.mem)
          ((do
            if failed then log Message.err_unblock_signal else pure tt
            m ← memory
            if m.debugmode then print_config_data env else pure tt)
            s)
  unblocked true s c =
      let now : State = record s {
        trace = Event.logged s.mem.logfunc Message.err_unblock_signal ∷ s.trace;
      } in
      print_if now.mem.debugmode now c
  unblocked false s c = print_if s.mem.debugmode s c

module _ (env : Env) {held doomed fresh : List Addr} where
  -- The counts are right after a reload, whatever it answers.
  Reloads-Counted :
      {code : ℤ} (s t : State)
      → Counted s.mem held doomed fresh
      → Reloads env held doomed fresh s code t
      → Counted t.mem held doomed fresh
  Reloads-Counted s t c (inl (_, m)) = rw m c
  Reloads-Counted s t c (inr (_, _, d, _, _)) = d

  Reloads-Renews :
      {code : ℤ} (s t u : State)
      → Reloads env held doomed fresh s code t
      → u.mem ≡ t.mem
      → Renews env held doomed fresh s u
  Reloads-Renews s t u (inl (_, m)) same =
      (inl (same ∙ m), goes_on u here (same_mem-SameSets (same ∙ m)))
  Reloads-Renews s t u (inr (_, now, d, apart, r)) same =
      (inr (rw same (now, d, apart)), goes_on u r (same_mem-SameSets same))

module _ (env : Env) (laws : HostLaws env) (prints : env.prints_null ≡ true)
    {held doomed fresh : List Addr} where
  reload_unblock-Renews :
      (s : State)
      → Counted s.mem held doomed fresh
      → SmallFile env (cfe env) s.mem.config_filepath
      → Ends (λ _ t. Renews env held doomed fresh s t) (reload_unblock env s)
  unfolding reload_unblock
  reload_unblock-Renews s c small =
      Ends.feed-Ends _ (reload_config-Reloads env laws s c small) λ code t r.
        let logged : State = record t {
          trace = Event.logged t.mem.logfunc (reload_message code) ∷ t.trace;
        } in
        let sig = env.sigmask logged.trace in
        let now : State = record logged { trace = Event.unmasked sig ∷ logged.trace } in
        Ends.weaken (unblocked env prints (eq_ℤ sig minus_one) now (Reloads-Counted env s t c r))
          λ _ u m. Reloads-Renews env s t u r m

  -- Where the default address and facility are good, no facility has an empty name, the file is
  -- shorter than an `int` can count, and the file can be read or why it cannot be fits the 1024
  -- bytes of `errbuf` with its path and stands for a format, printf(3) prints something for a
  -- NULL text, and the counts are right: `do_hup` with nothing in between ends without a fault.
  -- Either the memory is as it was, or the new set is current and holds a configuration in which
  -- each term but `HeloDomain` has a value that its check accepts, the counts are right for the
  -- same holders, and no session and no private data has changed. What it does to the sets is a
  -- row of steps of the interleavings.
  pub do_hup-Renews :
      (s : State)
      → Counted s.mem held doomed fresh
      → SmallFile env (cfe env) s.mem.config_filepath
      → Ends (λ _ t. Renews env held doomed fresh s t) (do_hup env s)
  unfolding do_hup
  do_hup-Renews s c small = elim (Bool-cases (eq_ℤ (env.sigmask s.trace) minus_one)) [
    | inl failed ↦ rw failed (ends (inl refl, goes_on _ here (same_mem-SameSets refl)))
    | inr blocked ↦
        let now : State = record s { trace = Event.masked (env.sigmask s.trace) ∷ s.trace } in
        rw blocked (
          Ends.weaken (reload_unblock-Renews now c small)
            λ _ t (m, r). (m, Reach-trans (goes_on now here (same_mem-SameSets refl)) r))
  ]
