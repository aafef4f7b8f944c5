-- ===== src/Config/Setup.antt =====
-- `setup_config_set`: the file is read into a new set.
use madai.Base.{
  ℕ, ℤ, pos, negsuc, is_neg, is_pos, false, Option, none, some, ◌≡◌, refl, arith, Bool-cases, inl,
  inr,
}
use madai.Types.{Addr, ConfigData, Message}
use madai.Sys.{Env, State, Block, pure, ◌>>◌}
use madai.Sys.Ends
use madai.Sys.Ends.{Ends, ends}
use madai.Libdg.Reader.Valid.{SmallFile, read_config-Loads}
use madai.Config.Refs.{place_set}
use madai.Config.Load.{cfe, cleared, debug_log, make_config_data, place_config, setup_config_set}
use madai.Config.Valid.{
  HostLaws, IsValid, AllOk-IsValid, cfe-IsTable, cfe-DefaultsOk, cleared-TermsOk,
}

-- What `make_config_data` leaves.
abbrev Makes : Env → State → Option ConfigData → State → Type 0
Makes env s none t = t.mem ≡ s.mem
Makes env s (some cfg) t = (t.mem ≡ s.mem) × IsValid env cfg

-- Without a set the memory is as it was. A set stands at a new address, with a valid configuration
-- and a count of 0.
abbrev pub Builds : Env → State → Option Addr → State → Type 0
Builds env s none t = t.mem ≡ s.mem
Builds env s (some p) t =
    (p ≡ s.mem.next) × ((cfg : ConfigData) × IsValid env cfg × (t.mem ≡ place_set s.mem cfg))

ret_zero_of : (z : ℤ) → is_pos z ≡ false → is_neg z ≡ false → z ≡ pos 0
ret_zero_of (pos (ℕ.zero)) a b = refl
ret_zero_of (pos (ℕ.suc n)) a b = ground arith
ret_zero_of (negsuc n) a b = ground arith

debug_log-same_mem : (msg : Message) (s : State) → Ends (λ _ t. t.mem ≡ s.mem) (debug_log msg s)
debug_log-same_mem msg s = elim (Bool-cases s.mem.debugmode) [
  | inl b ↦ rw b (ends refl)
  | inr b ↦ rw b (ends refl)
]

pub refused :
    {A : Type 0} {P : Option A → State → Type 0} (msg : Message) (s : State)
    → ((t : State) → t.mem ≡ s.mem → P none t)
    → Ends P ((do debug_log msg; pure none) s)
refused msg s then_holds =
    Ends.feed-Ends (λ _. pure none) (debug_log-same_mem msg s) λ _ t m. ends (then_holds t m)

module _ (env : Env) (laws : HostLaws env) where
  make_config_data-Makes :
      (s : State)
      → SmallFile env (cfe env) s.mem.config_filepath
      → Ends (Makes env s) (make_config_data env cleared s)
  unfolding make_config_data
  make_config_data-Makes s small =
      Ends.feed-Ends _
        (read_config-Loads env (cfe env) (cfe-IsTable env) (cfe-DefaultsOk env laws)
          s.mem.config_filepath cleared s (cleared-TermsOk env) small)
        λ r t l. elim (Bool-cases (is_pos r.ret)) [
          | inl p ↦ rw p (
              Ends.feed-Ends _ (debug_log-same_mem Message.err_read_config_file t)
                λ _ u m. ends (rw m l.same_mem))
          | inr p ↦ elim (Bool-cases (is_neg r.ret)) [
            | inl n ↦ rw (p, n) (ends l.same_mem)
            | inr n ↦
                rw (p, n)
                  (ends (l.same_mem, AllOk-IsValid env _ laws (l.good (ret_zero_of r.ret p n))))
          ]
        ]

  place_config-Builds :
      (s : State) (o : Option ConfigData) (t : State)
      → Makes env s o t
      → Ends (Builds env s) (place_config env o t)
  unfolding place_config
  place_config-Builds s none t m = refused Message.err_func_make_c_data t λ u e. rw e m
  place_config-Builds s (some cfg) t (m, valid) =
      elim (Bool-cases (env.malloc t.trace Block.config_set)) [
        | inl room ↦ rw room (ends (rw m refl, (cfg, valid, rw m refl)))
        | inr no_room ↦ rw no_room (refused Message.err_func_init_c_set _ λ u e. rw e m)
      ]

  -- Where the default address and facility are good, no facility has an empty name and the file is
  -- shorter than an `int` can count, `setup_config_set` ends without a fault. Either there is no
  -- set and the memory is as it was, or one new set is there, not held, with a configuration in
  -- which each term but `HeloDomain` has a value that its check accepts.
  pub setup_config_set-Builds :
      (s : State)
      → SmallFile env (cfe env) s.mem.config_filepath
      → Ends (Builds env s) (setup_config_set env s)
  unfolding setup_config_set
  setup_config_set-Builds s small = elim (Bool-cases (env.malloc s.trace Block.config_data)) [
    | inl room ↦
        rw room
          (Ends.feed-Ends _ (make_config_data-Makes _ small) λ o t m. place_config-Builds s o t m)
    | inr no_room ↦ rw no_room (refused Message.err_func_init_c_data _ λ u e. e)
  ]
