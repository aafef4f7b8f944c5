-- ===== src/ThreadControl/Hushed.antt =====
-- The open descriptors, the sessions and the wire over the reading of a configuration, at the start and on
-- SIGHUP.
use madai.Base.{
  ℤ, is_pos, is_neg, eq_ℤ, ◌||◌, pos, minus_one, true, false, Option, none, some, List, Bytes, inl,
  inr, Option-cases, Bool-cases, if◌then◌else◌, length, ltb, lt→ltb, ◌<◌, refl, suc, ◌≡◌,
}
use madai.Types.{Addr, Fd, ConfigData, ConfigSet, Message, DgLog, to_stderr, to_syslog, nowhere}
use madai.Sys.{
  Cmd, State, Block, Event, Env, pure, ◌>>=◌, ◌>>◌, emit, ask, log, load_set, store_set,
}
use madai.Sys.Ends.{WhenOk}
use madai.Smtp.Keeping.{
  Keeping, bind-Keeping, cond-Keeping, pure-Keeping, deref-Keeping, crash-Keeping,
}
use madai.Smtp.Start.{open_fds}
use madai.Sys.Wire.{sent}
use madai.Libdg.Entry.{CfEntry}
use madai.Libdg.Checks.{
  ConfErr, is_readable_file, unreadable, refuse, errbuf_len, filedir_text, syslog_facility,
  facility_stderr, facility_none,
}
use madai.Libdg.Text.{same_nocase}
use madai.Libdg.Reader.{
  LoopEnd, end_of_file, too_long, out_of_rounds, finish, read_content, read_file, read_config,
  read_lines, plain_format, print_as, warn, cannot_read, start, give_up, cannot_allocate,
}
use madai.Log.{switch_log, dglogchange, dgloginit}
use madai.Config.{free_config_data, free_config_set, reload_locked}
use madai.Config.Print.{no_null, print_config_data}
use madai.ThreadControl.{reload_message, reload_unblock, do_hup}
use madai.Config.Load.{
  debug_log, make_config_data, place_config, setup_config_set, current_facility, reload_with,
  reload_config, startup_with, startup_config, cfe, cleared, path_max,
}

-- From `s` to `t` no descriptor is opened or closed, no session changes, nor the path of the
-- configuration file, and nothing is sent.
abbrev pub Unheard : State → State → Type 0
Unheard s t =
    (open_fds t.trace ≡ open_fds s.trace)
    × (t.mem.sessions ≡ s.mem.sessions)
    × (t.mem.config_filepath ≡ s.mem.config_filepath)
    × ((g : Fd) → sent g t.trace ≡ sent g s.trace)

-- A command that has this effect at most, on each run that returns.
abbrev pub Hushed : {A : Type 0} → Cmd A → Type 0
Hushed = Keeping Unheard

log-Hushed : (m : Message) → Hushed (log m)
log-Hushed m = record { keeps = λ s t h. h }

pub load_set-Hushed : (p : Addr) → Hushed (load_set p)
load_set-Hushed p = record {
  keeps = λ s t h. (deref-Keeping {R = Unheard} (t.mem.sets p)).keeps s t h;
}

emit_freed-Hushed : (b : Block) → Hushed (emit (Event.freed b))
emit_freed-Hushed b = record { keeps = λ s t h. h }

debug_log-Hushed : (msg : Message) → Hushed (debug_log msg)
debug_log-Hushed msg = record {
  keeps = λ s t h. (cond-Keeping t.mem.debugmode (log-Hushed msg) (pure-Keeping tt)).keeps s t h;
}

refused-Hushed : {A : Type 0} (msg : Message) → Hushed {A = Option A} (do debug_log msg; pure none)
refused-Hushed msg = bind-Keeping (debug_log-Hushed msg) λ _. pure-Keeping none

free_config_data-Hushed : (o : Option ConfigData) → Hushed (free_config_data o)
unfolding free_config_data
free_config_data-Hushed o = bind-Keeping (deref-Keeping o) λ _. emit_freed-Hushed Block.config_data

refuse-Hushed : (file : Bytes) (o : Option Bytes) → Hushed (refuse file o)
refuse-Hushed file none = record { keeps = λ s t h. h }
refuse-Hushed file (some why) = record {
  keeps = λ s t h. elim (Bool-cases (ltb (length (filedir_text file why)) errbuf_len)) [
    | inl fits ↦ rw fits h
    | inr over ↦ rw over tt
  ];
}

print_as-Hushed : (l : DgLog) (p : Bytes) → Hushed (print_as l p)
print_as-Hushed nowhere p = pure-Keeping tt
print_as-Hushed to_stderr p = cond-Keeping (plain_format p) (pure-Keeping tt) crash-Keeping
print_as-Hushed to_syslog p = cond-Keeping (plain_format p) (pure-Keeping tt) crash-Keeping

warn-Hushed : (e : ConfErr) → Hushed (warn e)
unfolding warn
warn-Hushed (ConfErr.filedir p) = record {
  keeps = λ s t h. (print_as-Hushed t.mem.dgconfig_log p).keeps s t h;
}
warn-Hushed _ = record { keeps = λ s t h. h }

module _ (env : Env) where
  ask_malloc-Hushed : (b : Block) → Hushed (ask (λ t. env.malloc t b) (Event.allocated b))
  ask_malloc-Hushed b = record { keeps = λ s t h. h }

  finish-Hushed : (es : List CfEntry) (last : LoopEnd) → Hushed (finish env es last)
  unfolding finish
  finish-Hushed es (end_of_file g) = record { keeps = λ s t h. h }
  finish-Hushed es (too_long g) = record { keeps = λ s t h. h }
  finish-Hushed es (out_of_rounds g) = record { keeps = λ s t h. tt }

  read_content-Hushed :
      (es : List CfEntry) (cfg : ConfigData) (content : Bytes)
      → Hushed (read_content env es cfg content)
  unfolding read_content
  read_content-Hushed es cfg content = bind-Keeping (ask_malloc-Hushed Block.config_checks) λ room.
      cond-Keeping room
        (finish-Hushed es (read_lines env es (suc (length content)) 1 content (start env es cfg)))
        (pure-Keeping (give_up cfg cannot_allocate))

  is_readable_file-Hushed : (file : Bytes) → Hushed (is_readable_file env file)
  unfolding is_readable_file
  is_readable_file-Hushed file = record {
    keeps = λ s t h. (refuse-Hushed file (unreadable env t.trace file)).keeps s t h;
  }

  read_file-Hushed :
      (file : Bytes) (es : List CfEntry) (cfg : ConfigData) (o : Option ConfErr)
      → Hushed (read_file env file es cfg o)
  unfolding read_file
  read_file-Hushed file es cfg (some e) =
      bind-Keeping (warn-Hushed e) λ _. pure-Keeping (give_up cfg (cannot_read e))
  read_file-Hushed file es cfg none = record {
    keeps = λ s t h. elim (Option-cases (env.fopen t.trace file)) [
      | inl closed ↦ rw (read_file, closed) h
      | inr (content, open_file) ↦
          rw (read_file, open_file) ((read_content-Hushed es cfg content).keeps s t h)
    ];
  }

  read_config-Hushed :
      (file : Bytes) (es : List CfEntry) (cfg : ConfigData) → Hushed (read_config env file es cfg)
  unfolding read_config
  read_config-Hushed file es cfg =
      bind-Keeping (is_readable_file-Hushed file) λ o. read_file-Hushed file es cfg o

  make_config_data-Hushed : (cfg : ConfigData) → Hushed (make_config_data env cfg)
  unfolding make_config_data
  make_config_data-Hushed cfg = record {
    keeps = λ s t h.
        (bind-Keeping (read_config-Hushed t.mem.config_filepath (cfe env) cfg) λ reading.
            cond-Keeping (is_pos reading.ret)
              (bind-Keeping (debug_log-Hushed Message.err_read_config_file) λ _.
                bind-Keeping (free_config_data-Hushed (some reading.cfg)) λ _. pure-Keeping none)
              (cond-Keeping (is_neg reading.ret)
                (bind-Keeping (free_config_data-Hushed (some reading.cfg)) λ _. pure-Keeping none)
                (pure-Keeping (some reading.cfg)))).keeps
          s t h;
  }

  take_memory-Hushed :
      (b : Block)
      → Hushed (do
        room ← ask (λ t. env.malloc t b) (Event.allocated b)
        if room then pure true else (do log Message.err_memory_allocate; pure false))
  take_memory-Hushed b = bind-Keeping (ask_malloc-Hushed b) λ room.
      cond-Keeping room (pure-Keeping true)
        (bind-Keeping (log-Hushed Message.err_memory_allocate) λ _. pure-Keeping false)

  place_config-Hushed : (o : Option ConfigData) → Hushed (place_config env o)
  unfolding place_config
  place_config-Hushed none = refused-Hushed Message.err_func_make_c_data
  place_config-Hushed (some cfg) = bind-Keeping (take_memory-Hushed Block.config_set) λ room.
      record {
        keeps = λ s t h. elim (Bool-cases room) [
          | inl there ↦ rw there h
          | inr no_room ↦ rw no_room ((refused-Hushed Message.err_func_init_c_set).keeps s t h)
        ];
      }

  pub setup_config_set-Hushed : Hushed (setup_config_set env)
  unfolding setup_config_set
  setup_config_set-Hushed = bind-Keeping (take_memory-Hushed Block.config_data) λ room.
      cond-Keeping room
        (bind-Keeping (make_config_data-Hushed cleared) λ cfg_data. place_config-Hushed cfg_data)
        (refused-Hushed Message.err_func_init_c_data)

  switch_log-Hushed : (o : Option Bytes) → Hushed (switch_log env o)
  unfolding switch_log
  switch_log-Hushed none = record { keeps = λ s t h. h }
  switch_log-Hushed (some v) = record {
    keeps = λ s t h. elim (Bool-cases (is_neg (syslog_facility env v))) [
      | inl b ↦ rw b h
      | inr b ↦ rw b h
    ];
  }

  dglogchange-Hushed : (o : Option Bytes) → Hushed (dglogchange env o)
  unfolding dglogchange
  dglogchange-Hushed o = bind-Keeping (deref-Keeping o) λ name.
      cond-Keeping (same_nocase name facility_stderr) (record { keeps = λ s t h. h })
        (cond-Keeping (same_nocase name facility_none) (record { keeps = λ s t h. h })
          (record { keeps = λ s t h. h }))

  current_facility-Hushed : Hushed current_facility
  current_facility-Hushed = record {
    keeps = λ s t h.
        (bind-Keeping (deref-Keeping t.mem.cur_config) λ p.
            bind-Keeping (load_set-Hushed p) λ cfg_set.
              bind-Keeping (deref-Keeping cfg_set.config)
                λ cfg. pure-Keeping cfg.syslogfacility).keeps
          s t h;
  }

  pub store_set-Hushed : (p : Addr) (v : ConfigSet) → Hushed (store_set p v)
  store_set-Hushed p v = bind-Keeping (load_set-Hushed p) λ _. record { keeps = λ s t h. h }

  reload_locked-Hushed : (p : Addr) → Hushed (reload_locked p)
  unfolding reload_locked
  reload_locked-Hushed p = record {
    keeps = λ s t h.
        (bind-Keeping (deref-Keeping t.mem.cur_config) λ old.
            bind-Keeping (load_set-Hushed old) λ cfg_set.
              bind-Keeping (store_set-Hushed old (record cfg_set { delflg = true }))
                λ _. record { keeps = λ s' t' h'. h' }).keeps
          s t h;
  }

  pub free_config_set-Hushed : (p : Addr) → Hushed (free_config_set p)
  unfolding free_config_set
  free_config_set-Hushed p = bind-Keeping (load_set-Hushed p) λ cfg_set.
      bind-Keeping (free_config_data-Hushed cfg_set.config) λ _. record { keeps = λ s t h. h }

  reload_with-Hushed : (o : Option Addr) → Hushed (reload_with env o)
  unfolding reload_with
  reload_with-Hushed none = pure-Keeping (pos 1)
  reload_with-Hushed (some p) = bind-Keeping (reload_locked-Hushed p) λ (old, del).
      bind-Keeping current_facility-Hushed λ facility.
        bind-Keeping (switch_log-Hushed facility) λ _.
          bind-Keeping current_facility-Hushed λ facility'.
            bind-Keeping (dglogchange-Hushed facility') λ _.
              bind-Keeping (cond-Keeping del (free_config_set-Hushed old) (pure-Keeping tt))
                λ _. pure-Keeping (pos 0)

  pub reload_config-Hushed : Hushed (reload_config env)
  unfolding reload_config
  reload_config-Hushed = bind-Keeping setup_config_set-Hushed λ o. reload_with-Hushed o

  startup_with-Hushed : (o : Option Addr) → Hushed (startup_with env o)
  unfolding startup_with
  startup_with-Hushed none = refused-Hushed Message.err_setup_config_set
  startup_with-Hushed (some p) = bind-Keeping (load_set-Hushed p) λ cfg_set.
      bind-Keeping (deref-Keeping cfg_set.config) λ cfg.
        bind-Keeping (dglogchange-Hushed cfg.syslogfacility) λ _. record { keeps = λ s t h. h }

  -- The start notes the path, and changes nothing else of this.
  pub startup_config-Unheard :
      (filepath : Bytes) (s : State)
      → length filepath < path_max
      → WhenOk
          (λ _ t. Unheard (record s { mem = record s.mem { config_filepath = filepath } }) t)
          (startup_config env filepath s)
  unfolding startup_config dgloginit
  startup_config-Unheard filepath s short = rw (lt→ltb _ _ short) (
      (bind-Keeping setup_config_set-Hushed λ o. startup_with-Hushed o).keeps
        (record s { mem = record s.mem { config_filepath = filepath } })
        (record s { mem = record s.mem { config_filepath = filepath; dgconfig_log = to_stderr } })
        (refl, refl, refl, λ g. refl))

  print_config_data-Hushed : Hushed (print_config_data env)
  unfolding print_config_data
  print_config_data-Hushed = record {
    keeps = λ s t h.
        (bind-Keeping (deref-Keeping t.mem.cur_config) λ p.
            bind-Keeping (load_set-Hushed p) λ cfg_set.
              bind-Keeping (deref-Keeping cfg_set.config) λ cfg.
                bind-Keeping
                  (cond-Keeping (no_null (cfe env) cfg || env.prints_null) (pure-Keeping tt)
                    crash-Keeping)
                  λ _. record { keeps = λ s' t' h'. h' }).keeps
          s t h;
  }

  sigmask-Hushed :
      (note : ℤ → Event) → ((r : ℤ) → Hushed (emit (note r))) → Hushed (ask env.sigmask note)
  sigmask-Hushed note q = record { keeps = λ s t h. (q (env.sigmask t.trace)).keeps s t h }

  reload_unblock-Hushed : Hushed (reload_unblock env)
  unfolding reload_unblock
  reload_unblock-Hushed = bind-Keeping reload_config-Hushed λ code.
      bind-Keeping (log-Hushed (reload_message code)) λ _.
        bind-Keeping (sigmask-Hushed Event.unmasked λ r. record { keeps = λ s t h. h }) λ ret.
          bind-Keeping
            (cond-Keeping (eq_ℤ ret minus_one) (log-Hushed Message.err_unblock_signal)
              (pure-Keeping tt))
            λ _. record {
              keeps = λ s t h.
                  (cond-Keeping t.mem.debugmode print_config_data-Hushed (pure-Keeping tt)).keeps s
                    t h;
            }

  pub do_hup-Hushed : Hushed (do_hup env)
  unfolding do_hup
  do_hup-Hushed =
      bind-Keeping (sigmask-Hushed Event.masked λ r. record { keeps = λ s t h. h }) λ ret.
        cond-Keeping (eq_ℤ ret minus_one) (log-Hushed Message.err_unblock_signal)
          reload_unblock-Hushed
