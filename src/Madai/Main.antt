-- ===== src/Madai/Main.antt =====
-- The whole of `main`, from its arguments to the value it returns.
use madai.Base.{
  ◌≤◌, ◌<◌, Bool, true, false, Option, none, some, List, [], ◌∷◌, ◌≡◌, refl, arith, Bytes, length,
  lt→ltb, if◌then◌else◌,
}
use madai.Types.{Addr, ConfigData, Message}
use madai.Sys.{Event, Env, Cmd, Memory, State, emit, log, pure, ◌>>◌}
use madai.Sys.Ends
use madai.Sys.Ends.{Ends, ends}
use madai.Log.{init_log}
use madai.Libdg.Checks.{is_ipaddr}
use madai.Libdg.Reader.Valid.{SmallFile}
use madai.Config.Load.{path_max, cfe}
use madai.Config.Valid.{HostLaws, IsValid}
use madai.Config.Refs.{Counted}
use madai.Config.Snapshot.{config_at}
use madai.Config.Startup.{Blank, Starts, startup_config-Starts}
use madai.Madai.{
  Opt, opt_d, opt_f, opt_other, Exit, exit_failure, exit_success, default_conffile, oconn,
  oconn_length, parse_options, serve, start_from, main,
}
use madai.Madai.Start.{Serves, serve-Serves}
use madai.Madai.Socket.{oconn-length_lem}

-- Each path on the command line fits its array.
abbrev pub ShortPaths : List Opt → Type 0
ShortPaths [] = Unit {0}
ShortPaths (opt_d ∷ opts) = ShortPaths opts
ShortPaths (opt_f path ∷ opts) = (length path < path_max) × ShortPaths opts
ShortPaths (opt_other ∷ opts) = ShortPaths opts

abbrev Chosen : Option Bytes → State → Type 0
Chosen none t = Unit {0}
Chosen (some path) t = (length path < path_max) × Blank t.mem

parse_options-Chosen :
    (opts : List Opt) (path : Bytes) (s : State)
    → ShortPaths opts
    → length path < path_max
    → Blank s.mem
    → Ends Chosen (parse_options opts path s)
unfolding parse_options
parse_options-Chosen [] path s paths short blank = ends (short, blank)
parse_options-Chosen (opt_d ∷ opts) path s paths short blank =
    parse_options-Chosen opts path (record s { mem = record s.mem { debugmode = true } }) paths
      short blank
parse_options-Chosen (opt_f [] ∷ opts) path s paths short blank = ends tt
parse_options-Chosen (opt_f (c ∷ p) ∷ opts) path s (fits, paths) short blank =
    rw (lt→ltb (length (c ∷ p)) path_max fits)
      (parse_options-Chosen opts (c ∷ p) s paths fits blank)
parse_options-Chosen (opt_other ∷ opts) path s paths short blank = ends tt

-- What `main` has done where it returns 0: it ran libmilter with the socket and the timeout of a
-- configuration that passed its checks.
abbrev pub Served : Env → Exit → State → Type 0
Served env exit_failure t = Unit {0}
Served env exit_success t =
    (cfg : ConfigData) × IsValid env cfg
    × ((v : Bytes) × (cfg.listenip ≡ some v)
        × Serves (oconn cfg.listenport v) cfg.miltertimeout exit_success t)

module _ (env : Env) (laws : HostLaws env) (small : (path : Bytes) → SmallFile env (cfe env) path)
    (short_ip : (v : Bytes) → is_ipaddr env v ≡ none → length v ≤ 18)
    (prints : env.prints_null ≡ true) where
  Serves-Served :
      (cfg : ConfigData) (v : Bytes) (r : Exit) (t : State)
      → IsValid env cfg
      → cfg.listenip ≡ some v
      → Serves (oconn cfg.listenport v) cfg.miltertimeout r t
      → Served env r t
  Serves-Served cfg v exit_failure t valid listens served = tt
  Serves-Served cfg v exit_success t valid listens served = (cfg, valid, (v, listens, served))

  serve-Served :
      (p : Addr) (cfg : ConfigData) (s : State)
      → IsValid env cfg
      → Counted s.mem [] [] []
      → config_at s.mem p ≡ some cfg
      → Ends (Served env) (serve env (pure tt) p s)
  serve-Served p cfg s valid counted at =
      let (v, listens, address) = valid.listen in
      let (n, port, bound) = valid.listen_port in
      let short : length (oconn cfg.listenport v) < oconn_length =
        rw port (oconn-length_lem n v bound (short_ip v address)) in
      Ends.weaken
        (serve-Serves env cfg v p (pure tt) (λ t. ends refl) s prints counted at listens short)
        λ r t served. Serves-Served cfg v r t valid listens served

  started_then :
      (path : Bytes) (before : Memory) (o : Option Addr) (s : State)
      → Starts env before o s
      → Ends (Served env) (
          (elim o as (λ _. Cmd Exit) [
            | none ↦ (do log (Message.stderr_config_read path); pure exit_failure)
            | some p ↦ serve env (pure tt) p
          ])
            s)
  started_then path before none s started = ends tt
  started_then path before (some p) s ((cfg, valid, current), counted, _) =
      serve-Served p cfg s valid counted (rw current.allocated current.holds)

  start_from-Served :
      (path : Bytes) (s : State)
      → length path < path_max
      → Blank s.mem
      → Ends (Served env) (start_from env (pure tt) path s)
  unfolding start_from init_log
  start_from-Served path s short blank =
      Ends.feed-Ends _ (startup_config-Starts env laws path _ blank short (small path))
        λ o t started. started_then path _ o t started

  -- `main` behind its options.
  behind_options :
      (operands : Bool) (o : Option Bytes) (s : State)
      → Chosen o s
      → Ends (Served env) (
          (elim o as (λ _. Cmd Exit) [
            | none ↦ pure exit_failure
            | some filepath ↦
                if operands
                then (do emit Event.usage_printed; pure exit_failure)
                else start_from env (pure tt) filepath
          ])
            s)
  behind_options operands none s chosen = ends tt
  behind_options true (some path) s chosen = ends tt
  behind_options false (some path) s (short, blank) = start_from-Served path s short blank

  -- Where the default address and facility are good, no facility has an empty name, each file is
  -- shorter than an `int` can count and can be read or why it cannot be fits `errbuf` with its
  -- path and stands for a format, printf(3) prints something for a NULL text, the new thread does
  -- nothing before `main` has read the configuration, an address that the checks accept has at
  -- most 18 bytes, each path on the command line fits its array and no set has been built: `main`
  -- ends without a fault, whatever its options, its files, the system calls and libmilter answer.
  -- It returns 0 only where it read a configuration that passed its checks, gave libmilter its
  -- address, port and timeout, gave it the callbacks, and ran it, in this order and each with
  -- success.
  pub main-Served :
      (opts : List Opt) (operands : Bool) (s : State)
      → ShortPaths opts
      → Blank s.mem
      → Ends (Served env) (main env (pure tt) opts operands s)
  unfolding main
  main-Served opts operands s paths blank =
      Ends.feed-Ends _ (parse_options-Chosen opts default_conffile s paths (omega arith) blank)
        λ o t chosen. behind_options operands o t chosen
