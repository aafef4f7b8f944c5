-- ===== src/Sys.antt =====
-- What the program stands on: its memory, the system calls and libmilter calls it makes, and the
-- commands that compose them. Nothing here is code of the repository but the shape of the memory.
--
-- The outside world is an `Env`: the answer to each call, as a function of everything that has
-- happened before (the trace) and of the call's arguments. So any behaviour of the kernel, the
-- copy server and libmilter in one run is some `Env`.
pub mod Ends
pub mod Wire
use madai.Base.{ℕ, suc, ◌+◌, ℤ, Bool, Option, none, some, List, ◌∷◌, Bytes, ◌==◌, if◌then◌else◌}
use madai.Types.{Addr, Fd, ConfigSet, SessionData, LogFunc, DgLog, Message}

-- The kinds of block that the program takes from `malloc`.
pub data Block : Type 0 where
  config_data config_set session_data config_checks : Block

-- The calls of `milter_start`: the socket text, the timeout, and the two that take no value.
pub data MilterCall : Type 0 where
  setconn : Bytes → MilterCall
  settimeout : ℤ → MilterCall
  register main_loop : MilterCall

-- What happened, with what the call answered.
pub data Event : Type 0 where
  opened : Fd → Event
  set_rcvtimeo set_sndtimeo : Fd → ℤ → Event
  connected : Fd → ℕ → ℕ → ℤ → Event
  wrote : Fd → Bytes → ℤ → Event
  received : Fd → ℤ → Event
  closed : Fd → Event
  named : ℤ → Event
  logged : LogFunc → Message → Event
  allocated : Block → Bool → Event
  freed : Block → Event
  set_private : Bool → Event
  stray_store : ℕ → ℕ → Event
  syslog_closed : Event
  syslog_opened : ℤ → Event
  masked unmasked : ℤ → Event
  handler_set : ℤ → Event
  config_printed : Bytes → Event
  usage_printed : Event
  thread_started : ℤ → Event
  milter_called : MilterCall → Bool → Event

-- Newest first.
abbrev pub Trace : Type 0
Trace = List Event

pub record Env : Type 0 where
  -- socket(2): the descriptor, or a negative number
  pub socket : Trace → ℤ
  -- connect(2), inet_addr(3), htons(3)
  pub connect : Trace → Fd → ℕ → ℕ → ℤ
  pub inet_addr : Bytes → ℕ
  pub htons : ℕ → ℕ
  -- write(2) and read(2): the number of bytes, or a negative number
  pub write : Trace → Fd → Bytes → ℤ
  pub read : Trace → Fd → ℕ → ℤ
  -- gethostname(2): the result, and the name
  pub gethostname : Trace → ℤ × Bytes
  -- malloc(3): whether there is memory
  pub malloc : Trace → Block → Bool
  -- smfi_setpriv: whether it answers MI_SUCCESS
  pub setpriv : Trace → Addr → Option Addr → Bool
  -- inet_aton(3): whether it answers nonzero
  pub inet_aton : Bytes → Bool
  -- `facilitynames` of syslog.h
  pub facilitynames : List (Bytes × ℕ)
  -- stat(2): whether it succeeds, and then whether the file is a directory
  pub stat : Trace → Bytes → Option Bool
  -- access(2), for W_OK and for R_OK
  pub access_w : Trace → Bytes → Bool
  pub access_r : Trace → Bytes → Bool
  -- strerror(3) of the `errno` that a failed stat(2) or access(2) leaves, of EISDIR and of ENOTDIR
  pub stat_error : Trace → Bytes → Bytes
  pub access_error : Trace → Bytes → Bytes
  pub eisdir : Bytes
  pub enotdir : Bytes
  -- whether printf(3) prints a text for `%s` and NULL, which C leaves undefined
  pub prints_null : Bool
  -- fopen(3): the contents of the file, which may be another each time
  pub fopen : Trace → Bytes → Option Bytes
  -- strdup(3): whether there is memory for the copy
  pub strdup : Bytes → Bool
  -- whether `errno` is ERANGE when the file is read
  pub erange : Bool
  -- pthread_sigmask(3), sigaction(2) and pthread_create(3)
  pub sigmask : Trace → ℤ
  pub sigaction : Trace → ℤ
  pub pthread_create : Trace → ℤ
  -- smfi_setconn, smfi_settimeout, smfi_register, smfi_main: whether it answers MI_SUCCESS
  pub milter : Trace → MilterCall → Bool
  -- whether the byte behind an array of so many bytes on the stack is no one's, which C leaves open
  pub spare : ℕ → Bool
  -- how often a `while` loop may go round before the model gives the run up as `hang`
  pub rounds : ℕ

pub record Memory : Type 0 where
  pub sets : Addr → Option ConfigSet
  pub sessions : Addr → Option SessionData
  -- the next address that `malloc` hands out; none is handed out twice
  pub next : Addr
  -- `_cur_config`
  pub cur_config : Option Addr
  -- the private data pointer of each `SMFICTX`
  pub privs : Addr → Option Addr
  pub logfunc : LogFunc
  pub dgconfig_log : DgLog
  pub debugmode : Bool
  -- `_config_filepath`
  pub config_filepath : Bytes

pub record State : Type 0 where
  pub mem : Memory
  pub trace : Trace

-- `fault` is undefined behaviour: a dangling or NULL pointer, an overflow of an array or of an
-- `int`. `hang` is a loop that has used up its rounds.
pub data Run (A : Type 0) : Type 0 where
  ok : A → State → Run A
  fault : Run A
  hang : Run A

abbrev pub Cmd : Type 0 → Type 0
Cmd A = State → Run A

abbrev pub pure : {A : Type 0} → A → Cmd A
pure = ok

module _ {A B : Type 0} where
  abbrev pub feed : (A → Cmd B) → Run A → Run B
  feed next (ok a s) = next a s
  feed next fault = fault
  feed next hang = hang

  infixl 5 ◌>>=◌ ◌>>◌
  abbrev pub ◌>>=◌ : Cmd A → (A → Cmd B) → Cmd B
  ◌>>=◌ first next s = feed next (first s)

  abbrev pub ◌>>◌ : Cmd A → Cmd B → Cmd B
  ◌>>◌ first next s = feed (λ _. next) (first s)

abbrev pub crash : {A : Type 0} → Cmd A
crash s = fault

-- What a pointer that may be NULL or dangling leads to.
abbrev pub deref : {A : Type 0} → Option A → Cmd A
deref none = crash
deref (some a) = pure a

abbrev pub memory : Cmd Memory
memory s = ok s.mem s

abbrev pub set_memory : Memory → Cmd (Unit {0})
set_memory m s = ok tt (record s { mem = m })

abbrev pub emit : Event → Cmd (Unit {0})
emit e s = ok tt (record s { trace = e ∷ s.trace })

-- A call whose answer is noted in the trace.
abbrev pub ask : {A : Type 0} → (Trace → A) → (A → Event) → Cmd A
ask answer note s = ok (answer s.trace) (record s { trace = note (answer s.trace) ∷ s.trace })

module _ {A : Type 0} where
  -- The heap with `c` at address `p`.
  abbrev pub update : (Addr → Option A) → Addr → Option A → Addr → Option A
  update h p c q = if q == p then c else h q

-- `LOG(…)`, through `logfunc`.
abbrev pub log : Message → Cmd (Unit {0})
log m = do now ← memory; emit (Event.logged now.logfunc m)

abbrev pub load_session : Addr → Cmd SessionData
load_session p = do m ← memory; deref (m.sessions p)

abbrev pub store_session : Addr → SessionData → Cmd (Unit {0})
store_session p v = do
  load_session p
  m ← memory
  set_memory (record m { sessions = update m.sessions p (some v) })

abbrev pub load_set : Addr → Cmd ConfigSet
load_set p = do m ← memory; deref (m.sets p)

abbrev pub store_set : Addr → ConfigSet → Cmd (Unit {0})
store_set p v = do load_set p; m ← memory; set_memory (record m { sets = update m.sets p (some v) })
