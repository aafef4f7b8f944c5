-- ===== src/Madai/Start.antt =====
-- The order of the start: what `main` has done when it returns 0.
use madai.Base.{
  ◌<◌, ℤ, pos, true, not, some, [], ◌∷◌, ◌++◌, ◌≡◌, refl, arith, Bytes, length, lt→ltb, eq_ℤ,
  if◌then◌else◌, Bool-cases, Option-cases, ◌∙◌, inl, inr,
}
use madai.Types.{Addr, ConfigData, ConfigSet, Message}
use madai.Config.Snapshot.{config_at}
use madai.Sys.{
  Event, MilterCall, Env, Trace, Memory, State, Cmd, deref, ask, log, pure, ◌>>=◌, ◌>>◌,
}
use madai.Sys.Ends
use madai.Sys.Ends.{Ends, ends}
use madai.Smtp.{copy_into}
use madai.Config.Refs.{Counted, SameSets-Counted}
use madai.Config.Reload.{Relogs-SameSets, switch_log-Relogs}
use madai.ThreadControl.Hup.{print_if}
use madai.Madai.{
  Exit, exit_failure, exit_success, oconn, oconn_length, config_data_of, milter_start, serve,
}

-- The calls of libmilter that a start makes, the last one first.
abbrev pub milter_calls : Bytes → ℤ → Trace
milter_calls socket timeout =
    Event.milter_called MilterCall.main_loop true
    ∷ Event.milter_called MilterCall.register true
    ∷ Event.milter_called (MilterCall.settimeout timeout) true
    ∷ Event.milter_called (MilterCall.setconn socket) true
    ∷ []

-- A result of 0 means that each call was made and answered MI_SUCCESS.
pub record Runs (socket : Bytes) (timeout : ℤ) (s : State) (r : ℤ) (t : State) : Type 0 where
  pub same_mem : t.mem ≡ s.mem
  pub called : r ≡ pos 0 → t.trace ≡ milter_calls socket timeout ++ s.trace

-- `milter_start` ends with the memory as it was. It returns 0 only after setting the socket,
-- setting the timeout, registering the callbacks and running, in this order and each with success.
pub milter_start-Runs :
    (env : Env) (socket : Bytes) (timeout : ℤ) (s : State)
    → Ends (Runs socket timeout s) (milter_start env socket timeout s)
unfolding milter_start
milter_start-Runs env socket timeout s =
    let t1 = Event.milter_called (MilterCall.setconn socket) true ∷ s.trace in
    let t2 = Event.milter_called (MilterCall.settimeout timeout) true ∷ t1 in
    let t3 = Event.milter_called MilterCall.register true ∷ t2 in
    elim (Bool-cases (env.milter s.trace (MilterCall.setconn socket))) [
      | inr failed ↦ rw failed (ends (record { same_mem = refl; called = λ e. cc }))
      | inl set ↦ elim (Bool-cases (env.milter t1 (MilterCall.settimeout timeout))) [
        | inr failed ↦ rw (set, failed) (ends (record { same_mem = refl; called = λ e. cc }))
        | inl timed ↦ elim (Bool-cases (env.milter t2 MilterCall.register)) [
          | inr failed ↦
              rw (set, timed, failed) (ends (record { same_mem = refl; called = λ e. cc }))
          | inl ready ↦ elim (Bool-cases (env.milter t3 MilterCall.main_loop)) [
            | inr failed ↦
                rw (set, timed, ready, failed) (ends (record { same_mem = refl; called = λ e. cc }))
            | inl ran ↦
                rw (set, timed, ready, ran) (ends (record { same_mem = refl; called = λ e. refl }))
          ]
        ]
      ]
    ]

-- What `main` has done where it returns 0: libmilter was told the socket and the timeout, and ran.
abbrev pub Serves : Bytes → ℤ → Exit → State → Type 0
Serves socket timeout exit_failure t = Unit {0}
Serves socket timeout exit_success t =
    (before : Trace) × (t.trace ≡ milter_calls socket timeout ++ before)

-- The set at `p`, which holds the configuration.
set_with :
    (m : Memory) (p : Addr) (cfg : ConfigData)
    → config_at m p ≡ some cfg
    → (a : ConfigSet) × ((m.sets p ≡ some a) × (a.config ≡ some cfg))
set_with m p cfg at = elim (Option-cases (m.sets p)) [
  | inl gone ↦ absurd (let lost = rw gone at at in cc)
  | inr (a, there) ↦ (a, (there, rw there at at))
]

module _ (env : Env) (cfg : ConfigData) (v : Bytes) (p : Addr) (meanwhile : Cmd (Unit {0}))
    (quiet : (t : State) → Ends (λ _ u. config_at u.mem p ≡ config_at t.mem p) (meanwhile t)) where
  abbrev listen_socket : Bytes
  listen_socket = oconn cfg.listenport v

  leave :
      (r : ℤ) (s t : State)
      → Runs listen_socket cfg.miltertimeout s r t
      → Ends
          (Serves listen_socket cfg.miltertimeout)
          (pure (if eq_ℤ r (pos 0) then exit_success else exit_failure) t)
  leave r s t runs = elim (Bool-cases (eq_ℤ r (pos 0))) [
    | inl zero ↦ let z : r ≡ pos 0 = ground arith in rw zero (ends (s.trace, runs.called z))
    | inr other ↦ rw other (ends tt)
  ]

  hand_over :
      (s : State)
      → config_at s.mem p ≡ some cfg
      → length listen_socket < oconn_length
      → Ends (Serves listen_socket cfg.miltertimeout) (
          (do
            socket ← copy_into oconn_length listen_socket
            config_data ← config_data_of env p
            ret ← milter_start env socket config_data.miltertimeout
            pure (if eq_ℤ ret (pos 0) then exit_success else exit_failure))
            s)
  hand_over s at short =
      let (a, (there, holds)) = set_with s.mem p cfg at in
      rw (lt→ltb (length listen_socket) oconn_length short, there, holds)
        (Ends.feed-Ends _ (milter_start-Runs env listen_socket cfg.miltertimeout s)
          λ r t runs. leave r s t runs)

  blocked_then :
      (s : State)
      → config_at s.mem p ≡ some cfg
      → cfg.listenip ≡ some v
      → length listen_socket < oconn_length
      → Ends (Serves listen_socket cfg.miltertimeout) (
          (do
            started ← ask env.pthread_create Event.thread_started
            if not (eq_ℤ started (pos 0))
                then (do log Message.err_thread_create; pure exit_failure)
                else do
                  meanwhile
                  blocked ← ask env.sigmask Event.masked
                  if not (eq_ℤ blocked (pos 0))
                      then (do log Message.err_block_signal; pure exit_failure)
                      else do
                        config_data ← config_data_of env p
                        listenip ← deref config_data.listenip
                        socket ← copy_into oconn_length (oconn config_data.listenport listenip)
                        config_data' ← config_data_of env p
                        ret ← milter_start env socket config_data'.miltertimeout
                        pure (if eq_ℤ ret (pos 0) then exit_success else exit_failure))
            s)
  blocked_then s at listens short =
      let thread = env.pthread_create s.trace in
      let t1 = Event.thread_started thread ∷ s.trace in
      let after : State = record s { trace = t1 } in
      elim (Bool-cases (eq_ℤ thread (pos 0))) [
        | inr failed ↦ rw failed (ends tt)
        | inl ok ↦ rw ok (
            Ends.feed-Ends _ (quiet after) λ _ u same.
              elim (Bool-cases (eq_ℤ (env.sigmask u.trace) (pos 0))) [
                | inr failed ↦ rw failed (ends tt)
                | inl masked ↦
                    let now : State = record u {
                      trace = Event.masked (env.sigmask u.trace) ∷ u.trace;
                    } in
                    let (a, (there, holds)) = set_with u.mem p cfg (same ∙ at) in
                    rw (masked, there, holds, listens) (hand_over now (same ∙ at) short)
              ])
      ]

  -- `main` behind `startup_config`, where printf(3) prints something for a NULL text, the counts
  -- are right, the set at `p` holds the configuration, what the new thread does before `main`
  -- reads it again leaves it that, and the socket text fits its array of 30 bytes: it ends
  -- without a fault, and returns 0 only after libmilter was given the configured address, port
  -- and timeout, was given the callbacks, and has run, in this order and each with success.
  pub serve-Serves :
      (s : State)
      → env.prints_null ≡ true
      → Counted s.mem [] [] []
      → config_at s.mem p ≡ some cfg
      → cfg.listenip ≡ some v
      → length listen_socket < oconn_length
      → Ends (Serves listen_socket cfg.miltertimeout) (serve env meanwhile p s)
  unfolding serve
  serve-Serves s prints c at listens short =
      let (a, (there, holds)) = set_with s.mem p cfg at in
      rw (there, holds)
        (Ends.feed-Ends _ (switch_log-Relogs env _ s) λ _ t logs.
          let same = Relogs-SameSets logs in
          let now : State = record t {
            trace = Event.logged t.mem.logfunc Message.success_read_config_file ∷ t.trace;
          } in
          let still : config_at now.mem p ≡ some cfg = rw same.sets at in
          Ends.feed-Ends _ (print_if env prints now.mem.debugmode now (SameSets-Counted same c))
            λ _ u m. blocked_then u (rw m still) listens short)
