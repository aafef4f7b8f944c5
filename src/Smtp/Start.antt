-- ===== src/Smtp/Start.antt =====
-- `start_smtp` of src/smtp.c: the connection to the copy server, opened once per session.
use madai.Base.{
  ℤ, pos, minus_one, is_neg, eq_ℤ, to_uint16, eq_ℤ_refl, false, some, List, [], ◌∷◌, ◌≡◌, ◌⊎◌, inl,
  inr, refl, Bytes, if◌then◌else◌, Bool-cases,
}
use madai.Types.{Addr, Fd, ConfigData, Message}
use madai.Sys.{
  Event, Trace, Env, State, ok, Cmd, pure, ◌>>=◌, ◌>>◌, deref, emit, ask, log, load_session,
}
use madai.Sys.Ends.{Ends, ends, deref-Ends}
use madai.Sys.Wire.{sent}
use madai.Smtp.{config_of, read_msg, read_failed}
use madai.Smtp.Commands.{Configured, configured-Ends}

module _ (env : Env) where
  -- The greeting of the server, on a new connection.
  await_greeting : ConfigData → Fd → Cmd ℤ
  await_greeting cfg new_sockfd = do
    ret ← read_msg env new_sockfd
    if is_neg ret
        then (do log (read_failed cfg); emit (Event.closed new_sockfd); pure minus_one)
        else pure new_sockfd

  connect_to : ConfigData → Bytes → Fd → Cmd ℤ
  unfolding await_greeting
  connect_to cfg ip new_sockfd = do
    let addr = env.inet_addr ip
    let port = env.htons (to_uint16 cfg.copyport)
    emit (Event.set_rcvtimeo new_sockfd cfg.copymailtimeout)
    emit (Event.set_sndtimeo new_sockfd cfg.copymailtimeout)
    ret ← ask (λ t. env.connect t new_sockfd addr port) (Event.connected new_sockfd addr port)
    if eq_ℤ ret (pos 0)
        then await_greeting cfg new_sockfd
        else (do log Message.err_connect_socket; emit (Event.closed new_sockfd); pure minus_one)

  open_socket : ConfigData → Cmd ℤ
  unfolding connect_to
  open_socket cfg = do
    new_sockfd ← ask env.socket Event.opened
    if is_neg new_sockfd
        then (do log Message.err_create_socket; pure minus_one)
        else (do ip ← deref cfg.copyserverip; connect_to cfg ip new_sockfd)

  unfoldable pub start_smtp : Addr → Cmd ℤ
  unfolding open_socket
  start_smtp p = do
    session ← load_session p
    cfg ← config_of session
    if eq_ℤ session.socket minus_one then open_socket cfg else pure session.socket

-- The list less the first `fd` in it.
abbrev pub erase_fd : Fd → List Fd → List Fd
erase_fd fd [] = []
erase_fd fd (g ∷ gs) = if eq_ℤ fd g then gs else g ∷ erase_fd fd gs

-- The descriptors that were opened and not closed, newest first.
abbrev pub open_fds : Trace → List Fd
open_fds [] = []
open_fds (Event.opened fd ∷ t) = if is_neg fd then open_fds t else fd ∷ open_fds t
open_fds (Event.closed fd ∷ t) = erase_fd fd (open_fds t)
open_fds (_ ∷ t) = open_fds t

-- Descriptor `r` is none, or the one that the kernel gives after `t`.
abbrev pub FromKernel : Env → Trace → Fd → Type 0
FromKernel env t r = (r ≡ minus_one) ⊎ ((is_neg r ≡ false) × (r ≡ env.socket t))

-- A connection attempt from `s` that ends with result `r` in `t`: no memory changes and nothing
-- is sent, and either it failed and left no descriptor behind, or `r` is the one new descriptor,
-- which the kernel gave.
pub record Connects (env : Env) (s : State) (r : ℤ) (t : State) : Type 0 where
  pub same_mem : t.mem ≡ s.mem
  pub silent : (fd : Fd) → sent fd t.trace ≡ sent fd s.trace
  pub tidy :
      ((r ≡ minus_one) × (open_fds t.trace ≡ open_fds s.trace))
      ⊎ ((is_neg r ≡ false) × (open_fds t.trace ≡ r ∷ open_fds s.trace))
  pub kernel : FromKernel env s.trace r

module _ (env : Env) where
  await_greeting-Connects :
      (cfg : ConfigData) (fd : Fd) (s t : State)
      → is_neg fd ≡ false
      → fd ≡ env.socket s.trace
      → t.mem ≡ s.mem
      → ((g : Fd) → sent g t.trace ≡ sent g s.trace)
      → open_fds t.trace ≡ fd ∷ open_fds s.trace
      → Ends (Connects env s) (await_greeting env cfg fd t)
  unfolding await_greeting read_msg
  await_greeting-Connects cfg fd s t nonneg k m w o =
      elim (Bool-cases (eq_ℤ (env.read t.trace fd 1024) minus_one)) [
        | inl bad ↦ rw bad (
            ends (record {
              same_mem = m;
              silent = w;
              tidy = inl (refl, rw (o, eq_ℤ_refl fd));
              kernel = inl refl;
            }))
        | inr good ↦ rw good (
            ends (record {
              same_mem = m;
              silent = w;
              tidy = inr (nonneg, o);
              kernel = inr (nonneg, k);
            }))
      ]

  connect_to-Connects :
      (cfg : ConfigData) (ip : Bytes) (fd : Fd) (s t : State)
      → is_neg fd ≡ false
      → fd ≡ env.socket s.trace
      → t.mem ≡ s.mem
      → ((g : Fd) → sent g t.trace ≡ sent g s.trace)
      → open_fds t.trace ≡ fd ∷ open_fds s.trace
      → Ends (Connects env s) (connect_to env cfg ip fd t)
  unfolding connect_to
  connect_to-Connects cfg ip fd s t nonneg k m w o =
      let port = env.htons (to_uint16 cfg.copyport) in
      let limited =
        Event.set_sndtimeo fd cfg.copymailtimeout
        ∷ Event.set_rcvtimeo fd cfg.copymailtimeout
        ∷ t.trace in
      let ret = env.connect limited fd (env.inet_addr ip) port in
      let u = record t { trace = Event.connected fd (env.inet_addr ip) port ret ∷ limited } in
      elim (Bool-cases (eq_ℤ ret (pos 0))) [
        | inl good ↦ rw good (await_greeting-Connects cfg fd s u nonneg k m w o)
        | inr bad ↦ rw bad (
            ends (record {
              same_mem = m;
              silent = w;
              tidy = inl (refl, rw (o, eq_ℤ_refl fd));
              kernel = inl refl;
            }))
      ]

  open_socket-Connects :
      (cfg : ConfigData) (ip : Bytes) (s : State)
      → cfg.copyserverip ≡ some ip
      → Ends (Connects env s) (open_socket env cfg s)
  unfolding open_socket
  open_socket-Connects cfg ip s e =
      let fd = env.socket s.trace in
      elim (Bool-cases (is_neg fd)) [
        | inl bad ↦ rw bad (
            ends (record {
              same_mem = refl;
              silent = λ g. refl;
              tidy = inl (refl, rw bad);
              kernel = inl refl;
            }))
        | inr good ↦ rw good (
            deref-Ends e (λ a. connect_to env cfg a fd)
              (connect_to-Connects cfg ip fd s (record s { trace = Event.opened fd ∷ s.trace }) good
                refl refl (λ g. refl) (rw good)))
      ]

  module _ {p : Addr} {fd : Fd} {cfg : ConfigData} {s : State}
      (has : Configured s.mem p fd cfg) where
    -- `start_smtp` in a session with no socket and an address to connect to ends; it sends
    -- nothing and changes no memory, and it returns -1 with no new descriptor left open or
    -- a descriptor that is the one left open, and which the kernel gave for the state before.
    pub start_smtp-Connects :
        (ip : Bytes)
        → fd ≡ minus_one
        → cfg.copyserverip ≡ some ip
        → Ends (Connects env s) (start_smtp env p s)
    unfolding start_smtp
    start_smtp-Connects ip closed e =
        configured-Ends has (λ g c. if eq_ℤ g minus_one then open_socket env c else pure g)
          (rw closed (open_socket-Connects cfg ip s e))

    -- A session that has a socket keeps it.
    pub start_smtp-reuse : eq_ℤ fd minus_one ≡ false → start_smtp env p s ≡ ok fd s
    unfolding start_smtp
    start_smtp-reuse open_already =
        rw (has.live, has.points, has.allocated, has.holds, has.on_socket, open_already)
