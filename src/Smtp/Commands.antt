-- ===== src/Smtp/Commands.antt =====
-- What each send function of src/smtp.c puts on the wire.
use madai.Base.{
  suc, ◌+◌, ◌<◌, ℤ, pos, eq_ℤ, Option, none, some, [], ◌∷◌, ◌++◌, ◌≡◌, refl, ◌∙◌, sym, arith, Bytes,
  length, length-append, lt→ltb, if◌then◌else◌, Bool-cases, inl, inr,
}
use mathlib.Core.List.{append-nil}
use madai.Types.{Addr, Fd, ConfigData, ConfigSet, SessionData}
use madai.Sys.{Env, Memory, State, Cmd, ◌>>=◌, load_session}
use madai.Sys.Ends
use madai.Sys.Ends.{Ends, ends}
use madai.Sys.Wire.{sent, part, Delivers}
use madai.Smtp.{
  crlf, helo_line, from_line, rcpt_line, data_line, eom_line, host_len, config_of, helo_name,
  from_with, send_from, send_rcpt, send_header, send_eoh, send_body, send_eom, send_data,
}
use madai.Smtp.Compose.{
  Fits, Sound, pure-Delivers, Delivers-append, write_last-Delivers, write_then-Delivers,
  read_then-Delivers,
}
use madai.Smtp.Header.{to_crlf, header_loop-Delivers}

-- The session at `p` has socket `fd`, and its configuration set is allocated and holds `cfg`.
pub record Configured (m : Memory) (p : Addr) (fd : Fd) (cfg : ConfigData) : Type 0 where
  pub session : SessionData
  pub set_at : Addr
  pub cfg_set : ConfigSet
  pub live : m.sessions p ≡ some session
  pub points : session.config ≡ some set_at
  pub allocated : m.sets set_at ≡ some cfg_set
  pub holds : cfg_set.config ≡ some cfg
  pub on_socket : session.socket ≡ fd

module _ {p : Addr} {fd : Fd} {cfg : ConfigData} {s : State} (has : Configured s.mem p fd cfg) where
  -- Every send function begins by following the pointers to the socket and the configuration.
  pub configured-Ends :
      {P : ℤ → State → Type 0} (body : Fd → ConfigData → Cmd ℤ)
      → Ends P (body fd cfg s)
      → Ends P ((do session ← load_session p; c ← config_of session; body session.socket c) s)
  configured-Ends body e = rw (has.live, has.points, has.allocated, has.holds, has.on_socket) e

-- The name that HELO gives, where `configured` is `HeloDomain`: the kernel's if that is empty,
-- and none if the kernel has none to give.
abbrev pub host_for : Env → State → Bytes → Option Bytes
host_for env s [] =
    let (ret, name) = env.gethostname s.trace in if eq_ℤ ret (pos 0) then some name else none
host_for env s (c ∷ cs) = some (c ∷ cs)

abbrev pub greeting : Option Bytes → Bytes
greeting none = []
greeting (some host) = helo_line host ++ from_line

abbrev pub IsShort : Option Bytes → Type 0
IsShort none = Unit {0}
IsShort (some host) = length host < host_len

module _ (env : Env) where
  helo_name-Ends :
      (cfg : ConfigData) (fd : Fd) (configured : Bytes) (s : State)
      → IsShort (host_for env s configured)
      → Ends
          (λ r t.
            (r ≡ host_for env s configured)
            × (t.mem ≡ s.mem)
            × ((g : Fd) → sent g t.trace ≡ sent g s.trace))
          (helo_name env cfg configured s)
  unfolding helo_name
  helo_name-Ends cfg fd [] s short = elim (Bool-cases (eq_ℤ (env.gethostname s.trace).0 (pos 0))) [
    | inl found ↦
        let fits : length (env.gethostname s.trace).1 < 256 = rw found at short in
        rw (found, lt→ltb _ _ fits) (ends (refl, refl, λ g. refl))
    | inr missing ↦ rw missing (ends (refl, refl, λ g. refl))
  ]
  helo_name-Ends cfg fd (c ∷ cs) s short = rw (lt→ltb _ _ short) (ends (refl, refl, λ g. refl))

  from_with-Delivers :
      (sound : Sound env) (cfg : ConfigData) (fd : Fd) (host : Option Bytes)
      → IsShort host
      → (s : State) → Ends (Delivers fd (greeting host) s) (from_with env cfg fd host s)
  unfolding from_with
  from_with-Delivers sound cfg fd none short s = ends (record {
    same_mem = refl;
    outcome = part [] [] refl refl (sym (append-nil _));
    others = λ g apart. refl;
  })
  from_with-Delivers sound cfg fd (some host) short s =
      let enough = sound.enough in
      let text = helo_line host in
      let len : length text < 1024 = omega (arith, length-append host crlf) in
      rw (lt→ltb (length text) 1024 len) (
        write_then-Delivers env sound cfg fd text from_line _ s (omega arith, omega arith)
          λ t. read_then-Delivers env cfg fd from_line _ t λ u.
            write_last-Delivers env sound cfg fd from_line _ u (omega arith, omega arith)
              λ v. read_then-Delivers env cfg fd [] _ v (pure-Delivers fd))

module _ (env : Env) (sound : Sound env) {p : Addr} {fd : Fd} {cfg : ConfigData} {s : State}
    (has : Configured s.mem p fd cfg) where
  pub send_from-Delivers :
      (configured : Bytes)
      → cfg.helodomain ≡ some configured
      → IsShort (host_for env s configured)
      → Ends (Delivers fd (greeting (host_for env s configured)) s) (send_from env p s)
  unfolding send_from
  send_from-Delivers configured e short =
      let host = host_for env s configured in
      configured-Ends has _ (
        rw e (
          Ends.feed-Ends _ (helo_name-Ends env cfg fd configured s short) λ r t (name, m, w).
            rw name (
              Ends.weaken (from_with-Delivers env sound cfg fd host short t) λ a u d.
                Delivers-append fd [] (greeting host) m (w fd ∙ sym (append-nil _)) (λ g apart. w g)
                  d)))

  -- Over a kernel that keeps the laws of write(2) and with rounds enough, in a session with a
  -- configuration, where the recipient leaves room in the buffer for the command around it:
  -- `send_rcpt` ends; it returns 0 after it has sent `RCPT TO:`, the recipient and CRLF, or -1
  -- after a part of that. Nothing is sent on any other descriptor.
  pub send_rcpt-Delivers :
      (rcpt : Bytes)
      → length rcpt + 10 < 1024
      → Ends (Delivers fd (rcpt_line rcpt) s) (send_rcpt env p rcpt s)
  unfolding send_rcpt
  send_rcpt-Delivers rcpt short =
      let enough = sound.enough in
      let text = rcpt_line rcpt in
      let len : length text < 1024 = omega (arith, length-append rcpt crlf) in
      configured-Ends has _ (
        rw (lt→ltb (length text) 1024 len) (
          write_last-Delivers env sound cfg fd text _ s (omega arith, omega arith)
            λ t. read_then-Delivers env cfg fd [] _ t (pure-Delivers fd)))

  -- Over a kernel that keeps the laws of write(2) and with rounds enough, in a session with a
  -- configuration, and for a name and a value of fewer bytes than there are rounds and than 2^31:
  -- `send_header` ends; it returns 0 after it has sent the name, a colon, the value with each
  -- newline as CRLF, and CRLF, or -1 after a part of that.
  pub send_header-Delivers :
      (name value : Bytes)
      → Fits env name
      → Fits env value
      → Ends
          (Delivers fd (name ++ (b':' ∷ (to_crlf value ++ crlf))) s)
          (send_header env p name value s)
  unfolding send_header
  send_header-Delivers name value fits_name fits_value =
      let enough = sound.enough in
      configured-Ends has _ (
        write_then-Delivers env sound cfg fd name _ _ s fits_name λ t.
          write_then-Delivers env sound cfg fd (b':' ∷ []) _ _ t (omega arith, omega arith)
            (header_loop-Delivers env sound (suc (length value)) cfg fd value (omega arith)
              fits_value))

  pub send_eoh-Delivers : Ends (Delivers fd crlf s) (send_eoh env p s)
  unfolding send_eoh
  send_eoh-Delivers =
      let enough = sound.enough in
      configured-Ends has _ (
        write_last-Delivers env sound cfg fd crlf _ s (omega arith, omega arith) (pure-Delivers fd))

  -- `send_body` sends the chunk as it stands: no dot at the start of a line is doubled.
  pub send_body-Delivers :
      (body : Bytes) → Fits env body → Ends (Delivers fd body s) (send_body env p body s)
  unfolding send_body
  send_body-Delivers body fits =
      configured-Ends has _ (write_last-Delivers env sound cfg fd body _ s fits (pure-Delivers fd))

  -- A fixed line and the reply to it.
  pub send_eom-Delivers : Ends (Delivers fd eom_line s) (send_eom env p s)
  unfolding send_eom
  send_eom-Delivers =
      let enough = sound.enough in
      configured-Ends has _ (
        write_last-Delivers env sound cfg fd eom_line _ s (omega arith, omega arith)
          λ t. read_then-Delivers env cfg fd [] _ t (pure-Delivers fd))

  pub send_data-Delivers : Ends (Delivers fd data_line s) (send_data env p s)
  unfolding send_data
  send_data-Delivers =
      let enough = sound.enough in
      configured-Ends has _ (
        write_last-Delivers env sound cfg fd data_line _ s (omega arith, omega arith)
          λ t. read_then-Delivers env cfg fd [] _ t (pure-Delivers fd))
