-- ===== src/Milter/Greeting.antt =====
-- MAIL FROM: the callback that opens the connection to the copy server and greets it.
use madai.Base.{
  ℤ, pos, minus_one, is_neg, eq_ℤ, false, some, [], ◌∷◌, ◌++◌, ◌≡◌, ◌≢◌, refl, sym, ap, ◌∙◌, Bytes,
  arith, Bool-cases, inl, inr,
}
use mathlib.Core.List.{append-nil}
use madai.Types.{Addr, Fd, ConfigData, Sfsistat}
use madai.Sys.{Env, State}
use madai.Sys.Ends
use madai.Sys.Ends.{Ends, ends, deref-Ends}
use madai.Sys.Wire.{sent, Outcome, whole, part, Delivers}
use madai.Smtp.{helo_line, from_line, send_from}
use madai.Smtp.Compose.{Sound}
use madai.Smtp.Start.{FromKernel}
use madai.Milter.Socket.{IsSocket, start_smtp-Uses}
use madai.Smtp.Commands.{Configured, IsShort, greeting, host_for, send_from-Delivers}
use madai.Milter.{answer, mdfi_envfrom, after_from, greet_session}
use madai.Milter.Stays.{
  Stays, with_socket, Configured-with_socket, Configured-set_priv, Stays-set_priv,
  Stays-with_socket,
}

-- HELO with the configured name, and the empty sender.
abbrev pub hello : Bytes → Bytes
hello name = helo_line name ++ from_line

-- `mdfi_envfrom` from `s`: `fd` is the socket it used, `bytes` is the greeting, and on
-- SMFIS_CONTINUE the session of `ctx` is connected by it. Where there was no socket, the kernel was
-- asked for one. Nothing is sent on any other descriptor.
pub record Greets (env : Env) (ctx p : Addr) (cfg : ConfigData) (name : Bytes) (q : Addr)
    (before : Fd) (s : State) (stat : Sfsistat) (t : State) : Type 0 where
  pub fd : Fd
  pub reused : is_neg before ≡ false → fd ≡ before
  pub kernel : before ≡ minus_one → FromKernel env s.trace fd
  pub code : ℤ
  pub stat_is : stat ≡ answer code
  pub bytes : Bytes
  pub configured : name ≢ [] → bytes ≡ hello name
  pub outcome : Outcome bytes (sent fd s.trace) (sent fd t.trace) code
  pub others : (g : Fd) → eq_ℤ g fd ≡ false → sent g t.trace ≡ sent g s.trace
  pub stays : Stays ctx p cfg q s.mem t.mem
  pub ready : code ≡ pos 0 → (t.mem.privs ctx ≡ some p) × Configured t.mem p fd cfg

pub host_for-named :
    (env : Env) (s : State) (name : Bytes) → name ≢ [] → host_for env s name ≡ some name
host_for-named env s [] ne = absurd (ne refl)
host_for-named env s (c ∷ cs) ne = refl

module _ (env : Env) (sound : Sound env) (ctx p : Addr) (cfg : ConfigData) (name : Bytes) where
  -- Once the name is sent, the private data is set again.
  greet_session-Greets :
      (q : Addr) (s t : State) (before r : Fd)
      → (is_neg before ≡ false → r ≡ before)
      → (before ≡ minus_one → FromKernel env s.trace r)
      → Stays ctx p cfg q s.mem t.mem
      → is_neg r ≡ false
      → ((g : Fd) → sent g t.trace ≡ sent g s.trace)
      → t.mem.privs ctx ≡ some p
      → Configured t.mem p r cfg
      → (bytes : Bytes) → (name ≢ [] → bytes ≡ hello name)
      → Ends (Delivers r bytes t) (send_from env p t)
      → Ends (Greets env ctx p cfg name q before s) (greet_session env ctx p r t)
  unfolding greet_session
  greet_session-Greets q s t before r reused kernel stays nonneg silent priv has bytes configured
        e =
      let fresh : eq_ℤ r minus_one ≡ false = ground arith in
      rw fresh (Ends.feed-Ends _ e λ code u d. greeted code u d.same_mem d.others d.outcome)
    where
      greeted :
          (code : ℤ) (u : State)
          → u.mem ≡ t.mem
          → ((g : Fd) → eq_ℤ g r ≡ false → sent g u.trace ≡ sent g t.trace)
          → Outcome bytes (sent r t.trace) (sent r u.trace) code
          → Ends (Greets env ctx p cfg name q before s) (after_from env ctx p code u)
      greeted code u m apart (whole z x) =
          let done = env.setpriv u.trace ctx (some p) in
          let all : sent r u.trace ≡ sent r s.trace ++ bytes = rw (silent r) at x in
          rw z (elim (Bool-cases done) [
            | inl set ↦ rw set (
                ends (record {
                  fd = r;
                  reused = reused;
                  kernel = kernel;
                  others = λ g other. apart g other ∙ silent g;
                  code = pos 0;
                  stat_is = refl;
                  bytes = bytes;
                  configured = configured;
                  outcome = whole refl all;
                  stays = Stays-set_priv ctx (rw m stays);
                  ready = λ _. Configured-set_priv ctx (rw m has);
                }))
            | inr refused ↦ rw refused (
                ends (record {
                  fd = r;
                  reused = reused;
                  kernel = kernel;
                  others = λ g other. apart g other ∙ silent g;
                  code = minus_one;
                  stat_is = refl;
                  bytes = bytes;
                  configured = configured;
                  outcome = part bytes [] refl (sym (append-nil _)) all;
                  stays = rw m stays;
                  ready = λ e'. cc;
                }))
          ])
      greeted code u m apart (part now later z y x) = rw z (
          ends (record {
            fd = r;
            reused = reused;
            kernel = kernel;
            others = λ g other. apart g other ∙ silent g;
            code = minus_one;
            stat_is = refl;
            bytes = bytes;
            configured = configured;
            outcome = part now later refl y (rw (silent r) at x);
            stays = rw m stays;
            ready = λ e'. cc;
          }))

  greet_session-no_socket :
      (q : Addr) (s t : State) (before : Fd)
      → (is_neg before ≡ false → minus_one ≡ before)
      → Stays ctx p cfg q s.mem t.mem
      → ((g : Fd) → sent g t.trace ≡ sent g s.trace)
      → Ends (Greets env ctx p cfg name q before s) (greet_session env ctx p minus_one t)
  unfolding greet_session
  greet_session-no_socket q s t before reused stays silent = ends (record {
    fd = minus_one;
    reused = reused;
    kernel = λ e. inl refl;
    others = λ g other. silent g;
    code = minus_one;
    stat_is = refl;
    bytes = hello name;
    configured = λ ne. refl;
    outcome = part [] (hello name) refl refl (silent minus_one ∙ sym (append-nil _));
    stays = stays;
    ready = λ e. cc;
  })

  pub mdfi_envfrom-Greets :
      (ip : Bytes) (s : State) (before : Fd)
      → ((u : State) → IsShort (host_for env u name))
      → cfg.helodomain ≡ some name
      → cfg.copyserverip ≡ some ip
      → s.mem.privs ctx ≡ some p
      → IsSocket before
      → (has : Configured s.mem p before cfg)
      → Ends (Greets env ctx p cfg name has.set_at before s) (mdfi_envfrom env ctx s)
  unfolding mdfi_envfrom
  mdfi_envfrom-Greets ip s before short helo addr priv socket has = rw priv (
      Ends.feed-Ends _ (start_smtp-Uses env has ip socket addr) λ r t u.
        rw (u.same_mem, has.live, has.live)
          (socket_stored r (record { mem = with_socket s.mem p has.session r; trace = t.trace })
            (Stays-with_socket has r u.usable priv) u.silent u.usable u.reused u.kernel priv
            (Configured-with_socket has r)))
    where
      socket_stored :
          (r : Fd) (u : State)
          → Stays ctx p cfg has.set_at s.mem u.mem
          → ((fd : Fd) → sent fd u.trace ≡ sent fd s.trace)
          → IsSocket r
          → (is_neg before ≡ false → r ≡ before)
          → (before ≡ minus_one → FromKernel env s.trace r)
          → u.mem.privs ctx ≡ some p
          → Configured u.mem p r cfg
          → Ends (Greets env ctx p cfg name has.set_at before s) (greet_session env ctx p r u)
      socket_stored r u stays silent (inl failed) reused kernel priv' has' =
          rw failed
            (greet_session-no_socket has.set_at s u before (rw failed at reused) stays silent)
      socket_stored r u stays silent (inr nonneg) reused kernel priv' has' =
          greet_session-Greets has.set_at s u before r reused kernel stays nonneg silent priv' has'
            (greeting (host_for env u name)) (λ ne. ap greeting (host_for-named env u name ne))
            (send_from-Delivers env sound {s = u} has' name helo (short u))
