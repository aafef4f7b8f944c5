-- ===== src/Milter/Socket.antt =====
-- The socket of a session when a mail begins: opened by the first mail, and kept for the next.
use madai.Base.{
  minus_one, is_neg, eq_ℤ, false, some, ◌∷◌, ◌≡◌, ◌⊎◌, inl, inr, List, refl, ap, ◌∙◌, if◌then◌else◌,
  Bytes, arith,
}
use madai.Types.{Addr, Fd, ConfigData}
use madai.Sys.{Env, State}
use madai.Sys.Ends
use madai.Sys.Ends.{Ends, ends}
use madai.Sys.Wire.{sent}
use madai.Smtp.Commands.{Configured}
use madai.Smtp.Start.{start_smtp, open_fds, FromKernel, start_smtp-Connects, start_smtp-reuse}

-- No socket, or one that the kernel gave.
abbrev pub IsSocket : Fd → Type 0
IsSocket fd = (fd ≡ minus_one) ⊎ (is_neg fd ≡ false)

-- The open descriptors, where a session has the socket `fd` and `base` are the others.
abbrev pub held_by : Fd → List Fd → List Fd
held_by fd base = if eq_ℤ fd minus_one then base else fd ∷ base

-- The socket `before` of a session becomes `r`, where the open descriptors were `o` and are `o'`.
abbrev pub Opens : Fd → Fd → List Fd → List Fd → Type 0
Opens before r o o' = ((r ≡ before) × (o' ≡ o)) ⊎ ((before ≡ minus_one) × (o' ≡ held_by r o))

-- What `start_smtp` returns in a session whose socket is `before`.
pub record Uses (env : Env) (before : Fd) (s : State) (r : Fd) (t : State) : Type 0 where
  pub same_mem : t.mem ≡ s.mem
  pub silent : (fd : Fd) → sent fd t.trace ≡ sent fd s.trace
  pub usable : IsSocket r
  pub reused : is_neg before ≡ false → r ≡ before
  pub kernel : before ≡ minus_one → FromKernel env s.trace r
  pub opens : Opens before r (open_fds s.trace) (open_fds t.trace)
  pub fds :
      (base : List Fd) → open_fds s.trace ≡ held_by before base → open_fds t.trace ≡ held_by r base

usable_of :
    (r : Fd) (s t : State)
    → ((r ≡ minus_one) × (open_fds t.trace ≡ open_fds s.trace))
      ⊎ ((is_neg r ≡ false) × (open_fds t.trace ≡ r ∷ open_fds s.trace))
    → IsSocket r
usable_of r s t (inl (failed, _)) = inl failed
usable_of r s t (inr (nonneg, _)) = inr nonneg

fds_of :
    (r : Fd) (s t : State) (base : List Fd)
    → ((r ≡ minus_one) × (open_fds t.trace ≡ open_fds s.trace))
      ⊎ ((is_neg r ≡ false) × (open_fds t.trace ≡ r ∷ open_fds s.trace))
    → open_fds s.trace ≡ base
    → open_fds t.trace ≡ held_by r base
fds_of r s t base (inl (failed, same)) e = rw failed (same ∙ e)
fds_of r s t base (inr (nonneg, new)) e =
    let set : eq_ℤ r minus_one ≡ false = ground arith in rw set (new ∙ ap (λ fds. r ∷ fds) e)

-- A session with no socket opens one, and a session with a socket keeps it.
pub start_smtp-Uses :
    (env : Env) {p : Addr} {before : Fd} {cfg : ConfigData} {s : State}
    → Configured s.mem p before cfg
    → (ip : Bytes) → IsSocket before
    → cfg.copyserverip ≡ some ip
    → Ends (Uses env before s) (start_smtp env p s)
start_smtp-Uses env {s} has ip (inl none_yet) addr =
    Ends.weaken (start_smtp-Connects env has ip none_yet addr) λ r t c. record {
      same_mem = c.same_mem;
      silent = c.silent;
      usable = usable_of r s t c.tidy;
      reused = λ e. cc;
      kernel = λ e. c.kernel;
      opens = inr (none_yet, fds_of r s t (open_fds s.trace) c.tidy refl);
      fds = λ base e. fds_of r s t base c.tidy (rw none_yet at e);
    }
start_smtp-Uses env {before} {s} has ip (inr nonneg) addr =
    let opened : eq_ℤ before minus_one ≡ false = ground arith in
    rw (start_smtp-reuse env {s = s} has opened) (
      ends (record {
        same_mem = refl;
        silent = λ fd. refl;
        usable = inr nonneg;
        reused = λ e. refl;
        kernel = λ e. cc;
        opens = inl (refl, refl);
        fds = λ base e. e;
      }))
