-- ===== src/Daemon/Frames.antt =====
-- One event of the daemon: the descriptors that it leaves alone on the wire.
use madai.Base.{
  ◌≤◌, ◌<◌, arith, some, List, ◌≡◌, refl, false, minus_one, is_neg, eq_ℤ, Bool-cases, inl, inr,
}
use madai.Types.{Addr, Fd}
use madai.Sys.{Env, State}
use madai.Sys.Wire.{sent}
use madai.Smtp.Start.{open_fds, erase_fd, FromKernel}
use madai.Milter.{Callback}
use madai.Milter.Socket.{IsSocket, Opens}
use madai.Daemon.{DaemonEvent, called}
use madai.Daemon.Sockets.{count_fd, FreshSockets, Single, erase_fd-fewer, Opens-count_fd}
use madai.Daemon.Table.{Link, link_of}

-- Descriptor `g` is not the socket of the connection that the event is for.
abbrev pub Apart : Fd → DaemonEvent → List Link → Type 0
Apart g e ls =
    (c : Addr) (cb : Callback) (l : Link)
    → e ≡ called c cb
    → link_of c ls ≡ some l
    → eq_ℤ g l.socket ≡ false

-- The event leaves the descriptors single, and sends nothing on the open ones that are not the socket
-- of its connection.
pub record Frames (ls : List Link) (e : DaemonEvent) (s t : State) : Type 0 where
  pub single : Single s → Single t
  pub others :
      (g : Fd) → 0 < count_fd g (open_fds s.trace) → Apart g e ls → sent g t.trace ≡ sent g s.trace

module _ (ls : List Link) (e : DaemonEvent) (s t : State) where
  -- An event that sends nothing and opens nothing.
  pub fewer-Frames :
      ((g : Fd) → count_fd g (open_fds t.trace) ≤ count_fd g (open_fds s.trace))
      → ((g : Fd) → sent g t.trace ≡ sent g s.trace)
      → Frames ls e s t
  fewer-Frames fewer silent = record {
    single = λ one g. omega (arith, fewer g, one g);
    others = λ g held apart. silent g;
  }

  pub silent-Frames :
      open_fds t.trace ≡ open_fds s.trace
      → ((g : Fd) → sent g t.trace ≡ sent g s.trace)
      → Frames ls e s t
  silent-Frames fds silent = fewer-Frames (λ g. rw fds (omega arith)) silent

  pub erasing-Frames :
      (fd : Fd)
      → open_fds t.trace ≡ erase_fd fd (open_fds s.trace)
      → ((g : Fd) → sent g t.trace ≡ sent g s.trace)
      → Frames ls e s t
  erasing-Frames fd fds silent =
      fewer-Frames (λ g. rw fds (erase_fd-fewer g fd (open_fds s.trace))) silent

module _ (env : Env) (fresh : FreshSockets env) where
  -- Where a session had no socket, the kernel gave it a new one, or it has none.
  pub opening-Single :
      (before r : Fd) (s t : State)
      → (before ≡ minus_one → FromKernel env s.trace r)
      → Opens before r (open_fds s.trace) (open_fds t.trace)
      → Single s
      → Single t
  opening-Single before r s t kernel (inl (kept, same)) one = λ g. rw same (one g)
  opening-Single before r s t kernel (inr (none_yet, new)) one = λ g.
      let gained =
        Opens-count_fd g minus_one r (open_fds s.trace) (open_fds t.trace) (inr (refl, new)) in
      elim (kernel none_yet) [
        | inl failed ↦
            let same : count_fd g (open_fds t.trace) ≡ count_fd g (open_fds s.trace) =
              ground (arith, gained, failed) in
            omega (arith, same, one g)
        | inr (nonneg, given) ↦
            let unused : count_fd r (open_fds s.trace) ≡ 0 =
              rw given (fresh s.trace (rw given at nonneg)) in
            elim (Bool-cases (eq_ℤ g r)) [
              | inl this ↦
                  let same : g ≡ r = ground arith in
                  let none_open : count_fd g (open_fds s.trace) ≡ 0 = rw same unused in
                  ground (arith, gained, none_open)
              | inr other ↦ ground (arith, gained, one g)
            ]
      ]

  -- The descriptor that a greeting is sent on is no open one, but for the socket of the session.
  pub greeting_apart :
      (g before fd : Fd) (s : State)
      → (is_neg before ≡ false → fd ≡ before)
      → (before ≡ minus_one → FromKernel env s.trace fd)
      → IsSocket before
      → 0 < count_fd g (open_fds s.trace)
      → eq_ℤ g before ≡ false
      → eq_ℤ g fd ≡ false
  greeting_apart g before fd s reused kernel (inr nonneg) held apart = rw (reused nonneg) apart
  greeting_apart g before fd s reused kernel (inl none_yet) held apart = elim (kernel none_yet) [
    | inl failed ↦ rw failed (rw none_yet at apart)
    | inr (nonneg, given) ↦ elim (Bool-cases (eq_ℤ g fd)) [
      | inr other ↦ other
      | inl this ↦
          let same : g ≡ fd = ground arith in
          let unused : count_fd fd (open_fds s.trace) ≡ 0 =
            rw given (fresh s.trace (rw given at nonneg)) in
          absurd (let in_use = rw same at held in omega arith)
    ]
  ]
