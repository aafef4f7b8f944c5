-- ===== src/Sys/Wire.antt =====
-- What the peer of a socket has been sent, as the trace shows it, and the laws of write(2) that
-- the program relies on.
use mathlib.Core.List.{append_assoc}
use madai.Base.{
  sym, ap, ◌∙◌, ◌≤◌, ℤ, pos, minus_one, pos_part, eq_ℤ, false, [], ◌∷◌, ◌++◌, ◌≡◌, ◌≢◌, take,
  length, Bytes, if◌then◌else◌,
}
use madai.Types.{Fd}
use madai.Sys.{Event, Trace, Env, State}

-- The bytes that the kernel has taken for descriptor `fd`, in order.
abbrev pub sent : Fd → Trace → Bytes
sent fd [] = []
sent fd (Event.wrote g buf r ∷ t) =
    if eq_ℤ fd g then sent fd t ++ take (pos_part r) buf else sent fd t
sent fd (_ ∷ t) = sent fd t

-- write(2) takes no more than it is offered, and on a blocking socket takes something or fails.
pub record WriteLaws (env : Env) : Type 0 where
  pub bounded : (t : Trace) (fd : Fd) (buf : Bytes) → pos_part (env.write t fd buf) ≤ length buf
  pub progress : (t : Trace) (fd : Fd) (buf : Bytes) → buf ≢ [] → env.write t fd buf ≢ pos 0

-- How a send of `bytes` ends: with 0 when the peer has all of it, with -1 when it has a part.
pub data Outcome (bytes before after : Bytes) (r : ℤ) : Type 0 where
  whole : r ≡ pos 0 → after ≡ before ++ bytes → Outcome bytes before after r
  part :
      (sent_part unsent : Bytes)
      → r ≡ minus_one
      → bytes ≡ sent_part ++ unsent
      → after ≡ before ++ sent_part
      → Outcome bytes before after r

-- From state `s` the command sends `bytes` on `fd`, nothing on any other descriptor, and touches no
-- memory.
pub record Delivers (fd : Fd) (bytes : Bytes) (s : State) (r : ℤ) (t : State) : Type 0 where
  pub same_mem : t.mem ≡ s.mem
  pub outcome : Outcome bytes (sent fd s.trace) (sent fd t.trace) r
  pub others : (g : Fd) → eq_ℤ g fd ≡ false → sent g t.trace ≡ sent g s.trace

-- A send of `a` that was taken whole, and then one of `b`.
pub Outcome-append :
    (a b : Bytes) {before mid after : Bytes} {r : ℤ}
    → mid ≡ before ++ a
    → Outcome b mid after r
    → Outcome (a ++ b) before after r
Outcome-append a b {before} m (whole e x) = whole e (x ∙ rw m (append_assoc before a b))
Outcome-append a b {before} m (part p u e y x) =
    part (a ++ p) u e (ap (◌++◌ a) y ∙ sym (append_assoc a p u))
      (x ∙ rw m (append_assoc before a p))
