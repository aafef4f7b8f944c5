-- ===== src/Daemon/Sockets.antt =====
-- The sockets of the connections that are open, and how often a descriptor is among them.
use madai.Base.{
  ℕ, ◌+◌, ◌-◌, ◌≤◌, List, [], ◌∷◌, some, ◌≡◌, ◌∙◌, refl, arith, minus_one, is_neg, false, eq_ℤ,
  eq_ℤ_refl, ◌==◌, Bool-cases, inl, inr, if◌then◌else◌,
}
use madai.Types.{Addr, Fd}
use madai.Sys.{Trace, Env, State}
use madai.Smtp.Start.{erase_fd, open_fds}
use madai.Milter.Socket.{held_by, Opens}
use madai.Daemon.Table.{Link, IsDistinct, link_of, without, with_fd, link_of-without}

abbrev pub count_fd : Fd → List Fd → ℕ
count_fd g [] = 0
count_fd g (fd ∷ fds) = (if eq_ℤ g fd then 1 else 0) + count_fd g fds

-- A new descriptor is none of those that are open.
abbrev pub FreshSockets : Env → Type 0
FreshSockets env =
    (t : Trace) → is_neg (env.socket t) ≡ false → count_fd (env.socket t) (open_fds t) ≡ 0

-- No descriptor is open twice.
abbrev pub Single : State → Type 0
Single s = (g : Fd) → count_fd g (open_fds s.trace) ≤ 1

abbrev pub sockets_of : List Link → List Fd
sockets_of [] = []
sockets_of (l ∷ ls) = held_by l.socket (sockets_of ls)

-- Whether the socket `fd` of a session is the descriptor `g`.
abbrev pub is_socket : Fd → Fd → ℕ
is_socket g fd = if eq_ℤ fd minus_one then 0 else if eq_ℤ g fd then 1 else 0

pub count_fd-held_by :
    (g fd : Fd) (fds : List Fd) → count_fd g (held_by fd fds) ≡ is_socket g fd + count_fd g fds
count_fd-held_by g fd fds = elim (Bool-cases (eq_ℤ fd minus_one)) [
  | inl unset ↦ rw unset (omega arith)
  | inr set ↦ rw set refl
]

pub count_fd-erase_fd :
    (g fd : Fd) (fds : List Fd)
    → count_fd g (erase_fd fd fds) ≡ (if eq_ℤ g fd then count_fd g fds - 1 else count_fd g fds)
count_fd-erase_fd g fd [] = ground arith
count_fd-erase_fd g fd (h ∷ fds) = ground (arith, count_fd-erase_fd g fd fds)

pub sockets_of-without :
    (c : Addr) (g : Fd) (l : Link) (ls : List Link)
    → link_of c ls ≡ some l
    → is_socket g l.socket + count_fd g (sockets_of (without c ls)) ≡ count_fd g (sockets_of ls)
sockets_of-without c g l [] e = cc
sockets_of-without c g l (k ∷ ls) e = ground (
  arith,
  sockets_of-without c g l ls,
  count_fd-held_by g k.socket (sockets_of ls),
  count_fd-held_by g k.socket (sockets_of (without c ls)),
)

pub sockets_of-with_fd :
    (c : Addr) (g fd : Fd) (l : Link) (ls : List Link)
    → link_of c ls ≡ some l
    → is_socket g l.socket + count_fd g (sockets_of (with_fd c fd ls))
      ≡ is_socket g fd + count_fd g (sockets_of ls)
sockets_of-with_fd c g fd l [] e = cc
sockets_of-with_fd c g fd l (k ∷ ls) e = ground (
  arith,
  sockets_of-with_fd c g fd l ls,
  count_fd-held_by g k.socket (sockets_of ls),
  count_fd-held_by g fd (sockets_of ls),
  count_fd-held_by g k.socket (sockets_of (with_fd c fd ls)),
)

pub erase_fd-fewer : (g fd : Fd) (fds : List Fd) → count_fd g (erase_fd fd fds) ≤ count_fd g fds
erase_fd-fewer g fd fds = ground (arith, count_fd-erase_fd g fd fds)

-- The sockets of two connections.
pub count_fd-both :
    (c d : Addr) (g : Fd) (bound : Addr) (l k : Link) (ls : List Link)
    → IsDistinct bound ls
    → link_of c ls ≡ some l
    → link_of d ls ≡ some k
    → (d == c) ≡ false
    → is_socket g l.socket + is_socket g k.socket ≤ count_fd g (sockets_of ls)
count_fd-both c d g bound l k ls distinct e f other =
    let left : link_of d (without c ls) ≡ some k =
      rw (link_of-without c d bound ls distinct, other) f in
    omega (arith, sockets_of-without c g l ls e, sockets_of-without d g k (without c ls) left)

-- A socket is open, and no other connection has it.
pub apart_sockets :
    (c d : Addr) (bound : Addr) (l k : Link) (ls : List Link)
    → IsDistinct bound ls
    → link_of c ls ≡ some l
    → link_of d ls ≡ some k
    → (d == c) ≡ false
    → is_neg l.socket ≡ false
    → count_fd l.socket (sockets_of ls) ≤ 1
    → eq_ℤ l.socket k.socket ≡ false
apart_sockets c d bound l k ls distinct e f other nonneg one =
    elim (Bool-cases (eq_ℤ l.socket k.socket)) [
      | inr apart ↦ apart
      | inl shared ↦
          let same : k.socket ≡ l.socket = ground arith in
          let set : is_socket l.socket l.socket ≡ 1 = ground (arith, eq_ℤ_refl l.socket) in
          let again : is_socket l.socket k.socket ≡ 1 = rw same set in
          absurd (
            let both = count_fd-both c d l.socket bound l k ls distinct e f other in
            omega (arith, both, set, again, one))
    ]

-- A list in which no descriptor is found is empty.
pub count_fd-none : (fds : List Fd) → ((g : Fd) → count_fd g fds ≡ 0) → fds ≡ []
count_fd-none [] none_in = refl
count_fd-none (fd ∷ fds) none_in = absurd (ground (arith, none_in fd, eq_ℤ_refl fd))

-- The end of a session closes its socket.
pub closing-count_fd :
    (g fd : Fd) (before after : List Fd)
    → after ≡ (if eq_ℤ fd minus_one then before else erase_fd fd before)
    → is_socket g fd ≤ count_fd g before
    → is_socket g fd + count_fd g after ≡ count_fd g before
closing-count_fd g fd before after e le = ground (arith, count_fd-erase_fd g fd before)

-- A mail that is given up closes the socket, and leaves none.
pub erasing-count_fd :
    (g fd : Fd) (before after : List Fd)
    → after ≡ erase_fd fd before
    → erase_fd minus_one before ≡ before
    → is_socket g fd ≤ count_fd g before
    → is_socket g fd + count_fd g after ≡ is_socket g minus_one + count_fd g before
erasing-count_fd g fd before after e clean le = elim (Bool-cases (eq_ℤ fd minus_one)) [
  | inl unset ↦
      let is_none : fd ≡ minus_one = ground arith in
      let same : after ≡ before = e ∙ (rw is_none clean) in rw (same, unset) refl
  | inr set ↦ ground (arith, count_fd-erase_fd g fd before)
]

-- MAIL FROM keeps the socket of a session or opens one.
pub Opens-count_fd :
    (g before r : Fd) (o o' : List Fd)
    → Opens before r o o'
    → is_socket g before + count_fd g o' ≡ is_socket g r + count_fd g o
Opens-count_fd g before r o o' (inl (kept, same)) = rw (kept, same) refl
Opens-count_fd g before r o o' (inr (none_yet, new)) =
    rw (none_yet, new) (omega (arith, count_fd-held_by g r o))
