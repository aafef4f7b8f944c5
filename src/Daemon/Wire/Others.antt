-- ===== src/Daemon/Wire/Others.antt =====
-- A connection over the events that are not its own: its link and its socket.
use madai.Base.{
  ◌∙◌, ◌≤◌, ◌<◌, arith, some, List, ◌≡◌, ◌≢◌, ap, false, is_neg, eq_ℤ_refl, ◌==◌, Bool-cases,
  Option-cases, inl, inr,
}
use madai.Types.{Addr}
use madai.Sys.{Env, State}
use madai.Sys.Wire.{sent}
use madai.Smtp.Start.{open_fds}
use madai.Milter.{Callback, connect, close}
use madai.Daemon.{DaemonEvent, called}
use madai.Daemon.Sockets.{
  count_fd, is_socket, Single, sockets_of, sockets_of-without, apart_sockets,
}
use madai.Daemon.Table.{Link, link_of, link_of-without, link_of-with_fd, with_fd-none, IsDistinct}
use madai.Daemon.Serving.{Serving}
use madai.Daemon.Contract.{Turn}
use madai.Daemon.Order.{Turn-cases}
use madai.Daemon.Frames.{Frames}

-- An event of another connection leaves the link of `c`, its socket too.
pub other_link :
    (s : State) (e : DaemonEvent) (c bound : Addr) (l : Link) (ls ms : List Link)
    → Turn s e ls ms
    → IsDistinct bound ls
    → ((cb : Callback) → e ≢ called c cb)
    → link_of c ls ≡ some l
    → link_of c ms ≡ some l
other_link s e c bound l ls ms t distinct apart has = elim (Turn-cases s e ls ms t) [
  | inl (inl same) ↦ rw same has
  | inl (inr (d, (fd, (same, (cb, by_d))))) ↦ elim (Option-cases (link_of d ls)) [
    | inl free ↦ rw (same, with_fd-none d fd ls free) has
    | inr (k, f) ↦ rw (same, link_of-with_fd k d c fd ls f, not_by d cb by_d) has
  ]
  | inr (inl (ctx, (k, (is_connect, at, joined)))) ↦
      let not_k : (c == k.ctx) ≡ false = rw at (not_by ctx connect is_connect) in
      rw (joined, not_k) has
  | inr (inr (ctx, (is_close, gone))) ↦
      rw (gone, link_of-without ctx c bound ls distinct, not_by ctx close is_close) has
]
  where
    not_by : (d : Addr) (cb : Callback) → e ≡ called d cb → (c == d) ≡ false
    not_by d cb by_d = elim (Bool-cases (c == d)) [
      | inr unlike ↦ unlike
      | inl this ↦
          let same : d ≡ c = ground arith in absurd (apart cb (by_d ∙ ap (λ x. called x cb) same))
    ]

module _ {env : Env} (c : Addr) where
  -- The socket of an open connection, beside an event that is not its own.
  pub unheard :
      (e : DaemonEvent) (ls : List Link) (s t : State) (l : Link)
      → Serving env ls s
      → Single s
      → Frames ls e s t
      → ((cb : Callback) → e ≢ called c cb)
      → link_of c ls ≡ some l
      → is_neg l.socket ≡ false
      → sent l.socket t.trace ≡ sent l.socket s.trace
  unheard e ls s t l now one frames apart has nonneg =
      let set : is_socket l.socket l.socket ≡ 1 = ground (arith, eq_ℤ_refl l.socket) in
      let single : count_fd l.socket (sockets_of ls) ≤ 1 =
        omega (arith, now.fds l.socket, one l.socket) in
      let held : 0 < count_fd l.socket (open_fds s.trace) =
        omega (arith, now.fds l.socket, sockets_of-without c l.socket l ls has, set) in
      frames.others l.socket held λ d cb k by_d f.
        apart_sockets c d s.mem.next l k ls now.distinct has f (not_c d cb by_d) nonneg single
    where
      not_c : (d : Addr) (cb : Callback) → e ≡ called d cb → (d == c) ≡ false
      not_c d cb by_d = elim (Bool-cases (d == c)) [
        | inr unlike ↦ unlike
        | inl this ↦
            let same : d ≡ c = ground arith in absurd (apart cb (by_d ∙ ap (λ x. called x cb) same))
      ]
