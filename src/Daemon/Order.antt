-- ===== src/Daemon/Order.antt =====
-- The order in which libmilter makes its callbacks, and what it means for the table.
use madai.Base.{
  ◌<◌, ◌≤◌, suc, none, some, List, [], ◌∷◌, ◌≡◌, ◌∙◌, ◌⊎◌, refl, sym, ap, arith, ◌==◌, ltb,
  Bool-cases, Option-cases, inl, inr, minus_one, length,
}
use mathlib.Core.Option.{some-injective}
use madai.Types.{Addr, Fd, ConfigData}
use madai.Sys.{Env, State}
use madai.Smtp.{host_len}
use madai.Config.{int_max}
use madai.Config.Refs.{count, remove_one, count-remove_one}
use madai.Milter.{
  Callback, connect, envfrom, envrcpt, header, eoh, body, eom, abort, close, data_command,
}
use madai.Milter.Relay.{IsSendable}
use madai.Daemon.{DaemonEvent, called, hup}
use madai.Daemon.Table.{
  Link, IsDistinct, link_of, without, with_fd, link_of-without, link_of-none-with_fd,
  length-without, length-with_fd,
}
use madai.Daemon.Contract.{CanGreet, Allowed, Turn}

-- The connections that libmilter has begun and not ended.
abbrev pub opens : List Addr → DaemonEvent → List Addr
opens open_ctxs (called ctx connect) = ctx ∷ open_ctxs
opens open_ctxs (called ctx close) = remove_one ctx open_ctxs
opens open_ctxs _ = open_ctxs

-- libmilter does not begin a connection again before its end, and the callbacks can be sent: each
-- recipient fits the buffer, each text an `int`, and the byte behind the copy of a body chunk is no
-- one's.
abbrev pub Timely : Env → List Addr → DaemonEvent → Type 0
Timely env open_ctxs hup = Unit {0}
Timely env open_ctxs (called ctx connect) = count ctx open_ctxs ≡ 0
Timely env open_ctxs (called ctx envfrom) = Unit {0}
Timely env open_ctxs (called ctx abort) = Unit {0}
Timely env open_ctxs (called ctx close) = Unit {0}
Timely env open_ctxs (called ctx c) = IsSendable env c

abbrev pub AllTimely : Env → List Addr → List DaemonEvent → Type 0
AllTimely env open_ctxs [] = Unit {0}
AllTimely env open_ctxs (e ∷ es) = Timely env open_ctxs e × AllTimely env (opens open_ctxs e) es

-- The table has no connection that libmilter has not begun.
abbrev pub Begun : List Addr → List Link → Type 0
Begun open_ctxs ls = (c : Addr) → count c open_ctxs ≡ 0 → link_of c ls ≡ none

CanGreet-cases : (cfg : ConfigData) → CanGreet cfg ⊎ (CanGreet cfg → ⊥)
CanGreet-cases cfg = elim (Option-cases cfg.helodomain) [
  | inl null ↦ inr λ (name, (e, _)). cc
  | inr (name, e) ↦ elim (Bool-cases (ltb (length name) host_len)) [
    | inl few ↦ inl (name, (e, ground arith))
    | inr many ↦ inr λ (other, (f, few)).
        let same : name ≡ other = some-injective _ _ (sym e ∙ f) in ground arith
  ]
]

-- An event that comes in time may come, or it is a MAIL FROM without a name for HELO.
pub Allowed-cases :
    (env : Env) (open_ctxs : List Addr) (ls : List Link) (e : DaemonEvent)
    → Begun open_ctxs ls
    → Timely env open_ctxs e
    → length ls < int_max
    → Allowed env ls e
      ⊎ ((ctx : Addr) × ((l : Link) × ((e ≡ called ctx envfrom)
              × ((link_of ctx ls ≡ some l) × (CanGreet l.cfg → ⊥)))))
Allowed-cases env open_ctxs ls hup begun timely few = inl tt
Allowed-cases env open_ctxs ls (called ctx connect) begun timely few = inl (begun ctx timely, few)
Allowed-cases env open_ctxs ls (called ctx envfrom) begun timely few =
    elim (Option-cases (link_of ctx ls)) [
      | inl free ↦ inl λ l e. cc
      | inr (l, e) ↦ elim (CanGreet-cases l.cfg) [
        | inl can ↦ inl λ k f. rw (some-injective _ _ (sym e ∙ f)) at can
        | inr cannot ↦ inr (ctx, (l, (refl, (e, cannot))))
      ]
    ]
Allowed-cases env open_ctxs ls (called ctx abort) begun timely few = inl tt
Allowed-cases env open_ctxs ls (called ctx close) begun timely few = inl tt
Allowed-cases env open_ctxs ls (called ctx (envrcpt rcptto)) begun timely few = inl timely
Allowed-cases env open_ctxs ls (called ctx (header headerf headerv)) begun timely few = inl timely
Allowed-cases env open_ctxs ls (called ctx eoh) begun timely few = inl timely
Allowed-cases env open_ctxs ls (called ctx (body bodyp)) begun timely few = inl timely
Allowed-cases env open_ctxs ls (called ctx eom) begun timely few = inl timely
Allowed-cases env open_ctxs ls (called ctx data_command) begun timely few = inl timely

-- The table after an event: as it was, but for a new connection, or for one less, or for a socket.
pub Turn-cases :
    (s : State) (e : DaemonEvent) (ls ms : List Link)
    → Turn s e ls ms
    → ((ms ≡ ls)
        ⊎ ((c : Addr) × ((fd : Fd) × ((ms ≡ with_fd c fd ls)
                × ((cb : Callback) × (e ≡ called c cb))))))
      ⊎ (((ctx : Addr) × ((l : Link) × ((e ≡ called ctx connect) × (l.ctx ≡ ctx) × (ms ≡ l ∷ ls))))
          ⊎ ((ctx : Addr) × ((e ≡ called ctx close) × (ms ≡ without ctx ls))))
Turn-cases s hup ls ms t = inl (inl t)
Turn-cases s (called ctx connect) ls ms (inl same) = inl (inl same)
Turn-cases s (called ctx connect) ls ms (inr (q, (cfg, (_, joined)))) =
    inr (inl (ctx, (_, (refl, refl, joined))))
Turn-cases s (called ctx envfrom) ls ms (fd, t) = inl (inr (ctx, (fd, (t, (envfrom, refl)))))
Turn-cases s (called ctx abort) ls ms t = inl (inr (ctx, (minus_one, (t, (abort, refl)))))
Turn-cases s (called ctx close) ls ms t = inr (inr (ctx, (refl, t)))
Turn-cases s (called ctx (envrcpt rcptto)) ls ms t = inl (inl t)
Turn-cases s (called ctx (header headerf headerv)) ls ms t = inl (inl t)
Turn-cases s (called ctx eoh) ls ms t = inl (inl t)
Turn-cases s (called ctx (body bodyp)) ls ms t = inl (inl t)
Turn-cases s (called ctx eom) ls ms t = inl (inl t)
Turn-cases s (called ctx data_command) ls ms t = inl (inl t)

-- Only the end of a connection is one less.
opens-more :
    (open_ctxs : List Addr) (e : DaemonEvent) (c : Addr)
    → count c (opens open_ctxs e) ≡ 0
    → (count c open_ctxs ≡ 0) ⊎ (e ≡ called c close)
opens-more open_ctxs hup c none_open = inl none_open
opens-more open_ctxs (called ctx connect) c none_open = inl (ground arith)
opens-more open_ctxs (called ctx close) c none_open = elim (Bool-cases (c == ctx)) [
  | inl this ↦ let same : c ≡ ctx = ground arith in inr (ap (λ x. called x close) (sym same))
  | inr other ↦ inl (ground (arith, count-remove_one c ctx open_ctxs))
]
opens-more open_ctxs (called ctx envfrom) c none_open = inl none_open
opens-more open_ctxs (called ctx abort) c none_open = inl none_open
opens-more open_ctxs (called ctx (envrcpt rcptto)) c none_open = inl none_open
opens-more open_ctxs (called ctx (header headerf headerv)) c none_open = inl none_open
opens-more open_ctxs (called ctx eoh) c none_open = inl none_open
opens-more open_ctxs (called ctx (body bodyp)) c none_open = inl none_open
opens-more open_ctxs (called ctx eom) c none_open = inl none_open
opens-more open_ctxs (called ctx data_command) c none_open = inl none_open

pub Turn-length :
    (s : State) (e : DaemonEvent) (ls ms : List Link) → Turn s e ls ms → length ms ≤ suc (length ls)
Turn-length s e ls ms t = elim (Turn-cases s e ls ms t) [
  | inl (inl same) ↦ rw same (omega arith)
  | inl (inr (c, (fd, (same, _)))) ↦ rw same (omega (arith, length-with_fd c fd ls))
  | inr (inl (ctx, (l, (_, _, joined)))) ↦ rw joined (omega arith)
  | inr (inr (ctx, (_, gone))) ↦ rw gone (omega (arith, length-without ctx ls))
]

pub Turn-Begun :
    (s : State) (open_ctxs : List Addr) (e : DaemonEvent) (bound : Addr) (ls ms : List Link)
    → IsDistinct bound ls
    → Turn s e ls ms
    → Begun open_ctxs ls
    → Begun (opens open_ctxs e) ms
Turn-Begun s open_ctxs e bound ls ms distinct t begun c none_open =
    elim (opens-more open_ctxs e c none_open) [
      | inr is_close ↦
          let gone : ms ≡ without c ls = rw is_close at t in
          rw gone (ground (arith, link_of-without c c bound ls distinct))
      | inl before ↦
          let free = begun c before in
          elim (Turn-cases s e ls ms t) [
            | inl (inl same) ↦ rw same free
            | inl (inr (d, (fd, (same, _)))) ↦ rw same (link_of-none-with_fd d c fd ls free)
            | inr (inl (ctx, (l, (is_connect, at, joined)))) ↦
                let apart : count c (ctx ∷ open_ctxs) ≡ 0 = rw is_connect at none_open in
                rw joined (ground arith)
            | inr (inr (ctx, (_, gone))) ↦
                rw gone (ground (arith, link_of-without ctx c bound ls distinct))
          ]
    ]
