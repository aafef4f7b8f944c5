-- ===== src/Milter/Stays.antt =====
-- What a callback that opens a connection leaves as it was: the session, its private data pointer
-- and its configuration set.
use madai.Base.{true, some, ◌≡◌, ◌==◌, refl, arith, ◌∙◌}
use madai.Types.{Addr, Fd, ConfigData, SessionData}
use madai.Sys.{Memory, update}
use madai.Config.Refs.{SameSets}
use madai.Smtp.Commands.{Configured}
use madai.Milter.Socket.{IsSocket}
use madai.Milter.Beside.{Beside, Beside-trans, store-Beside, set_priv-Beside}

-- The session at `p` points to the set at `q`.
abbrev pub Holds : Memory → Addr → Addr → Type 0
Holds m p q = (x : SessionData) × ((m.sessions p ≡ some x) × (x.config ≡ some q))

-- From memory `m` to `n` the session at `p` stays the private data of `ctx`, with its configuration
-- from the set at `q`, no set changes, and neither does another session or other private data.
pub record Stays (ctx p : Addr) (cfg : ConfigData) (q : Addr) (m n : Memory) : Type 0 where
  pub same : SameSets m n
  pub priv : n.privs ctx ≡ some p
  pub fd : Fd
  pub usable : IsSocket fd
  pub session : Configured n p fd cfg
  pub holds : Holds n p q
  pub beside : Beside ctx p m n

abbrev pub with_socket : Memory → Addr → SessionData → Fd → Memory
with_socket m p session fd = record m {
  sessions = update m.sessions p (some (record session { socket = fd }));
}

pub Configured-with_socket :
    {m : Memory} {p : Addr} {fd : Fd} {cfg : ConfigData} (has : Configured m p fd cfg) (r : Fd)
    → Configured (with_socket m p has.session r) p r cfg
Configured-with_socket {p} has r =
    let at_p : (p == p) ≡ true = ground arith in
    record {
      session = record has.session { socket = r };
      set_at = has.set_at;
      cfg_set = has.cfg_set;
      live = rw at_p;
      points = has.points;
      allocated = has.allocated;
      holds = has.holds;
      on_socket = refl;
    }

-- Setting the private data once more leaves the session connected.
pub Configured-set_priv :
    (ctx : Addr) {m : Memory} {p : Addr} {fd : Fd} {cfg : ConfigData}
    → Configured m p fd cfg
    → (update m.privs ctx (some p) ctx ≡ some p)
      × Configured (record m { privs = update m.privs ctx (some p) }) p fd cfg
Configured-set_priv ctx has =
    let at_ctx : (ctx == ctx) ≡ true = ground arith in
    (
      rw at_ctx,
      record {
        session = has.session;
        set_at = has.set_at;
        cfg_set = has.cfg_set;
        live = has.live;
        points = has.points;
        allocated = has.allocated;
        holds = has.holds;
        on_socket = has.on_socket;
      },
    )

pub Stays-set_priv :
    (ctx : Addr) {p q : Addr} {cfg : ConfigData} {m n : Memory}
    → Stays ctx p cfg q m n
    → Stays ctx p cfg q m (record n { privs = update n.privs ctx (some p) })
Stays-set_priv ctx {q} stays = record {
  same = record {
    sets = stays.same.sets;
    cur_config = stays.same.cur_config;
    grown = stays.same.grown;
  };
  priv = (Configured-set_priv ctx stays.session).0;
  fd = stays.fd;
  usable = stays.usable;
  session = (Configured-set_priv ctx stays.session).1;
  holds = stays.holds;
  beside = Beside-trans stays.beside (set_priv-Beside _ refl refl);
}

pub Stays-with_socket :
    {ctx p : Addr} {cfg : ConfigData} {fd : Fd} {m : Memory} (has : Configured m p fd cfg) (r : Fd)
    → IsSocket r
    → m.privs ctx ≡ some p
    → Stays ctx p cfg has.set_at m (with_socket m p has.session r)
Stays-with_socket {p} {m} has r usable priv =
    let at_p : (p == p) ≡ true = ground arith in
    record {
      same = record { sets = refl; cur_config = refl; grown = omega arith };
      priv = priv;
      fd = r;
      usable = usable;
      session = Configured-with_socket has r;
      holds = (record has.session { socket = r }, (rw at_p refl, has.points));
      beside = store-Beside _ refl refl;
    }

-- The set that the session points to is still the one that it held.
pub set_of :
    {ctx p : Addr} {cfg : ConfigData} (q : Addr) (l m : Memory)
    → (now : Stays ctx p cfg q l m) → now.session.set_at ≡ q
set_of q l m now = let (x, (live, points)) = now.holds in let has = now.session in cc

-- A later step keeps what an earlier one kept.
pub Stays-trans :
    {ctx p : Addr} {cfg : ConfigData} (q : Addr) (l m n : Memory)
    → (now : Stays ctx p cfg q l m) → Stays ctx p cfg now.session.set_at m n
    → Stays ctx p cfg q l n
Stays-trans q l m n now next = record {
  same = record {
    sets = next.same.sets ∙ now.same.sets;
    cur_config = next.same.cur_config ∙ now.same.cur_config;
    grown = omega (arith, now.same.grown, next.same.grown);
  };
  priv = next.priv;
  fd = next.fd;
  usable = next.usable;
  session = next.session;
  holds = rw (set_of q l m now) at next.holds;
  beside = Beside-trans now.beside next.beside;
}
