-- ===== src/Milter/Beside.antt =====
-- What a callback of `ctx` leaves alone: the sessions and the private data of the other connections.
use madai.Base.{false, ◌≡◌, ◌==◌, refl, ◌∙◌, Option}
use madai.Types.{Addr, SessionData}
use madai.Sys.{Memory, update}

-- From memory `m` to `n` no session but that at `p` changes, and no private data but that of `ctx`.
pub record Beside (ctx p : Addr) (m n : Memory) : Type 0 where
  pub sessions : (x : Addr) → (x == p) ≡ false → n.sessions x ≡ m.sessions x
  pub privs : (c : Addr) → (c == ctx) ≡ false → n.privs c ≡ m.privs c

pub same-Beside :
    {ctx p : Addr} {m n : Memory} → n.sessions ≡ m.sessions → n.privs ≡ m.privs → Beside ctx p m n
same-Beside e d = record { sessions = λ x apart. rw e refl; privs = λ c apart. rw d refl }

pub Beside-trans :
    {ctx p : Addr} {l m n : Memory} → Beside ctx p l m → Beside ctx p m n → Beside ctx p l n
Beside-trans a b = record {
  sessions = λ x apart. b.sessions x apart ∙ a.sessions x apart;
  privs = λ c apart. b.privs c apart ∙ a.privs c apart;
}

pub store-Beside :
    {ctx p : Addr} {m n : Memory} (o : Option SessionData)
    → n.sessions ≡ update m.sessions p o
    → n.privs ≡ m.privs
    → Beside ctx p m n
store-Beside o e d = record {
  sessions = λ x apart. rw (e, apart) refl;
  privs = λ c apart. rw d refl;
}

pub set_priv-Beside :
    {ctx p : Addr} {m n : Memory} (o : Option Addr)
    → n.sessions ≡ m.sessions
    → n.privs ≡ update m.privs ctx o
    → Beside ctx p m n
set_priv-Beside o e d = record {
  sessions = λ x apart. rw e refl;
  privs = λ c apart. rw (d, apart) refl;
}
