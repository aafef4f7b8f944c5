-- ===== src/Daemon/Table.antt =====
-- The connections of the daemon as one table: what each one's private data, session, set and socket
-- are, and the configuration that it has copied mail with since it began.
use madai.Base.{
  ◌<◌, ◌≤◌, suc, Option, none, some, List, [], ◌∷◌, ◌≡◌, refl, ap, arith, ◌==◌, if◌then◌else◌,
  length, Bool-cases, inl, inr, ◌-◌,
}
use madai.Types.{Addr, Fd, ConfigData, SessionData}
use madai.Config.Refs.{count}

pub record Link : Type 0 where
  pub ctx : Addr
  pub session : Addr
  pub set : Addr
  pub cfg : ConfigData
  pub socket : Fd

abbrev pub link_of : Addr → List Link → Option Link
link_of c [] = none
link_of c (l ∷ ls) = if c == l.ctx then some l else link_of c ls

-- The private data of a connection.
abbrev pub priv_in : Option Link → Option Addr
priv_in none = none
priv_in (some l) = some l.session

abbrev pub data_of : Link → SessionData
data_of l = record { config = some l.set; socket = l.socket }

abbrev pub session_of : Addr → List Link → Option SessionData
session_of x [] = none
session_of x (l ∷ ls) = if x == l.session then some (data_of l) else session_of x ls

abbrev pub sets_of : List Link → List Addr
sets_of [] = []
sets_of (l ∷ ls) = l.set ∷ sets_of ls

abbrev pub without : Addr → List Link → List Link
without c [] = []
without c (l ∷ ls) = if c == l.ctx then ls else l ∷ without c ls

abbrev pub with_fd : Addr → Fd → List Link → List Link
with_fd c fd [] = []
with_fd c fd (l ∷ ls) = if c == l.ctx then record l { socket = fd } ∷ ls else l ∷ with_fd c fd ls

-- No two connections share an `SMFICTX` or a session, and all sessions are below `bound`.
abbrev pub IsDistinct : Addr → List Link → Type 0
IsDistinct bound [] = Unit {0}
IsDistinct bound (l ∷ ls) =
    (link_of l.ctx ls ≡ none)
    × (session_of l.session ls ≡ none)
    × (l.session < bound)
    × IsDistinct bound ls

pub IsDistinct-grown : {a b : Addr} (ls : List Link) → a ≤ b → IsDistinct a ls → IsDistinct b ls
IsDistinct-grown [] le d = tt
IsDistinct-grown (l ∷ ls) le (x, y, z, d) = (x, y, omega arith, IsDistinct-grown ls le d)

-- No session stands at an address that is not handed out.
pub session_of-bound :
    (x bound : Addr) (ls : List Link) → IsDistinct bound ls → bound ≤ x → session_of x ls ≡ none
session_of-bound x bound [] d le = refl
session_of-bound x bound (l ∷ ls) (_, _, z, d) le = ground (arith, session_of-bound x bound ls d le)

pub link_of-without :
    (c b bound : Addr) (ls : List Link)
    → IsDistinct bound ls
    → link_of b (without c ls) ≡ (if b == c then none else link_of b ls)
link_of-without c b bound [] d = ground arith
link_of-without c b bound (k ∷ ls) (one, _, _, d) = ground (arith, link_of-without c b bound ls d)

session_of-none-without :
    (c x : Addr) (ls : List Link) → session_of x ls ≡ none → session_of x (without c ls) ≡ none
session_of-none-without c x [] e = refl
session_of-none-without c x (k ∷ ls) e = ground (arith, session_of-none-without c x ls)

pub link_of-none-with_fd :
    (c b : Addr) (fd : Fd) (ls : List Link)
    → link_of b ls ≡ none
    → link_of b (with_fd c fd ls) ≡ none
link_of-none-with_fd c b fd [] e = refl
link_of-none-with_fd c b fd (k ∷ ls) e = ground (arith, link_of-none-with_fd c b fd ls)

session_of-none-with_fd :
    (c x : Addr) (fd : Fd) (ls : List Link)
    → session_of x ls ≡ none
    → session_of x (with_fd c fd ls) ≡ none
session_of-none-with_fd c x fd [] e = refl
session_of-none-with_fd c x fd (k ∷ ls) e = ground (arith, session_of-none-with_fd c x fd ls)

pub IsDistinct-without :
    (c bound : Addr) (ls : List Link) → IsDistinct bound ls → IsDistinct bound (without c ls)
IsDistinct-without c bound [] d = tt
IsDistinct-without c bound (k ∷ ls) (x, y, z, d) = elim (Bool-cases (c == k.ctx)) [
  | inl this ↦ rw this d
  | inr other ↦
      let link : link_of k.ctx (without c ls) ≡ none =
        ground (arith, link_of-without c k.ctx bound ls d) in
      rw other (link, session_of-none-without c k.session ls y, z, IsDistinct-without c bound ls d)
]

pub IsDistinct-with_fd :
    (c bound : Addr) (fd : Fd) (ls : List Link)
    → IsDistinct bound ls
    → IsDistinct bound (with_fd c fd ls)
IsDistinct-with_fd c bound fd [] d = tt
IsDistinct-with_fd c bound fd (k ∷ ls) (x, y, z, d) = elim (Bool-cases (c == k.ctx)) [
  | inl this ↦ rw this (x, y, z, d)
  | inr other ↦ rw other (
    link_of-none-with_fd c k.ctx fd ls x,
    session_of-none-with_fd c k.session fd ls y,
    z,
    IsDistinct-with_fd c bound fd ls d,
  )
]

pub sets_of-with_fd : (c : Addr) (fd : Fd) (ls : List Link) → sets_of (with_fd c fd ls) ≡ sets_of ls
sets_of-with_fd c fd [] = refl
sets_of-with_fd c fd (k ∷ ls) = ground (arith, sets_of-with_fd c fd ls)

pub length-sets_of : (ls : List Link) → length (sets_of ls) ≡ length ls
length-sets_of [] = refl
length-sets_of (k ∷ ls) = ap suc (length-sets_of ls)

pub length-without : (c : Addr) (ls : List Link) → length (without c ls) ≤ length ls
length-without c [] = omega arith
length-without c (k ∷ ls) = ground (arith, length-without c ls)

pub length-with_fd : (c : Addr) (fd : Fd) (ls : List Link) → length (with_fd c fd ls) ≤ length ls
length-with_fd c fd [] = omega arith
length-with_fd c fd (k ∷ ls) = ground (arith, length-with_fd c fd ls)

-- A connection without private data is in no row of the table.
pub without-none : (c : Addr) (ls : List Link) → link_of c ls ≡ none → without c ls ≡ ls
without-none c [] e = refl
without-none c (k ∷ ls) e = ground (arith, without-none c ls)

pub with_fd-none :
    (c : Addr) (fd : Fd) (ls : List Link) → link_of c ls ≡ none → with_fd c fd ls ≡ ls
with_fd-none c fd [] e = refl
with_fd-none c fd (k ∷ ls) e = ground (arith, with_fd-none c fd ls)

module _ (l : Link) where
  pub link_of-ctx : (c : Addr) (ls : List Link) → link_of c ls ≡ some l → c ≡ l.ctx
  link_of-ctx c [] e = cc
  link_of-ctx c (k ∷ ls) e = ground (arith, link_of-ctx c ls)

  pub link_of-session :
      (c bound : Addr) (ls : List Link)
      → IsDistinct bound ls
      → link_of c ls ≡ some l
      → session_of l.session ls ≡ some (data_of l)
  link_of-session c bound [] d e = cc
  link_of-session c bound (k ∷ ls) (_, other, _, d) e = ground (arith, link_of-session c bound ls d)

  pub link_of-set :
      (c : Addr) (ls : List Link) → link_of c ls ≡ some l → 0 < count l.set (sets_of ls)
  link_of-set c [] e = cc
  link_of-set c (k ∷ ls) e = ground (arith, link_of-set c ls)

  pub link_of-with_fd :
      (c b : Addr) (fd : Fd) (ls : List Link)
      → link_of c ls ≡ some l
      → link_of b (with_fd c fd ls)
        ≡ (if b == c then some (record l { socket = fd }) else link_of b ls)
  link_of-with_fd c b fd [] e = cc
  link_of-with_fd c b fd (k ∷ ls) e = ground (arith, link_of-with_fd c b fd ls)

  pub session_of-without :
      (c x bound : Addr) (ls : List Link)
      → IsDistinct bound ls
      → link_of c ls ≡ some l
      → session_of x (without c ls) ≡ (if x == l.session then none else session_of x ls)
  session_of-without c x bound [] d e = cc
  session_of-without c x bound (k ∷ ls) (_, other, _, d) e =
      ground (arith, session_of-without c x bound ls d, link_of-session c bound ls d)

  pub session_of-with_fd :
      (c x bound : Addr) (fd : Fd) (ls : List Link)
      → IsDistinct bound ls
      → link_of c ls ≡ some l
      → session_of x (with_fd c fd ls)
        ≡ (if x == l.session then some (data_of (record l { socket = fd })) else session_of x ls)
  session_of-with_fd c x bound fd [] d e = cc
  session_of-with_fd c x bound fd (k ∷ ls) (_, other, _, d) e =
      ground (arith, session_of-with_fd c x bound fd ls d, link_of-session c bound ls d)

  pub sets_of-without :
      (c q : Addr) (ls : List Link)
      → link_of c ls ≡ some l
      → count q (sets_of (without c ls))
        ≡ (if q == l.set then count q (sets_of ls) - 1 else count q (sets_of ls))
  sets_of-without c q [] e = cc
  sets_of-without c q (k ∷ ls) e = ground (arith, sets_of-without c q ls, link_of-set c ls)
