-- ===== src/Sys/Ends.antt =====
-- Total correctness of a command: it neither faults nor hangs, and `P` holds of its result.
use mathlib.Core.Path.{subst}
use madai.Base.{◌≡◌, refl, Option, some}
use madai.Sys.{State, Run, ok, fault, hang, Cmd, deref, feed}

pub data Ends {A : Type 0} (P : A → State → Type 0) : Run A → Type 0 where
  ends : {a : A} {s : State} → P a s → Ends P (ok a s)

module _ {A : Type 0} {P : A → State → Type 0} where
  pub feed-Ends :
      {B : Type 0} {Q : B → State → Type 0} {r : Run A} (next : A → Cmd B)
      → Ends P r
      → ((a : A) (s : State) → P a s → Ends Q (next a s))
      → Ends Q (feed next r)
  feed-Ends next (ends p) then_ends = then_ends _ _ p

  pub weaken :
      {Q : A → State → Type 0} {r : Run A}
      → Ends P r
      → ((a : A) (s : State) → P a s → Q a s)
      → Ends Q r
  weaken (ends p) implies = ends (implies _ _ p)

-- A pointer that is known to lead to `a`.
pub deref-Ends :
    {A B : Type 0} {P : B → State → Type 0} {o : Option A} {a : A} {s : State}
    → o ≡ some a
    → (next : A → Cmd B) → Ends P (next a s)
    → Ends P (feed next (deref o s))
deref-Ends e next p = rw e p

-- `P` of the result, if there is one.
abbrev pub WhenOk : {A : Type 0} → (A → State → Type 0) → Run A → Type 0
WhenOk P (ok a s) = P a s
WhenOk P fault = Unit {0}
WhenOk P hang = Unit {0}

-- What is known of a command that was seen to return.
pub Ends-ok :
    {A : Type 0} {P : A → State → Type 0} {r : Run A} {a : A} {s : State}
    → Ends P r
    → r ≡ ok a s
    → P a s
Ends-ok {P} (ends p) e = subst (WhenOk P) e p

-- A command that ends returns.
pub Ends-returns :
    {A : Type 0} {P : A → State → Type 0} {r : Run A}
    → Ends P r
    → (a : A) × (s : State) × (r ≡ ok a s)
Ends-returns (ends {a} {s} p) = (a, s, refl)

-- A command that ends, with its run.
pub Ends-self :
    {A : Type 0} {P : A → State → Type 0} {r : Run A}
    → Ends P r
    → Ends (λ a s. P a s × (r ≡ ok a s)) r
Ends-self (ends p) = ends (p, refl)

pub Ends-both :
    {A : Type 0} {P Q : A → State → Type 0} {r : Run A}
    → Ends P r
    → Ends Q r
    → Ends (λ a t. P a t × Q a t) r
Ends-both (ends p) q = ends (p, Ends-ok q refl)

-- A command that ends, and what is known of it where it returns.
pub Ends-with :
    {A : Type 0} {P Q : A → State → Type 0} {r : Run A}
    → Ends P r
    → WhenOk Q r
    → Ends (λ a t. P a t × Q a t) r
Ends-with (ends p) q = ends (p, q)

pub feed-WhenOk :
    {A B : Type 0} {P : A → State → Type 0} (Q : B → State → Type 0) {r : Run A} (next : A → Cmd B)
    → Ends P r
    → ((a : A) (s : State) → P a s → WhenOk Q (next a s))
    → WhenOk Q (feed next r)
feed-WhenOk Q next (ends p) then_ok = then_ok _ _ p

pub feed_both-WhenOk :
    {A B : Type 0} (P : A → State → Type 0) (Q : B → State → Type 0) (r : Run A) (next : A → Cmd B)
    → WhenOk P r
    → ((a : A) (s : State) → P a s → WhenOk Q (next a s))
    → WhenOk Q (feed next r)
feed_both-WhenOk P Q (ok a s) next p then_ok = then_ok a s p
feed_both-WhenOk P Q fault next p then_ok = tt
feed_both-WhenOk P Q hang next p then_ok = tt
