-- ===== src/Smtp/Keeping.antt =====
-- A command that keeps a relation between a first state and the one it is in, on each run that
-- returns: what the relation says of the way so far, it says of the way with the command.
use madai.Base.{ℕ, Bool, true, false, Option, none, some, Bytes, length, ltb, if◌then◌else◌}
use madai.Sys.{State, Run, ok, fault, hang, Cmd, crash, feed, pure, ◌>>=◌, deref}
use madai.Sys.Ends.{WhenOk}
use madai.Smtp.{copy_into}

pub record Keeping (R : State → State → Type 0) {A : Type 0} (c : Cmd A) : Type 0 where
  pub keeps : (s t : State) → R s t → WhenOk (λ _ u. R s u) (c t)

module _ {R : State → State → Type 0} where
  module _ {A B : Type 0} where
    feed-Keeping :
        (next : A → Cmd B) (s : State) (r : Run A)
        → ((a : A) → Keeping R (next a))
        → WhenOk (λ _ u. R s u) r
        → WhenOk (λ _ u. R s u) (feed next r)
    feed-Keeping next s (ok a t) then_keeps h = (then_keeps a).keeps s t h
    feed-Keeping next s fault then_keeps h = tt
    feed-Keeping next s hang then_keeps h = tt

    pub bind-Keeping :
        {c : Cmd A} {next : A → Cmd B}
        → Keeping R c
        → ((a : A) → Keeping R (next a))
        → Keeping R (c >>= next)
    bind-Keeping {c} {next} q then_keeps = record {
      keeps = λ s t h. feed-Keeping next s (c t) then_keeps (q.keeps s t h);
    }

  pub cond-Keeping :
      {A : Type 0} (b : Bool) {c d : Cmd A}
      → Keeping R c
      → Keeping R d
      → Keeping R (if b then c else d)
  cond-Keeping true q r = q
  cond-Keeping false q r = r

  pub pure-Keeping : {A : Type 0} (a : A) → Keeping R (pure a)
  pure-Keeping a = record { keeps = λ s t h. h }

  pub deref-Keeping : {A : Type 0} (o : Option A) → Keeping R (deref o)
  deref-Keeping none = record { keeps = λ s t h. tt }
  deref-Keeping (some a) = record { keeps = λ s t h. h }

  pub crash-Keeping : {A : Type 0} → Keeping R {A = A} crash
  crash-Keeping = record { keeps = λ s t h. tt }

  pub copy_into-Keeping : (size : ℕ) (text : Bytes) → Keeping R (copy_into size text)
  copy_into-Keeping size text =
      cond-Keeping (ltb (length text) size) (pure-Keeping text) crash-Keeping
