-- ===== src/Base/Action.antt =====
-- Sequential code over a state: an action returns a value or throws, and what it wrote before it
-- threw stays written, unless a transaction takes it back.
use mathlib.Core.Bool.{Bool, true, false}
use mathlib.Core.Option.{Option, none, some}

pub data Result (E A : Type 0) : Type 0 where
  ok : A → Result E A
  err : E → Result E A

abbrev pub Action : Type 0 → Type 0 → Type 0 → Type 0
Action S E A = S → Result E A × S

infixl 5 ◌>>=◌ ◌>>◌
abbrev pub ◌>>=◌ : {S E A B : Type 0} → Action S E A → (A → Action S E B) → Action S E B
◌>>=◌ m f s = let (r, s') = m s in elim r [ ok a ↦ f a s' | err e ↦ (err e, s') ]

abbrev pub ◌>>◌ : {S E A B : Type 0} → Action S E A → Action S E B → Action S E B
m >> k = m >>= λ _. k

module _ {S E A : Type 0} where
  abbrev pub pure : A → Action S E A
  pure a s = (ok a, s)

  abbrev pub throw : E → Action S E A
  throw e s = (err e, s)

  -- The value of an option, or a throw.
  abbrev pub or_throw : Option A → E → Action S E A
  or_throw none e s = (err e, s)
  or_throw (some a) e s = (ok a, s)

  -- A database transaction: a throw takes back what was written.
  abbrev pub transaction : Action S E A → Action S E A
  transaction m s = let (r, s') = m s in elim r [ ok a ↦ (ok a, s') | err e ↦ (err e, s) ]

module _ {S E : Type 0} where
  -- `if (c) throw e`
  abbrev pub throw_if : Bool → E → Action S E (Unit {0})
  throw_if true e s = (err e, s)
  throw_if false e s = (ok tt, s)

  abbrev pub modify : (S → S) → Action S E (Unit {0})
  modify f s = (ok tt, f s)

  abbrev pub get : Action S E S
  get s = (ok s, s)

-- Runs a `try` block whose early returns and throws are both errors of the action.
abbrev pub run_try : {S E A : Type 0} → (E → S → A × S) → Action S E A → S → A × S
run_try handler m s = let (r, s') = m s in elim r [ ok a ↦ (a, s') | err e ↦ handler e s' ]
