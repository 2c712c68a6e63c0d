-- ===== src/Prelude/Stateful.antt =====
-- Methods of an object that may raise: the state comes back after a raise too, since what was
-- written before it stays written.
use mathlib.Core.Bool.{Bool, true, false}
use mathlib.Core.Option.{Option, none, some}
use sentinel_edge.Prelude.Raise.{Result, ok, err}

abbrev pub Action : Type 0 → Type 0 → Type 0 → Type 0
Action S E A = S → Result E A × S

module _ {S E A : Type 0} where
  abbrev pub pure : A → Action S E A
  pure a s = (ok a, s)

  abbrev pub raise : E → Action S E A
  raise e s = (err e, s)

  abbrev pub gets : (S → A) → Action S E A
  gets f s = (ok (f s), s)

  abbrev pub lift : Result E A → Action S E A
  lift r s = (r, s)

  abbrev pub some_or_raise : Option A → E → Action S E A
  some_or_raise none e = raise e
  some_or_raise (some a) e = pure a

  -- `if test: raise e` before the rest.
  abbrev pub unless : Bool → E → Action S E A → Action S E A
  unless true e m = raise e
  unless false e m = m

infixl 5 ◌>>=◌
abbrev pub ◌>>=◌ : {S E A B : Type 0} → Action S E A → (A → Action S E B) → Action S E B
◌>>=◌ m f s = let (r, s') = m s in elim r [ ok a ↦ f a s' | err e ↦ (err e, s') ]
