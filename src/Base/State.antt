-- ===== src/Base/State.antt =====
-- Methods that change an object: a function from the old object to a result and the new one.

abbrev pub State : Type 0 → Type 0 → Type 0
State S A = S → A × S

module _ {S A : Type 0} where
  abbrev pub pure : A → State S A
  pure a s = (a, s)

  abbrev pub gets : (S → A) → State S A
  gets f s = (f s, s)

module _ {S : Type 0} where
  abbrev pub modify : (S → S) → State S (Unit {0})
  modify f s = (tt, f s)

  -- `return` and the empty branch.
  abbrev pub skip : State S (Unit {0})
  skip s = (tt, s)

infixl 5 ◌>>=◌ ◌>>◌
abbrev pub ◌>>=◌ : {S A B : Type 0} → State S A → (A → State S B) → State S B
◌>>=◌ m f s = let (a, s') = m s in f a s'

abbrev pub ◌>>◌ : {S B : Type 0} → State S (Unit {0}) → State S B → State S B
m >> k = m >>= λ _. k
