-- ===== src/Manager/Try.antt =====
-- The `?` operator between the calls of a method of src/manager.rs: the next step runs only after
-- a success, and what a failed step has changed stays changed.
use wireview_pro_ii.Base.{Bool, true, false}
use wireview_pro_ii.Domain.Error.{DeviceError, Result, ok, err}
use wireview_pro_ii.Manager.State.{M}

module _ {F D : Type 0} where
  abbrev pub lift : {A : Type 0} → Result A → M F D (Result A)
  lift r m = (r, m)

  -- A step that cannot fail.
  abbrev pub always : {A : Type 0} → M F D A → M F D (Result A)
  always f m = let (a, m') = f m in (ok a, m')

  abbrev pub fail_if : Bool → DeviceError → M F D (Result (Unit {0}))
  fail_if true e m = (err e, m)
  fail_if false e m = (ok tt, m)

  -- What follows a step, by how it ended.
  abbrev pub continue : {A B : Type 0} → Result A → (A → M F D (Result B)) → M F D (Result B)
  continue (ok a) f m = f a m
  continue (err e) f m = (err e, m)

infixl 5 ◌>>=◌ ◌>>◌
abbrev pub ◌>>=◌ : {F D A B : Type 0} → M F D (Result A) → (A → M F D (Result B)) → M F D (Result B)
◌>>=◌ r f m = let (a, m') = r m in continue a f m'

abbrev pub ◌>>◌ : {F D B : Type 0} → M F D (Result (Unit {0})) → M F D (Result B) → M F D (Result B)
r >> k = r >>= λ _. k
