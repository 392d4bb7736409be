-- ===== src/Float.antt =====
-- What the Rust code does with an `f64`: the constants, the arithmetic, the comparisons and the
-- conversions that it calls. The type and its operations are a parameter of every definition
-- that computes with one.
use wireview_pro_ii.Base.{ℕ, Bool, List, [], ◌∷◌}
use wireview_pro_ii.Base.Int.{ℤ}

pub record FloatOps (F : Type 0) : Type 0 where
  -- `f64::from` of an integer, which is exact for the widths used.
  pub of_int : ℤ → F
  -- The literal `mantissa / 10 ^ places`, as `1e-6`.
  pub literal : ℤ → ℕ → F
  -- The `-0.0` from which the sum of an iterator starts.
  pub negative_zero : F
  pub add : F → F → F
  pub sub : F → F → F
  pub mul : F → F → F
  pub div : F → F → F
  pub abs : F → F
  pub round : F → F
  pub lt : F → F → Bool
  pub eq : F → F → Bool
  pub is_finite : F → Bool
  -- `as i64`
  pub to_int : F → ℤ

-- `iter().sum()`, which adds from the first on.
abbrev pub sum_from : {F : Type 0} → FloatOps F → F → List F → F
sum_from f total [] = total
sum_from f total (x ∷ xs) = sum_from f (f.add total x) xs

abbrev pub sum : {F : Type 0} → FloatOps F → List F → F
sum f xs = sum_from f f.negative_zero xs

abbrev pub gt : {F : Type 0} → FloatOps F → F → F → Bool
gt f x y = f.lt y x
