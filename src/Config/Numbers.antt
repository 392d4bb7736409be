-- ===== src/Config/Numbers.antt =====
-- The tenths of crates/wireview-core/src/config.rs: numbers with one decimal place.
use wireview_pro_ii.Base.{String, Bool, not, ◌||◌, if◌then◌else◌}
use wireview_pro_ii.Base.Int.{ℤ, pos, negsuc}
use wireview_pro_ii.Base.Text.{◌<>◌}
use wireview_pro_ii.Domain.Error.{Result, ok}
use wireview_pro_ii.Float.{FloatOps, gt}
use wireview_pro_ii.Config.Ordinals.{invalid}

module _ {F : Type 0} (f : FloatOps F) where
  -- `value * 10.0`
  abbrev pub times_ten : F → F
  times_ten value = f.mul value (f.literal (pos 10) 0)

  -- `(scaled - scaled.round()).abs() > 1e-6`
  abbrev pub off_grid : F → Bool
  off_grid scaled = gt f (f.abs (f.sub scaled (f.round scaled))) (f.literal (pos 1) 6)

  unfoldable pub encode_scaled : String → F → F → F → Result ℤ
  encode_scaled name value min max =
      let scaled = times_ten value in
      if not (f.is_finite scaled) || (f.lt scaled min || (gt f scaled max || off_grid scaled))
      then invalid (name <> " must be representable with one decimal place")
      else ok (f.to_int (f.round scaled))

  -- The number that comes out lies in the range, so `try_from` does not fail.
  unfoldable pub encode_tenths_i16 : String → F → Result ℤ
  unfolding encode_scaled
  encode_tenths_i16 name value =
      encode_scaled name value (f.of_int (negsuc 32767)) (f.of_int (pos 32767))

  unfoldable pub encode_tenths_u8 : String → F → Result ℤ
  unfolding encode_scaled
  encode_tenths_u8 name value = encode_scaled name value (f.literal (pos 0) 0) (f.of_int (pos 255))

  -- The message names the range, so its text is an argument.
  unfoldable pub validate_tenths_range : String → F → F → F → String → Result (Unit {0})
  validate_tenths_range name value minimum maximum range =
      let scaled = times_ten value in
      if not (f.is_finite scaled) || off_grid scaled
      then invalid (name <> " must have at most one decimal place")
      else if f.lt value minimum || gt f value maximum
      then invalid (name <> " must be between " <> range)
      else ok tt
