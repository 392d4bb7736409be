-- ===== src/Manager/Refusals.antt =====
-- Which requests src/manager.rs refuses before it touches the configuration of the device.
use wireview_pro_ii.Base.{
  ◌≡◌, refl, String, Bool, false, ◌==◌, Option, some, inl, inr, arith, if◌then◌else◌,
}
use wireview_pro_ii.Base.Sort.{same_text}
use wireview_pro_ii.Domain.Error.{ok, Result-cases, is_ok}
use wireview_pro_ii.Config.Types.{DeviceConfiguration}
use wireview_pro_ii.Config.Validate.{validate}
use wireview_pro_ii.Config.Revision.{configuration_revision}
use wireview_pro_ii.Manager.Backend.{Env}
use wireview_pro_ii.Manager.State.{Manager}
use wireview_pro_ii.Manager.Frame.{accept_same}
use wireview_pro_ii.Manager.Mutation.{accept, apply_configuration}

module _ {F D : Type 0} (env : Env F D) where
  open env use {floats, backend}
  open backend use {read_configuration}

  -- What is wrong with a request, by the configuration that the device answers.
  pub data IsUnfit (c : DeviceConfiguration F) (revision : Option String)
      (current : DeviceConfiguration F) (m : Manager F D) : Type 0 where
    invalid : is_ok (validate floats c) ≡ false → IsUnfit c revision current m
    other_revision :
        (expected actual : String)
        → revision ≡ some expected
        → configuration_revision floats m.state.session_id current ≡ ok actual
        → same_text expected actual ≡ false
        → IsUnfit c revision current m
    other_version : (current.raw_version == c.raw_version) ≡ false → IsUnfit c revision current m
    other_crc : (current.crc == c.crc) ≡ false → IsUnfit c revision current m

  -- A refusal that has read the device at most, and only if the request is valid.
  abbrev pub IsRefused : DeviceConfiguration F → Bool → Option String → D → Manager F D → Type 0
  IsRefused c persist revision d m =
      (is_ok (apply_configuration env c persist revision m).0 ≡ false)
      × ((apply_configuration env c persist revision m).1
          ≡ (if is_ok (validate floats c) then record m { device = d } else m))

  not_accepted :
      (c current : DeviceConfiguration F) (persist : Bool) (revision : Option String) (d : D)
      (m : Manager F D)
      → read_configuration m.device ≡ (ok current, d)
      → is_ok (accept env c revision current (record m { device = d })).0 ≡ false
      → IsRefused c persist revision d m
  unfolding apply_configuration
  not_accepted c current persist revision d m q a = grind (arith, accept_same)

  version_refused :
      (c current : DeviceConfiguration F) (revision : Option String) (m : Manager F D)
      → (current.raw_version == c.raw_version) ≡ false
      → is_ok (accept env c revision current m).0 ≡ false
  unfolding accept
  version_refused c current revision m n = ground arith

  crc_refused :
      (c current : DeviceConfiguration F) (revision : Option String) (m : Manager F D)
      → (current.crc == c.crc) ≡ false
      → is_ok (accept env c revision current m).0 ≡ false
  unfolding accept
  crc_refused c current revision m n = ground arith

  revision_refused :
      (c current : DeviceConfiguration F) (expected actual : String) (m : Manager F D)
      → configuration_revision floats m.state.session_id current ≡ ok actual
      → same_text expected actual ≡ false
      → is_ok (accept env c (some expected) current m).0 ≡ false
  unfolding accept
  revision_refused c current expected actual m a n = rw (a, n) refl

  -- A request to change the configuration that is invalid, or whose revision, format version or
  -- checksum is not that of the configuration that the device answers, is refused, and changes
  -- nothing: the device has only been read, and not even that if the request is invalid.
  pub IsRefused-untouched :
      (c current : DeviceConfiguration F) (persist : Bool) (revision : Option String) (d : D)
      (m : Manager F D)
      → read_configuration m.device ≡ (ok current, d)
      → IsUnfit c revision current m
      → IsRefused c persist revision d m
  unfolding apply_configuration
  IsRefused-untouched c current persist revision d m q (invalid bad) =
      elim (Result-cases (validate floats c)) [
        | inl (_, p) ↦ ground arith
        | inr (e, p) ↦ rw p (refl, refl)
      ]
  IsRefused-untouched c current persist revision d m q (other_revision expected actual e a n) =
      not_accepted c current persist revision d m q
        (rw e (revision_refused c current expected actual (record m { device = d }) a n))
  IsRefused-untouched c current persist revision d m q (other_version n) =
      not_accepted c current persist revision d m q
        (version_refused c current revision (record m { device = d }) n)
  IsRefused-untouched c current persist revision d m q (other_crc n) =
      not_accepted c current persist revision d m q
        (crc_refused c current revision (record m { device = d }) n)
