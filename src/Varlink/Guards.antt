-- ===== src/Varlink/Guards.antt =====
-- What src/varlink.rs refuses, and what a change that it answers has gone through.
use wireview_pro_ii.Base.{ℕ, String, Bool, true, false, not, List, ◌≡◌, refl, arith}
use wireview_pro_ii.Base.Sort.{same_text}
use wireview_pro_ii.Domain.Error.{Result, ok, err}
use wireview_pro_ii.Config.Types.{DeviceSettings, DeviceConfiguration}
use wireview_pro_ii.Config.Revision.{configuration_revision, with_protocol_metadata}
use wireview_pro_ii.Config.Items.{from_json}
use wireview_pro_ii.Ipc.Messages.{ConfigurationDto}
use wireview_pro_ii.Ipc.Errors.{WireViewError}
use wireview_pro_ii.Varlink.Service.{
  answer, refuse, continue, Method, ManagerHandle, Library, refuse_if, lift, call, ◌>>=◌, ◌>>◌,
  require_confirmation, from_result,
}
use wireview_pro_ii.Varlink.Methods.{write_theme_asset, clear_faults, reboot_device}
use wireview_pro_ii.Varlink.Settings.{
  store_configuration, set_configuration_item, reset_configuration, apply_if_current,
  configuration_dto,
}

-- A method that refuses with an invalid argument and leaves the manager alone.
unfoldable pub Refuses : {W A : Type 0} → Method W A → Type 0
Refuses {W = W} m = (w : W) → (e : String) × (m w ≡ (refuse (WireViewError.invalid_argument e), w))

module _ {F W : Type 0} (library : Library F) (manager : ManagerHandle F W) where
  -- Without a confirmation, writing a theme asset, clearing faults, storing a configuration or one
  -- of its items, resetting the configuration and rebooting are refused as an invalid argument,
  -- whatever their other arguments, and no command reaches the manager.
  pub unconfirmed :
      (text sha256 key value : String) (n active logged : ℕ) (bytes : List ℕ)
      (dto : ConfigurationDto)
      → Refuses (write_theme_asset library manager text n sha256 bytes false)
        × Refuses (clear_faults library manager active logged false)
        × Refuses (store_configuration library manager dto false)
        × Refuses (set_configuration_item library manager key value true false)
        × Refuses (reset_configuration library manager false)
        × Refuses (reboot_device library manager false)
  unfolding Refuses write_theme_asset clear_faults store_configuration set_configuration_item
      reset_configuration reboot_device require_confirmation
  unconfirmed text sha256 key value n active logged bytes dto = (
    λ w. (_, refl),
    λ w. (_, refl),
    λ w. (_, refl),
    λ w. (_, refl),
    λ w. (_, refl),
    λ w. (_, refl),
  )

  -- What the first call of a chain that answers has done.
  called :
      {A B : Type 0} (m : W → Result A × W) (f : A → Method W B) {w w' : W} {b : B}
      → (call m >>= f) w ≡ (answer b, w')
      → (a : A) × (q : W) × (m w ≡ (ok a, q)) × (f a q ≡ (answer b, w'))
  called {A} {B} m f {w} {w'} {b} h = go (m w).0 (m w).1 refl h
    where
      go :
          (r : Result A) (q : W)
          → m w ≡ (r, q)
          → continue (from_result r) f q ≡ (answer b, w')
          → (a : A) × (q : W) × (m w ≡ (ok a, q)) × (f a q ≡ (answer b, w'))
      go (ok a) q e g = (a, q, e, g)
      go (err x) q e g = absurd (ground arith)

  lifted :
      {A B : Type 0} (r : Result A) (f : A → Method W B) {w w' : W} {b : B}
      → (lift r >>= f) w ≡ (answer b, w')
      → (a : A) × (r ≡ ok a) × (f a w ≡ (answer b, w'))
  lifted (ok a) f h = (a, refl, h)
  lifted (err e) f h = absurd (ground arith)

  passed :
      {B : Type 0} (test : Bool) (e : WireViewError) (k : Method W B) {w w' : W} {b : B}
      → (refuse_if (not test) e >> k) w ≡ (answer b, w')
      → (test ≡ true) × (k w ≡ (answer b, w'))
  passed true e k h = (refl, h)
  passed false e k h = absurd (ground arith)

  -- What a configuration that was applied has gone through.
  unfoldable pub Applied : ConfigurationDto → Bool → W → Type 0
  Applied dto persist w =
      (current applied c : DeviceConfiguration F) × (settings : DeviceSettings F)
      × (revision : String) × (w1 w2 : W) × (manager.read_configuration w ≡ (ok current, w1))
      × (configuration_revision library.floats (manager.state w1).session_id current ≡ ok revision)
      × (same_text dto.revision revision ≡ true)
      × (from_json library.floats library.serde dto.configuration_json ≡ ok settings)
      × (with_protocol_metadata library.floats settings current ≡ ok c)
      × (manager.apply_configuration_if_revision c persist revision w1 ≡ (ok applied, w2))

  -- A change of the configuration is answered only if the revision in the request is that of the
  -- configuration that was read from the device at that moment, in its session, and the settings of
  -- the request were decoded; what is applied, on the condition of that revision again, are these
  -- settings with the protocol's part of the configuration that was read.
  pub apply_if_current-Applied :
      (dto shown : ConfigurationDto) (persist : Bool) (w w' : W)
      → apply_if_current library manager dto persist w ≡ (answer shown, w')
      → Applied dto persist w
  unfolding apply_if_current Applied
  apply_if_current-Applied dto shown persist w w' h =
      let (current, w1, read, h1) = called manager.read_configuration _ h in
      let (revision, revised, h2) = lifted _ _ h1 in
      let (same, h3) = passed (same_text dto.revision revision) _ _ h2 in
      let (settings, decoded, h4) = lifted _ _ h3 in
      let (c, completed, h5) = lifted _ _ h4 in
      let (applied, w2, done, _) =
        called (manager.apply_configuration_if_revision c persist revision)
          (configuration_dto library manager) {w = w1} h5 in
      (
        current, applied, c, settings, revision, w1, w2, read, revised, same, decoded, completed,
        done,
      )
