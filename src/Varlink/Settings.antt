-- ===== src/Varlink/Settings.antt =====
-- The methods of src/varlink.rs about the configuration of the device.
use wireview_pro_ii.Base.{◌⊎◌, inl, inr, String, Bool, true, false, not, if◌then◌else◌}
use wireview_pro_ii.Base.Text.{◌<>◌}
use wireview_pro_ii.Base.Sort.{same_text}
use wireview_pro_ii.Config.Types.{DeviceConfiguration, from_configuration}
use wireview_pro_ii.Config.Revision.{configuration_revision, with_protocol_metadata}
use wireview_pro_ii.Config.Items.{item, from_json}
use wireview_pro_ii.Ipc.Messages.{ConfigurationDto, ConfigurationItemDto}
use wireview_pro_ii.Ipc.Errors.{WireViewError}
use wireview_pro_ii.Varlink.Service.{
  answer, refuse, Method, ManagerHandle, Library, pure, refuse_if, lift, call, ◌>>=◌, ◌>>◌,
  require_confirmation,
}

module _ {F W : Type 0} (library : Library F) (manager : ManagerHandle F W) where
  open library use {floats, serde}

  -- `serde_json::to_string` with its `map_err`.
  abbrev pub serialized : String → String ⊎ String → Method W String
  serialized what (inl error) w =
      (refuse (WireViewError.device_error ("failed to serialize " <> what <> ": " <> error)), w)
  serialized what (inr text) w = (answer text, w)

  -- The session id is read before the settings are serialized.
  unfoldable pub configuration_dto : DeviceConfiguration F → Method W ConfigurationDto
  configuration_dto c = do
    session_id ← (λ w. (answer (manager.state w).session_id, w))
    configuration_json ←
        serialized "configuration" (library.settings_to_string (from_configuration c))
    revision ← lift (configuration_revision floats session_id c)
    pure (record { configuration_json = configuration_json; revision = revision })

  unfoldable pub get_configuration : Method W ConfigurationDto
  get_configuration = do c ← call manager.read_configuration; configuration_dto c

  unfoldable pub get_configuration_item : String → Method W ConfigurationItemDto
  get_configuration_item key = do
    value_json ← call (manager.read_configuration_item key)
    pure (record { key = key; value_json = value_json })

  -- The common part of `apply_configuration` and `store_configuration`.
  unfoldable pub apply_if_current : ConfigurationDto → Bool → Method W ConfigurationDto
  apply_if_current dto persist = do
    current ← call manager.read_configuration
    session_id ← (λ w. (answer (manager.state w).session_id, w))
    current_revision ← lift (configuration_revision floats session_id current)
    refuse_if (not (same_text dto.revision current_revision)) (
        WireViewError.revision_conflict
          "configuration changed; run `wireview config show --json` again")
    settings ← lift (from_json floats serde dto.configuration_json)
    c ← lift (with_protocol_metadata floats settings current)
    applied ← call (manager.apply_configuration_if_revision c persist current_revision)
    configuration_dto applied

  unfoldable pub apply_configuration : ConfigurationDto → Method W ConfigurationDto
  apply_configuration dto = apply_if_current dto false

  unfoldable pub store_configuration : ConfigurationDto → Bool → Method W ConfigurationDto
  store_configuration dto confirm = do
    require_confirmation confirm "storing device configuration"
    apply_if_current dto true

  unfoldable pub set_configuration_item :
      String → String → Bool → Bool → Method W ConfigurationItemDto
  set_configuration_item key value persist confirm = do
    (if persist
        then require_confirmation confirm "storing a device configuration item"
        else pure tt)
    c ← call (manager.set_configuration_item key value persist)
    new_value ← lift (item serde (from_configuration c) key)
    value_json ← serialized "configuration item" (serde.serialize new_value)
    pure (record { key = key; value_json = value_json })

  unfoldable pub reload_configuration : Method W ConfigurationDto
  reload_configuration = do c ← call manager.reload_configuration; configuration_dto c

  unfoldable pub reset_configuration : Bool → Method W ConfigurationDto
  reset_configuration confirm = do
    require_confirmation confirm "resetting device configuration"
    c ← call manager.reset_configuration
    configuration_dto c
