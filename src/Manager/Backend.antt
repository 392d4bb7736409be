-- ===== src/Manager/Backend.antt =====
-- What the manager of src/manager.rs calls: the `DeviceBackend` trait of src/backend.rs, the clock
-- and the timers, the cancellation cells, and the JSON library. `D` is the state of all that lies
-- outside the manager: the device, its port, the time in milliseconds and the cells. An `async`
-- call takes it to a later one.
use wireview_pro_ii.Base.{ℕ, String, Option, List}
use wireview_pro_ii.Domain.Error.{Result}
use wireview_pro_ii.Domain.Telemetry.{Screen, DeviceIdentity, Telemetry}
use wireview_pro_ii.Theme.{ThemeAssetSlot}
use wireview_pro_ii.Float.{FloatOps}
use wireview_pro_ii.Config.Types.{NvmOperation, DeviceConfiguration}
use wireview_pro_ii.Config.Items.{Serde}

-- A fallible call of the backend.
abbrev pub Call : Type 0 → Type 0 → Type 0
Call D A = D → Result A × D

pub record Backend (F D : Type 0) : Type 0 where
  -- `Instant::now` and `tokio::time::sleep`.
  pub now : D → ℕ
  pub sleep : ℕ → D → D
  -- `ReadCancellation::default` gives a new cell, `cancel` sets it.
  pub new_cancellation : D → ℕ × D
  pub cancel : ℕ → D → D
  pub connect : String → Call D DeviceIdentity
  pub disconnect : D → D
  pub read_build_information : Call D (String × String)
  pub read_telemetry : Call D (Telemetry F)
  pub read_configuration : Call D (DeviceConfiguration F)
  pub write_configuration : DeviceConfiguration F → Call D (Unit {0})
  pub nvm_configuration : NvmOperation → Call D (Unit {0})
  pub reboot_device : Call D (Unit {0})
  pub clear_faults : ℕ → ℕ → Call D (Unit {0})
  pub pause_history_updates : Call D (Unit {0})
  pub resume_history_updates : Call D (Unit {0})
  -- Offset, length and the cell; the last argument is the time at which a lease timer sets the
  -- cell, if one runs beside the call.
  pub read_history_chunk : ℕ → ℕ → ℕ → Option ℕ → Call D (List ℕ)
  pub read_theme_asset : ThemeAssetSlot → Call D (List ℕ)
  pub write_theme_asset : ThemeAssetSlot → List ℕ → Call D (Unit {0})
  pub set_screen : Screen → Call D (Unit {0})

pub record Env (F D : Type 0) : Type 0 where
  pub floats : FloatOps F
  pub backend : Backend F D
  pub serde : Serde F
