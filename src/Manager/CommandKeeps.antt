-- ===== src/Manager/CommandKeeps.antt =====
-- The other device commands of src/manager.rs keep the invariant.
use wireview_pro_ii.Base.{
  ℕ, ◌≡◌, refl, String, Bool, true, ◌||◌, ◌&&◌, List, inl, inr, arith, Bool-cases, ◌==◌,
}
use wireview_pro_ii.Domain.Error.{
  connection_lost, operation_outcome_unknown, Result, ok, err, lost, is_connection_lost,
}
use wireview_pro_ii.Domain.Connection.{DisconnectReason, is_ready, is_busy}
use wireview_pro_ii.Domain.Telemetry.{Screen, Telemetry}
use wireview_pro_ii.Theme.{ThemeAssetSlot}
use wireview_pro_ii.Manager.Backend.{Call, Backend}
use wireview_pro_ii.Manager.State.{Manager, set_ready, bump_and_publish, display_pause_state}
use wireview_pro_ii.Manager.Commands.{
  has_unknown_faults, in_range, write_lost, write_outcome, screen_set, set_screen, paused_transfer,
  themed, read_theme_asset, write_theme_asset, build_read, read_device_info, cleared,
  faults_cleared, clear_faults, set_poll_interval, pause_taken, pause_display, resumed,
  resume_display, rebooted, reboot_device,
}
use wireview_pro_ii.Manager.Invariant.{Inv, IsWorking}
use wireview_pro_ii.Manager.Keeps.{set_ready-Inv, disconnect-Inv_attached}
use wireview_pro_ii.Manager.Pauses.{
  call-Inv, resume-Inv, resume-IsWorking, ensure-IsWorking, ensure-Inv, ensure_paused, unpaused-Inv,
}
use wireview_pro_ii.Manager.Answers.{
  call-IsWorking, started, when_ready-Inv, when_ready_or_busy-Inv, finish-Inv, pass-Inv, settle-Inv,
}

module _ {F D : Type 0} (b : Backend F D) where
  screen_set-Inv :
      (screen : Screen) (r : Result (Unit {0})) (m : Manager F D)
      → Inv m
      → Inv (screen_set b screen r m).1
  unfolding bump_and_publish
  screen_set-Inv screen (ok _) m i = ground arith
  screen_set-Inv screen (err error) m i = pass-Inv b operation_outcome_unknown (err error) m i

  pub set_screen-Inv : (screen : Screen) (m : Manager F D) → Inv m → Inv (set_screen b screen m).1
  unfolding set_screen
  set_screen-Inv screen m i =
      when_ready-Inv _ m i λ _. screen_set-Inv screen _ _ (call-Inv b (b.set_screen screen) m i)

  module _ {A : Type 0} (transfer : Call D A) (is_lost : Result A → Bool)
      (outcome : Result A → Result A) where
    paused_transfer-Inv :
        (r : Result (Unit {0})) (m : Manager F D)
        → IsWorking m
        → Inv (paused_transfer b transfer is_lost outcome r m).1
    paused_transfer-Inv (err error) m w = settle-Inv b (is_connection_lost error) m w
    paused_transfer-Inv (ok _) m w =
        settle-Inv b _ _ (resume-IsWorking b _ (call-IsWorking transfer m w))

    pub themed-Inv :
        (operation : String) (m : Manager F D)
        → Inv m
        → Inv (themed b transfer is_lost outcome operation m).1
    unfolding themed
    themed-Inv operation m i =
        when_ready_or_busy-Inv _ _ m i
          λ r. paused_transfer-Inv _ _ (ensure-IsWorking b _ (started operation m i r))

  pub read_theme_asset-Inv :
      (slot : ThemeAssetSlot) (m : Manager F D) → Inv m → Inv (read_theme_asset b slot m).1
  unfolding read_theme_asset
  read_theme_asset-Inv slot m i =
      themed-Inv (b.read_theme_asset slot) lost (λ r. r) "reading_theme_asset" m i

  pub write_theme_asset-Inv :
      (slot : ThemeAssetSlot) (content : List ℕ) (m : Manager F D)
      → Inv m
      → Inv (write_theme_asset b slot content m).1
  unfolding write_theme_asset
  write_theme_asset-Inv slot content m i =
      themed-Inv (b.write_theme_asset slot content) write_lost write_outcome "writing_theme_asset" m
        i

  build_read-Inv :
      (r : Result (String × String)) (m : Manager F D) → IsWorking m → Inv (build_read b r m).1
  unfolding set_ready
  build_read-Inv (ok _) m w = ground arith
  build_read-Inv (err error) m w = finish-Inv b connection_lost (err error) m w

  pub read_device_info-Inv : (m : Manager F D) → Inv m → Inv (read_device_info b m).1
  unfolding read_device_info
  read_device_info-Inv m i = when_ready-Inv _ m i λ r.
      build_read-Inv _ _
        (call-IsWorking b.read_build_information _ (started "reading_device_information" m i r))

  pub cleared-IsWorking :
      (done : Result (Unit {0})) (m : Manager F D) → IsWorking m → IsWorking (cleared b done m).1
  cleared-IsWorking (err error) m w = w
  cleared-IsWorking (ok _) m w = ground arith

  faults_cleared-Inv :
      (r : Result (Telemetry F)) (m : Manager F D) → IsWorking m → Inv (faults_cleared b r m).1
  unfolding set_ready
  faults_cleared-Inv (ok telemetry) m w = ground arith
  faults_cleared-Inv (err error) m w = finish-Inv b operation_outcome_unknown (err error) m w

  pub clear_faults-Inv :
      (active logged : ℕ) (m : Manager F D) → Inv m → Inv (clear_faults b active logged m).1
  unfolding clear_faults
  clear_faults-Inv active logged m i = when_ready-Inv _ m i λ r.
      elim (Bool-cases (has_unknown_faults active || has_unknown_faults logged)) [
        | inl unknown ↦ rw unknown i
        | inr known ↦ rw known (elim (Bool-cases (active == 0 && logged == 0)) [
          | inl nothing ↦ rw nothing i
          | inr some_fault ↦ rw some_fault (
              faults_cleared-Inv _ _ (
                cleared-IsWorking _ _ (
                  call-IsWorking (b.clear_faults active logged) _
                    (started "clearing_faults" m i r))))
        ])
      ]

  pub set_poll_interval-Inv :
      (milliseconds : ℕ) (m : Manager F D) → Inv m → Inv (set_poll_interval b milliseconds m).1
  unfolding set_poll_interval
  set_poll_interval-Inv milliseconds m i = elim (Bool-cases (in_range 100 5000 milliseconds)) [
    | inl within ↦ rw within (ground arith)
    | inr outside ↦ rw outside i
  ]

  pause_taken-Inv :
      (milliseconds : ℕ) (r : Result (Unit {0})) (m : Manager F D)
      → Inv m
      → (r ≡ ok tt → m.display_physically_paused ≡ true)
      → Inv (pause_taken b milliseconds r m).1
  unfolding display_pause_state
  pause_taken-Inv milliseconds (ok _) m i p = let paused = p refl in ground arith
  pause_taken-Inv milliseconds (err error) m i p = pass-Inv b connection_lost (err error) m i

  pub pause_display-Inv :
      (milliseconds : ℕ) (m : Manager F D) → Inv m → Inv (pause_display b milliseconds m).1
  unfolding pause_display
  pause_display-Inv milliseconds m i = elim (Bool-cases (in_range 100 300000 milliseconds)) [
    | inr outside ↦ rw outside i
    | inl within ↦
        rw within (elim (Bool-cases (is_ready m.state.connection || is_busy m.state.connection)) [
          | inr other ↦ rw other i
          | inl attached ↦
              rw attached
                (pause_taken-Inv milliseconds _ _ (ensure-Inv b m i attached) (ensure_paused b m))
        ])
  ]

  resumed-Inv : (r : Result (Unit {0})) (m : Manager F D) → Inv m → Inv (resumed b r m).1
  unfolding display_pause_state
  resumed-Inv (ok _) m i = i
  resumed-Inv (err error) m i = pass-Inv b connection_lost (err error) m i

  pub resume_display-Inv : (m : Manager F D) → Inv m → Inv (resume_display b m).1
  unfolding resume_display
  resume_display-Inv m i = resumed-Inv _ _ (resume-Inv b _ (unpaused-Inv b m i))

  rebooted-Inv : (r : Result (Unit {0})) (m : Manager F D) → IsWorking m → Inv (rebooted b r m).1
  rebooted-Inv (ok _) m w = disconnect-Inv_attached b DisconnectReason.device_reboot m w.connection
  rebooted-Inv (err error) m w = elim (Bool-cases (is_connection_lost error)) [
    | inl gone ↦ rw gone (disconnect-Inv_attached b DisconnectReason.device_reboot m w.connection)
    | inr other ↦ rw other (set_ready-Inv m w)
  ]

  pub reboot_device-Inv : (m : Manager F D) → Inv m → Inv (reboot_device b m).1
  unfolding reboot_device
  reboot_device-Inv m i =
      when_ready-Inv _ m i
        λ r. rebooted-Inv _ _ (call-IsWorking b.reboot_device _ (started "rebooting_device" m i r))
