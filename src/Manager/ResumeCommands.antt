-- ===== src/Manager/ResumeCommands.antt =====
-- The device commands of src/manager.rs leave no display paused for nobody.
use wireview_pro_ii.Base.{
  ℕ, ◌≡◌, refl, String, Bool, true, false, ◌||◌, ◌&&◌, inl, inr, arith, Bool-cases, ◌==◌,
}
use wireview_pro_ii.Domain.Error.{
  DeviceError, connection_lost, operation_outcome_unknown, Result, ok, err, lost,
  is_connection_lost,
}
use wireview_pro_ii.Domain.Connection.{DisconnectReason, is_ready, is_busy}
use wireview_pro_ii.Domain.Telemetry.{Screen, Telemetry}
use wireview_pro_ii.Manager.Backend.{Call, Backend}
use wireview_pro_ii.Manager.State.{
  Manager, M, call, set_ready, bump_and_publish, display_pause_state,
}
use wireview_pro_ii.Manager.Reply.{when_ready, when_ready_or_busy}
use wireview_pro_ii.Manager.Commands.{
  has_unknown_faults, in_range, screen_set, set_screen, paused_transfer, themed, build_read,
  read_device_info, cleared, faults_cleared, clear_faults, set_poll_interval, pause_taken,
  pause_display, resumed, resume_display, rebooted, reboot_device,
}
use wireview_pro_ii.Manager.Invariant.{Inv, IsWorking}
use wireview_pro_ii.Manager.Pauses.{
  call-Inv, resume-Inv, resume-IsWorking, ensure-IsWorking, ensure-Inv, unpaused-Inv,
}
use wireview_pro_ii.Manager.Answers.{call-IsWorking, started}
use wireview_pro_ii.Manager.Resumes.{
  IsCovered, unpaused-IsCovered, set_ready-IsCovered, set_busy-IsCovered, disconnect-unpaused,
  resume-IsCovered, ensure-IsCovered, finish-IsCovered, pass-IsCovered, settle-IsCovered,
  call-IsCovered,
}
use wireview_pro_ii.Manager.CommandKeeps.{cleared-IsWorking}

module _ {F D : Type 0} where
  pub when_ready-IsCovered :
      {A : Type 0} (body : M F D (Result A)) (m : Manager F D)
      → IsCovered m
      → (is_ready m.state.connection ≡ true → IsCovered (body m).1)
      → IsCovered (when_ready body m).1
  when_ready-IsCovered body m c h = elim (Bool-cases (is_ready m.state.connection)) [
    | inl r ↦ rw r (h r)
    | inr other ↦ rw other c
  ]

  pub when_ready_or_busy-IsCovered :
      {A : Type 0} (message : String) (body : M F D (Result A)) (m : Manager F D)
      → IsCovered m
      → (is_ready m.state.connection ≡ true → IsCovered (body m).1)
      → IsCovered (when_ready_or_busy message body m).1
  when_ready_or_busy-IsCovered message body m c h =
      elim (Bool-cases (is_ready m.state.connection)) [
        | inl r ↦ rw r (h r)
        | inr other ↦ rw other c
      ]

module _ {F D : Type 0} (b : Backend F D) where
  screen_set-IsCovered :
      (screen : Screen) (r : Result (Unit {0})) (m : Manager F D)
      → Inv m
      → IsCovered m
      → IsCovered (screen_set b screen r m).1
  unfolding bump_and_publish
  screen_set-IsCovered screen (ok _) m i c = ground arith
  screen_set-IsCovered screen (err error) m i c =
      pass-IsCovered b operation_outcome_unknown (err error) m i (λ _. c)

  pub set_screen-IsCovered :
      (screen : Screen) (m : Manager F D)
      → Inv m
      → IsCovered m
      → IsCovered (set_screen b screen m).1
  unfolding set_screen
  set_screen-IsCovered screen m i c = when_ready-IsCovered _ m c λ _.
      screen_set-IsCovered screen _ _ (call-Inv b (b.set_screen screen) m i)
        (call-IsCovered b (b.set_screen screen) m c)

  module _ {A : Type 0} (transfer : Call D A) (is_lost : Result A → Bool)
      (outcome : Result A → Result A) where
    paused_transfer-IsCovered :
        (r : Result (Unit {0})) (m : Manager F D)
        → IsWorking m
        → ((e : DeviceError) → r ≡ err e → IsCovered m)
        → IsCovered (paused_transfer b transfer is_lost outcome r m).1
    paused_transfer-IsCovered (err error) m w c =
        settle-IsCovered b (is_connection_lost error) m w (λ _. c error refl)
    paused_transfer-IsCovered (ok _) m w c =
        let m' = (call transfer m).1 in
        settle-IsCovered b _ _ (resume-IsWorking b _ (call-IsWorking transfer m w))
          λ kept. resume-IsCovered b m' (ground arith)

    pub themed-IsCovered :
        (operation : String) (m : Manager F D)
        → Inv m
        → IsCovered m
        → IsCovered (themed b transfer is_lost outcome operation m).1
    unfolding themed
    themed-IsCovered operation m i c = when_ready_or_busy-IsCovered _ _ m c λ r.
        paused_transfer-IsCovered _ _ (ensure-IsWorking b _ (started operation m i r))
          (ensure-IsCovered b _ (set_busy-IsCovered operation m c))

  build_read-IsCovered :
      (r : Result (String × String)) (m : Manager F D)
      → IsWorking m
      → IsCovered m
      → IsCovered (build_read b r m).1
  unfolding set_ready
  build_read-IsCovered (ok _) m w c = ground arith
  build_read-IsCovered (err error) m w c =
      finish-IsCovered b connection_lost (err error) m w (λ _. c)

  pub read_device_info-IsCovered :
      (m : Manager F D) → Inv m → IsCovered m → IsCovered (read_device_info b m).1
  unfolding read_device_info
  read_device_info-IsCovered m i c = when_ready-IsCovered _ m c λ r.
      build_read-IsCovered _ _
        (call-IsWorking b.read_build_information _ (started "reading_device_information" m i r))
        (call-IsCovered b b.read_build_information _
          (set_busy-IsCovered "reading_device_information" m c))

  cleared-IsCovered :
      (done : Result (Unit {0})) (m : Manager F D) → IsCovered m → IsCovered (cleared b done m).1
  cleared-IsCovered (err error) m c = c
  cleared-IsCovered (ok _) m c = ground arith

  faults_cleared-IsCovered :
      (r : Result (Telemetry F)) (m : Manager F D)
      → IsWorking m
      → IsCovered m
      → IsCovered (faults_cleared b r m).1
  unfolding set_ready
  faults_cleared-IsCovered (ok telemetry) m w c = ground arith
  faults_cleared-IsCovered (err error) m w c =
      finish-IsCovered b operation_outcome_unknown (err error) m w (λ _. c)

  pub clear_faults-IsCovered :
      (active logged : ℕ) (m : Manager F D)
      → Inv m
      → IsCovered m
      → IsCovered (clear_faults b active logged m).1
  unfolding clear_faults
  clear_faults-IsCovered active logged m i c = when_ready-IsCovered _ m c λ r.
      elim (Bool-cases (has_unknown_faults active || has_unknown_faults logged)) [
        | inl unknown ↦ rw unknown c
        | inr known ↦ rw known (elim (Bool-cases (active == 0 && logged == 0)) [
          | inl nothing ↦ rw nothing c
          | inr some_fault ↦ rw some_fault (
              faults_cleared-IsCovered _ _
                (cleared-IsWorking b _ _ (
                  call-IsWorking (b.clear_faults active logged) _
                    (started "clearing_faults" m i r)))
                (cleared-IsCovered _ _ (
                  call-IsCovered b (b.clear_faults active logged) _
                    (set_busy-IsCovered "clearing_faults" m c))))
        ])
      ]

  pub set_poll_interval-IsCovered :
      (milliseconds : ℕ) (m : Manager F D)
      → IsCovered m
      → IsCovered (set_poll_interval b milliseconds m).1
  unfolding set_poll_interval
  set_poll_interval-IsCovered milliseconds m c = ground arith

  pause_taken-IsCovered :
      (milliseconds : ℕ) (r : Result (Unit {0})) (m : Manager F D)
      → Inv m
      → ((e : DeviceError) → r ≡ err e → IsCovered m)
      → IsCovered (pause_taken b milliseconds r m).1
  unfolding display_pause_state
  pause_taken-IsCovered milliseconds (ok _) m i c = ground arith
  pause_taken-IsCovered milliseconds (err error) m i c =
      pass-IsCovered b connection_lost (err error) m i (λ _. c error refl)

  pub pause_display-IsCovered :
      (milliseconds : ℕ) (m : Manager F D)
      → Inv m
      → IsCovered m
      → IsCovered (pause_display b milliseconds m).1
  unfolding pause_display
  pause_display-IsCovered milliseconds m i c =
      elim (Bool-cases (in_range 100 300000 milliseconds)) [
        | inr outside ↦ rw outside c
        | inl within ↦
            rw within
              (elim (Bool-cases (is_ready m.state.connection || is_busy m.state.connection)) [
                | inr other ↦ rw other c
                | inl attached ↦ rw attached (
                    pause_taken-IsCovered milliseconds _ _ (ensure-Inv b m i attached)
                      (ensure-IsCovered b m c))
              ])
      ]

  resumed-IsCovered :
      (r : Result (Unit {0})) (m : Manager F D)
      → Inv m
      → (lost r ≡ false → IsCovered m)
      → IsCovered (resumed b r m).1
  unfolding display_pause_state
  resumed-IsCovered (ok _) m i c = c refl
  resumed-IsCovered (err error) m i c = pass-IsCovered b connection_lost (err error) m i c

  pub resume_display-IsCovered : (m : Manager F D) → Inv m → IsCovered (resume_display b m).1
  unfolding resume_display
  resume_display-IsCovered m i =
      resumed-IsCovered _ _ (resume-Inv b _ (unpaused-Inv b m i)) (resume-IsCovered b _)

  rebooted-IsCovered :
      (r : Result (Unit {0})) (m : Manager F D)
      → IsWorking m
      → IsCovered m
      → IsCovered (rebooted b r m).1
  rebooted-IsCovered (ok _) m w c =
      unpaused-IsCovered _ (disconnect-unpaused b DisconnectReason.device_reboot m w.connection)
  rebooted-IsCovered (err error) m w c = elim (Bool-cases (is_connection_lost error)) [
    | inl gone ↦
        rw gone (
          unpaused-IsCovered _
            (disconnect-unpaused b DisconnectReason.device_reboot m w.connection))
    | inr other ↦ rw other (set_ready-IsCovered m c)
  ]

  pub reboot_device-IsCovered :
      (m : Manager F D) → Inv m → IsCovered m → IsCovered (reboot_device b m).1
  unfolding reboot_device
  reboot_device-IsCovered m i c = when_ready-IsCovered _ m c λ r.
      rebooted-IsCovered _ _ (call-IsWorking b.reboot_device _ (started "rebooting_device" m i r))
        (call-IsCovered b b.reboot_device _ (set_busy-IsCovered "rebooting_device" m c))
