-- ===== src/Manager/ResumeDumps.antt =====
-- The history dumps of src/manager.rs leave no display paused for nobody.
use wireview_pro_ii.Base.{
  ℕ, ◌+◌, ◌≡◌, refl, true, Option, none, some, is_some, inl, inr, arith, Bool-cases,
}
use wireview_pro_ii.Domain.Error.{DeviceError, connection_lost, Result, ok, err}
use wireview_pro_ii.Manager.Backend.{Backend}
use wireview_pro_ii.Manager.State.{ActiveHistoryDump, Manager, set_busy, bump_and_publish}
use wireview_pro_ii.Manager.Display.{ensure_display_paused}
use wireview_pro_ii.Manager.Dump.{
  dump_lease, is_same_dump, start_dump, renew_and_read, finish_dump, begun, begin_history_dump,
  read_dump, read_history_dump_chunk, end_dump, end_history_dump,
}
use wireview_pro_ii.Manager.Invariant.{Inv}
use wireview_pro_ii.Manager.Pauses.{
  clears, call-Inv, resume-IsWorking, ensure-Inv, dropped-IsWorking,
}
use wireview_pro_ii.Manager.Resumes.{
  IsCovered, resume-IsCovered, ensure-IsCovered, finish-IsCovered, pass-IsCovered, call-IsCovered,
}
use wireview_pro_ii.Manager.DumpKeeps.{renewed-Inv}
use wireview_pro_ii.Manager.ResumeCommands.{when_ready_or_busy-IsCovered}

module _ {F D : Type 0} (b : Backend F D) where
  begun-IsCovered :
      (r : Result (Unit {0})) (m : Manager F D)
      → Inv m
      → ((e : DeviceError) → r ≡ err e → IsCovered m)
      → IsCovered (begun b r m).1
  unfolding start_dump set_busy bump_and_publish
  begun-IsCovered (ok _) m i c = ground arith
  begun-IsCovered (err error) m i c =
      pass-IsCovered b connection_lost (err error) m i (λ _. c error refl)

  pub begin_history_dump-IsCovered :
      (m : Manager F D) → Inv m → IsCovered m → IsCovered (begin_history_dump b m).1
  unfolding begin_history_dump
  begin_history_dump-IsCovered m i c = when_ready_or_busy-IsCovered _ _ m c λ r.
      begun-IsCovered (ensure_display_paused b m).0 (ensure_display_paused b m).1
        (ensure-Inv b m i (ground arith)) (ensure-IsCovered b m c)

  renewed-IsCovered :
      (dump : ActiveHistoryDump) (m : Manager F D)
      → IsCovered (record m { active_history_dump = some dump })
  renewed-IsCovered dump m = ground arith

  renew_and_read-IsCovered :
      (dump : ActiveHistoryDump) (offset size : ℕ) (m : Manager F D)
      → m.active_history_dump ≡ some dump
      → Inv m
      → IsCovered (renew_and_read b dump offset size m).1
  unfolding renew_and_read
  renew_and_read-IsCovered dump offset size m e i =
      let expires_at = b.now m.device + dump_lease in
      let op = b.read_history_chunk offset size dump.cancellation (some expires_at) in
      pass-IsCovered b connection_lost _ _ (call-Inv b op _ (renewed-Inv b dump expires_at m e i))
        (λ _. call-IsCovered b op _ (renewed-IsCovered _ m))

  read_dump-IsCovered :
      (dump_id offset size : ℕ) (dump : Option ActiveHistoryDump) (m : Manager F D)
      → m.active_history_dump ≡ dump
      → Inv m
      → IsCovered m
      → IsCovered (read_dump b dump_id offset size dump m).1
  read_dump-IsCovered dump_id offset size none m e i c = c
  read_dump-IsCovered dump_id offset size (some dump) m e i c =
      elim (Bool-cases (is_same_dump dump dump_id m.state.session_id)) [
        | inl same ↦ rw same (renew_and_read-IsCovered dump offset size m e i)
        | inr other ↦ rw other c
      ]

  pub read_history_dump_chunk-IsCovered :
      (dump_id offset size : ℕ) (m : Manager F D)
      → Inv m
      → IsCovered m
      → IsCovered (read_history_dump_chunk b dump_id offset size m).1
  unfolding read_history_dump_chunk
  read_history_dump_chunk-IsCovered dump_id offset size m i c =
      read_dump-IsCovered dump_id offset size m.active_history_dump m refl i c

  finish_dump-IsCovered :
      (dump_id : ℕ) (m : Manager F D)
      → Inv m
      → is_some m.active_history_dump ≡ true
      → clears (some dump_id) m.active_history_dump ≡ true
      → IsCovered (finish_dump b dump_id m).1
  unfolding finish_dump
  finish_dump-IsCovered dump_id m i a e =
      finish-IsCovered b connection_lost _ _
        (resume-IsWorking b _ (dropped-IsWorking b (some dump_id) m i a e)) (resume-IsCovered b _)

  end_dump-IsCovered :
      (dump_id : ℕ) (dump : Option ActiveHistoryDump) (m : Manager F D)
      → m.active_history_dump ≡ dump
      → Inv m
      → IsCovered m
      → IsCovered (end_dump b dump_id dump m).1
  end_dump-IsCovered dump_id none m e i c = c
  end_dump-IsCovered dump_id (some dump) m e i c =
      elim (Bool-cases (is_same_dump dump dump_id m.state.session_id)) [
        | inl same ↦ rw same (finish_dump-IsCovered dump_id m i (ground arith) (ground arith))
        | inr other ↦ rw other c
      ]

  pub end_history_dump-IsCovered :
      (dump_id : ℕ) (m : Manager F D)
      → Inv m
      → IsCovered m
      → IsCovered (end_history_dump b dump_id m).1
  unfolding end_history_dump
  end_history_dump-IsCovered dump_id m i c =
      end_dump-IsCovered dump_id m.active_history_dump m refl i c
