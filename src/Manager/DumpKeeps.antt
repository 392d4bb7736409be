-- ===== src/Manager/DumpKeeps.antt =====
-- The history commands of src/manager.rs keep the invariant.
use wireview_pro_ii.Base.{
  ℕ, ◌+◌, ◌≡◌, refl, true, Option, none, some, is_some, inl, inr, arith, Bool-cases,
}
use wireview_pro_ii.Domain.Error.{connection_lost, Result, ok, err}
use wireview_pro_ii.Manager.Backend.{Backend}
use wireview_pro_ii.Manager.State.{ActiveHistoryDump, Manager, set_busy, bump_and_publish}
use wireview_pro_ii.Manager.Display.{ensure_display_paused}
use wireview_pro_ii.Manager.Dump.{
  dump_lease, new_cancellation, is_same_dump, start_dump, renew_and_read, finish_dump, begun,
  begin_history_dump, read_dump, read_history_dump_chunk, end_dump, end_history_dump, chunk_read,
  read_history_chunk,
}
use wireview_pro_ii.Manager.Invariant.{Inv, IsWorking}
use wireview_pro_ii.Manager.Keeps.{Inv-IsWorking}
use wireview_pro_ii.Manager.Pauses.{
  clears, call-Inv, resume-IsWorking, ensure-IsWorking, ensure-Inv, ensure_paused,
  dropped-IsWorking,
}
use wireview_pro_ii.Manager.Answers.{
  call-IsWorking, started, when_ready-Inv, when_ready_or_busy-Inv, finish-Inv, pass-Inv,
}

module _ {F D : Type 0} (b : Backend F D) where
  begun-Inv :
      (r : Result (Unit {0})) (m : Manager F D)
      → IsWorking m
      → Inv m
      → (r ≡ ok tt → m.display_physically_paused ≡ true)
      → Inv (begun b r m).1
  unfolding start_dump set_busy bump_and_publish
  begun-Inv (ok _) m w i p = let paused = p refl in ground arith
  begun-Inv (err error) m w i p = pass-Inv b connection_lost (err error) m i

  pub begin_history_dump-Inv : (m : Manager F D) → Inv m → Inv (begin_history_dump b m).1
  unfolding begin_history_dump
  begin_history_dump-Inv m i = when_ready_or_busy-Inv _ _ m i λ r.
      begun-Inv (ensure_display_paused b m).0 (ensure_display_paused b m).1
        (ensure-IsWorking b m (Inv-IsWorking m i r)) (ensure-Inv b m i (ground arith))
        (ensure_paused b m)

  pub renewed-Inv :
      (dump : ActiveHistoryDump) (expires_at : ℕ) (m : Manager F D)
      → m.active_history_dump ≡ some dump
      → Inv m
      → Inv (record m { active_history_dump = some (record dump { expires_at = expires_at }) })
  renewed-Inv dump expires_at m e i = ground arith

  renew_and_read-Inv :
      (dump : ActiveHistoryDump) (offset size : ℕ) (m : Manager F D)
      → m.active_history_dump ≡ some dump
      → Inv m
      → Inv (renew_and_read b dump offset size m).1
  unfolding renew_and_read
  renew_and_read-Inv dump offset size m e i =
      let expires_at = b.now m.device + dump_lease in
      pass-Inv b connection_lost _ _ (
        call-Inv b (b.read_history_chunk offset size dump.cancellation (some expires_at)) _
          (renewed-Inv dump expires_at m e i))

  read_dump-Inv :
      (dump_id offset size : ℕ) (dump : Option ActiveHistoryDump) (m : Manager F D)
      → m.active_history_dump ≡ dump
      → Inv m
      → Inv (read_dump b dump_id offset size dump m).1
  read_dump-Inv dump_id offset size none m e i = i
  read_dump-Inv dump_id offset size (some dump) m e i =
      elim (Bool-cases (is_same_dump dump dump_id m.state.session_id)) [
        | inl same ↦ rw same (renew_and_read-Inv dump offset size m e i)
        | inr other ↦ rw other i
      ]

  pub read_history_dump_chunk-Inv :
      (dump_id offset size : ℕ) (m : Manager F D)
      → Inv m
      → Inv (read_history_dump_chunk b dump_id offset size m).1
  unfolding read_history_dump_chunk
  read_history_dump_chunk-Inv dump_id offset size m i =
      read_dump-Inv dump_id offset size m.active_history_dump m refl i

  finish_dump-Inv :
      (dump_id : ℕ) (m : Manager F D)
      → Inv m
      → is_some m.active_history_dump ≡ true
      → clears (some dump_id) m.active_history_dump ≡ true
      → Inv (finish_dump b dump_id m).1
  unfolding finish_dump
  finish_dump-Inv dump_id m i a c =
      finish-Inv b connection_lost _ _
        (resume-IsWorking b _ (dropped-IsWorking b (some dump_id) m i a c))

  end_dump-Inv :
      (dump_id : ℕ) (dump : Option ActiveHistoryDump) (m : Manager F D)
      → m.active_history_dump ≡ dump
      → Inv m
      → Inv (end_dump b dump_id dump m).1
  end_dump-Inv dump_id none m e i = i
  end_dump-Inv dump_id (some dump) m e i =
      elim (Bool-cases (is_same_dump dump dump_id m.state.session_id)) [
        | inl same ↦ rw same (finish_dump-Inv dump_id m i (ground arith) (ground arith))
        | inr other ↦ rw other i
      ]

  pub end_history_dump-Inv :
      (dump_id : ℕ) (m : Manager F D) → Inv m → Inv (end_history_dump b dump_id m).1
  unfolding end_history_dump
  end_history_dump-Inv dump_id m i = end_dump-Inv dump_id m.active_history_dump m refl i

  chunk_read-IsWorking :
      (cell offset size : ℕ) (paused : Result (Unit {0})) (m : Manager F D)
      → IsWorking m
      → IsWorking (chunk_read b cell offset size paused m).1
  chunk_read-IsWorking cell offset size (err error) m w = w
  chunk_read-IsWorking cell offset size (ok _) m w =
      resume-IsWorking b _ (call-IsWorking (b.read_history_chunk offset size cell none) m w)

  with_cell-IsWorking : (m : Manager F D) → IsWorking m → IsWorking (new_cancellation b m).1
  with_cell-IsWorking m w = ground arith

  pub read_history_chunk-Inv :
      (offset size : ℕ) (m : Manager F D) → Inv m → Inv (read_history_chunk b offset size m).1
  unfolding read_history_chunk
  read_history_chunk-Inv offset size m i = when_ready-Inv _ m i λ r.
      finish-Inv b connection_lost _ _ (
        chunk_read-IsWorking _ offset size _ _
          (ensure-IsWorking b _ (with_cell-IsWorking _ (started "reading_device_history" m i r))))
