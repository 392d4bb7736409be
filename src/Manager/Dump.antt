-- ===== src/Manager/Dump.antt =====
-- The history commands of src/manager.rs: a dump under a lease of ten seconds that each chunk
-- renews, and the single chunk.
use wireview_pro_ii.Base.{
  ℕ, ◌+◌, ◌-◌, ◌^◌, min, Bool, ◌&&◌, List, Option, none, some, ◌==◌, if◌then◌else◌,
}
use wireview_pro_ii.Base.State.{modify, gets, pure, ◌>>=◌, ◌>>◌}
use wireview_pro_ii.Domain.Error.{connection_lost, invalid_argument, Result, ok, err}
use wireview_pro_ii.Manager.Backend.{Backend}
use wireview_pro_ii.Manager.State.{
  ActiveHistoryDump, HistoryDump, M, call, now, set_busy, clear_history_cancellation,
}
use wireview_pro_ii.Manager.Display.{ensure_display_paused, resume_display_if_unowned}
use wireview_pro_ii.Manager.Reply.{when_ready, when_ready_or_busy, finish, pass}

abbrev pub flash_length : ℕ
flash_length = 0x0080_0000

abbrev pub u64_max : ℕ
u64_max = 2 ^ 64 - 1

-- `Duration::from_secs(10)`
abbrev pub dump_lease : ℕ
dump_lease = 10000

abbrev pub is_same_dump : ActiveHistoryDump → ℕ → ℕ → Bool
is_same_dump dump dump_id session_id = dump.id == dump_id && dump.session_id == session_id

-- `match (read, resume)`: an error of the read hides one of the resume.
abbrev pub both : {A : Type 0} → Result A → Result (Unit {0}) → Result A
both (ok bytes) (ok _) = ok bytes
both (err error) resume = err error
both (ok bytes) (err error) = err error

module _ {F D : Type 0} (b : Backend F D) where
  -- `ReadCancellation::default()`
  abbrev pub new_cancellation : M F D ℕ
  new_cancellation m =
      let (cell, d) = b.new_cancellation m.device in (cell, record m { device = d })

  unfoldable pub start_dump : M F D (Result HistoryDump)
  start_dump = do
    modify (λ m. record m { next_history_dump_id = min (m.next_history_dump_id + 1) u64_max })
    dump ← gets (λ m. record {
      id = m.next_history_dump_id;
      session_id = m.state.session_id;
      total_bytes = flash_length;
    })
    cell ← new_cancellation
    time ← now b
    modify (λ m. record m {
      history_cancellation = some (dump.id, cell);
      active_history_dump = some (record {
        id = dump.id;
        session_id = dump.session_id;
        expires_at = time + dump_lease;
        cancellation = cell;
      });
    })
    set_busy "reading_device_history"
    pure (ok dump)

  abbrev pub begun : Result (Unit {0}) → M F D (Result HistoryDump)
  begun (ok _) = start_dump
  begun (err error) = pass b connection_lost (err error)

  unfoldable pub begin_history_dump : M F D (Result HistoryDump)
  begin_history_dump =
      when_ready_or_busy "another history dump is active" (ensure_display_paused b >>= begun)

  unfoldable pub renew_and_read : ActiveHistoryDump → ℕ → ℕ → M F D (Result (List ℕ))
  renew_and_read dump offset size = do
    time ← now b
    modify (λ m. record m {
      active_history_dump = some (record dump { expires_at = time + dump_lease });
    })
    result ← call (b.read_history_chunk offset size dump.cancellation (some (time + dump_lease)))
    pass b connection_lost result

  abbrev pub read_dump : ℕ → ℕ → ℕ → Option ActiveHistoryDump → M F D (Result (List ℕ))
  read_dump dump_id offset size none = pure (err (invalid_argument "history dump is not active"))
  read_dump dump_id offset size (some dump) = do
    session_id ← gets (λ m. m.state.session_id)
    if is_same_dump dump dump_id session_id
        then renew_and_read dump offset size
        else pure (err (invalid_argument "history dump belongs to a different session"))

  unfoldable pub read_history_dump_chunk : ℕ → ℕ → ℕ → M F D (Result (List ℕ))
  read_history_dump_chunk dump_id offset size =
      gets (λ m. m.active_history_dump) >>= read_dump dump_id offset size

  unfoldable pub finish_dump : ℕ → M F D (Result (Unit {0}))
  finish_dump dump_id = do
    modify (λ m. record m { active_history_dump = none })
    clear_history_cancellation (some dump_id)
    result ← resume_display_if_unowned b
    finish b connection_lost result

  abbrev pub end_dump : ℕ → Option ActiveHistoryDump → M F D (Result (Unit {0}))
  end_dump dump_id none = pure (err (invalid_argument "history dump is not active"))
  end_dump dump_id (some dump) = do
    session_id ← gets (λ m. m.state.session_id)
    if is_same_dump dump dump_id session_id
        then finish_dump dump_id
        else pure (err (invalid_argument "history dump belongs to a different session"))

  unfoldable pub end_history_dump : ℕ → M F D (Result (Unit {0}))
  end_history_dump dump_id = gets (λ m. m.active_history_dump) >>= end_dump dump_id

  abbrev pub chunk_read : ℕ → ℕ → ℕ → Result (Unit {0}) → M F D (Result (List ℕ))
  chunk_read cell offset size (err error) = pure (err error)
  chunk_read cell offset size (ok _) = do
    read ← call (b.read_history_chunk offset size cell none)
    resume ← resume_display_if_unowned b
    pure (both read resume)

  unfoldable pub read_history_chunk : ℕ → ℕ → M F D (Result (List ℕ))
  read_history_chunk offset size = when_ready (do
    set_busy "reading_device_history"
    cell ← new_cancellation
    paused ← ensure_display_paused b
    result ← chunk_read cell offset size paused
    finish b connection_lost result)
