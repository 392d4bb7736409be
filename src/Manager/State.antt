-- ===== src/Manager/State.antt =====
-- The fields of `Manager` in src/manager.rs, and the methods that only touch them. Counters are
-- unbounded numbers: the build checks overflow and aborts on it. `published` is the value in the
-- watch channel, `events` what was broadcast, newest first.
use wireview_pro_ii.Base.{
  ℕ, ◌+◌, ◌-◌, String, Bool, false, ◌||◌, not, List, [], ◌∷◌, Option, none, some, is_some, ◌==◌,
  if◌then◌else◌,
}
use wireview_pro_ii.Base.State.{State, gets, ◌>>◌}
use wireview_pro_ii.Domain.Error.{Result}
use wireview_pro_ii.Domain.Connection.{
  ConnectionState, ready, busy, DaemonState, DeviceEvent, default_state,
}
use wireview_pro_ii.Manager.Backend.{Call, Backend}

pub record RetryState : Type 0 where
  pub port : String
  pub attempt : ℕ
  pub not_before : Option ℕ

pub record ActiveHistoryDump : Type 0 where
  pub id : ℕ
  pub session_id : ℕ
  pub expires_at : ℕ
  pub cancellation : ℕ

pub record HistoryDump : Type 0 where
  pub id : ℕ
  pub session_id : ℕ
  pub total_bytes : ℕ

pub record DisplayPauseState : Type 0 where
  pub paused : Bool
  pub debug_lease_active : Bool
  pub history_dump_active : Bool
  pub remaining_ms : ℕ

pub record Manager (F D : Type 0) : Type 0 where
  pub device : D
  pub poll_interval : ℕ
  pub published : DaemonState F
  pub events : List DeviceEvent
  pub state : DaemonState F
  pub current_port : Option String
  pub retry : Option RetryState
  pub consecutive_poll_failures : ℕ
  pub last_successful_poll : Option ℕ
  pub active_history_dump : Option ActiveHistoryDump
  pub next_history_dump_id : ℕ
  pub debug_pause_expires_at : Option ℕ
  pub display_physically_paused : Bool
  pub display_resume_retry_at : Option ℕ
  pub history_cancellation : Option (ℕ × ℕ)
  pub last_nvm_mutation : Option ℕ

-- A method of the manager.
abbrev pub M : Type 0 → Type 0 → Type 0 → Type 0
M F D A = State (Manager F D) A

-- `active.is_some_and(|(active_id, _)| Some(active_id) == dump_id)`
abbrev holds_id : Option (ℕ × ℕ) → Option ℕ → Bool
holds_id (some (active_id, cell)) (some dump_id) = active_id == dump_id
holds_id _ _ = false

-- `saturating_duration_since`; a lease lasts at most 300,000 ms, so it fits a `u64`.
abbrev remaining : Option ℕ → ℕ → ℕ
remaining none time = 0
remaining (some expires_at) time = expires_at - time

module _ {F D : Type 0} where
  -- The manager that `spawn_manager` starts.
  unfoldable pub initial : D → ℕ → Manager F D
  unfolding default_state
  initial d poll_interval = record {
    device = d;
    poll_interval = poll_interval;
    published = default_state;
    events = [];
    state = default_state;
    current_port = none;
    retry = none;
    consecutive_poll_failures = 0;
    last_successful_poll = none;
    active_history_dump = none;
    next_history_dump_id = 0;
    debug_pause_expires_at = none;
    display_physically_paused = false;
    display_resume_retry_at = none;
    history_cancellation = none;
    last_nvm_mutation = none;
  }

  abbrev pub call : {A : Type 0} → Call D A → M F D (Result A)
  call op m = let (r, d) = op m.device in (r, record m { device = d })

  -- A call outside that cannot fail.
  abbrev pub effect : (D → D) → M F D (Unit {0})
  effect op m = (tt, record m { device = op m.device })

  abbrev pub change_state : (DaemonState F → DaemonState F) → M F D (Unit {0})
  change_state f m = (tt, record m { state = f m.state })

  abbrev pub connection_is : ConnectionState → M F D (Unit {0})
  connection_is c = change_state λ s. record s { connection = c }

  -- `event_tx.send`
  abbrev pub broadcast : (DaemonState F → DeviceEvent) → M F D (Unit {0})
  broadcast e m = (tt, record m { events = e m.state ∷ m.events })

  unfoldable pub bump_and_publish : M F D (Unit {0})
  bump_and_publish m =
      let s = record (m.state) { sequence = m.state.sequence + 1 } in
      (tt, record m { state = s; published = s })

  unfoldable pub set_busy : String → M F D (Unit {0})
  unfolding bump_and_publish
  set_busy operation = do
    change_state λ s. record s { connection = busy s.session_id operation }
    bump_and_publish

  unfoldable pub set_ready : M F D (Unit {0})
  unfolding bump_and_publish
  set_ready = do change_state λ s. record s { connection = ready s.session_id }; bump_and_publish

  unfoldable pub clear_history_cancellation : Option ℕ → M F D (Unit {0})
  clear_history_cancellation dump_id m = (
    tt,
    if not (is_some dump_id) || holds_id m.history_cancellation dump_id
        then record m { history_cancellation = none }
        else m,
  )

module _ {F D : Type 0} (b : Backend F D) where
  abbrev pub now : M F D ℕ
  now = gets λ m. b.now m.device

  unfoldable pub display_pause_state : M F D DisplayPauseState
  display_pause_state = gets λ m. record {
    paused = m.display_physically_paused;
    debug_lease_active = is_some m.debug_pause_expires_at;
    history_dump_active = is_some m.active_history_dump;
    remaining_ms = remaining m.debug_pause_expires_at (b.now m.device);
  }
