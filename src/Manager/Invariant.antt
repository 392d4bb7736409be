-- ===== src/Manager/Invariant.antt =====
-- What holds of `Manager` in src/manager.rs between two turns of its loop.
use wireview_pro_ii.Base.{ℕ, ◌≡◌, true, false, not, ◌||◌, Option, none, some, is_some, arith}
use wireview_pro_ii.Domain.Telemetry.{Telemetry}
use wireview_pro_ii.Domain.Connection.{
  ConnectionState, absent, discovering, connecting, ready, busy, disconnecting, recovering,
  unsupported, ambiguous_device, is_ready, is_busy,
}
use wireview_pro_ii.Manager.State.{ActiveHistoryDump, Manager, initial}
use wireview_pro_ii.Manager.Display.{is_owned}
use wireview_pro_ii.Manager.Connection.{is_fresh}

module _ {F : Type 0} where
  -- There is a reading, and it was taken in that session.
  abbrev pub IsOfSession : ℕ → Option (Telemetry F) → Type 0
  IsOfSession session_id none = ⊥
  IsOfSession session_id (some t) = t.session_id ≡ session_id

-- A dump belongs to the session, and is the last that was given out.
abbrev pub IsCurrent : ℕ → ℕ → Option ActiveHistoryDump → Type 0
IsCurrent session_id last_id none = Unit
IsCurrent session_id last_id (some d) = (d.session_id ≡ session_id) × (d.id ≡ last_id)

-- What the shared cancellation slot holds while a dump is active.
abbrev pub slot_of : Option ActiveHistoryDump → Option (ℕ × ℕ)
slot_of none = none
slot_of (some d) = some (d.id, d.cancellation)

module _ {F D : Type 0} where
  -- A device is attached: its port, its identity and a reading of this session are known.
  pub record IsAttached (m : Manager F D) : Type 0 where
    pub port : is_some m.current_port ≡ true
    pub same_port : m.state.connected_port ≡ m.current_port
    pub identity : is_some m.state.identity ≡ true
    pub telemetry : IsOfSession m.state.session_id m.state.telemetry

  -- No device is attached: nothing of a session is left, and no reading passes for a fresh one.
  pub record IsDetached (m : Manager F D) : Type 0 where
    pub port : m.current_port ≡ none
    pub connected_port : m.state.connected_port ≡ none
    pub dump : m.active_history_dump ≡ none
    pub pause : m.debug_pause_expires_at ≡ none
    pub paused : m.display_physically_paused ≡ false
    pub retry_at : m.display_resume_retry_at ≡ none
    pub slot : m.history_cancellation ≡ none
    pub stale : is_fresh m.state.telemetry ≡ false

  -- The leases on the display.
  pub record HasLeases (m : Manager F D) : Type 0 where
    pub slot : m.history_cancellation ≡ slot_of m.active_history_dump
    pub current : IsCurrent m.state.session_id m.next_history_dump_id m.active_history_dump
    pub owner_pauses : not (is_owned m) || m.display_physically_paused ≡ true
    pub retry_pauses : not (is_some m.display_resume_retry_at) || m.display_physically_paused ≡ true

  -- The connection state says what the manager holds. It is busy between two turns only for an
  -- active dump, and `discovering`, `connecting` and `disconnecting` do not outlast a turn.
  abbrev pub Fits : ConnectionState → Manager F D → Type 0
  Fits (ready s) m =
      (s ≡ m.state.session_id) × IsAttached m × HasLeases m × (m.active_history_dump ≡ none)
  Fits (busy s operation) m =
      (s ≡ m.state.session_id) × IsAttached m × HasLeases m × (is_some m.active_history_dump ≡ true)
  Fits (absent reason) m = IsDetached m
  Fits (recovering attempt cause) m = IsDetached m
  Fits (unsupported reason) m = IsDetached m
  Fits (ambiguous_device candidates) m = IsDetached m
  Fits discovering m = ⊥
  Fits (connecting port) m = ⊥
  Fits (disconnecting s cause) m = ⊥

  pub record Inv (m : Manager F D) : Type 0 where
    pub published : m.published ≡ m.state
    pub fits : Fits m.state.connection m

  -- An operation is under way on an attached device, and no dump is active.
  pub record IsWorking (m : Manager F D) : Type 0 where
    pub attached : IsAttached m
    pub leases : HasLeases m
    pub dump : m.active_history_dump ≡ none
    pub connection : is_ready m.state.connection || is_busy m.state.connection ≡ true

  pub initial-Inv : (d : D) (poll_interval : ℕ) → Inv (initial {F = F} d poll_interval)
  unfolding initial
  initial-Inv d poll_interval = ground arith
