-- ===== src/Manager/Loop.antt =====
-- `Manager::run` of src/manager.rs: `select!` takes a timer that is due, a host event or a
-- command, whichever comes. Between two turns of the loop the outside may change at will.
use wireview_pro_ii.Base.{
  ℕ, ◌+◌, ◌≤◌, ◌≡◌, min, Bool, true, false, Option, none, some, leb, if◌then◌else◌,
}
use wireview_pro_ii.Base.State.{◌>>◌}
use wireview_pro_ii.Domain.Connection.{DisconnectReason}
use wireview_pro_ii.Manager.Backend.{Env}
use wireview_pro_ii.Manager.State.{Manager, M, initial}
use wireview_pro_ii.Manager.Connection.{
  HostEvent, candidates, shutdown, disconnect, handle_host_event,
}
use wireview_pro_ii.Manager.Timers.{
  poll_once, expire_history_dump, expire_debug_pause, retry_display_resume_cleanup,
}
use wireview_pro_ii.Manager.Dispatch.{Command, handle_command}

pub record Loop (F D : Type 0) : Type 0 where
  pub manager : Manager F D
  pub next_poll : ℕ
  pub running : Bool

abbrev pub earlier : Option ℕ → ℕ → ℕ
earlier none wake_at = wake_at
earlier (some time) wake_at = min wake_at time

module _ {F D : Type 0} (env : Env F D) where
  open env use {backend}

  -- The expiry of the active dump.
  abbrev pub dump_expires_at : Manager F D → Option ℕ
  dump_expires_at m = elim m.active_history_dump [ none ↦ none | some dump ↦ some dump.expires_at ]

  -- When the loop wakes at the latest: at the next poll, or at the first lease or retry.
  unfoldable pub wake_at : Loop F D → ℕ
  wake_at l = earlier (dump_expires_at l.manager) (
      earlier l.manager.debug_pause_expires_at
        (earlier l.manager.display_resume_retry_at l.next_poll))

  unfoldable pub run_timers : M F D (Unit {0})
  run_timers = do
    expire_history_dump backend
    expire_debug_pause backend
    retry_display_resume_cleanup backend

  unfoldable pub on_wake : Loop F D → Loop F D
  on_wake l =
      let m = (run_timers l.manager).1 in
      if leb l.next_poll (backend.now m.device)
      then (let polled = (poll_once backend m).1 in
          record l {
            manager = polled;
            next_poll = backend.now polled.device + polled.poll_interval;
          })
      else record l { manager = m }

  unfoldable pub on_host_event : HostEvent → Loop F D → Loop F D
  on_host_event shutdown l = record l {
    manager = (disconnect backend DisconnectReason.shutdown l.manager).1;
    running = false;
  }
  on_host_event (candidates found) l = record l {
    manager = (handle_host_event backend (candidates found) l.manager).1;
  }

  unfoldable pub on_command : Command F → Loop F D → Loop F D
  on_command c l = record l { manager = (handle_command env c l.manager).1 }

  unfoldable pub spawn_manager : D → ℕ → Loop F D
  spawn_manager d poll_interval = record {
    manager = initial d poll_interval;
    next_poll = backend.now d;
    running = true;
  }

  -- One turn of the loop, or a change of what lies outside.
  pub data Step (l : Loop F D) : Loop F D → Type 0 where
    wake : l.running ≡ true → wake_at l ≤ backend.now l.manager.device → Step l (on_wake l)
    host : (e : HostEvent) → l.running ≡ true → Step l (on_host_event e l)
    command : (c : Command F) → l.running ≡ true → Step l (on_command c l)
    outside : (d : D) → Step l (record l { manager = record (l.manager) { device = d } })

  -- What a started manager can reach; after a shutdown nothing more happens.
  pub data Reach (l : Loop F D) : Loop F D → Type 0 where
    here : Reach l l
    next : {k n : Loop F D} → Reach l k → Step k n → Reach l n
