-- ===== src/Manager/Display.antt =====
-- The display pause of `Manager` in src/manager.rs: the screen updates stop while a history dump
-- or a debug lease owns them, and start again when nobody does.
use wireview_pro_ii.Base.{ℕ, ◌+◌, Bool, true, false, not, ◌||◌, none, some, is_some, if◌then◌else◌}
use wireview_pro_ii.Base.State.{modify, gets, pure, ◌>>=◌, ◌>>◌}
use wireview_pro_ii.Domain.Error.{Result, ok, err, is_connection_lost}
use wireview_pro_ii.Manager.Backend.{Backend}
use wireview_pro_ii.Manager.State.{Manager, M, call}

abbrev pub display_resume_retry_delay : ℕ
display_resume_retry_delay = 1000

-- `active_history_dump.is_some() || debug_pause_expires_at.is_some()`
abbrev pub is_owned : {F D : Type 0} → Manager F D → Bool
is_owned m = is_some m.active_history_dump || is_some m.debug_pause_expires_at

module _ {F D : Type 0} (b : Backend F D) where
  abbrev pause_result : Result (Unit {0}) → M F D (Result (Unit {0}))
  pause_result (ok _) m =
      (ok tt, record m { display_physically_paused = true; display_resume_retry_at = none })
  pause_result (err e) m = (err e, m)

  unfoldable pub ensure_display_paused : M F D (Result (Unit {0}))
  ensure_display_paused = do
    paused ← gets (λ m. m.display_physically_paused)
    if paused then pure (ok tt) else do result ← call b.pause_history_updates; pause_result result

  abbrev resume_result : Result (Unit {0}) → M F D (Result (Unit {0}))
  resume_result (ok _) m =
      (ok tt, record m { display_physically_paused = false; display_resume_retry_at = none })
  resume_result (err e) m = (
    err e,
    if is_connection_lost e then m else record m {
      display_resume_retry_at = some (b.now m.device + display_resume_retry_delay);
    },
  )

  unfoldable pub resume_display_if_unowned : M F D (Result (Unit {0}))
  resume_display_if_unowned = do
    keep ← gets (λ m. is_owned m || not m.display_physically_paused)
    if keep
        then (modify (λ m. record m { display_resume_retry_at = none }) >> pure (ok tt))
        else do result ← call b.resume_history_updates; resume_result result
