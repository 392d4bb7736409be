-- ===== src/Manager/Leases.antt =====
-- The deadlines of `Manager::run` in src/manager.rs: the loop does not sleep past one of them, and
-- a lease that is over ends when it wakes.
use wireview_pro_ii.Base.{
  ℕ, ◌≤◌, ◌≡◌, refl, Bool, true, not, ◌||◌, Option, none, some, leb, ltb, inl, inr, arith,
  Bool-cases,
}
use wireview_pro_ii.Domain.Error.{Result, ok, err, is_connection_lost}
use wireview_pro_ii.Domain.Connection.{DisconnectReason, is_ready}
use wireview_pro_ii.Manager.Backend.{Backend, Env}
use wireview_pro_ii.Manager.State.{
  ActiveHistoryDump, Manager, bump_and_publish, set_ready, clear_history_cancellation,
}
use wireview_pro_ii.Manager.Display.{is_owned, resume_display_if_unowned}
use wireview_pro_ii.Manager.Connection.{disconnect}
use wireview_pro_ii.Manager.Timers.{
  after_dump, after_pause, after_retry, dump_expiry, pause_expiry, resume_retry,
  expire_history_dump, expire_debug_pause, retry_display_resume_cleanup,
}
use wireview_pro_ii.Manager.Loop.{Loop, dump_expires_at, wake_at, run_timers}

abbrev pub is_due_by : ℕ → Option ℕ → Bool
is_due_by time none = true
is_due_by time (some deadline) = leb time deadline

module _ {F D : Type 0} (env : Env F D) where
  open env use {backend}

  -- The loop wakes no later than the next poll, the end of a dump's lease, the end of the debug
  -- pause, and the retry of the resume.
  pub wake_at_lem :
      (l : Loop F D)
      → (wake_at env l ≤ l.next_poll)
        × (is_due_by (wake_at env l) (dump_expires_at env l.manager) ≡ true)
        × (is_due_by (wake_at env l) l.manager.debug_pause_expires_at ≡ true)
        × (is_due_by (wake_at env l) l.manager.display_resume_retry_at ≡ true)
  unfolding wake_at
  wake_at_lem l = ground arith

-- There is no debug pause, or its time is over.
abbrev is_over : {F D : Type 0} → Backend F D → Manager F D → Bool
is_over b m = elim m.debug_pause_expires_at [ none ↦ true | some end ↦ leb end (b.now m.device) ]

module _ {F D : Type 0} (b : Backend F D)
    (disconnecting : (d : D) → b.now d ≤ b.now (b.disconnect d))
    (resuming : (d : D) → b.now d ≤ b.now (b.resume_history_updates d).1) where
  resume-is_over :
      (m : Manager F D) → is_over b m ≡ true → is_over b (resume_display_if_unowned b m).1 ≡ true
  unfolding resume_display_if_unowned
  resume-is_over m h = let later = resuming m.device in ground arith

  disconnect-is_over :
      (reason : DisconnectReason) (m : Manager F D)
      → is_over b m ≡ true
      → is_over b (disconnect b reason m).1 ≡ true
  unfolding disconnect clear_history_cancellation bump_and_publish
  disconnect-is_over reason m h = let later = disconnecting m.device in ground arith

  after_dump-is_over :
      (r : Result (Unit {0})) (m : Manager F D)
      → is_over b m ≡ true
      → is_over b (after_dump b r m).1 ≡ true
  unfolding set_ready
  after_dump-is_over (ok _) m h = h
  after_dump-is_over (err e) m h = elim (Bool-cases (is_connection_lost e)) [
    | inl gone ↦ rw gone (disconnect-is_over DisconnectReason.serial_hangup m h)
    | inr other ↦ rw other h
  ]

  dropped-is_over :
      (m : Manager F D)
      → is_over b m ≡ true
      → is_over b (clear_history_cancellation none (record m { active_history_dump = none })).1
        ≡ true
  unfolding clear_history_cancellation
  dropped-is_over m h = ground arith

  dump_expiry-is_over :
      (dump : Option ActiveHistoryDump) (m : Manager F D)
      → is_over b m ≡ true
      → is_over b (dump_expiry b dump m).1 ≡ true
  dump_expiry-is_over none m h = h
  dump_expiry-is_over (some dump) m h = elim (Bool-cases (ltb (b.now m.device) dump.expires_at)) [
    | inl early ↦ rw early h
    | inr due ↦ rw due (after_dump-is_over _ _ (resume-is_over _ (dropped-is_over m h)))
  ]

  resume-ended :
      (m : Manager F D)
      → m.debug_pause_expires_at ≡ none
      → (resume_display_if_unowned b m).1.debug_pause_expires_at ≡ none
  unfolding resume_display_if_unowned
  resume-ended m h = ground arith

  disconnect-ended :
      (reason : DisconnectReason) (m : Manager F D)
      → m.debug_pause_expires_at ≡ none
      → (disconnect b reason m).1.debug_pause_expires_at ≡ none
  unfolding disconnect clear_history_cancellation bump_and_publish
  disconnect-ended reason m h = ground arith

  after_pause-ended :
      (r : Result (Unit {0})) (m : Manager F D)
      → m.debug_pause_expires_at ≡ none
      → (after_pause b r m).1.debug_pause_expires_at ≡ none
  after_pause-ended (ok _) m h = h
  after_pause-ended (err e) m h = elim (Bool-cases (is_connection_lost e)) [
    | inl gone ↦ rw gone (disconnect-ended DisconnectReason.serial_hangup m h)
    | inr other ↦ rw other h
  ]

  pause_expiry-ended :
      (lease : Option ℕ) (m : Manager F D)
      → m.debug_pause_expires_at ≡ lease
      → is_over b m ≡ true
      → (pause_expiry b lease m).1.debug_pause_expires_at ≡ none
  pause_expiry-ended none m e h = e
  pause_expiry-ended (some expires_at) m e h = elim (Bool-cases (ltb (b.now m.device) expires_at)) [
    | inl early ↦ ground arith
    | inr due ↦ rw due (after_pause-ended _ _ (resume-ended _ refl))
  ]

  after_retry-ended :
      (r : Result (Unit {0})) (m : Manager F D)
      → m.debug_pause_expires_at ≡ none
      → (after_retry b r m).1.debug_pause_expires_at ≡ none
  unfolding bump_and_publish
  after_retry-ended (ok _) m h = h
  after_retry-ended (err e) m h = elim (Bool-cases (is_connection_lost e)) [
    | inl gone ↦ rw gone (disconnect-ended DisconnectReason.serial_hangup m h)
    | inr other ↦ rw other h
  ]

  resume_retry-ended :
      (retry_at : Option ℕ) (m : Manager F D)
      → m.debug_pause_expires_at ≡ none
      → (resume_retry b retry_at m).1.debug_pause_expires_at ≡ none
  resume_retry-ended none m h = h
  resume_retry-ended (some retry_at) m h =
      elim (Bool-cases (ltb (b.now m.device) retry_at || not (is_ready m.state.connection))) [
        | inl early ↦ rw early h
        | inr due ↦ rw due (elim (Bool-cases (is_owned m || not m.display_physically_paused)) [
          | inl needless ↦ rw needless h
          | inr owed ↦ rw owed (after_retry-ended _ _ (resume-ended m h))
        ])
      ]

-- When the loop wakes and the time of the debug pause is over, the pause ends, if the clock does
-- not go back while the device is called.
pub lease_ends :
    {F D : Type 0} (env : Env F D) (expires_at : ℕ) (m : Manager F D)
    → ((d : D) → env.backend.now d ≤ env.backend.now (env.backend.disconnect d))
    → ((d : D) → env.backend.now d ≤ env.backend.now (env.backend.resume_history_updates d).1)
    → m.debug_pause_expires_at ≡ some expires_at
    → expires_at ≤ env.backend.now m.device
    → (run_timers env m).1.debug_pause_expires_at ≡ none
unfolding run_timers expire_history_dump expire_debug_pause retry_display_resume_cleanup
lease_ends env expires_at m disconnecting resuming e over =
    let b = env.backend in
    let dumped = (expire_history_dump b m).1 in
    let still =
      dump_expiry-is_over b disconnecting resuming m.active_history_dump m (ground arith) in
    let paused = (expire_debug_pause b dumped).1 in
    resume_retry-ended b disconnecting resuming paused.display_resume_retry_at paused
      (pause_expiry-ended b disconnecting resuming dumped.debug_pause_expires_at dumped refl still)
