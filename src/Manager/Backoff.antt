-- ===== src/Manager/Backoff.antt =====
-- The delays between two connection attempts in src/manager.rs.
use wireview_pro_ii.Base.{
  ℕ, ◌+◌, ◌-◌, ◌^◌, ◌≤◌, ◌<◌, ◌≡◌, min, String, Bool, true, false, none, some, arith,
  pow-le-pow_right, one-le-pow, [], ◌∷◌,
}
use wireview_pro_ii.Base.Sort.{same_text_refl}
use wireview_pro_ii.Domain.Error.{DeviceError, unsupported, protocol_unverified}
use wireview_pro_ii.Manager.Backend.{Backend}
use wireview_pro_ii.Manager.State.{Manager, bump_and_publish, clear_history_cancellation}
use wireview_pro_ii.Manager.Connection.{
  retry_delay, next_attempt, retry_is_due, connection_failed, single, handle_candidates,
}

doubles : (n m : ℕ) → n ≤ m → 2 ^ min (n - 1) 7 ≤ 2 ^ min (m - 1) 7
doubles n m h = pow-le-pow_right (ground arith) (ground arith)

-- A retry waits for a quarter of a second at least and for half a minute at most, and no less
-- after more attempts.
pub retry_delay_lem :
    (n m : ℕ)
    → n ≤ m
    → (250 ≤ retry_delay n) × (retry_delay n ≤ retry_delay m) × (retry_delay m ≤ 30000)
unfolding retry_delay
retry_delay_lem n m h =
    let grows = doubles n m h in
    let one = one-le-pow (min (n - 1) 7) 2 (ground arith) in
    (ground arith, ground arith, ground arith)

-- The errors after which a port is not tried again by itself.
abbrev pub is_permanent : DeviceError → Bool
is_permanent (unsupported reason) = true
is_permanent (protocol_unverified reason) = true
is_permanent _ = false

module _ {F D : Type 0} (b : Backend F D) where
  -- After a failed attempt the retry is scheduled with the next delay.
  connection_failed_retries :
      (port : String) (error : DeviceError) (m : Manager F D)
      → is_permanent error ≡ false
      → (connection_failed b port error m).1.retry
        ≡ some (record {
          port = port;
          attempt = next_attempt port m.retry;
          not_before =
              some (b.now (b.disconnect m.device) + retry_delay (next_attempt port m.retry));
        })
  unfolding connection_failed bump_and_publish clear_history_cancellation
  connection_failed_retries port error m h = ground arith

  unplugged :
      (port : String) (error : DeviceError) (m : Manager F D)
      → (connection_failed b port error m).1.current_port ≡ none
  unfolding connection_failed bump_and_publish clear_history_cancellation
  unplugged port error m = ground arith

  -- Until its time has come, a port that is announced again is left alone.
  early_retry :
      (port : String) (attempt time : ℕ) (m : Manager F D)
      → m.current_port ≡ none
      → m.retry ≡ some (record { port = port; attempt = attempt; not_before = some time })
      → b.now m.device < time
      → (handle_candidates b (port ∷ []) m).1 ≡ m
  unfolding handle_candidates single retry_is_due
  early_retry port attempt time m free e early = grind (arith, same_text_refl)

  -- After a connection attempt has failed for a reason that can pass, the port may be announced
  -- again as often as the host likes: until the delay of the attempt is over, nothing happens.
  pub failed_port_waits :
      (port : String) (error : DeviceError) (d : D) (m : Manager F D)
      → is_permanent error ≡ false
      → b.now d < b.now (b.disconnect m.device) + retry_delay (next_attempt port m.retry)
      → (handle_candidates b
          (port ∷ [])
          (record ((connection_failed b port error m).1) { device = d })).1
        ≡ record ((connection_failed b port error m).1) { device = d }
  failed_port_waits port error d m temporary early =
      early_retry port _ _ _ (unplugged port error m)
        (connection_failed_retries port error m temporary) early
