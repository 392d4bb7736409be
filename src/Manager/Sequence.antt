-- ===== src/Manager/Sequence.antt =====
-- What src/manager.rs publishes is numbered: the parts of its methods.
use wireview_pro_ii.Base.{
  ◌≤◌, ◌<◌, ◌≡◌, ◌⊎◌, inl, inr, String, Bool, true, false, List, [], ◌∷◌, is_some, arith,
  Bool-cases, if◌then◌else◌,
}
use wireview_pro_ii.Base.Sort.{sort, dedup, is_text}
use wireview_pro_ii.Domain.Error.{DeviceError, Result, ok, err}
use wireview_pro_ii.Domain.Telemetry.{DeviceIdentity, Telemetry}
use wireview_pro_ii.Domain.Connection.{
  DisconnectReason, DaemonState, ConnectionState, ambiguous_device, is_ready,
}
use wireview_pro_ii.Manager.Backend.{Call, Backend}
use wireview_pro_ii.Manager.State.{
  Manager, M, call, bump_and_publish, set_busy, set_ready, clear_history_cancellation,
  connection_is,
}
use wireview_pro_ii.Manager.Connection.{
  HostEvent, candidates, shutdown, is_ambiguous, disconnect, connection_failed, established,
  first_reading, opened, connect, retry_is_due, single, several, handle_candidates,
  handle_host_event,
}
use wireview_pro_ii.Manager.Reply.{when_ready, when_ready_or_busy}
use wireview_pro_ii.Manager.Frame.{Same}

module _ {F D : Type 0} (start : DaemonState F) where
  -- Since `start` was published, nothing else was, or something with a higher number; and the
  -- number did not fall.
  pub record IsLater (m : Manager F D) : Type 0 where
    pub grown : start.sequence ≤ m.state.sequence
    pub behind : m.published.sequence ≤ m.state.sequence
    pub told : (m.published ≡ start) ⊎ (start.sequence < m.published.sequence)

  abbrev pub Numbers : {A : Type 0} → M F D A → Type 0
  Numbers {A} f = (m : Manager F D) → IsLater m → IsLater (f m).1

  bump-Numbers : Numbers bump_and_publish
  unfolding bump_and_publish
  bump-Numbers m h = ground arith

  pub set_busy-Numbers : (operation : String) → Numbers (set_busy operation)
  unfolding set_busy
  set_busy-Numbers operation m h = ground arith

  pub set_ready-Numbers : Numbers set_ready
  unfolding set_ready
  set_ready-Numbers m h = ground arith

  pub Numbers-if :
      {A : Type 0} (c : Bool) (f g : M F D A) → Numbers f → Numbers g → Numbers (if c then f else g)
  Numbers-if true f g p q = p
  Numbers-if false f g p q = q

  pub call-Numbers : {A : Type 0} (op : Call D A) → Numbers (call op)
  call-Numbers op m h = ground arith

  pub Same-IsLater : (m n : Manager F D) → Same m n → IsLater m → IsLater n
  Same-IsLater m n s h = ground arith

  pub when_ready-Numbers :
      {A : Type 0} (body : M F D (Result A)) → Numbers body → Numbers (when_ready body)
  when_ready-Numbers body p m h = Numbers-if (is_ready m.state.connection) body _ p (λ n k. k) m h

  pub when_ready_or_busy-Numbers :
      {A : Type 0} (message : String) (body : M F D (Result A))
      → Numbers body
      → Numbers (when_ready_or_busy message body)
  when_ready_or_busy-Numbers message body p m h =
      Numbers-if (is_ready m.state.connection) body _ p (λ n k. k) m h

module _ {F D : Type 0} (start : DaemonState F) (b : Backend F D) where
  pub disconnect-Numbers : (reason : DisconnectReason) → Numbers start (disconnect b reason)
  unfolding disconnect clear_history_cancellation bump_and_publish
  disconnect-Numbers reason m h = ground arith

  connection_failed-Numbers :
      (port : String) (error : DeviceError) → Numbers start (connection_failed b port error)
  unfolding connection_failed clear_history_cancellation bump_and_publish
  connection_failed-Numbers port error m h = ground arith

  established-Numbers :
      (port : String) (identity : DeviceIdentity) (telemetry : Telemetry F)
      → Numbers start (established b port identity telemetry)
  unfolding established clear_history_cancellation bump_and_publish
  established-Numbers port identity telemetry m h = ground arith

  first_reading-Numbers :
      (port : String) (identity : DeviceIdentity) (reading : Result (Telemetry F))
      → Numbers start (first_reading b port identity reading)
  first_reading-Numbers port identity (ok telemetry) = established-Numbers port identity telemetry
  first_reading-Numbers port identity (err error) = connection_failed-Numbers port error

  opened-Numbers :
      (port : String) (identity : Result DeviceIdentity) → Numbers start (opened b port identity)
  opened-Numbers port (ok identity) m h =
      first_reading-Numbers port identity _ _ (call-Numbers start b.read_telemetry m h)
  opened-Numbers port (err error) m h = connection_failed-Numbers port error m h

  announced :
      (port : String) (m : Manager F D)
      → IsLater start m
      → IsLater start (bump_and_publish (connection_is (ConnectionState.connecting port) m).1).1
  unfolding bump_and_publish
  announced port m h = ground arith

  connect-Numbers : (port : String) → Numbers start (connect b port)
  unfolding connect
  connect-Numbers port m h =
      opened-Numbers port _ _ (call-Numbers start (b.connect port) _ (announced port m h))

  retry_is_due-Numbers : (port : String) → Numbers start (retry_is_due b port)
  unfolding retry_is_due
  retry_is_due-Numbers port m h = ground arith

  single-Numbers : (port : String) → Numbers start (single b port)
  unfolding single
  single-Numbers port m h =
      let left = (retry_is_due b port m).1 in
      let kept = retry_is_due-Numbers port m h in
      elim (Bool-cases (retry_is_due b port m).0) [
        | inr no_go ↦ rw no_go kept
        | inl go ↦ rw go (elim (Bool-cases (is_some left.current_port)) [
          | inl attached ↦
              rw attached
                (connect-Numbers port _ (disconnect-Numbers DisconnectReason.replaced left kept))
          | inr free ↦ rw free (connect-Numbers port left kept)
        ])
      ]

  ambiguous :
      (found : List String) (m : Manager F D)
      → IsLater start m
      → IsLater start (bump_and_publish (connection_is (ambiguous_device found) m).1).1
  unfolding bump_and_publish
  ambiguous found m h = ground arith

  several-Numbers : (found : List String) → Numbers start (several b found)
  unfolding several
  several-Numbers found m h = elim (Bool-cases (is_ambiguous m.state.connection found)) [
    | inl same ↦ rw same (ground arith)
    | inr new ↦
        rw new (
          ambiguous found _
            (disconnect-Numbers DisconnectReason.removed_from_host _ (ground arith)))
  ]

  handle_candidates-Numbers : (found : List String) → Numbers start (handle_candidates b found)
  unfolding handle_candidates
  handle_candidates-Numbers [] m h =
      disconnect-Numbers DisconnectReason.removed_from_host _ (ground arith)
  handle_candidates-Numbers (port ∷ []) m h = elim (Bool-cases (is_text m.current_port port)) [
    | inl same ↦ rw same h
    | inr other ↦ rw other (single-Numbers port m h)
  ]
  handle_candidates-Numbers (port ∷ other ∷ rest) m h = several-Numbers (port ∷ other ∷ rest) m h

  pub handle_host_event-Numbers : (e : HostEvent) → Numbers start (handle_host_event b e)
  unfolding handle_host_event
  handle_host_event-Numbers (candidates found) m h =
      handle_candidates-Numbers (dedup (sort found)) m h
  handle_host_event-Numbers shutdown m h = h
