-- ===== src/Manager/Discovery.antt =====
-- Discovery events of src/manager.rs keep the invariant.
use wireview_pro_ii.Base.{◌≡◌, String, false, List, [], ◌∷◌, inl, inr, is_some, arith, Bool-cases}
use wireview_pro_ii.Base.Sort.{is_text, sort, dedup}
use wireview_pro_ii.Domain.Connection.{DisconnectReason, ambiguous_device}
use wireview_pro_ii.Manager.Backend.{Backend}
use wireview_pro_ii.Manager.State.{Manager, bump_and_publish, connection_is}
use wireview_pro_ii.Manager.Connection.{
  HostEvent, candidates, shutdown, is_fresh, disconnect, retry_is_due, is_ambiguous, single,
  several, handle_candidates, handle_host_event,
}
use wireview_pro_ii.Manager.Invariant.{IsDetached, Inv}
use wireview_pro_ii.Manager.Keeps.{disconnect-Inv, disconnect-IsDetached, connect-Inv}

module _ {F D : Type 0} (b : Backend F D) where
  retry_is_due-Inv : (port : String) (m : Manager F D) → Inv m → Inv (retry_is_due b port m).1
  unfolding retry_is_due
  retry_is_due-Inv port m i = ground arith

  stale_when_detached :
      (m : Manager F D)
      → Inv m
      → is_some m.current_port ≡ false
      → is_fresh m.state.telemetry ≡ false
  stale_when_detached m i e = ground arith

  single-Inv : (port : String) (m : Manager F D) → Inv m → Inv (single b port m).1
  unfolding single
  single-Inv port m i =
      let kept = retry_is_due-Inv port m i in
      let left = (retry_is_due b port m).1 in
      elim (Bool-cases (retry_is_due b port m).0) [
        | inr no_go ↦ rw no_go kept
        | inl go ↦ rw go (elim (Bool-cases (is_some left.current_port)) [
          | inl attached ↦ rw attached (
              connect-Inv b port (disconnect b DisconnectReason.replaced left).1
                (disconnect-IsDetached b DisconnectReason.replaced left kept).stale)
          | inr free ↦ rw free (connect-Inv b port left (stale_when_detached left kept free))
        ])
      ]

  announce-Inv :
      (found : List String) (m : Manager F D)
      → IsDetached m
      → Inv (bump_and_publish (connection_is (ambiguous_device found) m).1).1
  unfolding bump_and_publish
  announce-Inv found m d = ground arith

  several-Inv : (found : List String) (m : Manager F D) → Inv m → Inv (several b found m).1
  unfolding several
  several-Inv found m i = elim (Bool-cases (is_ambiguous m.state.connection found)) [
    | inl same ↦ rw same (ground arith)
    | inr new ↦ rw new (
        announce-Inv found _
          (disconnect-IsDetached b DisconnectReason.removed_from_host _ (ground arith)))
  ]

  handle_candidates-Inv :
      (found : List String) (m : Manager F D) → Inv m → Inv (handle_candidates b found m).1
  unfolding handle_candidates
  handle_candidates-Inv [] m i =
      disconnect-Inv b DisconnectReason.removed_from_host _ (ground arith)
  handle_candidates-Inv (port ∷ []) m i = elim (Bool-cases (is_text m.current_port port)) [
    | inl same ↦ rw same i
    | inr other ↦ rw other (single-Inv port m i)
  ]
  handle_candidates-Inv (port ∷ other ∷ rest) m i = several-Inv (port ∷ other ∷ rest) m i

  pub handle_host_event-Inv :
      (e : HostEvent) (m : Manager F D) → Inv m → Inv (handle_host_event b e m).1
  unfolding handle_host_event
  handle_host_event-Inv (candidates found) m i = handle_candidates-Inv (dedup (sort found)) m i
  handle_host_event-Inv shutdown m i = i
