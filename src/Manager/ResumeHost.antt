-- ===== src/Manager/ResumeHost.antt =====
-- The host events of src/manager.rs leave no display paused for nobody.
use wireview_pro_ii.Base.{String, List, [], ◌∷◌, inl, inr, arith, Bool-cases}
use wireview_pro_ii.Base.Sort.{sort, dedup, is_text}
use wireview_pro_ii.Domain.Connection.{DisconnectReason, ambiguous_device}
use wireview_pro_ii.Manager.Backend.{Backend}
use wireview_pro_ii.Manager.State.{Manager, bump_and_publish, connection_is}
use wireview_pro_ii.Manager.Connection.{
  HostEvent, candidates, shutdown, is_ambiguous, retry_is_due, single, several, handle_candidates,
  handle_host_event,
}
use wireview_pro_ii.Manager.Invariant.{Inv}
use wireview_pro_ii.Manager.Resumes.{
  IsCovered, unpaused-IsCovered, disconnect-IsCovered, connect-unpaused,
}

module _ {F D : Type 0} (b : Backend F D) where
  retry_is_due-IsCovered :
      (port : String) (m : Manager F D) → IsCovered m → IsCovered (retry_is_due b port m).1
  unfolding retry_is_due
  retry_is_due-IsCovered port m c = ground arith

  single-IsCovered : (port : String) (m : Manager F D) → IsCovered m → IsCovered (single b port m).1
  unfolding single
  single-IsCovered port m c =
      let left = (retry_is_due b port m).1 in
      elim (Bool-cases (retry_is_due b port m).0) [
        | inr no_go ↦ rw no_go (retry_is_due-IsCovered port m c)
        | inl go ↦ rw go (unpaused-IsCovered _ (connect-unpaused b port _))
      ]

  announce-IsCovered :
      (found : List String) (m : Manager F D)
      → IsCovered m
      → IsCovered (bump_and_publish (connection_is (ambiguous_device found) m).1).1
  unfolding bump_and_publish
  announce-IsCovered found m c = ground arith

  several-IsCovered :
      (found : List String) (m : Manager F D)
      → Inv m
      → IsCovered m
      → IsCovered (several b found m).1
  unfolding several
  several-IsCovered found m i c = elim (Bool-cases (is_ambiguous m.state.connection found)) [
    | inl same ↦ rw same (ground arith)
    | inr new ↦ rw new (
        announce-IsCovered found _
          (disconnect-IsCovered b DisconnectReason.removed_from_host _ (ground arith)))
  ]

  handle_candidates-IsCovered :
      (found : List String) (m : Manager F D)
      → Inv m
      → IsCovered m
      → IsCovered (handle_candidates b found m).1
  unfolding handle_candidates
  handle_candidates-IsCovered [] m i c =
      disconnect-IsCovered b DisconnectReason.removed_from_host _ (ground arith)
  handle_candidates-IsCovered (port ∷ []) m i c = elim (Bool-cases (is_text m.current_port port)) [
    | inl same ↦ rw same c
    | inr other ↦ rw other (single-IsCovered port m c)
  ]
  handle_candidates-IsCovered (port ∷ other ∷ rest) m i c =
      several-IsCovered (port ∷ other ∷ rest) m i c

  pub handle_host_event-IsCovered :
      (e : HostEvent) (m : Manager F D)
      → Inv m
      → IsCovered m
      → IsCovered (handle_host_event b e m).1
  unfolding handle_host_event
  handle_host_event-IsCovered (candidates found) m i c =
      handle_candidates-IsCovered (dedup (sort found)) m i c
  handle_host_event-IsCovered shutdown m i c = c
