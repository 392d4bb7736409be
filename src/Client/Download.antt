-- ===== src/Client/Download.antt =====
-- `download_history` of crates/wireview-gui/src/client.rs. `W` is the connection with the daemon
-- behind it, the flag that cancels, and the sink of the progress events.
use wireview_pro_ii.Base.{
  ℕ, zero, suc, ◌+◌, ◌-◌, ◌*◌, min, String, Bool, true, false, not, ◌||◌, List, [], ◌++◌, ltb, ◌==◌,
  length, if◌then◌else◌,
}
use wireview_pro_ii.Base.Text.{◌<>◌, show}
use wireview_pro_ii.Ipc.Messages.{StatusDto, HistoryDumpDto, HistoryChunkDto}
use wireview_pro_ii.Ipc.Compatibility.{Compatibility, compatible, validate_status}
use wireview_pro_ii.Client.Errors.{
  ClientError, cancelled, protocol, compatibility, Reply, good, fail,
}

abbrev pub flash_length : ℕ
flash_length = 0x0080_0000

abbrev pub history_chunk_size : ℕ
history_chunk_size = 16 * 1024

-- The calls of the daemon, each under the timer of `rpc`, which end with an answer or an error.
pub record Daemon (W : Type 0) : Type 0 where
  pub connect : W → Reply (Unit {0}) × W
  pub get_status : W → Reply StatusDto × W
  pub begin_history_dump : W → Reply HistoryDumpDto × W
  pub read_history_dump_chunk : ℕ → ℕ → ℕ → W → Reply HistoryChunkDto × W
  pub end_history_dump : ℕ → W → Reply (Unit {0}) × W
  -- `cancel.load`, and the event with the number of bytes that were read.
  pub is_cancelled : W → Bool
  pub progress : ℕ → W → W
  pub required_schema : String

abbrev pub continue : {W A B : Type 0} → Reply A → (A → W → Reply B × W) → W → Reply B × W
continue (good a) f w = f a w
continue (fail e) f w = (fail e, w)

infixl 5 ◌>>=◌ ◌>>◌
abbrev pub ◌>>=◌ : {W A B : Type 0} → (W → Reply A × W) → (A → W → Reply B × W) → W → Reply B × W
◌>>=◌ m f w = let (r, w') = m w in continue r f w'

abbrev pub ◌>>◌ : {W B : Type 0} → (W → Reply (Unit {0}) × W) → (W → Reply B × W) → W → Reply B × W
m >> k = m >>= λ _. k

-- `match (download, cleanup)`
abbrev pub settle : {A : Type 0} → Reply A → Reply (Unit {0}) → Reply A
settle (fail error) cleanup = fail error
settle (good a) (fail error) = fail error
settle (good a) (good _) = good a

abbrev pub check_compatible : Compatibility → Reply (Unit {0})
check_compatible compatible = good tt
check_compatible other = fail (compatibility other)

module _ {W : Type 0} (daemon : Daemon W) where
  abbrev pub pure : {A : Type 0} → A → W → Reply A × W
  pure a w = (good a, w)

  abbrev pub fail_if : Bool → ClientError → W → Reply (Unit {0}) × W
  fail_if true e w = (fail e, w)
  fail_if false e w = (good tt, w)

  abbrev pub check_cancelled : W → Reply (Unit {0}) × W
  check_cancelled w = fail_if (daemon.is_cancelled w) cancelled w

  -- What is wrong with a chunk.
  unfoldable pub is_invalid : ℕ → ℕ → ℕ → HistoryChunkDto → Bool
  is_invalid expected offset size chunk =
      not (chunk.offset == offset)
      || (not (chunk.total_bytes == expected)
          || (length chunk.bytes == 0 || ltb size (length chunk.bytes)))

  -- The `while` loop, on fuel: each chunk has a byte at least.
  unfoldable pub fetch : ℕ → ℕ → ℕ → List ℕ → W → Reply (List ℕ) × W
  unfolding is_invalid
  fetch zero dump_id expected bytes = pure bytes
  fetch (suc fuel) dump_id expected bytes =
      let offset = length bytes in
      let size = min (expected - offset) history_chunk_size in
      let round : W → Reply (List ℕ) × W = do
        check_cancelled
        chunk ← daemon.read_history_dump_chunk dump_id offset size
        fail_if (is_invalid expected offset size chunk)
            (protocol "wireviewd returned an invalid history chunk")
        (λ w. (good tt, daemon.progress (offset + length chunk.bytes) w))
        fetch fuel dump_id expected (bytes ++ chunk.bytes)
      in if ltb offset expected then round else pure bytes

  -- The dump is ended whatever its download gave, and also if it is of the wrong kind.
  unfoldable pub leased : {A : Type 0} → ℕ → (W → Reply A × W) → W → Reply A × W
  leased dump_id download w =
      let (r, w1) = download w in
      let (cleanup, w2) = daemon.end_history_dump dump_id w1 in (settle r cleanup, w2)

  unfoldable pub checked : HistoryDumpDto → StatusDto → Reply (Unit {0})
  unfolding ◌<>◌
  checked dump status =
      if not (dump.total_bytes == flash_length)
      then fail (
          protocol (
            "wireviewd reported "
            <> show dump.total_bytes
            <> " history bytes, expected "
            <> show flash_length))
      else if not (dump.session_id == status.session_id)
      then fail (
          protocol (
            "history lease belongs to session "
            <> show dump.session_id
            <> ", expected "
            <> show status.session_id))
      else good tt

  abbrev pub fetch_if : Reply (Unit {0}) → HistoryDumpDto → W → Reply (List ℕ) × W
  fetch_if (fail e) dump w = (fail e, w)
  fetch_if (good _) dump w = fetch dump.total_bytes dump.dump_id dump.total_bytes [] w

  -- The bytes that `HistoryData::parse` gets.
  unfoldable pub download_history : W → Reply (List ℕ) × W
  unfolding validate_status
  download_history = do
    (λ w. (good tt, daemon.progress 0 w))
    daemon.connect
    status ← daemon.get_status
    (λ w. (check_compatible (validate_status daemon.required_schema status), w))
    dump ← daemon.begin_history_dump
    leased dump.dump_id (fetch_if (checked dump status) dump)
