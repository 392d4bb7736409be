-- ===== src/Serial/Port.antt =====
-- What src/backend.rs calls of the serial port: the trait `SerialIo`, the timer around a read and
-- the cells of `ReadCancellation`. `P` is the port with all that is behind it: the device, the
-- clock and the cells.
use wireview_pro_ii.Base.{ℕ, String, Bool, true, false, Option, none, some, List}
use wireview_pro_ii.Domain.Error.{DeviceError, Result, ok, err, transport}
use wireview_pro_ii.Manager.Backend.{Call}

-- A cell with the time at which a lease timer sets it, if one runs beside the read. `none` is
-- `ReadCancellation::default()`, a cell that nothing else holds.
abbrev pub Cancellation : Type 0
Cancellation = Option (ℕ × Option ℕ)

pub record SerialIo (P : Type 0) : Type 0 where
  pub clear_input : Call P (Unit {0})
  pub write_all : List ℕ → Call P (Unit {0})
  pub flush : Call P (Unit {0})
  -- `timeout(…, read_exact(…))` with milliseconds and the size of the buffer, which a success
  -- fills; `none` is the end of the time.
  pub read_exact : ℕ → ℕ → P → Option (Result (List ℕ)) × P
  pub sleep : ℕ → P → P
  -- `unix_time_ms`
  pub unix_time_ms : P → ℕ
  pub is_set : ℕ × Option ℕ → P → Bool
  -- `select!` of `cancelled()` and a sleep: whether the cell was set first.
  pub sleep_or_set : ℕ × Option ℕ → ℕ → P → Bool × P

module _ {P : Type 0} where
  abbrev pub pure : {A : Type 0} → A → Call P A
  pure a p = (ok a, p)

  abbrev pub lift : {A : Type 0} → Result A → Call P A
  lift r p = (r, p)

  abbrev pub fail_if : Bool → DeviceError → Call P (Unit {0})
  fail_if true e p = (err e, p)
  fail_if false e p = (ok tt, p)

  -- What follows a call, by how it ended.
  abbrev pub continue : {A B : Type 0} → Result A → (A → Call P B) → Call P B
  continue (ok a) f p = f a p
  continue (err e) f p = (err e, p)

  -- A step that cannot fail.
  abbrev pub always : {A : Type 0} → (P → A × P) → Call P A
  always f p = let (a, p') = f p in (ok a, p')

  abbrev pub wait : (P → P) → Call P (Unit {0})
  wait f p = (ok tt, f p)

  -- `map_err(|_| …)??` on a read under a timer.
  abbrev pub in_time : {A : Type 0} → String → Option (Result A) → Call P A
  in_time message none = lift (err (transport message))
  in_time message (some r) = lift r

-- The `?` operator.
infixl 5 ◌>>=◌ ◌>>◌
abbrev pub ◌>>=◌ : {P A B : Type 0} → Call P A → (A → Call P B) → Call P B
◌>>=◌ m f p = let (r, p') = m p in continue r f p'

abbrev pub ◌>>◌ : {P B : Type 0} → Call P (Unit {0}) → Call P B → Call P B
m >> k = m >>= λ _. k

module _ {P : Type 0} (io : SerialIo P) where
  abbrev pub is_cancelled : Cancellation → P → Bool
  is_cancelled none p = false
  is_cancelled (some cell) p = io.is_set cell p

  abbrev pub sleep_or_cancelled : Cancellation → ℕ → P → Bool × P
  sleep_or_cancelled none ms p = (false, io.sleep ms p)
  sleep_or_cancelled (some cell) ms p = io.sleep_or_set cell ms p

  -- `if cancellation.is_cancelled() { return Err(OperationCancelled); }`
  abbrev pub check_cancelled : Cancellation → DeviceError → Call P (Unit {0})
  check_cancelled c e p = fail_if (is_cancelled c p) e p

  -- The three calls that send one command.
  abbrev pub transmit : List ℕ → Call P (Unit {0})
  transmit command = do io.clear_input; io.write_all command; io.flush
