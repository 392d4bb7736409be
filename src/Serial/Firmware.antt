-- ===== src/Serial/Firmware.antt =====
-- The device on the other side of the flash commands of src/backend.rs: its flash memory, the bytes
-- that have come in, and those that wait to be read. A client of the code assumes these laws; the
-- examples have a device that meets them.
use wireview_pro_ii.Base.{
  ℕ, zero, suc, ◌+◌, ◌-◌, ◌%◌, ◌≤◌, ◌<◌, ◌≡◌, ◌&&◌, some, List, [], ◌∷◌, ◌++◌, leb, ltb,
  if◌then◌else◌, get_or, length,
}
use wireview_pro_ii.Domain.Error.{ok}
use wireview_pro_ii.Config.Bytes.{byte_at, read_u32}
use wireview_pro_ii.Serial.Port.{SerialIo}

-- So many bytes of a memory, from an address on.
unfoldable pub range : (ℕ → ℕ) → ℕ → ℕ → List ℕ
range flash a zero = []
range flash a (suc n) = flash a ∷ range flash (a + 1) n

-- A memory in which a range has been overwritten.
unfoldable pub written : (ℕ → ℕ) → ℕ → List ℕ → ℕ → ℕ
written flash start bytes a =
    if leb start a && ltb a (start + length bytes) then get_or bytes (a - start) 0 else flash a

-- A memory in which a range has been erased.
unfoldable pub erased : (ℕ → ℕ) → ℕ → ℕ → ℕ → ℕ
erased flash start n a = if leb start a && ltb a (start + n) then 0xff else flash a

pub record Firmware {P : Type 0} (io : SerialIo P) : Type 0 where
  pub flash : P → ℕ → ℕ
  pub pending : P → List ℕ
  pub replies : P → List ℕ
  -- `clear_input` drops what was not read.
  pub clears :
      (p : P)
      → (q : P) × (io.clear_input p ≡ (ok tt, q))
        × (flash q ≡ flash p)
        × (pending q ≡ pending p)
        × (replies q ≡ [])
  pub receives :
      (bytes : List ℕ) (p : P)
      → (q : P) × (io.write_all bytes p ≡ (ok tt, q))
        × (flash q ≡ flash p)
        × (pending q ≡ pending p ++ bytes)
        × (replies q ≡ replies p)
  -- A read command, of a page at most: the code, the address and the length.
  pub reads :
      (a n : ℕ) (p : P)
      → length (pending p) ≡ 9
      → byte_at (pending p) 0 ≡ 10
      → read_u32 (pending p) 1 ≡ a
      → read_u32 (pending p) 5 ≡ n
      → n ≤ 256
      → (q : P) × (io.flush p ≡ (ok tt, q))
        × (flash q ≡ flash p)
        × (pending q ≡ [])
        × (replies q ≡ replies p ++ range (flash p) a n)
  -- An erase command, of whole sectors in the flash, is acknowledged by a 1.
  pub erases :
      (a n : ℕ) (p : P)
      → length (pending p) ≡ 9
      → byte_at (pending p) 0 ≡ 11
      → read_u32 (pending p) 1 ≡ a
      → read_u32 (pending p) 5 ≡ n
      → a % 4096 ≡ 0
      → n % 4096 ≡ 0
      → a + n ≤ 0x0100_0000
      → (q : P) × (io.flush p ≡ (ok tt, q))
        × (flash q ≡ erased (flash p) a n)
        × (pending q ≡ [])
        × (replies q ≡ replies p ++ (1 ∷ []))
  -- A write command with its bytes, inside a page that is blank there, is acknowledged by a 1.
  pub programs :
      (a : ℕ) (header bytes : List ℕ) (p : P)
      → pending p ≡ header ++ bytes
      → length header ≡ 9
      → byte_at header 0 ≡ 9
      → read_u32 header 1 ≡ a
      → read_u32 header 5 ≡ length bytes
      → a % 256 + length bytes ≤ 256
      → a + length bytes ≤ 0x0100_0000
      → ((i : ℕ) → i < length bytes → flash p (a + i) ≡ 0xff)
      → (q : P) × (io.flush p ≡ (ok tt, q))
        × (flash q ≡ written (flash p) a bytes)
        × (pending q ≡ [])
        × (replies q ≡ replies p ++ (1 ∷ []))
  -- A read of as many bytes as wait is in time.
  pub answers :
      (timeout n : ℕ) (p : P)
      → length (replies p) ≡ n
      → (q : P) × (io.read_exact timeout n p ≡ (some (ok (replies p)), q))
        × (flash q ≡ flash p)
        × (pending q ≡ pending p)
