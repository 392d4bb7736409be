-- ===== src/Serial/Exchanges.antt =====
-- One flash command of src/backend.rs at a device that follows the protocol: the page that is read,
-- the sectors that are erased, the page that is written.
use wireview_pro_ii.Base.{
  ℕ, ◌+◌, ◌*◌, ◌/◌, ◌%◌, ◌^◌, ◌==◌, leb, ltb, true, false, ◌≤◌, ◌<◌, ◌≡◌, refl, ap, ◌∙◌, String,
  List, [], ◌∷◌, ◌++◌, length, arith,
}
use wireview_pro_ii.Base.Text.{◌<>◌}
use wireview_pro_ii.Domain.Error.{Result, ok}
use wireview_pro_ii.Config.Bytes.{byte_at, read_u32, le_u32}
use wireview_pro_ii.Protocol.Commands.{
  UsbCommand, spi_flash_write_page, spi_flash_read_page, spi_flash_erase_sector, code,
}
use wireview_pro_ii.Manager.Backend.{Call}
use wireview_pro_ii.Serial.Port.{Cancellation, is_cancelled, SerialIo, ◌>>=◌}
use wireview_pro_ii.Serial.Spi.{
  hex_address, spi_command, attempt_page, retried_read, read_attempts, read_spi_page,
  read_spi_status, erase_spi_sectors, write_spi_page,
}
use wireview_pro_ii.Serial.Firmware.{range, written, erased, Firmware}
use wireview_pro_ii.Serial.Memory.{length-range}

-- The device reads the address and the length that the command names.
command_fields :
    (c : UsbCommand) (a n : ℕ)
    → a < 2 ^ 32
    → n < 2 ^ 32
    → (byte_at (spi_command c a n) 0 ≡ code c)
      × (read_u32 (spi_command c a n) 1 ≡ a)
      × (read_u32 (spi_command c a n) 5 ≡ n)
      × (length (spi_command c a n) ≡ 9)
unfolding spi_command le_u32 read_u32
command_fields c a n ha hn = (refl, omega arith, omega arith, refl)

module _ {P : Type 0} (io : SerialIo P) (device : Firmware io) where
  open device use {flash, pending, replies}

  -- The call ends with this result and this memory, and nothing is under way.
  abbrev pub Ends : {A : Type 0} → Call P A → P → Result A → (ℕ → ℕ) → Type 0
  Ends m p r memory = (q : P) × (m p ≡ (r, q)) × (flash q ≡ memory) × (pending q ≡ [])

  pub Ends-bind :
      {A B : Type 0} (m : Call P A) (k : A → Call P B) {p : P} {a : A} {r : Result B}
      {middle memory : ℕ → ℕ}
      → Ends m p (ok a) middle
      → ((q : P) → flash q ≡ middle → pending q ≡ [] → Ends (k a) q r memory)
      → Ends (m >>= k) p r memory
  Ends-bind m k (q, e, f, idle) rest =
      let (q', e', f', idle') = rest q f idle in (q', rw e e', f', idle')

  -- Nobody cancels the read.
  abbrev pub IsNeverSet : Cancellation → Type 0
  IsNeverSet c = (p : P) → is_cancelled io c p ≡ false

  pub read_spi_page_lem :
      (c : Cancellation) (a n : ℕ) (p : P)
      → IsNeverSet c
      → pending p ≡ []
      → n ≤ 256
      → a < 2 ^ 32
      → Ends (read_spi_page io a n c) p (ok (range (flash p) a n)) (flash p)
  unfolding read_spi_page read_attempts attempt_page retried_read code
  read_spi_page_lem cell a n p never idle hn ha =
      let command = spi_command spi_flash_read_page a n in
      let (c, ec, fc, wc, rc) = device.clears p in
      let (q, eq, fq, wq, rq) = device.receives command c in
      let waits : pending q ≡ command = rw (wq, wc, idle) refl in
      let (kind, at, size, nine) = command_fields spi_flash_read_page a n ha (omega arith) in
      let (s, es, fs, ws, rs) =
        device.reads a n q (ap length waits ∙ nine) (ap (λ b. byte_at b 0) waits ∙ kind)
          (ap (λ b. read_u32 b 1) waits ∙ at) (ap (λ b. read_u32 b 5) waits ∙ size) hn in
      let page : replies s ≡ range (flash p) a n = rw (rs, rq, rc, fq, fc) refl in
      let (end, ee, fe, we) =
        device.answers 2000 n s (ap length page ∙ length-range (flash p) a n) in
      (end, rw (never p, ec, eq, es, ee, page) refl, fe ∙ fs ∙ fq ∙ fc, we ∙ ws)

  -- A status of 1 is a success.
  read_spi_status_lem :
      (timeout : ℕ) (operation : String) (p : P)
      → pending p ≡ []
      → replies p ≡ 1 ∷ []
      → Ends (read_spi_status io timeout operation) p (ok tt) (flash p)
  unfolding read_spi_status
  read_spi_status_lem timeout operation p idle one =
      let (end, ee, fe, we) = device.answers timeout 1 p (ap length one) in
      (end, rw (ee, one) refl, fe, we ∙ idle)

  pub erase_spi_sectors_lem :
      (a n : ℕ) (p : P)
      → pending p ≡ []
      → 0 < n
      → a % 4096 ≡ 0
      → n % 4096 ≡ 0
      → a + n ≤ 0x0100_0000
      → Ends (erase_spi_sectors io a n) p (ok tt) (erased (flash p) a n)
  unfolding erase_spi_sectors code
  erase_spi_sectors_lem a n p idle some_bytes ha hn inside =
      let command = spi_command spi_flash_erase_sector a n in
      let (c, ec, fc, wc, rc) = device.clears p in
      let (q, eq, fq, wq, rq) = device.receives command c in
      let waits : pending q ≡ command = rw (wq, wc, idle) refl in
      let (kind, at, size, nine) =
        command_fields spi_flash_erase_sector a n (omega arith) (omega arith) in
      let (s, es, fs, ws, rs) =
        device.erases a n q (ap length waits ∙ nine) (ap (λ b. byte_at b 0) waits ∙ kind)
          (ap (λ b. read_u32 b 1) waits ∙ at) (ap (λ b. read_u32 b 5) waits ∙ size) ha hn inside in
      let one : replies s ≡ 1 ∷ [] = rw (rs, rq, rc) refl in
      let (end, ee, fe, we) =
        read_spi_status_lem (n / 4096 * 100 + 1000) ("SPI erase at " <> hex_address a) s ws one in
      let t1 : (n == 0) ≡ false = ground arith in
      let t2 : (a % 4096 == 0) ≡ true = ground arith in
      let t3 : (n % 4096 == 0) ≡ true = ground arith in
      let t4 : leb (2 ^ 32) (a + n) ≡ false = ground arith in
      let t5 : ltb 0x0100_0000 (a + n) ≡ false = ground arith in
      (end, rw (t1, t2, t3, t4, t5, ec, eq, es) ee, fe ∙ rw (fs, fq, fc) refl, we)

  pub write_spi_page_lem :
      (a : ℕ) (bytes : List ℕ) (p : P)
      → pending p ≡ []
      → 0 < length bytes
      → a % 256 + length bytes ≤ 256
      → a + length bytes ≤ 0x0100_0000
      → ((i : ℕ) → i < length bytes → flash p (a + i) ≡ 0xff)
      → Ends (write_spi_page io a bytes) p (ok tt) (written (flash p) a bytes)
  unfolding write_spi_page code
  write_spi_page_lem a bytes p idle some_bytes page inside blank =
      let n = length bytes in
      let command = spi_command spi_flash_write_page a n in
      let (c, ec, fc, wc, rc) = device.clears p in
      let (h, eh, fh, wh, rh) = device.receives command c in
      let (q, eq, fq, wq, rq) = device.receives bytes h in
      let waits : pending q ≡ command ++ bytes = rw (wq, wh, wc, idle) refl in
      let same : flash q ≡ flash p = rw (fq, fh, fc) refl in
      let (kind, at, size, nine) =
        command_fields spi_flash_write_page a n (omega arith) (omega arith) in
      let (s, es, fs, ws, rs) =
        device.programs a command bytes q waits nine kind at size page inside
          (λ i lt. rw same (blank i lt)) in
      let one : replies s ≡ 1 ∷ [] = rw (rs, rq, rh, rc) refl in
      let (end, ee, fe, we) =
        read_spi_status_lem 2000 ("SPI page write at " <> hex_address a) s ws one in
      let t1 : (n == 0) ≡ false = ground arith in
      let t2 : ltb 256 n ≡ false = ground arith in
      let t3 : ltb 256 (a % 256 + n) ≡ false = ground arith in
      let t4 : leb (2 ^ 32) (a + n) ≡ false = ground arith in
      let t5 : ltb 0x0100_0000 (a + n) ≡ false = ground arith in
      (end, rw (t1, t2, t3, t4, t5, ec, eh, eq, es) ee, fe ∙ rw (fs, same) refl, we)
