-- ===== src/Serial/Ranges.antt =====
-- The loops of src/backend.rs over the pages of a range, at a device that follows the protocol.
use wireview_pro_ii.Base.{
  ℕ, zero, suc, ◌+◌, ◌-◌, ◌*◌, ◌%◌, ◌^◌, leb, ltb, false, ◌≤◌, ◌<◌, ◌≡◌, refl, ap, sym, ◌∙◌, List,
  [], ◌∷◌, ◌++◌, min, length, take, drop, inl, inr, length-take, length-drop, Bool-cases, arith,
}
use wireview_pro_ii.Domain.Error.{ok}
use wireview_pro_ii.Serial.Port.{Cancellation, SerialIo}
use wireview_pro_ii.Serial.Spi.{read_pages, read_spi_bytes, write_pages_from}
use wireview_pro_ii.Serial.Firmware.{range, written, Firmware}
use wireview_pro_ii.Serial.Memory.{range_add, written_parts, written_nothing, written_beyond_page}
use wireview_pro_ii.Serial.Exchanges.{Ends, IsNeverSet, read_spi_page_lem, write_spi_page_lem}

range_parts :
    (f g : ℕ → ℕ) (address size read n : ℕ)
    → g ≡ f
    → size - read ≡ n + (size - (read + n))
    → range f (address + read) n ++ range g (address + (read + n)) (size - (read + n))
      ≡ range f (address + read) (size - read)
range_parts f g address size read n same parts =
    let follows : address + (read + n) ≡ address + read + n = omega arith in
    rw (parts, same, follows) (sym (range_add f (address + read) n (size - (read + n))))

fits_u32 : (n : ℕ) → n < 2 ^ 32 → leb (2 ^ 32) n ≡ false
fits_u32 n h = ground arith

module _ {P : Type 0} (io : SerialIo P) (device : Firmware io) where
  open device use {flash, pending}

  -- The fuel of a read is enough when it covers the bytes that are left.
  read_pages_lem :
      (c : Cancellation) (fuel address size read : ℕ) (p : P)
      → IsNeverSet io device c
      → pending p ≡ []
      → size - read ≤ fuel
      → address + size ≤ 2 ^ 32
      → Ends io device
          (read_pages io fuel address size read c)
          p
          (ok (range (flash p) (address + read) (size - read)))
          (flash p)
  unfolding read_pages range
  read_pages_lem c zero address size read p never idle enough inside =
      let nothing : size - read ≡ 0 = omega arith in (p, rw nothing refl, refl, idle)
  read_pages_lem c (suc fuel) address size read p never idle enough inside =
      elim (Bool-cases (ltb read size)) [
        | inr done ↦
            let nothing : size - read ≡ 0 = ground arith in (p, rw (done, nothing) refl, refl, idle)
        | inl more ↦
            let n = min (size - read) 256 in
            let t1 : leb (2 ^ 32) read ≡ false = fits_u32 read (ground arith) in
            let t2 : leb (2 ^ 32) (address + read) ≡ false =
              fits_u32 (address + read) (ground arith) in
            let (q, eq, fq, wq) =
              read_spi_page_lem io device c (address + read) n p never idle (omega arith)
                (ground arith) in
            let (s, es, fs, ws) =
              read_pages_lem c fuel address size (read + n) q never wq (ground arith) inside in
            let parts : size - read ≡ n + (size - (read + n)) = ground arith in
            let bytes = range_parts (flash p) (flash q) address size read n fq parts in
            (s, rw (more, t1, t2, eq, es) (ap (λ b. (ok b, s)) bytes), fs ∙ fq, ws)
      ]

  -- A read of a range has its bytes, and changes nothing.
  pub read_spi_bytes_lem :
      (c : Cancellation) (address size : ℕ) (p : P)
      → IsNeverSet io device c
      → pending p ≡ []
      → address + size ≤ 2 ^ 32
      → Ends io device
          (read_spi_bytes io address size c)
          p
          (ok (range (flash p) address size))
          (flash p)
  unfolding read_spi_bytes
  read_spi_bytes_lem c address size p never idle inside =
      let (q, e, f, w) = read_pages_lem c size address size 0 p never idle (omega arith) inside in
      let from : address + 0 ≡ address = omega arith in
      let whole : size - 0 ≡ size = omega arith in
      (q, rw (never p) (e ∙ rw (from, whole) refl), f, w)

  pub write_pages_from_lem :
      (left index address : ℕ) (bytes : List ℕ) (p : P)
      → pending p ≡ []
      → length bytes ≡ left * 256
      → address % 256 ≡ 0
      → address + index * 256 + length bytes ≤ 0x0100_0000
      → ((i : ℕ) → i < length bytes → flash p (address + index * 256 + i) ≡ 0xff)
      → Ends io device
          (write_pages_from io left index address bytes)
          p
          (ok tt)
          (written (flash p) (address + index * 256) bytes)
  unfolding write_pages_from
  write_pages_from_lem zero index address [] p idle size aligned inside blank =
      (p, refl, sym (written_nothing (flash p) (address + index * 256)), idle)
  write_pages_from_lem zero index address (b ∷ bytes) p idle size aligned inside blank =
      absurd (omega arith)
  write_pages_from_lem (suc left) index address bytes p idle size aligned inside blank =
      let page = take 256 bytes in
      let later = drop 256 bytes in
      let at = address + index * 256 in
      let page_size : length page ≡ 256 = omega (arith, length-take 256 bytes, size) in
      let later_size : length later ≡ left * 256 = omega (arith, length-drop 256 bytes, size) in
      let next : address + suc index * 256 ≡ at + 256 = omega arith in
      let whole : length bytes ≡ 256 + length later = omega (arith, size, later_size) in
      let t1 = fits_u32 (index * 256) (omega (arith, inside)) in
      let t2 = fits_u32 at (omega (arith, inside)) in
      let (q, eq, fq, wq) =
        write_spi_page_lem io device at page p idle (omega (arith, page_size))
          (omega (arith, page_size, aligned)) (omega (arith, page_size, whole, inside))
          (λ i lt. blank i (omega (arith, page_size, lt, whole))) in
      let (s, es, fs, ws) =
        write_pages_from_lem left (suc index) address later q wq later_size aligned
          (omega (arith, inside, whole))
          (λ i lt.
            let after : flash q (address + suc index * 256 + i) ≡ flash p (at + 256 + i) =
              rw (fq, next) (written_beyond_page (flash p) at i page page_size) in
            let same : at + 256 + i ≡ at + (256 + i) = omega arith in
            after ∙ rw same (blank (256 + i) (omega (arith, lt, whole)))) in
      let parts : written (flash q) (address + suc index * 256) later ≡ written (flash p) at bytes =
        rw (fq, next) (written_parts (flash p) at 256 bytes (omega (arith, whole))) in
      (s, rw (t1, t2, eq) es, fs ∙ parts, ws)
