-- ===== src/Serial/Outcomes.antt =====
-- How `write_theme_asset_transaction` of src/backend.rs ends, over any port.
use wireview_pro_ii.Base.{
  ℕ, String, ◌+◌, ◌-◌, ◌^◌, ◌≡◌, refl, ap, subst, Bool, true, false, not, none, List, [], ◌∷◌, inl,
  inr, arith, leb, ◌==◌, length, Bool-cases,
}
use wireview_pro_ii.Domain.Error.{
  DeviceError, connection_lost, connection_lost_before_mutation, invalid_argument,
  failed_and_rolled_back, rollback_failed, verification_failed, Result, ok, err,
}
use wireview_pro_ii.Theme.{ThemeAssetSlot, address, byte_len}
use wireview_pro_ii.Manager.Backend.{Call}
use wireview_pro_ii.Serial.Port.{SerialIo, continue, fail_if, ◌>>=◌, ◌>>◌}
use wireview_pro_ii.Serial.Spi.{spi_sector_size, read_spi_bytes, erase_spi_sectors, write_spi_pages}
use wireview_pro_ii.Serial.Transaction.{
  same_bytes, sector_start, sector_length, requested, read_back, restore_spi_range, overwrite,
  before_mutation, restored, recover, replace, read_backup, write_theme_asset_transaction,
}

pub same_bytes→eq : (xs ys : List ℕ) → same_bytes xs ys ≡ true → xs ≡ ys
same_bytes→eq [] [] h = refl
same_bytes→eq [] (y ∷ ys) h = ground arith
same_bytes→eq (x ∷ xs) [] h = ground arith
same_bytes→eq (x ∷ xs) (y ∷ ys) h = ground (arith, same_bytes→eq xs ys)

module _ {P : Type 0} where
  continue-eq-ok :
      {A B : Type 0} (r : Result A) (f : A → Call P B) (q : P) {p' : P} {b : B}
      → continue r f q ≡ (ok b, p')
      → (a : A) × (r ≡ ok a) × (f a q ≡ (ok b, p'))
  continue-eq-ok (ok a) f q h = (a, refl, h)
  continue-eq-ok (err e) f q h = absurd (ground arith)

  -- A chain of calls that succeeds has a first call that does.
  pub >>=-eq-ok :
      {A B : Type 0} (m : Call P A) (f : A → Call P B) {p p' : P} {b : B}
      → (m >>= f) p ≡ (ok b, p')
      → (a : A) × (q : P) × (m p ≡ (ok a, q)) × (f a q ≡ (ok b, p'))
  >>=-eq-ok m f {p} h =
      let (a, done, rest) = continue-eq-ok (m p).0 f (m p).1 h in
      (a, (m p).1, ap (λ r. (r, (m p).1)) done, rest)

  -- A check that passes.
  pub fail_if-eq-ok :
      (test : Bool) (e : DeviceError) {p p' : P} {u : Unit {0}}
      → fail_if test e p ≡ (ok u, p')
      → (test ≡ false) × (p ≡ p')
  fail_if-eq-ok true e h = ground arith
  fail_if-eq-ok false e h = ground arith

-- No end of a slot overflows.
pub fits_u32 :
    (slot : ThemeAssetSlot) (n : ℕ)
    → (n == byte_len slot) ≡ true
    → (leb (2 ^ 32) (address slot + n) ≡ false)
      × (leb (2 ^ 32) (address slot + n + (spi_sector_size - 1)) ≡ false)
unfolding address byte_len
fits_u32 slot n h = ground arith

module _ {P : Type 0} (io : SerialIo P) where
  -- The bytes of a range are, at some time, read as expected, and nothing follows.
  abbrev pub IsReadBack : ℕ → ℕ → List ℕ → P → Type 0
  IsReadBack start size expected p' =
      (q : P) × (read_spi_bytes io start size none q ≡ (ok expected, p'))

  read_back-IsReadBack :
      (start size : ℕ) (expected : List ℕ) (message : String) (q p' : P) {u : Unit {0}}
      → read_back io start size expected message q ≡ (ok u, p')
      → IsReadBack start size expected p'
  unfolding read_back
  read_back-IsReadBack start size expected message q p' h =
      let check = λ (found : List ℕ).
        fail_if {P = P} (not (same_bytes found expected)) (verification_failed message) in
      let (found, q', read, checked) = >>=-eq-ok (read_spi_bytes io start size none) check h in
      let (same, stays) =
        fail_if-eq-ok (not (same_bytes found expected)) (verification_failed message) checked in
      let equal = same_bytes→eq found expected (ground arith) in
      (
        q,
        subst (λ bytes. read_spi_bytes io start size none q ≡ (ok bytes, p')) equal
            (subst (λ end. read_spi_bytes io start size none q ≡ (ok found, end)) stays read),
      )

  restored-IsReadBack :
      (start : ℕ) (backup : List ℕ) (p p' : P) {u : Unit {0}}
      → restore_spi_range io start backup p ≡ (ok u, p')
      → IsReadBack start (length backup) backup p'
  unfolding restore_spi_range read_back
  restored-IsReadBack start backup p p' h =
      let last =
        read_back io start (length backup) backup
          "theme rollback readback did not match the sector backup" in
      let write = write_spi_pages io start backup in
      let erase = erase_spi_sectors io start (length backup) in
      let (_, _, _, h1) =
        >>=-eq-ok
          (fail_if (leb (2 ^ 32) (length backup)) (invalid_argument "SPI backup is too large"))
          (λ _. erase >> (write >> last)) h in
      let (_, _, _, h2) = >>=-eq-ok erase (λ _. write >> last) h1 in
      let (_, q, _, h3) = >>=-eq-ok write (λ _. last) h2 in
      read_back-IsReadBack start (length backup) backup _ q p' h3

  overwritten-IsReadBack :
      (start size : ℕ) (bytes : List ℕ) (p p' : P) {u : Unit {0}}
      → overwrite io start size bytes p ≡ (ok u, p')
      → IsReadBack start size bytes p'
  unfolding overwrite erase_spi_sectors read_back
  overwritten-IsReadBack start size bytes p p' h =
      let last =
        read_back io start size bytes
          "theme asset sector readback did not match the requested bytes" in
      let write = write_spi_pages io start bytes in
      let (_, _, _, h1) = >>=-eq-ok (erase_spi_sectors io start size) (λ _. write >> last) h in
      let (_, q, _, h2) = >>=-eq-ok write (λ _. last) h1 in
      read_back-IsReadBack start size bytes _ q p' h2

  -- What the result of a replacement says of the sectors, whose bytes were `backup`.
  abbrev pub IsAccounted : ThemeAssetSlot → List ℕ → List ℕ → Result (Unit {0}) × P → Type 0
  IsAccounted slot bytes backup (ok u, p') =
      IsReadBack (sector_start slot) (sector_length slot (length bytes))
        (requested slot bytes backup) p'
  IsAccounted slot bytes backup (err (failed_and_rolled_back m), p') =
      IsReadBack (sector_start slot) (length backup) backup p'
  IsAccounted slot bytes backup (err (rollback_failed m n), p') =
      (q : P) × (e : DeviceError) × (restore_spi_range io (sector_start slot) backup q
        ≡ (err e, p'))
  IsAccounted slot bytes backup (err connection_lost, p') = Unit
  IsAccounted slot bytes backup (err _, p') = ⊥

  restored-IsAccounted :
      (slot : ThemeAssetSlot) (bytes backup : List ℕ) (e : DeviceError) (r : Result (Unit {0}))
      (q p' : P)
      → restore_spi_range io (sector_start slot) backup q ≡ (r, p')
      → IsAccounted slot bytes backup (restored io e r, p')
  unfolding restored
  restored-IsAccounted slot bytes backup e (ok u) q p' h =
      restored-IsReadBack (sector_start slot) backup q p' h
  restored-IsAccounted slot bytes backup e (err connection_lost) q p' h = tt
  restored-IsAccounted slot bytes backup e (err other) q p' h = (q, other, h)

  recover-IsAccounted :
      (slot : ThemeAssetSlot) (bytes backup : List ℕ) (r : Result (Unit {0})) (q p : P)
      → overwrite io
          (sector_start slot)
          (sector_length slot (length bytes))
          (requested slot bytes backup)
          p
        ≡ (r, q)
      → IsAccounted slot bytes backup (recover io (sector_start slot) backup r q)
  unfolding recover
  recover-IsAccounted slot bytes backup (ok u) q p h =
      overwritten-IsReadBack (sector_start slot) (sector_length slot (length bytes))
        (requested slot bytes backup) p q h
  recover-IsAccounted slot bytes backup (err connection_lost) q p h = tt
  recover-IsAccounted slot bytes backup (err e) q p h =
      let end = restore_spi_range io (sector_start slot) backup q in
      restored-IsAccounted slot bytes backup e end.0 q end.1 refl

  pub replace-IsAccounted :
      (slot : ThemeAssetSlot) (bytes backup : List ℕ) (p : P)
      → IsAccounted slot bytes backup (replace io slot bytes backup p)
  unfolding replace
  replace-IsAccounted slot bytes backup p =
      let end =
        overwrite io (sector_start slot) (sector_length slot (length bytes))
          (requested slot bytes backup) p in
      recover-IsAccounted slot bytes backup end.0 end.1 p refl

  -- A lost connection before anything was written has an error of its own.
  abbrev pub unread : DeviceError → DeviceError
  unread connection_lost = connection_lost_before_mutation
  unread e = e

  -- How a replacement ends: refused with the port untouched, ended by the read of the backup, or
  -- accounted for.
  pub data Replaced (slot : ThemeAssetSlot) (bytes : List ℕ) (p : P) (end : Result (Unit {0}) × P)
      : Type 0 where
    refused :
        (length bytes == byte_len slot) ≡ false
        → (m : String) × (end ≡ (err (invalid_argument m), p))
        → Replaced slot bytes p end
    unread_backup :
        (e : DeviceError) (q : P)
        → read_spi_bytes io (sector_start slot) (sector_length slot (length bytes)) none p
          ≡ (err e, q)
        → end ≡ (err (unread e), q)
        → Replaced slot bytes p end
    replaced :
        (backup : List ℕ) (q : P)
        → read_spi_bytes io (sector_start slot) (sector_length slot (length bytes)) none p
          ≡ (ok backup, q)
        → IsAccounted slot bytes backup end
        → Replaced slot bytes p end

  unread_lem : (e : DeviceError) (q : P) → before_mutation io (err e) q ≡ (err (unread e), q)
  unfolding before_mutation
  unread_lem connection_lost q = refl
  unread_lem e q = refl

  backed_up :
      (slot : ThemeAssetSlot) (bytes : List ℕ) (p q : P) (r : Result (List ℕ))
      → read_spi_bytes io (sector_start slot) (sector_length slot (length bytes)) none p ≡ (r, q)
      → Replaced slot bytes p ((before_mutation io r >>= replace io slot bytes) q)
  unfolding before_mutation
  backed_up slot bytes p q (ok backup) h =
      replaced backup q h (replace-IsAccounted slot bytes backup q)
  backed_up slot bytes p q (err e) h = unread_backup e q h (rw (unread_lem e q) refl)

  -- A replacement of a theme asset, whatever the port does, ends in one of these ways. Bytes of a
  -- wrong number are refused and nothing is sent. A failed read of the backup is the error, under
  -- its own name if the connection was lost, and nothing else was sent. After that, a success
  -- means that the sectors were last read as the backup with the asset replaced; an error that
  -- says so, that they were last read as the backup; an error of the rollback, that the restore
  -- failed; and any other error is a lost connection.
  pub write_theme_asset_transaction-Replaced :
      (slot : ThemeAssetSlot) (bytes : List ℕ) (p : P)
      → Replaced slot bytes p (write_theme_asset_transaction io slot bytes p)
  unfolding write_theme_asset_transaction read_backup
  write_theme_asset_transaction-Replaced slot bytes p =
      elim (Bool-cases (length bytes == byte_len slot)) [
        | inl fits ↦
            let (end_fits, sector_fits) = fits_u32 slot (length bytes) fits in
            let read =
              read_spi_bytes io (sector_start slot) (sector_length slot (length bytes)) none p in
            rw (fits, end_fits, sector_fits) (backed_up slot bytes p read.1 read.0 refl)
        | inr differs ↦ refused differs (rw differs (_, refl))
      ]
