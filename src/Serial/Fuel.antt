-- ===== src/Serial/Fuel.antt =====
-- The read loop of src/backend.rs ends: its fuel is enough, and it reads as many bytes as were asked
-- for.
use wireview_pro_ii.Base.{
  ℕ, zero, suc, ◌+◌, ◌-◌, ltb, Bool, true, false, ◌≤◌, ◌≡◌, refl, ap, sym, subst, ◌∙◌, List, [],
  Option, some, none, ◌++◌, min, length, length-append, arith, if◌then◌else◌,
}
use wireview_pro_ii.Domain.Error.{Result, ok, err, operation_cancelled}
use wireview_pro_ii.Manager.Backend.{Call}
use wireview_pro_ii.Serial.Port.{
  Cancellation, SerialIo, ◌>>=◌, ◌>>◌, always, transmit, check_cancelled, pure, fail_if,
  sleep_or_cancelled,
}
use wireview_pro_ii.Serial.Outcomes.{>>=-eq-ok}
use wireview_pro_ii.Protocol.Commands.{spi_flash_read_page}
use wireview_pro_ii.Serial.Spi.{
  read_pages, read_spi_page, read_spi_bytes, spi_command, attempt_page, last_read, retried_read,
  read_attempts, checked_offset,
}

always-eq-ok :
    {P A : Type 0} (f : P → A × P) (p q : P) (a : A) → always f p ≡ (ok a, q) → f p ≡ (a, q)
always-eq-ok f p q a h = ground arith

module _ {P : Type 0} (io : SerialIo P) where
  -- The loop goes on until all bytes are read: more fuel than bytes changes nothing, at any port.
  pub read_pages-enough :
      (fuel more address size read : ℕ) (c : Cancellation)
      → size - read ≤ fuel
      → read_pages io (fuel + more) address size read c ≡ read_pages io fuel address size read c
  unfolding read_pages
  read_pages-enough zero zero address size read c enough = refl
  read_pages-enough zero (suc more) address size read c enough =
      let done : ltb read size ≡ false = ground arith in
      let next : 0 + suc more ≡ suc more = omega arith in rw (next, done) refl
  read_pages-enough (suc fuel) more address size read c enough =
      let next : suc fuel + more ≡ suc (fuel + more) = omega arith in
      let n = min (size - read) 256 in
      let rest = read_pages-enough fuel more address size (read + n) c (omega (arith, enough)) in
      rw (next, rest) refl

  -- A call that succeeds with so many bytes only.
  abbrev Fills : ℕ → Call P (List ℕ) → Type 0
  Fills n m = (p q : P) (bytes : List ℕ) → m p ≡ (ok bytes, q) → length bytes ≡ n

  Fills-bind :
      {A : Type 0} (n : ℕ) (m : Call P A) (k : A → Call P (List ℕ))
      → ((a : A) → Fills n (k a))
      → Fills n (m >>= k)
  Fills-bind n m k fills p q bytes h =
      let (a, p', _, rest) = >>=-eq-ok m k h in fills a p' q bytes rest

  -- A read that succeeds fills its buffer, as the contract of `read_exact` says.
  abbrev pub FillsBuffer : Type 0
  FillsBuffer =
      (timeout n : ℕ) (p q : P) (bytes : List ℕ)
      → io.read_exact timeout n p ≡ (some (ok bytes), q)
      → length bytes ≡ n

  module _ (port : FillsBuffer) (a n : ℕ) (c : Cancellation) where
    attempted :
        (p q : P) (bytes : List ℕ)
        → attempt_page io a n c p ≡ (ok (some (ok bytes)), q)
        → length bytes ≡ n
    unfolding attempt_page
    attempted p q bytes h =
        let read = always (io.read_exact 2000 n) in
        let send = transmit io (spi_command spi_flash_read_page a n) in
        let (_, p1, _, h1) =
          >>=-eq-ok (check_cancelled io c operation_cancelled) (λ _. send >> read) h in
        let (_, p2, _, h2) = >>=-eq-ok send (λ _. read) h1 in
        port 2000 n p2 q bytes (always-eq-ok (io.read_exact 2000 n) p2 q (some (ok bytes)) h2)

    last :
        (p p' q : P) (bytes : List ℕ) (r : Option (Result (List ℕ)))
        → attempt_page io a n c p ≡ (ok r, p')
        → last_read io a c r p' ≡ (ok bytes, q)
        → length bytes ≡ n
    unfolding last_read
    last p p' q bytes (some (ok found)) h e =
        let same : found ≡ bytes = cc in subst (λ b. length b ≡ n) same (attempted p p' found h)
    last p p' q bytes (some (err error)) h e = absurd (ground arith)
    last p p' q bytes none h e = absurd (ground arith)

    retried :
        (next : Call P (List ℕ)) (p p' q : P) (bytes : List ℕ) (r : Option (Result (List ℕ)))
        → Fills n next
        → attempt_page io a n c p ≡ (ok r, p')
        → retried_read io c next r p' ≡ (ok bytes, q)
        → length bytes ≡ n
    unfolding retried_read
    retried next p p' q bytes (some (ok found)) fills h e =
        let same : found ≡ bytes = cc in subst (λ b. length b ≡ n) same (attempted p p' found h)
    retried next p p' q bytes (some (err error)) fills h e = absurd (ground arith)
    retried next p p' q bytes none fills h e =
        let sleep = always (sleep_or_cancelled io c 10) in
        let check = λ (set : Bool). fail_if {P = P} set operation_cancelled in
        Fills-bind n (check_cancelled io c operation_cancelled)
          (λ _. sleep >>= λ set. check set >> next)
          (λ _.
            Fills-bind n sleep (λ set. check set >> next)
              (λ set. Fills-bind n (check set) (λ _. next) (λ _. fills)))
          p' q bytes e

    read_attempts-Fills : (retries : ℕ) → Fills n (read_attempts io retries a n c)
    unfolding read_attempts
    read_attempts-Fills zero p q bytes h =
        let (r, p', e, rest) = >>=-eq-ok (attempt_page io a n c) (last_read io a c) h in
        last p p' q bytes r e rest
    read_attempts-Fills (suc retries) p q bytes h =
        let next = read_attempts io retries a n c in
        let (r, p', e, rest) = >>=-eq-ok (attempt_page io a n c) (retried_read io c next) h in
        retried next p p' q bytes r (read_attempts-Fills retries) e rest

  module _ (port : FillsBuffer) (address size : ℕ) (c : Cancellation) where
    round-Fills :
        (n m read : ℕ) (rest : Call P (List ℕ)) (p q : P) (bytes : List ℕ)
        → Fills m rest
        → (do
          checked_offset io address read "SPI flash offset is too large"
              "SPI flash address overflowed"
          page ← read_spi_page io (address + read) n c
          later ← rest
          pure (page ++ later))
            p
          ≡ (ok bytes, q)
        → length bytes ≡ n + m
    unfolding read_spi_page
    round-Fills n m read rest p q bytes fills h =
        let page_read = read_attempts io 2 (address + read) n c in
        let join = λ (page later : List ℕ). pure {P = P} (page ++ later) in
        let body = λ (page : List ℕ). rest >>= join page in
        let (_, p1, _, h1) =
          >>=-eq-ok
            (checked_offset io address read "SPI flash offset is too large"
              "SPI flash address overflowed")
            (λ _. page_read >>= body) h in
        let (page, p2, e2, h2) = >>=-eq-ok page_read body h1 in
        let (later, p3, e3, h3) = >>=-eq-ok rest (join page) h2 in
        let page_size = read_attempts-Fills port (address + read) n c 2 p1 p2 page e2 in
        let later_size = fills p2 p3 later e3 in
        let whole : page ++ later ≡ bytes = cc in
        ap length (sym whole) ∙ omega (arith, length-append page later, page_size, later_size)

    choice :
        (test : Bool) (n : ℕ) (round : Call P (List ℕ)) (p q : P) (bytes : List ℕ)
        → (test ≡ true → round p ≡ (ok bytes, q) → length bytes ≡ n)
        → (test ≡ false → n ≡ 0)
        → (if test then round else pure []) p ≡ (ok bytes, q)
        → length bytes ≡ n
    choice true n round p q bytes more done h = more refl h
    choice false n round p q bytes more done h =
        let nothing : [] ≡ bytes = cc in ap length (sym nothing) ∙ sym (done refl)

    read_pages-Fills :
        (fuel read : ℕ)
        → size - read ≤ fuel
        → Fills (size - read) (read_pages io fuel address size read c)
    unfolding read_pages
    read_pages-Fills zero read enough p q bytes h =
        let none_left : size - read ≡ 0 = omega (arith, enough) in
        let nothing : [] ≡ bytes = cc in ap length (sym nothing) ∙ sym none_left
    read_pages-Fills (suc fuel) read enough p q bytes h =
        let n = min (size - read) 256 in
        let rest = read_pages io fuel address size (read + n) c in
        choice (ltb read size) (size - read) _ p q bytes
          (λ more e.
            round-Fills n (size - (read + n)) read rest p q bytes
              (read_pages-Fills fuel (read + n) (omega (arith, enough))) e
            ∙ omega arith)
          (λ done. ground arith) h

    -- A read that succeeds has as many bytes as were asked for, however often a page had to be
    -- asked for again, if the port fills the buffer of each read that it reports as a success.
    pub length-read_spi_bytes :
        (p q : P) (bytes : List ℕ)
        → read_spi_bytes io address size c p ≡ (ok bytes, q)
        → length bytes ≡ size
    unfolding read_spi_bytes
    length-read_spi_bytes =
        Fills-bind size (check_cancelled io c operation_cancelled)
          (λ _. read_pages io size address size 0 c)
          (λ _ p q bytes h. read_pages-Fills size 0 (omega arith) p q bytes h ∙ omega arith)
