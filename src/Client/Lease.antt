-- ===== src/Client/Lease.antt =====
-- What `download_history` of crates/wireview-gui/src/client.rs gets, and what it leaves behind.
use wireview_pro_ii.Base.{
  ℕ, zero, suc, ◌+◌, ◌-◌, ◌≤◌, ◌<◌, min, Bool, true, false, ◌≡◌, refl, ap, sym, subst, ◌∙◌, List,
  [], ◌∷◌, ◌++◌, ltb, length, length-append, Bool-cases, inl, inr, if◌then◌else◌, arith,
}
use wireview_pro_ii.Ipc.Messages.{StatusDto, HistoryDumpDto, HistoryChunkDto}
use wireview_pro_ii.Ipc.Compatibility.{Compatibility, compatible, validate_status}
use wireview_pro_ii.Client.Errors.{ClientError, Reply, good, fail}
use wireview_pro_ii.Client.Download.{
  Daemon, flash_length, history_chunk_size, continue, ◌>>=◌, settle, check_compatible, pure,
  fail_if, check_cancelled, is_invalid, fetch, leased, checked, fetch_if, download_history,
}

continue-eq-good :
    {W A B : Type 0} (r : Reply A) (f : A → W → Reply B × W) {w w' : W} {b : B}
    → continue r f w ≡ (good b, w')
    → (a : A) × (r ≡ good a) × (f a w ≡ (good b, w'))
continue-eq-good (good a) f h = (a, refl, h)
continue-eq-good (fail e) f h = absurd (ground arith)

-- A chain that is good has a first call that is.
>>=-eq-good :
    {W A B : Type 0} (m : W → Reply A × W) (f : A → W → Reply B × W) {w w' : W} {b : B}
    → (m >>= f) w ≡ (good b, w')
    → (a : A) × (q : W) × (m w ≡ (good a, q)) × (f a q ≡ (good b, w'))
>>=-eq-good m f {w} h =
    let (a, done, rest) = continue-eq-good (m w).0 f h in
    (a, (m w).1, ap (λ r. (r, (m w).1)) done, rest)

taken :
    {W A : Type 0} (b : Bool) (m n : W → Reply A × W) {w : W} {x : Reply A × W}
    → (if b then m else n) w ≡ x
    → b ≡ true
    → m w ≡ x
taken true m n h e = h
taken false m n h e = absurd (ground arith)

passed_by :
    {W A : Type 0} (b : Bool) (m n : W → Reply A × W) {w : W} {x : Reply A × W}
    → (if b then m else n) w ≡ x
    → b ≡ false
    → n w ≡ x
passed_by false m n h e = h
passed_by true m n h e = absurd (ground arith)

check_compatible-eq-good :
    (c : Compatibility) {u : Unit {0}} → check_compatible c ≡ good u → c ≡ compatible
check_compatible-eq-good c h = ground arith

settle-eq-good :
    {A : Type 0} (r : Reply A) (cleanup : Reply (Unit {0})) {a : A}
    → settle r cleanup ≡ good a
    → (r ≡ good a) × (cleanup ≡ good tt)
settle-eq-good (good b) (good u) h = (h, refl)
settle-eq-good (good b) (fail e) h = absurd (ground arith)
settle-eq-good (fail e) cleanup h = absurd (ground arith)

pair-eq : {A B : Type 0} {p : A × B} {a : A} {b : B} → p.0 ≡ a → p.1 ≡ b → p ≡ (a, b)
pair-eq e f = cc

-- The bytes of the chunks, in their order.
unfoldable pub joined : List HistoryChunkDto → List ℕ
joined [] = []
joined (chunk ∷ chunks) = chunk.bytes ++ joined chunks

append_nothing : (xs : List ℕ) → xs ++ [] ≡ xs
append_nothing [] = refl
append_nothing (x ∷ xs) = ap (x ∷◌) (append_nothing xs)

append_assoc : (xs ys zs : List ℕ) → (xs ++ ys) ++ zs ≡ xs ++ (ys ++ zs)
append_assoc [] ys zs = refl
append_assoc (x ∷ xs) ys zs = ap (x ∷◌) (append_assoc xs ys zs)

module _ {W : Type 0} (daemon : Daemon W) where
  passed :
      (test : Bool) (e : ClientError) {w w' : W} {u : Unit {0}}
      → fail_if daemon test e w ≡ (good u, w')
      → (test ≡ false) × (w ≡ w')
  passed true e h = ground arith
  passed false e h = ground arith

  valid_bytes :
      (expected offset size : ℕ) (chunk : HistoryChunkDto)
      → is_invalid daemon expected offset size chunk ≡ false
      → (0 < length chunk.bytes) × (length chunk.bytes ≤ size) × (chunk.offset ≡ offset)
  unfolding is_invalid
  valid_bytes expected offset size chunk h = ground arith

  -- The dump answered these chunks one after another, from an offset on, each at its offset, and
  -- the progress was told in between.
  unfoldable pub Answered : ℕ → ℕ → List HistoryChunkDto → W → W → Type 0
  Answered id offset [] w w' = w ≡ w'
  Answered id offset (chunk ∷ chunks) w w' =
      (size : ℕ) × (w1 : W) × (daemon.read_history_dump_chunk id offset size w ≡ (good chunk, w1))
      × (chunk.offset ≡ offset)
      × Answered id (offset + length chunk.bytes) chunks
          (daemon.progress (offset + length chunk.bytes) w1) w'

  -- So many bytes came from the chunks of a dump.
  abbrev pub Fetched : ℕ → List ℕ → List ℕ → W → W → Type 0
  Fetched id read bytes w w' =
      (chunks : List HistoryChunkDto) × (bytes ≡ read ++ joined chunks)
      × Answered id (length read) chunks w w'

  nothing-Fetched :
      (id : ℕ) (read bytes : List ℕ) (w w' : W) → read ≡ bytes → w ≡ w' → Fetched id read bytes w w'
  unfolding Answered joined
  nothing-Fetched id read bytes w w' same stays = ([], sym same ∙ sym (append_nothing read), stays)

  asked :
      (id offset size : ℕ) (chunk : HistoryChunkDto) (w w1 w2 w3 : W)
      → w ≡ w1
      → daemon.read_history_dump_chunk id offset size w1 ≡ (good chunk, w2)
      → w2 ≡ w3
      → daemon.read_history_dump_chunk id offset size w ≡ (good chunk, w3)
  asked id offset size chunk w w1 w2 w3 before e after =
      rw before (e ∙ ap (λ v. (good chunk, v)) after)

  -- One more chunk.
  Fetched-more :
      (id size : ℕ) (chunk : HistoryChunkDto) (read bytes : List ℕ) (w w1 w' : W)
      → daemon.read_history_dump_chunk id (length read) size w ≡ (good chunk, w1)
      → chunk.offset ≡ length read
      → Fetched id
          (read ++ chunk.bytes)
          bytes
          (daemon.progress (length read + length chunk.bytes) w1)
          w'
      → Fetched id read bytes w w'
  unfolding Answered joined
  Fetched-more id size chunk read bytes w w1 w' e at (chunks, same, rest) =
      let after = daemon.progress (length read + length chunk.bytes) w1 in
      let next = subst (λ n. Answered id n chunks after w') (length-append read chunk.bytes) rest in
      (
        chunk ∷ chunks,
        same ∙ append_assoc read chunk.bytes (joined chunks),
        (size, w1, e, at, next),
      )

  -- A download of so many bytes that is good has them all, and they came from the chunks.
  fetch-eq-good :
      (fuel id expected : ℕ) (read bytes : List ℕ) (w w' : W)
      → expected - length read ≤ fuel
      → length read ≤ expected
      → fetch daemon fuel id expected read w ≡ (good bytes, w')
      → (length bytes ≡ expected) × Fetched id read bytes w w'
  unfolding fetch Answered
  fetch-eq-good zero id expected read bytes w w' enough most h =
      let same : read ≡ bytes = ground arith in
      let stays : w ≡ w' = ground arith in
      (ground arith, nothing-Fetched id read bytes w w' same stays)
  fetch-eq-good (suc fuel) id expected read bytes w w' enough most h =
      elim (Bool-cases (ltb (length read) expected)) [
        | inr done ↦
            let same =
              ap (λ x. x.0) (passed_by (ltb (length read) expected) _ (pure daemon read) h done) in
            let whole = passed_by (ltb (length read) expected) _ (pure daemon read) h done in
            let same' : read ≡ bytes = ground arith in
            let stays : w ≡ w' = ap (λ x. x.1) whole in
            (ground arith, nothing-Fetched id read bytes w w' same' stays)
        | inl more ↦
            let size = min (expected - length read) history_chunk_size in
            let h0 = taken (ltb (length read) expected) _ (pure daemon read) h more in
            let (_, w1, running, h1) = >>=-eq-good (check_cancelled daemon) _ h0 in
            let (_, still) = passed (daemon.is_cancelled w) _ running in
            let (chunk, w2, read_it, h2) =
              >>=-eq-good (daemon.read_history_dump_chunk id (length read) size) _ h1 in
            let (_, w3, valid, h3) =
              >>=-eq-good (fail_if daemon (is_invalid daemon expected (length read) size chunk) _) _
                h2 in
            let (ok, stays) =
              passed (is_invalid daemon expected (length read) size chunk) _ valid in
            let (some_bytes, few, at) = valid_bytes expected (length read) size chunk ok in
            let sum = length-append read chunk.bytes in
            let (all, fetched) =
              fetch-eq-good fuel id expected (read ++ chunk.bytes) bytes
                (daemon.progress (length read + length chunk.bytes) w3) w' (rw sum (ground arith))
                (rw sum (ground arith)) h3 in
            (
              all,
              Fetched-more id size chunk read bytes w w3 w'
                  (asked id (length read) size chunk w w1 w2 w3 still read_it stays) at fetched,
            )
      ]

  leased-eq-good :
      {A : Type 0} (id : ℕ) (download : W → Reply A × W) {w w' : W} {a : A}
      → leased daemon id download w ≡ (good a, w')
      → (q : W) × (download w ≡ (good a, q)) × (daemon.end_history_dump id q ≡ (good tt, w'))
  unfolding leased
  leased-eq-good id download {w} {w'} {a} h =
      let q = (download w).1 in
      let (done, ended) =
        settle-eq-good (download w).0 (daemon.end_history_dump id q).0 (ap (λ x. x.0) h) in
      let last = ap (λ x. x.1) h in (q, pair-eq done refl, pair-eq ended last)

  -- The dump has the size of the history and belongs to the session of the status.
  checked-eq-good :
      (dump : HistoryDumpDto) (status : StatusDto) {u : Unit {0}}
      → checked daemon dump status ≡ good u
      → (dump.total_bytes ≡ flash_length) × (dump.session_id ≡ status.session_id)
  unfolding checked
  checked-eq-good dump status h = ground arith

  fetch_if-eq-good :
      (dump : HistoryDumpDto) (status : StatusDto) (w w' : W) (bytes : List ℕ)
      → fetch_if daemon (checked daemon dump status) dump w ≡ (good bytes, w')
      → (length bytes ≡ flash_length)
        × (dump.session_id ≡ status.session_id)
        × Fetched dump.dump_id [] bytes w w'
  fetch_if-eq-good dump status w w' bytes h = go (checked daemon dump status) refl h
    where
      go :
          (r : Reply (Unit {0}))
          → checked daemon dump status ≡ r
          → fetch_if daemon r dump w ≡ (good bytes, w')
          → (length bytes ≡ flash_length)
            × (dump.session_id ≡ status.session_id)
            × Fetched dump.dump_id [] bytes w w'
      go (good u) e g =
          let (size, session) = checked-eq-good dump status e in
          let (all, fetched) =
            fetch-eq-good dump.total_bytes dump.dump_id dump.total_bytes [] bytes w w' (omega arith)
              (omega arith) g in
          (all ∙ size, session, fetched)
      go (fail x) e g = absurd (ground arith)

  -- What a history that was downloaded has gone through, call by call: the status and the dump are
  -- those that the daemon answered, and the bytes are those of the chunks of the dump.
  pub record Downloaded (bytes : List ℕ) (w w' : W) : Type 0 where
    pub status : StatusDto
    pub dump : HistoryDumpDto
    pub connected : W
    pub reported : W
    pub leased_at : W
    pub fetched_at : W
    pub connects : daemon.connect (daemon.progress 0 w) ≡ (good tt, connected)
    pub reports : daemon.get_status connected ≡ (good status, reported)
    pub accepted : validate_status daemon.required_schema status ≡ compatible
    pub begins : daemon.begin_history_dump reported ≡ (good dump, leased_at)
    pub same_session : dump.session_id ≡ status.session_id
    pub whole : length bytes ≡ flash_length
    pub fetched : Fetched dump.dump_id [] bytes leased_at fetched_at
    pub ends : daemon.end_history_dump dump.dump_id fetched_at ≡ (good tt, w')

  -- A history that the GUI downloads is whole: whatever the daemon answers, a download that is good
  -- has all the bytes of the flash; they are those of the chunks that the daemon answered for the
  -- dump, one after another, each at the offset that was asked for; the dump is of the session of
  -- the status that was answered before, which is that of a compatible daemon; and the lease of the
  -- dump was ended, as the last thing that was done.
  pub download_history-Downloaded :
      (bytes : List ℕ) (w w' : W)
      → download_history daemon w ≡ (good bytes, w')
      → Downloaded bytes w w'
  unfolding download_history
  download_history-Downloaded bytes w w' h =
      let (_, w2, connects, h2) = >>=-eq-good daemon.connect _ h in
      let (status, w3, reports, h3) = >>=-eq-good daemon.get_status _ h2 in
      let (_, ok, h4) =
        continue-eq-good (check_compatible (validate_status daemon.required_schema status)) _ h3 in
      let (dump, w5, begun, h5) = >>=-eq-good daemon.begin_history_dump _ h4 in
      let (q, got, ended) =
        leased-eq-good dump.dump_id (fetch_if daemon (checked daemon dump status) dump) h5 in
      let (whole, session, fetched) = fetch_if-eq-good dump status w5 q bytes got in
      record {
        status = status;
        dump = dump;
        connected = w2;
        reported = w3;
        leased_at = w5;
        fetched_at = q;
        connects = connects;
        reports = reports;
        accepted = check_compatible-eq-good _ ok;
        begins = begun;
        same_session = session;
        whole = whole;
        fetched = fetched;
        ends = ended;
      }
