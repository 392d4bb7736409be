-- ===== src/Client/Honest.antt =====
-- `download_history` of crates/wireview-gui/src/client.rs at a daemon that answers each call with
-- what its contract says.
use wireview_pro_ii.Base.{
  ℕ, zero, suc, ◌+◌, ◌-◌, ◌≤◌, ◌<◌, min, true, false, ◌≡◌, refl, ap, ◌∙◌, List, [], ◌∷◌, ◌++◌, ltb,
  ◌==◌, length, Bool-cases, inl, inr, take, drop, length-take, length-drop, arith,
}
use wireview_pro_ii.Ipc.Messages.{StatusDto, HistoryDumpDto, HistoryChunkDto}
use wireview_pro_ii.Ipc.Compatibility.{compatible, validate_status}
use wireview_pro_ii.Client.Errors.{Reply, good}
use wireview_pro_ii.Client.Download.{
  Daemon, flash_length, history_chunk_size, continue, ◌>>=◌, check_compatible, fail_if,
  check_cancelled, is_invalid, fetch, leased, checked, fetch_if, download_history,
}

abbrev pub chunk : List ℕ → ℕ → ℕ → HistoryChunkDto
chunk log offset size = record {
  offset = offset;
  total_bytes = flash_length;
  bytes = take size (drop offset log);
}

-- A daemon with this history, which nobody cancels.
pub record Honest {W : Type 0} (daemon : Daemon W) (log : List ℕ) : Type 0 where
  pub status : StatusDto
  pub dump : HistoryDumpDto
  pub whole : length log ≡ flash_length
  pub runs : (w : W) → daemon.is_cancelled w ≡ false
  pub connects : (w : W) → (daemon.connect w).0 ≡ good tt
  pub reports : (w : W) → (daemon.get_status w).0 ≡ good status
  pub accepted : validate_status daemon.required_schema status ≡ compatible
  pub begins : (w : W) → (daemon.begin_history_dump w).0 ≡ good dump
  pub sized : dump.total_bytes ≡ flash_length
  pub same_session : dump.session_id ≡ status.session_id
  pub reads :
      (offset size : ℕ) (w : W)
      → (daemon.read_history_dump_chunk dump.dump_id offset size w).0 ≡ good (chunk log offset size)
  pub ends : (w : W) → (daemon.end_history_dump dump.dump_id w).0 ≡ good tt

take_all : (n : ℕ) (xs : List ℕ) → length xs ≤ n → take n xs ≡ xs
take_all zero [] h = refl
take_all zero (x ∷ xs) h = absurd (omega (arith, h))
take_all (suc n) [] h = refl
take_all (suc n) (x ∷ xs) h = ap (x ∷◌) (take_all n xs (omega (arith, h)))

take_add : (n m : ℕ) (xs : List ℕ) → take n xs ++ take m (drop n xs) ≡ take (n + m) xs
take_add zero m xs = let e : 0 + m ≡ m = omega arith in rw e refl
take_add (suc n) zero [] = let e : suc n + 0 ≡ suc n = omega arith in rw e refl
take_add (suc n) (suc m) [] = let e : suc n + suc m ≡ suc (n + suc m) = omega arith in rw e refl
take_add (suc n) m (x ∷ xs) =
    let e : suc n + m ≡ suc (n + m) = omega arith in rw e (ap (x ∷◌) (take_add n m xs))

-- A chain whose first call is good goes on.
goes_on :
    {W A B : Type 0} (m : W → Reply A × W) (f : A → W → Reply B × W) (w : W) {a : A} {r : Reply B}
    → (m w).0 ≡ good a
    → (f a (m w).1).0 ≡ r
    → ((m >>= f) w).0 ≡ r
goes_on m f w h rest = ap (λ r. (continue r f (m w).1).0) h ∙ rest

module _ {W : Type 0} (daemon : Daemon W) (log : List ℕ) (honest : Honest daemon log) where
  open honest use {
    status, dump, whole, runs, connects, reports, accepted, begins, sized, same_session, reads,
    ends,
  }

  chunk_valid :
      (offset size : ℕ)
      → 0 < size
      → offset + size ≤ flash_length
      → is_invalid daemon flash_length offset size (chunk log offset size) ≡ false
  unfolding is_invalid
  chunk_valid offset size some inside =
      let n = length-take size (drop offset log) in
      let d = length-drop offset log in
      let all : length (take size (drop offset log)) ≡ size = omega (arith, n, d, whole) in
      rw all (ground arith)

  -- The fuel is enough: the loop gets the rest of the history.
  fetch_lem :
      (fuel n : ℕ) (w : W)
      → flash_length - n ≤ fuel
      → n ≤ flash_length
      → (fetch daemon fuel dump.dump_id flash_length (take n log) w).0 ≡ good log
  unfolding fetch
  fetch_lem zero n w enough most = ap good (take_all n log (omega arith))
  fetch_lem (suc fuel) n w enough most =
      let here : length (take n log) ≡ n = omega (arith, length-take n log, whole) in
      elim (Bool-cases (ltb n flash_length)) [
        | inr done ↦ rw (here, done) (ap good (take_all n log (ground arith)))
        | inl more ↦
            let size = min (flash_length - n) history_chunk_size in
            let valid = chunk_valid n size (ground arith) (ground arith) in
            let rest : (w' : W)
                → (fetch daemon fuel dump.dump_id flash_length
                    (take n log ++ take size (drop n log)) w').0
                  ≡ good log =
              λ w'.
                rw (take_add n size log)
                  (fetch_lem fuel (n + size) w' (ground arith) (ground arith)) in
            rw (here, more)
              (goes_on (check_cancelled daemon) _ w (rw (runs w) refl) (
                goes_on (daemon.read_history_dump_chunk dump.dump_id n size) _ _ (reads n size _) (
                  goes_on
                    (fail_if daemon (is_invalid daemon flash_length n size (chunk log n size)) _) _
                    _ (rw valid refl) (rest _))))
      ]

  checked_lem : checked daemon dump status ≡ good tt
  unfolding checked
  checked_lem =
      let size : (dump.total_bytes == flash_length) ≡ true = rw sized refl in
      let session : (dump.session_id == status.session_id) ≡ true = grind (arith, same_session) in
      rw (size, session) refl

  leased_lem :
      (w : W)
      → (leased daemon dump.dump_id (fetch_if daemon (checked daemon dump status) dump) w).0
        ≡ good log
  unfolding leased
  leased_lem w =
      let got : (fetch daemon dump.total_bytes dump.dump_id dump.total_bytes [] w).0 ≡ good log =
        rw sized (fetch_lem flash_length 0 w (omega arith) (omega arith)) in
      rw (checked_lem, got, ends _) refl

  -- The whole download: at a daemon that has a history, reports a status of a compatible interface
  -- and answers each call as its contract says, with nobody cancelling, it ends and gives the
  -- history as it is, byte for byte.
  pub download_history_lem : (w : W) → (download_history daemon w).0 ≡ good log
  unfolding download_history leased checked
  download_history_lem w =
      let last = λ (d : HistoryDumpDto) (s : StatusDto).
        leased daemon d.dump_id (fetch_if daemon (checked daemon d s) d) in
      let begin = λ (s : StatusDto). daemon.begin_history_dump >>= λ d. last d s in
      let agree : StatusDto → W → Reply (Unit {0}) × W =
        λ s w. (check_compatible (validate_status daemon.required_schema s), w) in
      let report = λ (s : StatusDto). agree s >>= λ _. begin s in
      let accept : (w : W) → (agree status w).0 ≡ good tt = λ w. rw accepted refl in
      let w1 = (daemon.connect (daemon.progress 0 w)).1 in
      let w2 = (daemon.get_status w1).1 in
      goes_on daemon.connect (λ _. daemon.get_status >>= report) (daemon.progress 0 w) (connects _)
        (goes_on daemon.get_status report w1 (reports _) (
          goes_on (agree status) (λ _. begin status) w2 (accept w2)
            (goes_on daemon.begin_history_dump (λ d. last d status) w2 (begins w2)
              (leased_lem (daemon.begin_history_dump w2).1))))
