-- ===== src/Examples/Devices.antt =====
-- Two devices for the examples of the serial backend: one with a flash memory, and one that keeps
-- the bytes of its configuration.
use wireview_pro_ii.Base.{
  ℕ, zero, suc, get_or, ◌+◌, ◌%◌, ◌<◌, ◌≡◌, refl, true, false, none, some, List, [], ◌∷◌, ◌++◌,
  ◌==◌, if◌then◌else◌, length, drop, arith,
}
use wireview_pro_ii.Domain.Error.{ok}
use wireview_pro_ii.Config.Bytes.{byte_at, read_u32, copy_at}
use wireview_pro_ii.Serial.Port.{SerialIo}
use wireview_pro_ii.Serial.Session.{Driver, SerialBackend}
use wireview_pro_ii.Serial.Firmware.{Firmware, range, written, erased}
use wireview_pro_ii.Serial.Frames.{ConfigurationMemory}

pub record Chip : Type 0 where
  pub flash : ℕ → ℕ
  pub pending : List ℕ
  pub replies : List ℕ

-- The commands that the chip knows; it does not check them.
run : Chip → Chip
run p =
    let kind = byte_at p.pending 0 in
    let a = read_u32 p.pending 1 in
    let n = read_u32 p.pending 5 in
    if kind == 10
    then record { flash = p.flash; pending = []; replies = p.replies ++ range p.flash a n }
    else if kind == 11
    then record { flash = erased p.flash a n; pending = []; replies = p.replies ++ (1 ∷ []) }
    else record {
      flash = written p.flash a (drop 9 p.pending);
      pending = [];
      replies = p.replies ++ (1 ∷ []);
    }

unfoldable pub chip_io : SerialIo Chip
unfolding run
chip_io = record {
  clear_input = λ p. (ok tt, record p { replies = [] });
  write_all = λ bytes p. (ok tt, record p { pending = p.pending ++ bytes });
  flush = λ p. (ok tt, run p);
  read_exact = λ timeout n p.
      (if length p.replies == n
        then (some (ok p.replies), record p { replies = [] })
        else (none, p));
  sleep = λ ms p. p;
  unix_time_ms = λ p. 7;
  is_set = λ cell p. false;
  sleep_or_set = λ cell ms p. (false, p);
}

drop-append : (n : ℕ) (xs ys : List ℕ) → length xs ≡ n → drop n (xs ++ ys) ≡ ys
drop-append zero [] ys h = refl
drop-append zero (x ∷ xs) ys h = absurd (omega arith)
drop-append (suc n) [] ys h = absurd (omega arith)
drop-append (suc n) (x ∷ xs) ys h = drop-append n xs ys (omega arith)

get_or-append : (i : ℕ) (xs ys : List ℕ) → i < length xs → get_or (xs ++ ys) i 0 ≡ get_or xs i 0
get_or-append i [] ys h = absurd (omega arith)
get_or-append zero (x ∷ xs) ys h = refl
get_or-append (suc i) (x ∷ xs) ys h = get_or-append i xs ys (omega arith)

read_u32-append :
    (i : ℕ) (xs ys : List ℕ) → i + 3 < length xs → read_u32 (xs ++ ys) i ≡ read_u32 xs i
unfolding read_u32
read_u32-append i xs ys h =
    rw
      (
        get_or-append i xs ys (omega arith),
        get_or-append (i + 1) xs ys (omega arith),
        get_or-append (i + 2) xs ys (omega arith),
        get_or-append (i + 3) xs ys (omega arith),
      )
      refl

pub reads_lem :
    (a n : ℕ) (p : Chip)
    → byte_at p.pending 0 ≡ 10
    → read_u32 p.pending 1 ≡ a
    → read_u32 p.pending 5 ≡ n
    → chip_io.flush p
      ≡ (ok tt, record { flash = p.flash; pending = []; replies = p.replies ++ range p.flash a n })
unfolding chip_io
reads_lem a n p kind at size = rw (kind, at, size) refl

pub erases_lem :
    (a n : ℕ) (p : Chip)
    → byte_at p.pending 0 ≡ 11
    → read_u32 p.pending 1 ≡ a
    → read_u32 p.pending 5 ≡ n
    → chip_io.flush p ≡ (
      ok tt,
      record { flash = erased p.flash a n; pending = []; replies = p.replies ++ (1 ∷ []) },
    )
unfolding chip_io
erases_lem a n p kind at size = rw (kind, at, size) refl

pub programs_lem :
    (a : ℕ) (header bytes : List ℕ) (p : Chip)
    → p.pending ≡ header ++ bytes
    → length header ≡ 9
    → byte_at header 0 ≡ 9
    → read_u32 header 1 ≡ a
    → chip_io.flush p ≡ (
      ok tt,
      record { flash = written p.flash a bytes; pending = []; replies = p.replies ++ (1 ∷ []) },
    )
unfolding chip_io
programs_lem a header bytes p waits nine kind at =
    let k : byte_at p.pending 0 ≡ 9 =
      rw (waits, get_or-append 0 header bytes (omega (arith, nine))) kind in
    let t : read_u32 p.pending 1 ≡ a =
      rw (waits, read_u32-append 1 header bytes (omega (arith, nine))) at in
    let rest : drop 9 p.pending ≡ bytes = rw waits (drop-append 9 header bytes nine) in
    rw (k, t, rest) refl

pub answers_lem :
    (timeout n : ℕ) (p : Chip)
    → length p.replies ≡ n
    → chip_io.read_exact timeout n p ≡ (some (ok p.replies), record p { replies = [] })
unfolding chip_io
answers_lem timeout n p h = ground arith

unfoldable pub chip : Firmware chip_io
unfolding chip_io
chip = record {
  flash = λ p. p.flash;
  pending = λ p. p.pending;
  replies = λ p. p.replies;
  clears = λ p. (record p { replies = [] }, refl, refl, refl, refl);
  receives = λ bytes p. (record p { pending = p.pending ++ bytes }, refl, refl, refl, refl);
  reads = λ a n p nine kind at size page. (_, reads_lem a n p kind at size, refl, refl, refl);
  erases = λ a n p nine kind at size whole_a whole_n inside.
      (_, erases_lem a n p kind at size, refl, refl, refl);
  programs = λ a header bytes p waits nine kind at size page inside blank.
      (_, programs_lem a header bytes p waits nine kind at, refl, refl, refl);
  answers = λ timeout n p h. (record p { replies = [] }, answers_lem timeout n p h, refl, refl);
}

-- The device that keeps a configuration, and the last bytes that came in.
pub record Keeper : Type 0 where
  pub active : List ℕ
  pub last : List ℕ

unfoldable pub keeper_io : SerialIo Keeper
keeper_io = record {
  clear_input = λ p. (ok tt, p);
  write_all = λ bytes p. (ok tt, record p { last = bytes });
  flush = λ p. (
    ok tt,
    if byte_at p.last 0 == 6
        then record p { active = copy_at p.active (byte_at p.last 1) (drop 2 p.last) }
        else p,
  );
  read_exact = λ timeout n p. (if length p.active == n then (some (ok p.active), p) else (none, p));
  sleep = λ ms p. p;
  unix_time_ms = λ p. 7;
  is_set = λ cell p. false;
  sleep_or_set = λ cell ms p. (false, p);
}

pub keeper_answers :
    (timeout : ℕ) (p : Keeper)
    → keeper_io.read_exact timeout (length p.active) p ≡ (some (ok p.active), p)
unfolding keeper_io
keeper_answers timeout p = ground arith

unfoldable pub keeper : ConfigurationMemory keeper_io
unfolding keeper_io
keeper = record {
  active = λ p. p.active;
  clears = λ p. (p, refl, refl);
  accepts = λ offset payload p small page inside. (_, _, refl, refl, refl);
  answers = λ timeout p.
      let q = record p { last = 5 ∷ [] } in (q, q, refl, keeper_answers timeout q, refl);
}

abbrev pub idle_chip : Chip
idle_chip = record { flash = λ a. a % 256; pending = []; replies = [] }

abbrev driver_of : {P : Type 0} → SerialIo P → Driver P
driver_of io = record {
  io = io;
  open_exclusive = λ port p. (ok tt, p);
  request_to_send = λ on p. (ok tt, p);
  now = λ p. 0;
  new_cancellation = λ p. (0, p);
  cancel = λ cell p. p;
}

abbrev pub chip_driver : Driver Chip
chip_driver = driver_of chip_io

abbrev pub keeper_driver : Driver Keeper
keeper_driver = driver_of keeper_io

abbrev pub chip_session : SerialBackend Chip
chip_session = record { is_open = true; config_version = some 2; outside = idle_chip }
