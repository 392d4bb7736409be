-- ===== src/Serial/Frames.antt =====
-- `write_configuration` and `read_configuration` of `SerialBackend` in src/backend.rs, at a device
-- that keeps the bytes of its configuration.
use wireview_pro_ii.Base.{
  ℕ, zero, suc, ◌+◌, ◌-◌, ◌==◌, leb, true, false, ◌≤◌, ◌<◌, ◌≡◌, refl, sym, ap, subst, ◌∙◌, some,
  List, [], ◌∷◌, length, get_or, set, take, drop, length-take, length-drop, arith,
}
use wireview_pro_ii.Float.{FloatOps}
use wireview_pro_ii.Domain.Error.{ok}
use wireview_pro_ii.Config.Types.{DeviceConfiguration}
use wireview_pro_ii.Config.Ordinals.{configuration_size}
use wireview_pro_ii.Config.Bytes.{copy_at}
use wireview_pro_ii.Config.Encode.{encode_configuration}
use wireview_pro_ii.Config.Decode.{decode_configuration}
use wireview_pro_ii.Config.Layout.{length-copy_at, length-encode_configuration}
use wireview_pro_ii.Protocol.Commands.{code}
use wireview_pro_ii.Serial.Port.{SerialIo, transmit}
use wireview_pro_ii.Serial.Session.{Driver, SerialBackend, frame, response}
use wireview_pro_ii.Serial.Device.{
  write_frames, read_configuration, read_rounds, write_configuration,
}
use wireview_pro_ii.Serial.Memory.{eq_of_elements, get_or-copy_at}

-- A device that keeps the bytes of its active configuration: a frame of at most 62 bytes is put
-- where its offset says, and the read command is answered with as many bytes as are read.
pub record ConfigurationMemory {P : Type 0} (io : SerialIo P) : Type 0 where
  pub active : P → List ℕ
  pub clears : (p : P) → (q : P) × (io.clear_input p ≡ (ok tt, q)) × (active q ≡ active p)
  pub accepts :
      (offset : ℕ) (payload : List ℕ) (p : P)
      → offset < 256
      → length payload ≤ 62
      → offset + length payload ≤ length (active p)
      → (q : P) × (r : P) × (io.write_all (6 ∷ offset ∷ payload) p ≡ (ok tt, q))
        × (io.flush q ≡ (ok tt, r))
        × (active r ≡ copy_at (active p) offset payload)
  pub answers :
      (timeout : ℕ) (p : P)
      → (q : P) × (r : P) × (transmit io (5 ∷ []) p ≡ (ok tt, q))
        × (io.read_exact timeout (length (active p)) q ≡ (some (ok (active p)), r))
        × (active r ≡ active p)

copy_at_parts :
    (n offset : ℕ) (bytes source : List ℕ)
    → copy_at (copy_at bytes offset (take n source)) (offset + n) (drop n source)
      ≡ copy_at bytes offset source
copy_at_parts zero offset bytes source = let e : offset + 0 ≡ offset = omega arith in rw e refl
copy_at_parts (suc n) offset bytes [] = refl
copy_at_parts (suc n) offset bytes (b ∷ source) =
    let e : offset + suc n ≡ offset + 1 + n = omega arith in
    rw e (copy_at_parts n (offset + 1) (set bytes offset b) source)

-- A buffer that is written in full has what was written.
copy_at_whole :
    (bytes source : List ℕ) → length source ≡ length bytes → copy_at bytes 0 source ≡ source
copy_at_whole bytes source size =
    eq_of_elements (copy_at bytes 0 source) source (length-copy_at bytes 0 source ∙ sym size)
      (λ i lt. whole_at bytes source i size (subst (λ n. i < n) (length-copy_at bytes 0 source) lt))
  where
    whole_at :
        (bytes source : List ℕ) (i : ℕ)
        → length source ≡ length bytes
        → i < length bytes
        → get_or (copy_at bytes 0 source) i 0 ≡ get_or source i 0
    whole_at bytes source i size lt = ground (arith, get_or-copy_at bytes source 0 i)

size_in_byte : (version n : ℕ) → configuration_size version ≡ ok n → n ≤ 256
unfolding configuration_size
size_in_byte zero n h = ground arith
size_in_byte (suc zero) n h = ground arith
size_in_byte (suc (suc zero)) n h = ground arith
size_in_byte (suc (suc (suc v))) n h = absurd (ground arith)

module _ {P : Type 0} (d : Driver P) (device : ConfigurationMemory d.io) where
  open device use {active}

  write_frames_lem :
      (fuel offset : ℕ) (bytes : List ℕ) (p : P)
      → length bytes ≤ fuel
      → length bytes ≤ length (active p) - offset
      → length (active p) ≤ 256
      → (q : P) × (write_frames d fuel offset bytes p ≡ (ok tt, q))
        × (active q ≡ copy_at (active p) offset bytes)
  unfolding write_frames frame code
  write_frames_lem fuel offset [] p enough fits small = (p, refl, refl)
  write_frames_lem zero offset (b ∷ bytes) p enough fits small = absurd (omega arith)
  write_frames_lem (suc fuel) offset (b ∷ bytes) p enough fits small =
      let payload = take 62 (b ∷ bytes) in
      let later = drop 62 (b ∷ bytes) in
      let n1 = length-take 62 (b ∷ bytes) in
      let n2 = length-drop 62 (b ∷ bytes) in
      let t : leb 256 offset ≡ false = ground arith in
      let (w, q, ew, e, m) =
        device.accepts offset payload p (omega (arith, fits, small)) (omega (arith, n1))
          (omega (arith, n1, fits)) in
      let size = ap length m ∙ length-copy_at (active p) offset payload in
      let (s, e', m') =
        write_frames_lem fuel (offset + 62) later q (omega (arith, n2, enough))
          (omega (arith, n2, size, fits)) (omega (arith, size, small)) in
      let parts = copy_at_parts 62 offset (active p) (b ∷ bytes) in
      (s, rw (t, ew, e) e', m' ∙ rw m parts)

module _ {F P : Type 0} (f : FloatOps F) (d : Driver P) (device : ConfigurationMemory d.io) where
  open device use {active}

  module _ (c : DeviceConfiguration F) (s : SerialBackend P) (bytes : List ℕ)
      (opened : s.is_open ≡ true) (version : s.config_version ≡ some c.raw_version)
      (encoded : encode_configuration f c ≡ ok bytes)
      (size : length (active s.outside) ≡ length bytes) where
    write_configuration_lem :
        (p : P) × (write_configuration f d c s ≡ (ok tt, record s { outside = p }))
        × (active p ≡ bytes)
    unfolding write_configuration
    write_configuration_lem =
        let small =
          size_in_byte c.raw_version (length bytes)
            (length-encode_configuration f c bytes encoded) in
        let (q, e, m) = device.clears s.outside in
        let same = ap length m ∙ size in
        let (r, e', m') =
          write_frames_lem d device (length bytes) 0 bytes q (omega arith) (omega (arith, same))
            (omega (arith, same, small)) in
        let right : (c.raw_version == c.raw_version) ≡ true = ground arith in
        (
          r,
          rw (version, right, encoded, opened, e, e') refl,
          m' ∙ copy_at_whole (active q) bytes (sym same),
        )

    -- Over an open session, a configuration of the session's version that can be encoded is
    -- accepted by a device that keeps as many bytes, which then holds exactly the encoded ones; if
    -- they decode, what they decode to is read back.
    pub read-write_configuration :
        (s' : SerialBackend P) × (write_configuration f d c s ≡ (ok tt, s'))
        × (active s'.outside ≡ bytes)
        × ((c' : DeviceConfiguration F)
            → decode_configuration f c.raw_version bytes ≡ ok c'
            → (read_configuration f d s').0 ≡ ok c')
    unfolding read_configuration read_rounds response code
    read-write_configuration =
        let (p, accepted, holds) = write_configuration_lem in
        let (q, r, asked, answered, same) = device.answers 1000 p in
        let read : d.io.read_exact 1000 (length bytes) q ≡ (some (ok bytes), r) =
          subst (λ b. d.io.read_exact 1000 (length b) q ≡ (some (ok b), r)) holds answered in
        let right_size = length-encode_configuration f c bytes encoded in
        (
          record s { outside = p },
          accepted,
          holds,
          λ c' decoded. rw (version, right_size, opened, asked, read, decoded) refl,
        )
