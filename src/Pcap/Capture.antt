-- ===== src/Pcap/Capture.antt =====
-- pcap.rs: a capture that is written record by record is read back.
use michoi.Common.{
  ℕ, ◌+◌, ◌*◌, ◌/◌, ◌%◌, ◌≤◌, ◌<◌, ◌^◌, zero, suc, ◌-◌, Bool, true, false, Option, none, some, List,
  [], ◌∷◌, ◌++◌, ◌≡◌, refl, arith,
}
use michoi.Common.{
  length, take, drop, ltb, if◌then◌else◌, All, ok, err, length-append, take-append, drop-append,
}
use michoi.Common.Bytes.{u32_le, of_le32}
use michoi.Pcap.{format, UdpRecord, decode_udp, base_of, with_record, read_records}

-- One record of a little-endian capture: its time in two parts, the length on the wire, its bytes.
pub record Recorded : Type 0 where
  pub seconds : ℕ
  pub fraction : ℕ
  pub original : ℕ
  pub raw : List ℕ

pub record IsRecorded (r : Recorded) : Type 0 where
  pub seconds_fit : r.seconds < 2 ^ 32
  pub fraction_fits : r.fraction < 2 ^ 32
  pub length_fits : length r.raw < 2 ^ 32

abbrev pub record_bytes : Recorded → List ℕ → List ℕ
record_bytes r rest =
    u32_le r.seconds
    ++ (u32_le r.fraction ++ (u32_le (length r.raw) ++ (u32_le r.original ++ (r.raw ++ rest))))

abbrev pub capture : List Recorded → List ℕ
capture [] = []
capture (r ∷ rs) = record_bytes r (capture rs)

abbrev pub nanos_of : ℕ → Recorded → ℕ
nanos_of scale r = r.seconds * 1000000000 + r.fraction * (1000000000 / scale)

-- The time of the first record: the one that is known, or that of this record.
abbrev first_of : Option ℕ → ℕ → ℕ
first_of none nanos = nanos
first_of (some first) nanos = first

-- A datagram in front of the later ones, at its time.
abbrev timed : ℕ → Option UdpRecord → List UdpRecord → List UdpRecord
timed micros none later = later
timed micros (some u) later = record u { timestamp_micros = micros } ∷ later

-- What is to be read: the datagrams among the records, each with its number and with the
-- microseconds from the first record to its own, in 64 bits of nanoseconds.
abbrev pub records_of : ℕ → Option ℕ → ℕ → List Recorded → List UdpRecord
records_of scale first_ns frame [] = []
records_of scale first_ns frame (r ∷ rs) =
    let first = first_of first_ns (nanos_of scale r) in
    let number = (frame + 1) % 2 ^ 32 in
    timed ((nanos_of scale r + 2 ^ 64 - first) % 2 ^ 64 / 1000) (decode_udp number r.raw)
      (records_of scale (some first) number rs)

base_of-first_of : (o : Option ℕ) (nanos : ℕ) → base_of o nanos ≡ first_of o nanos
base_of-first_of none nanos = refl
base_of-first_of (some first) nanos = refl

with_record-timed :
    (nanos first : ℕ) (o : Option UdpRecord) (later : List UdpRecord)
    → with_record nanos first o later ≡ timed ((nanos + 2 ^ 64 - first) % 2 ^ 64 / 1000) o later
with_record-timed nanos first none later = refl
with_record-timed nanos first (some u) later = refl

le32_of :
    (v : ℕ)
    → v < 2 ^ 32
    → of_le32 (v % 256) (v / 256 % 256) (v / 65536 % 256) (v / 16777216 % 256) ≡ v
le32_of v h = omega arith

guards {ℓ} :
    {A : Type ℓ} (p q : Bool) (first second good : A)
    → p ≡ false
    → q ≡ false
    → (if p then first else if q then second else good) ≡ good
guards p q first second good h k = rw (h, k) refl

-- A little-endian capture of any records whose times and lengths fit their fields: with fuel for its
-- length, reading ends and gives the datagrams among them in order, each with the number of its
-- record and its time after the first one.
pub read_records-capture :
    (fuel scale : ℕ) (first_ns : Option ℕ) (frame : ℕ) (rs : List Recorded)
    → length (capture rs) ≤ fuel
    → All IsRecorded rs
    → read_records fuel true scale first_ns frame (capture rs)
      ≡ ok (records_of scale first_ns frame rs)
unfolding read_records
read_records-capture zero scale first_ns frame [] h w = refl
read_records-capture (suc fuel) scale first_ns frame [] h w = refl
read_records-capture zero scale first_ns frame (r ∷ rs) h w = absurd (omega (arith, h))
read_records-capture (suc fuel) scale first_ns frame (r ∷ rs) h w =
    let rest : List ℕ = capture rs in
    let body : List ℕ = r.raw ++ rest in
    let size : length body ≡ length r.raw + length rest = length-append r.raw rest in
    let long : ltb (length (record_bytes r rest)) 16 ≡ false = ground arith in
    let whole : ltb (length body) (length r.raw) ≡ false = ground (arith, size) in
    let base = first_of first_ns (nanos_of scale r) in
    let number = (frame + 1) % 2 ^ 32 in
    let taken : take (length r.raw) body ≡ r.raw = take-append r.raw rest (length r.raw) refl in
    let left : drop (length r.raw) body ≡ rest = drop-append r.raw rest (length r.raw) refl in
    let later : read_records fuel true scale (some base) number rest
        ≡ ok (records_of scale (some base) number rs) =
      read_records-capture fuel scale (some base) number rs (omega (arith, h, size)) w.1 in
    rw
      (
        le32_of (length r.raw) w.0.length_fits,
        le32_of r.seconds w.0.seconds_fit,
        le32_of r.fraction w.0.fraction_fits,
        taken,
        left,
        base_of-first_of first_ns (nanos_of scale r),
        later,
        with_record-timed (nanos_of scale r) base (decode_udp number r.raw)
            (records_of scale (some base) number rs),
      )
      (guards (ltb (length (record_bytes r rest)) 16) (ltb (length body) (length r.raw)) (ok [])
        (err format) (ok (records_of scale first_ns frame (r ∷ rs))) long whole)
