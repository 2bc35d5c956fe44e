-- ===== src/Usbtest/Queue/Frames.antt =====
-- `iso_alloc_urb` cuts a buffer into packets.
use native.Mathlib.Nat.{lt-div-mul-add, div-mul-le_self}
use fuzzusb.Base.{
  ℕ, zero, suc, ◌+◌, ◌-◌, ◌*◌, ◌/◌, ◌^◌, ◌≤◌, ◌<◌, ◌≡◌, refl, arith, min, false, ◌||◌, some, List,
  [], ◌∷◌, length, ltb, ◌==◌,
}
use fuzzusb.Usb.{Speed, Descriptor}
use fuzzusb.Usbtest.Queue.{Frame, frames, bytes_per_interval, IsoUrb, iso_alloc_urb}

-- The packets lie one behind the other from `start` on, each of 1 to `maxp` bytes and the last of them
-- alone less than `maxp`, and together have `bytes` bytes.
abbrev pub IsCut : ℕ → ℕ → ℕ → List Frame → Type 0
IsCut maxp start bytes [] = bytes ≡ 0
IsCut maxp start bytes (f ∷ fs) =
    (f.offset ≡ start)
    × (0 < f.length)
    × (f.length ≡ min bytes maxp)
    × IsCut maxp (start + f.length) (bytes - f.length) fs

-- `bytes` fill `n` packets.
abbrev Fills : ℕ → ℕ → ℕ → Type 0
Fills maxp zero bytes = bytes ≡ 0
Fills maxp (suc n) bytes = (n * maxp < bytes) × (bytes ≤ n * maxp + maxp)

frames-IsCut :
    (maxp i n bytes start : ℕ)
    → 0 < maxp
    → Fills maxp n bytes
    → (0 < n → start ≡ maxp * i)
    → IsCut maxp start bytes (frames maxp i n bytes)
unfolding frames
frames-IsCut maxp i zero bytes start pos h s = h
frames-IsCut maxp i (suc zero) bytes start pos h s =
    (omega (arith, s (omega arith)), omega arith, refl, omega arith)
frames-IsCut maxp i (suc (suc n)) bytes start pos h s =
    let whole : min bytes maxp ≡ maxp = omega arith in
    (
      omega (arith, s (omega arith)),
      omega (arith, whole),
      refl,
      frames-IsCut maxp (i + 1) (suc n) (bytes - min bytes maxp) (start + min bytes maxp) pos
          (omega (arith, whole)) (λ l. omega (arith, s (omega arith), whole)),
    )

length-frames : (maxp i n bytes : ℕ) → length (frames maxp i n bytes) ≡ n
unfolding frames
length-frames maxp i zero bytes = refl
length-frames maxp i (suc n) bytes =
    omega (arith, length-frames maxp (i + 1) n (bytes - min bytes maxp))

Fills-of :
    (maxp bytes n : ℕ)
    → 0 < maxp
    → n * maxp ≤ bytes + maxp - 1
    → bytes + maxp - 1 < n * maxp + maxp
    → Fills maxp n bytes
Fills-of maxp bytes zero pos l h = omega arith
Fills-of maxp bytes (suc n) pos l h = omega arith

round_up-Fills : (maxp bytes : ℕ) → 0 < maxp → Fills maxp ((bytes + maxp - 1) / maxp) bytes
round_up-Fills maxp bytes pos =
    Fills-of maxp bytes ((bytes + maxp - 1) / maxp) pos (div-mul-le_self _ _) (lt-div-mul-add pos)

-- For an endpoint that transfers something in an interval, and an interval exponent from 1 to 31,
-- `iso_alloc_urb` is defined, and cuts the transfer into as many packets as it says: they lie one behind
-- the other from the start of the buffer on, each has at least one byte, all but the last are as long as
-- the endpoint allows, and together they have all bytes of the transfer.
pub iso_alloc_urb-IsCut :
    (speed : Speed) (desc : Descriptor) (ss_num b_interval bytes : ℕ)
    → 0 < bytes_per_interval speed desc ss_num
    → 1 ≤ b_interval
    → b_interval ≤ 31
    → (u : IsoUrb) × (iso_alloc_urb speed desc ss_num b_interval bytes ≡ some u)
      × (length u.iso_frame_desc ≡ u.number_of_packets)
      × IsCut (bytes_per_interval speed desc ss_num) 0 u.transfer_buffer_length u.iso_frame_desc
      × (u.transfer_buffer_length ≡ bytes)
unfolding iso_alloc_urb
iso_alloc_urb-IsCut speed desc ss_num b_interval bytes pos low high =
    let maxp = bytes_per_interval speed desc ss_num in
    let packets = (bytes + maxp - 1) / maxp in
    let legal : (maxp == 0 || b_interval == 0 || ltb 31 b_interval) ≡ false = ground arith in
    (
      record {
        number_of_packets = packets;
        transfer_buffer_length = bytes;
        iso_frame_desc = frames maxp 0 packets bytes;
        interval = 2 ^ (b_interval - 1);
      },
      rw legal refl,
      length-frames maxp 0 packets bytes,
      frames-IsCut maxp 0 packets bytes 0 pos (round_up-Fills maxp bytes pos) (λ l. omega arith),
      refl,
    )
