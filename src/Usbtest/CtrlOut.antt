-- ===== src/Usbtest/CtrlOut.antt =====
-- The control writes of patch/kernel/usbtest.c: `ctrl_out`, which writes a buffer to the device and reads it
-- back. The offset of the buffer in its memory is left out, since all accesses are relative to it.
pub mod Echo
use fuzzusb.Base.{
  ℕ, zero, suc, ◌+◌, ◌%◌, ◌^◌, Bool, true, false, not, ◌||◌, ◌&&◌, List, [], ◌∷◌, ◌++◌, length,
  drop, if◌then◌else◌, ltb, leb, ◌==◌,
}
use fuzzusb.Usb.{Ret, ret, err, Errno, einval, enomem, other}
use fuzzusb.Usbtest.{overwrite}

-- `-EBADMSG`
abbrev pub ebadmsg : Errno
ebadmsg = other 74

-- The device, as `usb_control_msg` reaches it: the request 0x5b writes bytes, and 0x5c asks for a number of
-- bytes, with the result and what it writes to the start of the buffer.
pub record OutDevice (W : Type 0) : Type 0 where
  pub write : List ℕ → W → Ret × W
  pub read : ℕ → W → (Ret × List ℕ) × W

-- `buf[j] = (u8)(i + j)`, for `len` places from `j` on
unfoldable pub patterned : ℕ → ℕ → ℕ → List ℕ
patterned i j zero = []
patterned i j (suc len) = (i + j) % 2 ^ 8 ∷ patterned i (j + 1) len

-- Whether no byte of the buffer differs from the pattern
unfoldable pub agrees : List ℕ → List ℕ → Bool
agrees [] buf = true
agrees (a ∷ as') [] = false
agrees (a ∷ as') (b ∷ bs) = (b == a) && agrees as' bs

-- `len += vary`, and what follows
abbrev pub next_len : Bool → ℕ → ℕ → ℕ → ℕ
next_len realworld size vary len =
    if ltb size (len + vary) then (if realworld then 1 else 0) else len + vary

module _ {W : Type 0} (device : OutDevice W) (realworld : Bool) (size vary : ℕ) where
  -- The read, with `rest` for what follows the round
  abbrev pub after_read : ℕ → List ℕ → (Ret → W → Ret × W) → (Ret × List ℕ) × W → Ret × W
  after_read len bytes rest ((err e, got), w) = (err e, w)
  after_read len bytes rest ((ret n, got), w) =
      if n == len && agrees bytes (overwrite got bytes) then rest (ret n) w else (err ebadmsg, w)

  -- The write
  abbrev pub after_write : ℕ → List ℕ → (Ret → W → Ret × W) → Ret × W → Ret × W
  after_write len bytes rest (err e, w) = (err e, w)
  after_write len bytes rest (ret n, w) =
      if n == len then after_read len bytes rest (device.read len w) else (err ebadmsg, w)

  -- The rounds that are left, from round `i` on
  unfoldable pub out_rounds : ℕ → ℕ → ℕ → Ret → W → Ret × W
  out_rounds zero i len r w = (r, w)
  out_rounds (suc count) i len r w =
      after_write len (patterned i 0 len)
        (out_rounds count (i + 1) (next_len realworld size vary len))
        (device.write (patterned i 0 len) w)

abbrev pub is_bad_length : ℕ → ℕ → Bool
is_bad_length size vary = ltb size 1 || ltb 65535 size || leb size vary

-- `kmalloc` says whether the buffer is allocated.
unfoldable pub ctrl_out : {W : Type 0} → OutDevice W → Bool → Bool → ℕ → ℕ → ℕ → W → Ret × W
ctrl_out device kmalloc realworld count size vary w =
    if is_bad_length size vary
    then (err einval, w)
    else if not kmalloc
    then (err enomem, w)
    else out_rounds device realworld size vary count 0 size (ret 0) w
