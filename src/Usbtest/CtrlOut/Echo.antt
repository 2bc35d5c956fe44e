-- ===== src/Usbtest/CtrlOut/Echo.antt =====
-- A device that gives back what was written passes `ctrl_out`.
use mathlib.Core.Path.{subst}
use fuzzusb.Base.{
  ℕ, zero, suc, ◌+◌, ◌≤◌, ◌<◌, ◌≡◌, refl, sym, ap, arith, Bool, true, false, List, [], ◌∷◌, ◌++◌,
  length, drop, ==_refl,
}
use fuzzusb.Usb.{Ret, ret}
use fuzzusb.Usbtest.CtrlOut.{
  OutDevice, patterned, agrees, next_len, after_read, after_write, out_rounds, is_bad_length,
  ctrl_out,
}

-- A device that takes all that is written and gives it back
pub record Echoes {W : Type 0} (device : OutDevice W) : Type 0 where
  pub writes : (bytes : List ℕ) (w : W) → (device.write bytes w).0 ≡ ret (length bytes)
  pub reads :
      (bytes : List ℕ) (w : W)
      → (device.read (length bytes) (device.write bytes w).1).0 ≡ (ret (length bytes), bytes)

length-patterned : (i j len : ℕ) → length (patterned i j len) ≡ len
unfolding patterned
length-patterned i j zero = refl
length-patterned i j (suc len) = ap suc (length-patterned i (j + 1) len)

agrees_refl : (bytes rest : List ℕ) → agrees bytes (bytes ++ rest) ≡ true
unfolding agrees
agrees_refl [] rest = refl
agrees_refl (a ∷ as') rest = rw (==_refl a) (agrees_refl as' rest)

-- A result that is not negative, and at most `size`
abbrev pub IsUpTo : {W : Type 0} → ℕ → Ret × W → Type 0
IsUpTo size (r, w) = (k : ℕ) × (r ≡ ret k) × (k ≤ size)

module _ {W : Type 0} (device : OutDevice W) (echoes : Echoes device) (realworld : Bool)
    (size vary : ℕ) where
  after_read-IsUpTo :
      (bytes : List ℕ) (rest : Ret → W → Ret × W) (got : (Ret × List ℕ) × W)
      → got.0 ≡ (ret (length bytes), bytes)
      → IsUpTo size (rest (ret (length bytes)) got.1)
      → IsUpTo size (after_read device realworld size vary (length bytes) bytes rest got)
  after_read-IsUpTo bytes rest (answer, w) h k =
      subst
        (λ a. IsUpTo size (after_read device realworld size vary (length bytes) bytes rest (a, w)))
        (sym h) (rw (==_refl (length bytes)) (rw (agrees_refl bytes (drop (length bytes) bytes)) k))

  after_write-IsUpTo :
      (bytes : List ℕ) (rest : Ret → W → Ret × W) (got : Ret × W)
      → got.0 ≡ ret (length bytes)
      → (device.read (length bytes) got.1).0 ≡ (ret (length bytes), bytes)
      → ((w : W) → IsUpTo size (rest (ret (length bytes)) w))
      → IsUpTo size (after_write device realworld size vary (length bytes) bytes rest got)
  after_write-IsUpTo bytes rest (answer, w) h r k =
      subst
        (λ a. IsUpTo size (after_write device realworld size vary (length bytes) bytes rest (a, w)))
        (sym h)
        (rw (==_refl (length bytes)) (
          after_read-IsUpTo bytes rest (device.read (length bytes) w) r
            (k (device.read (length bytes) w).1)))

  next_len_bound : (len : ℕ) → 1 ≤ size → next_len realworld size vary len ≤ size
  next_len_bound len h = ground arith

  out_rounds-IsUpTo :
      (count i len k : ℕ) (w : W)
      → 1 ≤ size
      → len ≤ size
      → k ≤ size
      → IsUpTo size (out_rounds device realworld size vary count i len (ret k) w)
  unfolding out_rounds
  out_rounds-IsUpTo zero i len k w h l b = (k, refl, b)
  out_rounds-IsUpTo (suc count) i len k w h l b =
      let bytes = patterned i 0 len in
      let same = length-patterned i 0 len in
      let rest =
        out_rounds device realworld size vary count (i + 1) (next_len realworld size vary len) in
      subst
        (λ n.
          IsUpTo size (after_write device realworld size vary n bytes rest (device.write bytes w)))
        same
        (after_write-IsUpTo bytes rest (device.write bytes w) (echoes.writes bytes w)
          (echoes.reads bytes w)
          (λ v.
            out_rounds-IsUpTo count (i + 1) (next_len realworld size vary len) (length bytes) v h
              (next_len_bound len h) (rw same l)))

-- With a device that gives back what was written, `ctrl_out` does not fail, whatever the number of
-- rounds and the variation, and returns at most the size of the buffer; the size is one that it accepts,
-- and the allocation succeeds.
pub ctrl_out-IsUpTo :
    {W : Type 0} (device : OutDevice W) (echoes : Echoes device) (realworld : Bool)
    (count size vary : ℕ) (w : W)
    → 1 ≤ size
    → size ≤ 65535
    → vary < size
    → IsUpTo size (ctrl_out device true realworld count size vary w)
unfolding ctrl_out
ctrl_out-IsUpTo device echoes realworld count size vary w h l v =
    let fits : is_bad_length size vary ≡ false = ground arith in
    rw fits (
      out_rounds-IsUpTo device echoes realworld size vary count 0 size 0 w h (omega arith)
        (omega arith))
