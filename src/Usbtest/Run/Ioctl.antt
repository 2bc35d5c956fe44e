-- ===== src/Usbtest/Run/Ioctl.antt =====
-- `usbtest_ioctl` of patch/kernel/usbtest.c: the parameters of both layouts, the test, and its duration. The
-- lock only says whether the wait for it is interrupted. The clock counts nanoseconds.
use fuzzusb.Base.{
  ℕ, ◌-◌, ◌/◌, ◌%◌, ◌^◌, ◌≡◌, ◌∙◌, ◌⊎◌, refl, Bool, false, Option, none, some, if◌then◌else◌, pick,
}
use fuzzusb.Usb.{Ret, ret, err, eopnotsupp, other}
use fuzzusb.Usbtest.Select.{TestDev}
use fuzzusb.Usbtest.Run.{Params, Setting, Actions}
use fuzzusb.Usbtest.Run.Fuzz.{usbtest_do_ioctl}
use fuzzusb.Usbtest.Run.Balanced.{Laws}
use fuzzusb.Usbtest.Run.Freed.{usbtest_do_ioctl-Laws}

-- `USBTEST_REQUEST_32`, `USBTEST_REQUEST_64`, or another code
data Code : Type 0 where
  request_32 request_64 other_code : Code

-- The inputs of `struct usbtest_param_64`
record Params64 : Type 0 where
  test_num : ℕ
  iterations : ℕ
  length : ℕ
  vary : ℕ
  sglen : ℕ

-- `duration_sec` and `duration_usec`
record Duration : Type 0 where
  sec : ℕ
  usec : ℕ

abbrev elapsed : ℕ → Duration
elapsed n = record { sec = n / 10 ^ 9; usec = n % 10 ^ 9 / 1000 }

-- The fields that are copied to `temp`; the others keep what the stack held.
abbrev narrowed : Params64 → Params → Params
narrowed p temp = record temp {
  test_num = p.test_num;
  iterations = p.iterations;
  length = p.length;
  sglen = p.sglen;
  vary = p.vary;
}

-- The parameters that the test gets
abbrev params_of : Code → Params → Params64 → Params → Params
params_of request_64 p p64 temp = narrowed p64 temp
params_of _ p p64 temp = p

module _ {W : Type 0} (act : Actions W) (setting : Setting) (dev : TestDev) (now : W → ℕ × W) where
  -- The duration is written if the result is not negative.
  abbrev stamped : ℕ → ℕ × W → Ret → (Ret × Option Duration) × W
  stamped start (end, w) r = ((r, some (elapsed (end - start))), w)

  abbrev measured : ℕ → Ret × W → (Ret × Option Duration) × W
  measured start (err e, w) = ((err e, none), w)
  measured start (ret n, w) = stamped start (now w) (ret n)

  abbrev timed : Params → ℕ × W → (Ret × Option Duration) × W
  timed p (start, w) = measured start (usbtest_do_ioctl act setting dev p w)

  abbrev by_code : Code → Params → W → (Ret × Option Duration) × W
  by_code other_code p w = ((err eopnotsupp, none), w)
  by_code _ p w = timed p (now w)

  -- `interrupted` is the result of `mutex_lock_interruptible`; 512 is ERESTARTSYS.
  unfoldable usbtest_ioctl :
      Bool → Code → Params → Params64 → Params → W → (Ret × Option Duration) × W
  usbtest_ioctl interrupted code p p64 temp w =
      if interrupted
      then ((err (other 512), none), w)
      else by_code code (params_of code p p64 temp) w

  measured_held :
      (held : W → ℕ) (start : ℕ) (got : Ret × W)
      → ((w : W) → held (now w).1 ≡ held w)
      → held (measured start got).1 ≡ held got.1
  measured_held held start (err e, w) k = refl
  measured_held held start (ret n, w) k = k w

  by_code_held :
      (held : W → ℕ) (laws : Laws held act) (code : Code) (p : Params) (w : W)
      → ((w : W) → held (now w).1 ≡ held w)
      → (p.is_fz ≡ false) ⊎ (p.data_size ≡ 0)
      → held (by_code code p w).1 ≡ held w
  by_code_held held laws other_code p w k h = refl
  by_code_held held laws request_32 p w k h =
      measured_held held (now w).0 (usbtest_do_ioctl act setting dev p (now w).1) k
      ∙ usbtest_do_ioctl-Laws held act laws setting dev p (now w).1 h
      ∙ k w
  by_code_held held laws request_64 p w k h =
      measured_held held (now w).0 (usbtest_do_ioctl act setting dev p (now w).1) k
      ∙ usbtest_do_ioctl-Laws held act laws setting dev p (now w).1 h
      ∙ k w

  -- As `usbtest_do_ioctl` does, the whole ioctl frees what it allocates. For `USBTEST_REQUEST_64` the
  -- condition is one on what the stack held.
  usbtest_ioctl-Laws :
      (held : W → ℕ) (laws : Laws held act) (interrupted : Bool) (code : Code) (p : Params)
      (p64 : Params64) (temp : Params) (w : W)
      → ((w : W) → held (now w).1 ≡ held w)
      → ((params_of code p p64 temp).is_fz ≡ false) ⊎ ((params_of code p p64 temp).data_size ≡ 0)
      → held (usbtest_ioctl interrupted code p p64 temp w).1 ≡ held w
  unfolding usbtest_ioctl
  usbtest_ioctl-Laws held laws interrupted code p p64 temp w k h =
      let got = by_code code (params_of code p p64 temp) w in
      pick (λ (x : (Ret × Option Duration) × W). held x.1 ≡ held w) interrupted
        ((err (other 512), none), w) got (λ e. refl)
        (λ e. by_code_held held laws code (params_of code p p64 temp) w k h)
