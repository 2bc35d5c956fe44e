-- ===== src/Usbtest/Run/Freed.antt =====
-- `usbtest_do_ioctl` frees what it allocates, unless the fuzzer's data cannot be copied.
use fuzzusb.Base.{
  ℕ, ◌+◌, ◌-◌, ◌/◌, ◌%◌, ◌^◌, ◌≡◌, ◌⊎◌, inl, inr, refl, ◌∙◌, arith, Bool, true, false, not, ◌&&◌,
  Option, none, if◌then◌else◌, ltb, ◌==◌, pick,
}
use fuzzusb.Usb.{Ret, ret, err, einval, eopnotsupp, Descriptor}
use fuzzusb.Usbtest.Io.{is_zero}
use fuzzusb.Usbtest.Select.{Pipe, TestDev}
use fuzzusb.Usbtest.Run.{Params, Setting, Actions, when_allocated, and_free}
use fuzzusb.Usbtest.Run.Switch.{run_test}
use fuzzusb.Usbtest.Run.Fuzz.{
  fuzz_io, fuzz_data, host_fuzz, host_fuzz_int, host_fuzz_iso, ctr_wait, ctr_request, host_ctr_fuzz,
  fz_if, fz_bulk, fz_int, fz_iso, fz_ioctl, usbtest_do_ioctl,
}
use fuzzusb.Usbtest.Run.Kept.{io-Keeps, run_test-Keeps}
use fuzzusb.Usbtest.Run.Balanced.{Takes, Laws, Keeps, when_allocated-Keeps}

module _ {W : Type 0} (held : W → ℕ) (act : Actions W) (laws : Laws held act) (setting : Setting)
    (dev : TestDev) (p : Params) where
  fuzz_io-Keeps :
      (pipe : Option Pipe) (w : W) (got : Bool × W)
      → Takes held w got
      → held (when_allocated (fuzz_io act setting dev p pipe) got).1 ≡ held w
  fuzz_io-Keeps pipe w (false, v) t = t
  fuzz_io-Keeps pipe w (true, v) t =
      let io = act.simple_io pipe p.iterations 0 v in
      let freed = laws.free_urb io.1 in
      let last = laws.no_host_data (act.free_urb io.1) in
      let first = laws.simple_io pipe p.iterations 0 v in omega arith

  host_fuzz-Keeps :
      (pipe : Option Pipe) → p.data_size ≡ 0 → Keeps held (host_fuzz act setting dev p pipe)
  unfolding host_fuzz
  host_fuzz-Keeps pipe h w =
      pick (λ (got : Ret × W). held got.1 ≡ held w) (p.data_size == 0)
        (when_allocated (fuzz_io act setting dev p pipe)
          (act.alloc_urb pipe p.length false 1 none w))
        (when_allocated (fuzz_data act setting dev p pipe)
          (act.alloc_urb pipe ((p.data_size / 2 + (2 ^ 32 - 1)) % 2 ^ 32) false 1 none w))
        (λ e.
          fuzz_io-Keeps pipe w (act.alloc_urb pipe p.length false 1 none w)
            (laws.alloc_urb pipe p.length false 1 none w))
        (λ e. ground arith)

  host_fuzz_int-Keeps : (pipe : Option Pipe) → Keeps held (host_fuzz_int act setting dev p pipe)
  unfolding host_fuzz_int
  host_fuzz_int-Keeps pipe = io-Keeps held act laws setting dev p pipe 0 none

  host_fuzz_iso-Keeps :
      (pipe : Option Pipe) (desc : Option Descriptor)
      → Keeps held (host_fuzz_iso act setting dev p pipe desc)
  unfolding host_fuzz_iso
  host_fuzz_iso-Keeps pipe desc = laws.test_queue p pipe desc 1

  waited : (got : Ret × W) → held (ctr_wait act setting dev p got).1 ≡ held got.1
  waited (r, w) =
      pick (λ (got : Ret × W). held got.1 ≡ held w) (is_zero r) (r, act.wait w) (r, w)
        (λ e. laws.wait w) (λ e. refl)

  ctr_wait-Keeps : Keeps held (λ w. ctr_wait act setting dev p (act.submit_ctrl w))
  ctr_wait-Keeps w = waited (act.submit_ctrl w) ∙ laws.submit_ctrl w

  ctr_request-Keeps : Keeps held (λ w.
      when_allocated
        (λ v. and_free act.kfree (ctr_wait act setting dev p (act.submit_ctrl v)))
        (act.kmalloc 16 w))
  ctr_request-Keeps w =
      when_allocated-Keeps held (λ v. ctr_wait act setting dev p (act.submit_ctrl v)) act.kfree w
        (act.kmalloc 16 w) ctr_wait-Keeps laws.kfree (laws.kmalloc 16 w)

  ctr_urb-Keeps :
      Keeps held
        (λ w. when_allocated (ctr_request act setting dev p) (act.alloc_ctrl_urb p.ctrl_length w))
  ctr_urb-Keeps w =
      when_allocated-Keeps held
        (λ v.
          when_allocated
            (λ v'. and_free act.kfree (ctr_wait act setting dev p (act.submit_ctrl v')))
            (act.kmalloc 16 v))
        act.free_urb w (act.alloc_ctrl_urb p.ctrl_length w) ctr_request-Keeps laws.free_urb
        (laws.alloc_ctrl_urb p.ctrl_length w)

  host_ctr_fuzz-Keeps : Keeps held (host_ctr_fuzz act setting dev p)
  unfolding host_ctr_fuzz
  host_ctr_fuzz-Keeps w =
      when_allocated-Keeps held
        (λ v. when_allocated (ctr_request act setting dev p) (act.alloc_ctrl_urb p.ctrl_length v))
        act.kfree w (act.kmalloc 8 w) ctr_urb-Keeps laws.kfree (laws.kmalloc 8 w)

  fz_if-Keeps :
      (b : Bool) (body : W → Ret × W) (w : W) (got : Ret × W)
      → Keeps held body
      → held got.1 ≡ held w
      → held (fz_if act setting dev p b body got).1 ≡ held w
  fz_if-Keeps true body w (r, v) k h = k v ∙ h
  fz_if-Keeps false body w (r, v) k h = h

  fz_bulk-Keeps : p.data_size ≡ 0 → Keeps held (fz_bulk act setting dev p)
  fz_bulk-Keeps h w =
      fz_if-Keeps (p.is_bulk && not p.is_dir_out)
        (host_fuzz act setting dev p dev.info.in_bulk_pipe) w
        (fz_if act setting dev p (p.is_bulk && p.is_dir_out)
          (host_fuzz act setting dev p dev.info.out_bulk_pipe) (err eopnotsupp, w))
        (host_fuzz-Keeps dev.info.in_bulk_pipe h)
        (fz_if-Keeps (p.is_bulk && p.is_dir_out)
          (host_fuzz act setting dev p dev.info.out_bulk_pipe) w (err eopnotsupp, w)
          (host_fuzz-Keeps dev.info.out_bulk_pipe h) refl)

  fz_int-Keeps :
      (w : W) (got : Ret × W) → held got.1 ≡ held w → held (fz_int act setting dev p got).1 ≡ held w
  fz_int-Keeps w got h =
      fz_if-Keeps (p.is_int && not p.is_dir_out)
        (host_fuzz_int act setting dev p dev.info.in_int_pipe) w
        (fz_if act setting dev p (p.is_int && p.is_dir_out)
          (host_fuzz_int act setting dev p dev.info.out_int_pipe) got)
        (host_fuzz_int-Keeps dev.info.in_int_pipe)
        (fz_if-Keeps (p.is_int && p.is_dir_out)
          (host_fuzz_int act setting dev p dev.info.out_int_pipe) w got
          (host_fuzz_int-Keeps dev.info.out_int_pipe) h)

  fz_iso-Keeps :
      (w : W) (got : Ret × W) → held got.1 ≡ held w → held (fz_iso act setting dev p got).1 ≡ held w
  fz_iso-Keeps w got h =
      fz_if-Keeps (p.is_iso && not p.is_dir_out)
        (host_fuzz_iso act setting dev p dev.info.in_iso_pipe dev.info.iso_in) w
        (fz_if act setting dev p (p.is_iso && p.is_dir_out)
          (host_fuzz_iso act setting dev p dev.info.out_iso_pipe dev.info.iso_out) got)
        (host_fuzz_iso-Keeps dev.info.in_iso_pipe dev.info.iso_in)
        (fz_if-Keeps (p.is_iso && p.is_dir_out)
          (host_fuzz_iso act setting dev p dev.info.out_iso_pipe dev.info.iso_out) w got
          (host_fuzz_iso-Keeps dev.info.out_iso_pipe dev.info.iso_out) h)

  fz_ioctl-Keeps : p.data_size ≡ 0 → Keeps held (fz_ioctl act setting dev p)
  unfolding fz_ioctl
  fz_ioctl-Keeps h w =
      let keeps = λ (got : Ret × W). held got.1 ≡ held w in
      pick keeps p.is_set_alt (act.set_interface p.iterations p.length w)
        (if p.is_ctrl
          then host_ctr_fuzz act setting dev p w
          else fz_iso act setting dev p (fz_int act setting dev p (fz_bulk act setting dev p w)))
        (λ e. laws.set_interface p.iterations p.length w)
        (λ e.
          pick keeps p.is_ctrl (host_ctr_fuzz act setting dev p w)
            (fz_iso act setting dev p (fz_int act setting dev p (fz_bulk act setting dev p w)))
            (λ e'. host_ctr_fuzz-Keeps w)
            (λ e'.
              fz_iso-Keeps w (fz_int act setting dev p (fz_bulk act setting dev p w))
                (fz_int-Keeps w (fz_bulk act setting dev p w) (fz_bulk-Keeps h w))))

-- Where the calls free what they allocate, `usbtest_do_ioctl` does, whatever they return: without the
-- fuzzer's flag for every test and every setting, and with it where it has no data of its own.
pub usbtest_do_ioctl-Laws :
    {W : Type 0} (held : W → ℕ) (act : Actions W) (laws : Laws held act) (setting : Setting)
    (dev : TestDev) (p : Params) (w : W)
    → (p.is_fz ≡ false) ⊎ (p.data_size ≡ 0)
    → held (usbtest_do_ioctl act setting dev p w).1 ≡ held w
unfolding usbtest_do_ioctl
usbtest_do_ioctl-Laws {W} held act laws setting dev p w h =
    let keeps = λ (got : Ret × W). held got.1 ≡ held w in
    let test = run_test act setting dev p w in
    let checked = if ltb 128 p.sglen then (err einval, w) else test in
    let counted = if p.iterations == 0 then (err einval, w) else checked in
    pick keeps p.is_fz (ret 0, (fz_ioctl act setting dev p w).1) counted
      (λ e. elim h [
        | inl plain ↦ let wrong : true ≡ false = rw e at plain in cc
        | inr none_given ↦ fz_ioctl-Keeps held act laws setting dev p none_given w
      ])
      (λ e.
        pick keeps (p.iterations == 0) (err einval, w) checked (λ e'. refl)
          (λ e'.
            pick keeps (ltb 128 p.sglen) (err einval, w) test (λ e2. refl)
              (λ e2. run_test-Keeps held act laws setting dev p w)))
