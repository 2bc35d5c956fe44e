-- ===== src/Usbtest/Run/Fuzz.antt =====
-- The fuzzer's requests: `host_fuzz`, `host_fuzz_int`, `host_fuzz_iso`, `host_ctr_fuzz`, `fz_ioctl`, and
-- `usbtest_do_ioctl` with its checks.
use fuzzusb.Base.{
  ◌+◌, ◌-◌, ◌/◌, ◌%◌, ◌^◌, Bool, true, false, not, ◌&&◌, Option, none, if◌then◌else◌, ltb, ◌==◌,
}
use fuzzusb.Usb.{Ret, ret, err, enomem, einval, eopnotsupp, Descriptor}
use fuzzusb.Usbtest.Io.{is_zero}
use fuzzusb.Usbtest.Select.{Pipe, TestDev}
use fuzzusb.Usbtest.Run.{Params, Setting, Actions, when_allocated, and_free, with_urb}
use fuzzusb.Usbtest.Run.Switch.{run_test}

module _ {W : Type 0} (act : Actions W) (setting : Setting) (dev : TestDev) (p : Params) where
  -- The end of `host_fuzz`: the reads or writes, and what is freed after them
  abbrev pub fuzz_io : Option Pipe → W → Ret × W
  fuzz_io pipe w =
      and_free act.no_host_data (and_free act.free_urb (act.simple_io pipe p.iterations 0 w))

  abbrev pub fuzz_io_hex : Option Pipe → W → Ret × W
  fuzz_io_hex pipe w =
      and_free act.no_host_data
        (and_free act.kfree (and_free act.free_urb (act.simple_io pipe p.iterations 0 w)))

  -- The allocation of `hex`, with `kern_buf` filled. Where it fails, the URB stays.
  abbrev pub fuzz_hex : Option Pipe → Bool × W → Ret × W
  fuzz_hex pipe (false, w) = (err enomem, act.kfree w)
  fuzz_hex pipe (true, w) = fuzz_io_hex pipe (act.kfree (act.hex2bin (p.data_size / 2) w))

  -- After `copy_from_user`. Where it fails, the URB and `kern_buf` stay.
  abbrev pub fuzz_copied : Option Pipe → Bool × W → Ret × W
  fuzz_copied pipe (false, w) = (err enomem, w)
  fuzz_copied pipe (true, w) = fuzz_hex pipe (act.kmalloc (p.data_size / 2) w)

  -- Where the allocation of `kern_buf` fails, the URB stays.
  abbrev pub fuzz_data : Option Pipe → W → Ret × W
  fuzz_data pipe w =
      when_allocated (λ w'. fuzz_copied pipe (act.copy_from_user p.data_size w'))
        (act.kmalloc ((p.data_size + 1) % 2 ^ 32) w)

  -- A `data_size` of 1 makes the number of bytes wrap around.
  unfoldable pub host_fuzz : Option Pipe → W → Ret × W
  host_fuzz pipe w =
      if p.data_size == 0
      then when_allocated (fuzz_io pipe) (act.alloc_urb pipe p.length false 1 none w)
      else when_allocated (fuzz_data pipe)
          (act.alloc_urb pipe ((p.data_size / 2 + (2 ^ 32 - 1)) % 2 ^ 32) false 1 none w)

  unfoldable pub host_fuzz_int : Option Pipe → W → Ret × W
  host_fuzz_int pipe w =
      with_urb act setting dev pipe p.length true 0 none (act.simple_io pipe p.iterations 0) w

  unfoldable pub host_fuzz_iso : Option Pipe → Option Descriptor → W → Ret × W
  host_fuzz_iso pipe desc w = act.test_queue p pipe desc 1 w

  -- The URB is waited for if it was submitted.
  abbrev pub ctr_wait : Ret × W → Ret × W
  ctr_wait (r, w) = if is_zero r then (r, act.wait w) else (r, w)

  -- With the URB allocated: the subcase, the submission, and the cleanup of both
  abbrev pub ctr_request : W → Ret × W
  ctr_request w =
      and_free act.free_urb (
        when_allocated (λ w'. and_free act.kfree (ctr_wait (act.submit_ctrl w')))
          (act.kmalloc 16 w))

  -- The table of URBs has one entry.
  unfoldable pub host_ctr_fuzz : W → Ret × W
  host_ctr_fuzz w =
      when_allocated
        (λ w'.
          and_free act.kfree (when_allocated ctr_request (act.alloc_ctrl_urb p.ctrl_length w')))
        (act.kmalloc 8 w)

  -- One `if` of `fz_ioctl`, which overwrites the result
  abbrev pub fz_if : Bool → (W → Ret × W) → Ret × W → Ret × W
  fz_if true body (r, w) = body w
  fz_if false body (r, w) = (r, w)

  abbrev pub fz_bulk : W → Ret × W
  fz_bulk w =
      fz_if (p.is_bulk && not p.is_dir_out) (host_fuzz dev.info.in_bulk_pipe)
        (fz_if (p.is_bulk && p.is_dir_out) (host_fuzz dev.info.out_bulk_pipe) (err eopnotsupp, w))

  abbrev pub fz_int : Ret × W → Ret × W
  fz_int got =
      fz_if (p.is_int && not p.is_dir_out) (host_fuzz_int dev.info.in_int_pipe)
        (fz_if (p.is_int && p.is_dir_out) (host_fuzz_int dev.info.out_int_pipe) got)

  abbrev pub fz_iso : Ret × W → Ret × W
  fz_iso got =
      fz_if (p.is_iso && not p.is_dir_out) (host_fuzz_iso dev.info.in_iso_pipe dev.info.iso_in) (
        fz_if (p.is_iso && p.is_dir_out) (host_fuzz_iso dev.info.out_iso_pipe dev.info.iso_out) got)

  unfoldable pub fz_ioctl : W → Ret × W
  fz_ioctl w =
      if p.is_set_alt
      then act.set_interface p.iterations p.length w
      else if p.is_ctrl
      then host_ctr_fuzz w
      else fz_iso (fz_int (fz_bulk w))

  -- The result of `fz_ioctl` is dropped.
  unfoldable pub usbtest_do_ioctl : W → Ret × W
  usbtest_do_ioctl w =
      if p.is_fz
      then (ret 0, (fz_ioctl w).1)
      else if p.iterations == 0
      then (err einval, w)
      else if ltb 128 p.sglen
      then (err einval, w)
      else run_test act setting dev p w
