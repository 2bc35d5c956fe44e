-- ===== src/Usbtest/Run.antt =====
-- The dispatch of patch/kernel/usbtest.c: `usbtest_do_ioctl`, `fz_ioctl` with the `host_fuzz` functions,
-- and the small tests `halt_simple`, `toggle_sync_simple`, `unlink_simple` and `test_unaligned_bulk`.
-- The tests that these call, the allocator and the host core are the record `Actions`.
pub mod Switch
pub mod Fuzz
pub mod Balanced
pub mod Kept
pub mod Freed
mod Ioctl
pub mod Ledger
use fuzzusb.Base.{
  ℕ, zero, suc, ◌+◌, ◌*◌, ◌/◌, ◌%◌, Bool, true, false, not, ◌&&◌, ◌||◌, Option, none, some, List,
  if◌then◌else◌, ltb, ◌==◌,
}
use fuzzusb.Usb.{Ret, ret, err, Errno, enomem, eopnotsupp, Speed, is_super, Descriptor}
use fuzzusb.Usbtest.Io.{is_zero}
use fuzzusb.Usbtest.Select.{Pipe, TestDev}

-- `struct usbtest_param_32`: the words, and the flags as tests for 0
pub record Params : Type 0 where
  pub test_num : ℕ
  pub iterations : ℕ
  pub length : ℕ
  pub vary : ℕ
  pub sglen : ℕ
  pub is_fz : Bool
  pub is_ctrl : Bool
  pub is_bulk : Bool
  pub is_int : Bool
  pub is_iso : Bool
  pub is_dir_out : Bool
  -- `ctrl_out.wLength`
  pub ctrl_length : ℕ
  pub is_set_alt : Bool
  pub data_size : ℕ

-- The module's and the device's settings that the dispatch reads
pub record Setting : Type 0 where
  pub pattern : ℕ
  pub ctrl_out : Bool
  pub speed : Speed
  -- `get_maxpacket` of the pipe
  pub maxpacket : Option Pipe → ℕ

-- What is called, over a state `W`. A pipe is `none` for 0.
pub record Actions (W : Type 0) : Type 0 where
  -- `usbtest_alloc_urb`: pipe, bytes, whether the buffer is premapped, offset, and the descriptor whose
  -- interval is taken
  pub alloc_urb : Option Pipe → ℕ → Bool → ℕ → Option Descriptor → W → Bool × W
  -- The same for the default control pipe
  pub alloc_ctrl_urb : ℕ → W → Bool × W
  pub free_urb : W → W
  pub kmalloc : ℕ → W → Bool × W
  pub kfree : W → W
  pub copy_from_user : ℕ → W → Bool × W
  -- `hex2bin` into the buffer that `host_data` then names, and `host_data = NULL`
  pub hex2bin : ℕ → W → W
  pub no_host_data : W → W
  pub alloc_sglist : ℕ → ℕ → ℕ → Option Pipe → W → Bool × W
  pub free_sglist : ℕ → W → W
  -- `simple_io` with the URB: pipe, iterations and variation
  pub simple_io : Option Pipe → ℕ → ℕ → W → Ret × W
  pub perform_sglist : ℕ → Option Pipe → ℕ → W → Ret × W
  pub ch9_postconfig : W → Ret × W
  pub test_ctrl_queue : ℕ → ℕ → W → Ret × W
  -- `unlink1`: pipe, length, and whether the URB is unlinked asynchronously
  pub unlink1 : Option Pipe → ℕ → Bool → W → Ret × W
  pub unlink_queued : Option Pipe → ℕ → ℕ → W → Ret × W
  pub test_halt : Option Pipe → W → Ret × W
  pub test_toggle_sync : Option Pipe → W → Ret × W
  -- `ctrl_out`: count, length, variation and offset
  pub ctrl_out : ℕ → ℕ → ℕ → ℕ → W → Ret × W
  -- `test_queue`: pipe, descriptor and offset
  pub test_queue : Params → Option Pipe → Option Descriptor → ℕ → W → Ret × W
  pub set_interface : ℕ → ℕ → W → Ret × W
  -- `usb_submit_urb` of the control request that the parameters hold, with its result, and
  -- `wait_for_completion`
  pub submit_ctrl : W → Ret × W
  pub wait : W → W

-- What follows a successful allocation; -ENOMEM otherwise
abbrev pub when_allocated : {W : Type 0} → (W → Ret × W) → Bool × W → Ret × W
when_allocated body (false, w) = (err enomem, w)
when_allocated body (true, w) = body w

-- Something is freed at the end, whatever the result is.
abbrev pub and_free : {W : Type 0} → (W → W) → Ret × W → Ret × W
and_free free (r, w) = (r, free w)

-- `for (i = n; retval == 0 && i--; ) retval = body()`
unfoldable pub while_zero : {W : Type 0} → (W → Ret × W) → ℕ → Ret × W → Ret × W
while_zero body zero (r, w) = (r, w)
while_zero body (suc n) (r, w) =
    let next = while_zero body n (body w) in if is_zero r then next else (r, w)

abbrev pub is_pipe : Option Pipe → Bool
is_pipe none = false
is_pipe (some p) = true

module _ {W : Type 0} (act : Actions W) (setting : Setting) (dev : TestDev) where
  -- `simple_alloc_urb`, the body, and `simple_free_urb`
  abbrev pub with_urb : Option Pipe → ℕ → Bool → ℕ → Option Descriptor → (W → Ret × W) → W → Ret × W
  with_urb pipe bytes premapped offset interval body w =
      when_allocated (λ w'. and_free act.free_urb (body w'))
        (act.alloc_urb pipe bytes premapped offset interval w)

  -- The test of the out pipe, which a negative result of the in pipe's skips
  abbrev pub then_out : Ret × W → Ret × W
  then_out (err e, w) = (err e, w)
  then_out (ret n, w) = if is_pipe dev.out_pipe then act.test_halt dev.out_pipe w else (ret n, w)

  unfoldable pub halt_simple : W → Ret × W
  halt_simple w =
      with_urb none (if is_super setting.speed then 1024 else 512) true 0 none
        (λ w'. then_out (if is_pipe dev.in_pipe then act.test_halt dev.in_pipe w' else (ret 0, w')))
        w

  unfoldable pub toggle_sync_simple : W → Ret × W
  toggle_sync_simple w =
      with_urb none (2 * setting.maxpacket dev.out_pipe) true 0 none
        (act.test_toggle_sync dev.out_pipe) w

  -- The second, synchronous test, if the first one returned 0
  abbrev pub then_sync : Option Pipe → ℕ → Ret × W → Ret × W
  then_sync pipe len (r, w) = if is_zero r then act.unlink1 pipe len false w else (r, w)

  unfoldable pub unlink_simple : Option Pipe → ℕ → W → Ret × W
  unlink_simple pipe len w = then_sync pipe len (act.unlink1 pipe len true w)

  unfoldable pub test_unaligned_bulk : Option Pipe → ℕ → ℕ → Bool → W → Ret × W
  test_unaligned_bulk pipe len iterations premapped w =
      with_urb pipe len premapped 1 none (act.simple_io pipe iterations 0) w
