-- ===== src/Usbtest/Run/Ledger.antt =====
-- A count of what the dispatch itself has allocated and not freed. The tests that it calls work on the
-- world beside the count, and have allocations of their own.
use fuzzusb.Base.{ℕ, ◌+◌, ◌-◌, Bool, true, false}
use fuzzusb.Usb.{Ret}
use fuzzusb.Usbtest.Run.{Actions}

-- The count, and the world
abbrev pub Counted : Type 0 → Type 0
Counted W = ℕ × W

abbrev pub taken : {W : Type 0} → Counted W → Bool × W → Bool × Counted W
taken s (false, w) = (false, (s.0, w))
taken s (true, w) = (true, (s.0 + 1, w))

abbrev pub kept_world : {W : Type 0} → Counted W → Bool × W → Bool × Counted W
kept_world s (b, w) = (b, (s.0, w))

abbrev pub returned : {W : Type 0} → Counted W → Ret × W → Ret × Counted W
returned s (r, w) = (r, (s.0, w))

-- The calls, with the count of the dispatch's own allocations
abbrev pub counted : {W : Type 0} → Actions W → Actions (Counted W)
counted act = record {
  alloc_urb = λ a b c d e s. taken s (act.alloc_urb a b c d e s.1);
  alloc_ctrl_urb = λ a s. taken s (act.alloc_ctrl_urb a s.1);
  free_urb = λ s. (s.0 - 1, act.free_urb s.1);
  kmalloc = λ a s. taken s (act.kmalloc a s.1);
  kfree = λ s. (s.0 - 1, act.kfree s.1);
  copy_from_user = λ a s. kept_world s (act.copy_from_user a s.1);
  hex2bin = λ a s. (s.0, act.hex2bin a s.1);
  no_host_data = λ s. (s.0, act.no_host_data s.1);
  alloc_sglist = λ a b c d s. taken s (act.alloc_sglist a b c d s.1);
  free_sglist = λ a s. (s.0 - 1, act.free_sglist a s.1);
  simple_io = λ a b c s. returned s (act.simple_io a b c s.1);
  perform_sglist = λ a b c s. returned s (act.perform_sglist a b c s.1);
  ch9_postconfig = λ s. returned s (act.ch9_postconfig s.1);
  test_ctrl_queue = λ a b s. returned s (act.test_ctrl_queue a b s.1);
  unlink1 = λ a b c s. returned s (act.unlink1 a b c s.1);
  unlink_queued = λ a b c s. returned s (act.unlink_queued a b c s.1);
  test_halt = λ a s. returned s (act.test_halt a s.1);
  test_toggle_sync = λ a s. returned s (act.test_toggle_sync a s.1);
  ctrl_out = λ a b c d s. returned s (act.ctrl_out a b c d s.1);
  test_queue = λ a b c d s. returned s (act.test_queue a b c d s.1);
  set_interface = λ a b s. returned s (act.set_interface a b s.1);
  submit_ctrl = λ s. returned s (act.submit_ctrl s.1);
  wait = λ s. (s.0, act.wait s.1);
}
