-- ===== src/Usbtest/Run/Switch.antt =====
-- The `switch` of `usbtest_do_ioctl`: the tests by their number.
use fuzzusb.Base.{
  ℕ, Bool, true, false, not, ◌&&◌, ◌||◌, Option, none, List, [], ◌∷◌, if◌then◌else◌, ltb, ◌==◌,
}
use fuzzusb.Usb.{Ret, ret, err, eopnotsupp, Descriptor}
use fuzzusb.Usbtest.Select.{Pipe, TestDev}
use fuzzusb.Usbtest.Run.{
  Params, Setting, Actions, when_allocated, and_free, while_zero, is_pipe, with_urb, halt_simple,
  toggle_sync_simple, unlink_simple, test_unaligned_bulk,
}

-- A `case`
pub record Case (W : Type 0) : Type 0 where
  pub number : ℕ
  -- Whether the test runs; if not, `break` leaves -EOPNOTSUPP.
  pub applies : Bool
  pub body : W → Ret × W

module _ {W : Type 0} (act : Actions W) (setting : Setting) (dev : TestDev) (p : Params) where
  abbrev pub case : ℕ → Bool → (W → Ret × W) → Case W
  case number applies body = record { number = number; applies = applies; body = body }

  -- Cases 1 to 4, 25 and 26
  abbrev pub io_case : ℕ → Option Pipe → Bool → ℕ → Option Descriptor → Case W
  io_case number pipe more vary interval = case number (is_pipe pipe && more) (
      with_urb act setting dev pipe p.length true 0 interval (act.simple_io pipe p.iterations vary))

  -- Cases 5 to 8
  abbrev pub sg_case : ℕ → Option Pipe → Bool → ℕ → Case W
  sg_case number pipe more vary = case number (is_pipe pipe && not (p.sglen == 0) && more) (λ w.
      when_allocated
        (λ w'. and_free (act.free_sglist p.sglen) (act.perform_sglist p.iterations pipe p.sglen w'))
        (act.alloc_sglist p.sglen p.length vary pipe w))

  -- Cases 11 and 12
  abbrev pub unlink_case : ℕ → Option Pipe → Case W
  unlink_case number pipe =
      case number (is_pipe pipe && not (p.length == 0))
        (λ w. while_zero (unlink_simple act setting dev pipe p.length) p.iterations (ret 0, w))

  -- Cases 15, 16, 22, 23, 27 and 28
  abbrev pub queue_case : ℕ → Option Pipe → Bool → Option Descriptor → ℕ → Case W
  queue_case number pipe more desc offset =
      case number (is_pipe pipe && not (p.sglen == 0) && more) (act.test_queue p pipe desc offset)

  -- Cases 14 and 21
  abbrev pub ctrl_case : ℕ → ℕ → Case W
  ctrl_case number offset =
      case number setting.ctrl_out (act.ctrl_out p.iterations p.length p.vary offset)

  -- Cases 17 to 20
  abbrev pub unaligned_case : ℕ → Option Pipe → Bool → Case W
  unaligned_case number pipe premapped =
      case number (is_pipe pipe)
        (test_unaligned_bulk act setting dev pipe p.length p.iterations premapped)

  abbrev pub first_cases : List (Case W)
  first_cases =
      case 0 true (λ w. (ret 0, w))
      ∷ io_case 1 dev.out_pipe true 0 none
      ∷ io_case 2 dev.in_pipe true 0 none
      ∷ io_case 3 dev.out_pipe (not (p.vary == 0)) p.vary none
      ∷ io_case 4 dev.in_pipe (not (p.vary == 0)) p.vary none
      ∷ sg_case 5 dev.out_pipe true 0
      ∷ sg_case 6 dev.in_pipe true 0
      ∷ sg_case 7 dev.out_pipe (not (p.vary == 0)) p.vary
      ∷ sg_case 8 dev.in_pipe (not (p.vary == 0)) p.vary
      ∷ case 9 true (λ w. while_zero act.ch9_postconfig p.iterations (ret 0, w))
      ∷ case 10 true (act.test_ctrl_queue p.sglen p.iterations)
      ∷ unlink_case 11 dev.in_pipe
      ∷ unlink_case 12 dev.out_pipe
      ∷ case 13 (is_pipe dev.out_pipe || is_pipe dev.in_pipe)
          (λ w. while_zero (halt_simple act setting dev) p.iterations (ret 0, w))
      ∷ ctrl_case 14 0
      ∷ []

  abbrev pub last_cases : List (Case W)
  last_cases =
      queue_case 15 dev.out_iso_pipe true dev.iso_out 0
      ∷ queue_case 16 dev.in_iso_pipe true dev.iso_in 0
      ∷ unaligned_case 17 dev.out_pipe false
      ∷ unaligned_case 18 dev.in_pipe false
      ∷ unaligned_case 19 dev.out_pipe true
      ∷ unaligned_case 20 dev.in_pipe true
      ∷ ctrl_case 21 1
      ∷ queue_case 22 dev.out_iso_pipe true dev.iso_out 1
      ∷ queue_case 23 dev.in_iso_pipe true dev.iso_in 1
      ∷ case 24 (is_pipe dev.out_pipe && not (p.length == 0) && not (ltb p.sglen 4)) (λ w.
        while_zero (act.unlink_queued dev.out_pipe p.sglen p.length) p.iterations (ret 0, w))
      ∷ io_case 25 dev.out_int_pipe true 0 dev.int_out
      ∷ io_case 26 dev.in_int_pipe true 0 dev.int_in
      ∷ queue_case 27 dev.out_pipe (setting.pattern == 0) none 0
      ∷ queue_case 28 dev.in_pipe (setting.pattern == 0) none 0
      ∷ case 29 (is_pipe dev.out_pipe)
          (λ w. while_zero (toggle_sync_simple act setting dev) p.iterations (ret 0, w))
      ∷ []

-- The case of a number, or what follows the cases
unfoldable pub switch : {W : Type 0} → ℕ → List (Case W) → (W → Ret × W) → W → Ret × W
switch n [] default w = default w
switch n (c ∷ cs) default w =
    let rest = switch n cs default w in
    if n == c.number then (if c.applies then c.body w else (err eopnotsupp, w)) else rest

unfoldable pub run_test : {W : Type 0} → Actions W → Setting → TestDev → Params → W → Ret × W
run_test act setting dev p w =
    switch p.test_num (first_cases act setting dev p)
      (switch p.test_num (last_cases act setting dev p) (λ w'. (err eopnotsupp, w'))) w
