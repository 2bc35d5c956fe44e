-- ===== src/Usbtest/Run/Kept.antt =====
-- The cases of the `switch` of `usbtest_do_ioctl` free what they allocate.
use fuzzusb.Base.{ℕ, refl, Bool, true, false, Option, none}
use fuzzusb.Usb.{Ret, ret, err, eopnotsupp, Descriptor}
use fuzzusb.Usbtest.Select.{Pipe, TestDev}
use fuzzusb.Usbtest.Run.{
  Params, Setting, Actions, when_allocated, and_free, while_zero, with_urb, test_unaligned_bulk,
  halt_simple, toggle_sync_simple, unlink_simple,
}
use fuzzusb.Usbtest.Run.Switch.{switch, first_cases, last_cases, run_test}
use fuzzusb.Usbtest.Run.Balanced.{
  Laws, Keeps, AllKeep, when_allocated-Keeps, while_zero-Keeps, switch-Keeps, with_urb-Keeps,
  halt_simple-Keeps, toggle_sync_simple-Keeps, unlink_simple-Keeps, test_unaligned_bulk-Keeps,
}

infixr 3 ◌&◌
abbrev ◌&◌ : {A B : Type 0} → A → B → A × B
a & b = (a, b)

module _ {W : Type 0} (held : W → ℕ) (act : Actions W) (laws : Laws held act) (setting : Setting)
    (dev : TestDev) (p : Params) where
  pub io-Keeps :
      (pipe : Option Pipe) (vary : ℕ) (i : Option Descriptor)
      → Keeps held
          (with_urb act setting dev pipe p.length true 0 i (act.simple_io pipe p.iterations vary))
  io-Keeps pipe vary i =
      with_urb-Keeps held act laws setting dev pipe p.length true 0 i
        (act.simple_io pipe p.iterations vary) (laws.simple_io pipe p.iterations vary)

  loop-Keeps :
      (body : W → Ret × W)
      → Keeps held body
      → Keeps held (λ w. while_zero body p.iterations (ret 0, w))
  loop-Keeps body k w = while_zero-Keeps held body p.iterations (ret 0, w) k

  sg-Keeps :
      (pipe : Option Pipe) (vary : ℕ)
      → Keeps held (λ w.
        when_allocated
          (λ w'.
            and_free (act.free_sglist p.sglen) (act.perform_sglist p.iterations pipe p.sglen w'))
          (act.alloc_sglist p.sglen p.length vary pipe w))
  sg-Keeps pipe vary w =
      when_allocated-Keeps held (act.perform_sglist p.iterations pipe p.sglen)
        (act.free_sglist p.sglen) w (act.alloc_sglist p.sglen p.length vary pipe w)
        (laws.perform_sglist p.iterations pipe p.sglen) (laws.free_sglist p.sglen)
        (laws.alloc_sglist p.sglen p.length vary pipe w)

  unlink-Keeps :
      (pipe : Option Pipe)
      → Keeps held
          (λ w. while_zero (unlink_simple act setting dev pipe p.length) p.iterations (ret 0, w))
  unlink-Keeps pipe =
      loop-Keeps (unlink_simple act setting dev pipe p.length)
        (unlink_simple-Keeps held act laws setting dev pipe p.length)

  bulk-Keeps :
      (pipe : Option Pipe) (premapped : Bool)
      → Keeps held (test_unaligned_bulk act setting dev pipe p.length p.iterations premapped)
  bulk-Keeps pipe premapped =
      test_unaligned_bulk-Keeps held act laws setting dev pipe p.length p.iterations premapped

  first_cases-AllKeep : AllKeep held (first_cases act setting dev p)
  first_cases-AllKeep =
      (λ w. refl)
      & io-Keeps dev.out_pipe 0 none
      & io-Keeps dev.in_pipe 0 none
      & io-Keeps dev.out_pipe p.vary none
      & io-Keeps dev.in_pipe p.vary none
      & sg-Keeps dev.out_pipe 0
      & sg-Keeps dev.in_pipe 0
      & sg-Keeps dev.out_pipe p.vary
      & sg-Keeps dev.in_pipe p.vary
      & loop-Keeps act.ch9_postconfig laws.ch9_postconfig
      & laws.test_ctrl_queue p.sglen p.iterations
      & unlink-Keeps dev.in_pipe
      & unlink-Keeps dev.out_pipe
      & loop-Keeps (halt_simple act setting dev) (halt_simple-Keeps held act laws setting dev)
      & laws.ctrl_out p.iterations p.length p.vary 0
      & tt

  last_cases-AllKeep : AllKeep held (last_cases act setting dev p)
  last_cases-AllKeep =
      laws.test_queue p dev.out_iso_pipe dev.iso_out 0
      & laws.test_queue p dev.in_iso_pipe dev.iso_in 0
      & bulk-Keeps dev.out_pipe false
      & bulk-Keeps dev.in_pipe false
      & bulk-Keeps dev.out_pipe true
      & bulk-Keeps dev.in_pipe true
      & laws.ctrl_out p.iterations p.length p.vary 1
      & laws.test_queue p dev.out_iso_pipe dev.iso_out 1
      & laws.test_queue p dev.in_iso_pipe dev.iso_in 1
      & loop-Keeps (act.unlink_queued dev.out_pipe p.sglen p.length)
          (laws.unlink_queued dev.out_pipe p.sglen p.length)
      & io-Keeps dev.out_int_pipe 0 dev.int_out
      & io-Keeps dev.in_int_pipe 0 dev.int_in
      & laws.test_queue p dev.out_pipe none 0
      & laws.test_queue p dev.in_pipe none 0
      & loop-Keeps (toggle_sync_simple act setting dev)
          (toggle_sync_simple-Keeps held act laws setting dev)
      & tt

  pub run_test-Keeps : Keeps held (run_test act setting dev p)
  unfolding run_test
  run_test-Keeps =
      switch-Keeps held p.test_num (first_cases act setting dev p)
        (switch p.test_num (last_cases act setting dev p) (λ w. (err eopnotsupp, w)))
        first_cases-AllKeep
        (switch-Keeps held p.test_num (last_cases act setting dev p) (λ w. (err eopnotsupp, w))
          last_cases-AllKeep (λ w. refl))
