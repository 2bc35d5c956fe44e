-- ===== src/Examples/LoadRuns.antt =====
-- Runs of `init` and `cleanup`.
use fuzzusb.Base.{true, false, none, ◌≡◌, refl, arith, ◌==◌}
use fuzzusb.Usb.{ret, err, enomem, einval}
use fuzzusb.Load.{
  Kernel, Parameters, unloaded, init, for_each, try_each, err_alloc_udc, err_add_pdata,
  err_register_udc_driver, err_add_hcd, err_add_udc, err_probe_udc,
}
use fuzzusb.Load.Unwind.{Settled}
use fuzzusb.Load.Settled.{init-Settled}

-- Two high-speed controllers
abbrev two : Parameters
two = record { is_super_speed = false; is_high_speed = true; num = 2 }

-- A kernel that agrees to everything
abbrev willing : Kernel
willing = record {
  usb_disabled = false;
  alloc_hcd = λ i. true;
  alloc_udc = λ i. true;
  alloc_dum = λ i. true;
  add_hcd_data = λ i. none;
  add_udc_data = λ i. none;
  register_hcd = none;
  register_udc = none;
  add_hcd = λ i. none;
  hs_hcd = λ i. true;
  ss_hcd = λ i. false;
  add_udc = λ i. none;
  udc_probed = λ i. true;
}

-- The second device controller is not probed.
abbrev halfway : Kernel
halfway = record willing { udc_probed = λ i. i == 0 }

-- No memory for the first `struct dummy`
abbrev short_of_memory : Kernel
short_of_memory = record willing { alloc_dum = λ i. false }

init-Settled_example : Settled two 1 (init two willing unloaded)
init-Settled_example = init-Settled two willing 1 (λ j l. (refl, refl)) (omega arith)

loaded_run : (init two willing unloaded).0 ≡ ret 0
unfolding init try_each
loaded_run = refl

halfway_run : (init two halfway unloaded).0 ≡ err einval
unfolding init try_each for_each err_probe_udc err_add_udc err_add_hcd err_register_udc_driver
    err_add_pdata err_alloc_udc
halfway_run = refl

-- The label `err_add_pdata` frees `dum[1]`, which nothing has set.
wild_free_run :
    ((init two short_of_memory unloaded).0 ≡ err enomem)
    × ((init two short_of_memory unloaded).1.wild_free ≡ true)
unfolding init try_each for_each err_add_pdata err_alloc_udc
wild_free_run = (refl, refl)
