-- ===== src/Examples/DispatchRuns.antt =====
-- Test 13, the halts, with a URB, and two allocations held before; and the probe of a device with two pipes.
use fuzzusb.Base.{ℕ, ◌+◌, ◌-◌, ◌≡◌, refl, true, false, none, some, []}
use fuzzusb.Usb.{ret, err, einval, eopnotsupp, high}
use fuzzusb.Usbtest.Select.{TestInfo, TestDev, rcv_bulk, snd_bulk}
use fuzzusb.Usbtest.Bind.{IdInfo, ModuleParams, Interface, Driver, probe_pipes, usbtest_probe}
use fuzzusb.Usbtest.Bind.Returned.{IsReturned, usbtest_probe-IsReturned}
use fuzzusb.Usbtest.Run.{Params, Setting, Actions, while_zero, halt_simple}
use fuzzusb.Usbtest.Run.Switch.{switch, run_test}
use fuzzusb.Usbtest.Run.Fuzz.{usbtest_do_ioctl}

-- Every call succeeds, and the state is the number of allocations.
abbrev counting : Actions ℕ
counting = record {
  alloc_urb = λ pipe n premapped o i w. (true, w + 1);
  alloc_ctrl_urb = λ n w. (true, w + 1);
  free_urb = λ w. w - 1;
  kmalloc = λ n w. (true, w + 1);
  kfree = λ w. w - 1;
  copy_from_user = λ n w. (true, w);
  hex2bin = λ n w. w;
  no_host_data = λ w. w;
  alloc_sglist = λ n len vary pipe w. (true, w + 1);
  free_sglist = λ n w. w - 1;
  simple_io = λ pipe n vary w. (ret 0, w);
  perform_sglist = λ n pipe len w. (ret 0, w);
  ch9_postconfig = λ w. (ret 0, w);
  test_ctrl_queue = λ len n w. (ret 0, w);
  unlink1 = λ pipe n async w. (ret 0, w);
  unlink_queued = λ pipe num n w. (ret 0, w);
  test_halt = λ pipe w. (ret 0, w);
  test_toggle_sync = λ pipe w. (ret 0, w);
  ctrl_out = λ count len vary o w. (ret 0, w);
  test_queue = λ p pipe d o w. (ret 0, w);
  set_interface = λ n alt w. (ret 0, w);
  submit_ctrl = λ w. (ret 0, w);
  wait = λ w. w;
}

abbrev plain_info : TestInfo
plain_info = record {
  intr = true;
  iso = true;
  alt = none;
  in_bulk_pipe = none;
  out_bulk_pipe = none;
  in_iso_pipe = none;
  out_iso_pipe = none;
  in_int_pipe = none;
  out_int_pipe = none;
  iso_in = none;
  iso_out = none;
  int_in = none;
  int_out = none;
}

abbrev two_pipes : TestDev
two_pipes = record {
  info = plain_info;
  in_pipe = some (rcv_bulk 1);
  out_pipe = some (snd_bulk 2);
  in_iso_pipe = none;
  out_iso_pipe = none;
  in_int_pipe = none;
  out_int_pipe = none;
  iso_in = none;
  iso_out = none;
  int_in = none;
  int_out = none;
  settings = [];
}

abbrev high_speed : Setting
high_speed = record { pattern = 0; ctrl_out = false; speed = high; maxpacket = λ pipe. 512 }

abbrev test_13 : Params
test_13 = record {
  test_num = 13;
  iterations = 2;
  length = 512;
  vary = 0;
  sglen = 0;
  is_fz = false;
  is_ctrl = false;
  is_bulk = false;
  is_int = false;
  is_iso = false;
  is_dir_out = false;
  ctrl_length = 0;
  is_set_alt = false;
  data_size = 0;
}

test_13_run : (usbtest_do_ioctl counting high_speed two_pipes test_13 2).0 ≡ ret 0
unfolding usbtest_do_ioctl run_test switch while_zero halt_simple
test_13_run = refl

-- No iteration, and a test that there is not
no_iteration_run :
    usbtest_do_ioctl counting high_speed two_pipes (record test_13 { iterations = 0 }) 2
    ≡ (err einval, 2)
unfolding usbtest_do_ioctl
no_iteration_run = refl

no_test_run :
    usbtest_do_ioctl counting high_speed two_pipes (record test_13 { test_num = 30 }) 2
    ≡ (err eopnotsupp, 2)
unfolding usbtest_do_ioctl run_test switch
no_test_run = refl

abbrev two_eps : IdInfo
two_eps = record {
  ep_in = 1;
  ep_out = 2;
  autoconf = false;
  need_fix_alt = false;
  fix_alt_intf0 = none;
  fix_alt_intf1 = none;
  fix_alt_intf2 = none;
}

abbrev default_params : ModuleParams
default_params = record { vendor = 0; product = 0; force_interrupt = false; override_alt = none }

abbrev test_interface : Interface
test_interface = record {
  id_vendor = 1317;
  id_product = 42156;
  speed = high;
  interface_number = 0;
  alts = [];
}

abbrev unbound : Driver
unbound = record { held = 5; info = plain_info; intfdata = none }

usbtest_probe-IsReturned_example :
    IsReturned unbound
      (usbtest_probe (λ n alt. ret 0) true true false default_params two_eps test_interface unbound)
usbtest_probe-IsReturned_example =
    usbtest_probe-IsReturned (λ n alt. ret 0) true true false default_params two_eps test_interface
      unbound

probe_run :
    usbtest_probe (λ n alt. ret 0) true true false default_params two_eps test_interface unbound
    ≡ (ret 0, record { held = 7; info = plain_info; intfdata = some two_pipes })
unfolding usbtest_probe probe_pipes
probe_run = refl
