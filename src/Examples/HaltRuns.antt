-- ===== src/Examples/HaltRuns.antt =====
-- A device with one endpoint that can be halted, under the tests of the host-side driver.
use fuzzusb.Base.{ℕ, ◌≡◌, refl, inr, arith, Bool, true, false, Option, none, some, List, [], ◌∷◌}
use fuzzusb.Usb.{Ret, ret, err, epipe, Descriptor, bulk, isoc}
use fuzzusb.Usbtest.{simple_fill_buf}
use fuzzusb.Usbtest.Io.{TestUrb, Answer, completed, Device, Rounds, ended, simple_io}
use fuzzusb.Usbtest.Io.Lengths.{Good, Answers, EndsWith, simple_io-EndsWith}
use fuzzusb.Usbtest.Halt.{test_halt, test_toggle_sync}
use fuzzusb.Usbtest.Halt.Cleared.{noting, Fair, test_halt-cleared}
use fuzzusb.Usbtest.Select.{
  AltSetting, TestInfo, TestDev, rcv_isoc, get_endpoints, fz_get_endpoints, fz_at_found,
}
use fuzzusb.Usbtest.Select.First.{only_alt, setting_at, fz_get_endpoints_lem}

abbrev answer : Bool → TestUrb → Answer
answer true u = completed (err epipe) 0 u.buf
answer false u = completed (ret 0) u.transfer_buffer_length u.buf

abbrev status_of : Bool → ℕ
status_of true = 1
status_of false = 0

-- The state is whether the endpoint is halted.
abbrev one_ep : Device Bool
one_ep = record {
  submit = λ u w. (answer w u, w);
  get_std_status = λ ep w. ((ret 0, status_of w), w);
  set_halt = λ ep w. (ret 0, true);
  clear_halt = λ w. (ret 0, false);
}

one_ep-Fair : Fair one_ep
one_ep-Fair m v true g = (omega arith, refl, tt)
one_ep-Fair m v false g = (omega arith, refl, tt)

abbrev out_urb : TestUrb
out_urb = record {
  is_in = false;
  maxpacket = 4;
  guards = [];
  buf = 1 ∷ 2 ∷ 3 ∷ 4 ∷ 5 ∷ 6 ∷ [];
  transfer_buffer_length = 6;
  actual_length = 0;
  zero_packet = false;
}

test_halt-cleared_example :
    EndsWith
      (λ (x : Bool × Bool). x.1 ≡ false)
      (λ v. v.transfer_buffer_length ≡ 6)
      (test_halt (noting one_ep) 1 none 2 out_urb (false, false))
test_halt-cleared_example =
    test_halt-cleared one_ep 1 none 2 out_urb false one_ep-Fair tt (omega arith)

still_running :
    (v : TestUrb) (x : Bool) → Good 6 v → x ≡ false → Answers (λ w. w ≡ false) v (answer x v, x)
still_running v true g p = (omega arith, refl, p)
still_running v false g p = (omega arith, refl, p)

simple_io-EndsWith_example :
    EndsWith
      (λ w. w ≡ false)
      (λ v. Good 6 v × (v.transfer_buffer_length ≡ 6))
      (simple_io one_ep 1 none 10 4 out_urb false)
simple_io-EndsWith_example =
    simple_io-EndsWith one_ep 1 none 10 4 out_urb false (λ w. w ≡ false) still_running tt
      (inr (omega arith)) (omega arith) refl

abbrev result : {W : Type 0} → Rounds W → Option Ret
result (ended r s) = some r
result _ = none

halt_run : result (test_halt one_ep 0 none 2 out_urb false) ≡ some (ret 0)
unfolding test_halt simple_fill_buf
halt_run = refl

toggle_run : result (test_toggle_sync one_ep 0 none out_urb false) ≡ some (ret 0)
unfolding test_toggle_sync simple_fill_buf
toggle_run = refl

abbrev ep_1_in : Descriptor
ep_1_in = record {
  descriptor_type = 5;
  endpoint_address = 129;
  transfer_type = bulk;
  maxp = 512;
  maxp_mult = 1;
}

abbrev ep_2_out : Descriptor
ep_2_out = record {
  descriptor_type = 5;
  endpoint_address = 2;
  transfer_type = bulk;
  maxp = 512;
  maxp_mult = 1;
}

abbrev ep_3_iso : Descriptor
ep_3_iso = record {
  descriptor_type = 5;
  endpoint_address = 131;
  transfer_type = isoc;
  maxp = 256;
  maxp_mult = 1;
}

abbrev alts : List AltSetting
alts =
    record { interface_number = 0; alternate_setting = 0; eps = ep_1_in ∷ [] }
    ∷ record {
      interface_number = 0;
      alternate_setting = 1;
      eps = ep_3_iso ∷ ep_1_in ∷ ep_2_out ∷ [];
    }
    ∷ []

abbrev info0 : TestInfo
info0 = record {
  intr = false;
  iso = true;
  alt = none;
  in_bulk_pipe = none;
  out_bulk_pipe = none;
  in_iso_pipe = none;
  out_iso_pipe = none;
  in_int_pipe = none;
  out_int_pipe = none;
  iso_in = none;
  iso_out = none;
  int_in = none;
  int_out = none;
}

abbrev dev0 : TestDev
dev0 = record {
  info = info0;
  in_pipe = none;
  out_pipe = none;
  in_iso_pipe = none;
  out_iso_pipe = none;
  in_int_pipe = none;
  out_int_pipe = none;
  iso_in = none;
  iso_out = none;
  int_in = none;
  int_out = none;
  settings = [];
}

select_run : (get_endpoints (λ i a. ret 0) none alts dev0).1.in_iso_pipe ≡ some (rcv_isoc 3)
unfolding get_endpoints
select_run = refl

fz_get_endpoints_run :
    fz_get_endpoints (λ i a. ret 0) 1 alts dev0
    ≡ fz_at_found (λ i a. ret 0) (only_alt info0 (setting_at alts 1)) dev0
fz_get_endpoints_run = fz_get_endpoints_lem (λ i a. ret 0) 1 alts dev0
