-- ===== src/Usbtest/Bind.antt =====
-- Binding the test driver to an interface: `usbtest_probe` and `usbtest_disconnect` of
-- patch/kernel/usbtest.c. `none` of `usbtest_disconnect` is an access through NULL.
pub mod Returned
use fuzzusb.Base.{
  ℕ, ◌+◌, ◌-◌, Bool, true, false, not, ◌&&◌, ◌||◌, Option, none, some, List, [], if◌then◌else◌,
  ◌==◌,
}
use fuzzusb.Usb.{Ret, ret, err, Errno, enomem, enodev, Speed, low}
use fuzzusb.Usbtest.Select.{
  Pipe, rcv_bulk, snd_bulk, rcv_int, snd_int, AltSetting, TestInfo, TestDev, get_endpoints,
  fz_get_endpoints, is_set,
}

-- The fields of `struct usbtest_info` that only the probe reads; an alternate setting below 0 is `none`.
pub record IdInfo : Type 0 where
  pub ep_in : ℕ
  pub ep_out : ℕ
  pub autoconf : Bool
  pub need_fix_alt : Bool
  pub fix_alt_intf0 : Option ℕ
  pub fix_alt_intf1 : Option ℕ
  pub fix_alt_intf2 : Option ℕ

-- The module's parameters; `override_alt` is `none` below 0.
pub record ModuleParams : Type 0 where
  pub vendor : ℕ
  pub product : ℕ
  pub force_interrupt : Bool
  pub override_alt : Option ℕ

-- What the probe reads of the device and of the interface; `interface_number` is that of `altsetting`.
pub record Interface : Type 0 where
  pub id_vendor : ℕ
  pub id_product : ℕ
  pub speed : Speed
  pub interface_number : ℕ
  pub alts : List AltSetting

-- The memory that the driver holds, the `usbtest_info` that the entry of the identifiers points to, which
-- all interfaces of that entry share, and what `usb_set_intfdata` was given
pub record Driver : Type 0 where
  pub held : ℕ
  pub info : TestInfo
  pub intfdata : Option TestDev

-- `kzalloc(sizeof(*dev))`, with `dev->info`
abbrev pub fresh_dev : TestInfo → TestDev
fresh_dev info = record {
  info = info;
  in_pipe = none;
  out_pipe = none;
  in_iso_pipe = none;
  out_iso_pipe = none;
  in_int_pipe = none;
  out_int_pipe = none;
  iso_in = none;
  iso_out = none;
  int_in = none;
  int_out = none;
  settings = [];
}

abbrev pub is_other_id : ModuleParams → Interface → Bool
is_other_id m intf =
    m.vendor == 0
    || not (intf.id_vendor == m.vendor)
    || (not (m.product == 0) && not (intf.id_product == m.product))

abbrev pub is_low : Speed → Bool
is_low low = true
is_low _ = false

-- `if (info->ep_in) dev->in_pipe = make(udev, info->ep_in)`
abbrev pub pipe_at : (ℕ → Pipe) → ℕ → Option Pipe → Option Pipe
pipe_at make ep old = if ep == 0 then old else some (make ep)

abbrev pub int_pipes : IdInfo → TestDev → TestDev
int_pipes id d = record d {
  in_pipe = pipe_at rcv_int id.ep_in d.in_pipe;
  out_pipe = pipe_at snd_int id.ep_out d.out_pipe;
}

abbrev pub bulk_pipes : IdInfo → TestDev → TestDev
bulk_pipes id d = record d {
  in_pipe = pipe_at rcv_bulk id.ep_in d.in_pipe;
  out_pipe = pipe_at snd_bulk id.ep_out d.out_pipe;
}

module _ (set_interface : ℕ → ℕ → Ret) (intf : Interface) where
  -- One of the three `if`s on the number of the interface, `n`
  abbrev pub fix_alt : ℕ → Option ℕ → Ret × TestDev → Ret × TestDev
  fix_alt n alt (err e, d) = (err e, d)
  fix_alt n none (ret k, d) = (ret k, d)
  fix_alt n (some alt) (ret k, d) =
      if intf.interface_number == n
      then fz_get_endpoints set_interface alt intf.alts d
      else (ret k, d)

  abbrev pub fix_alts : IdInfo → TestDev → Ret × TestDev
  fix_alts id d =
      fix_alt 2 id.fix_alt_intf2
        (fix_alt 1 id.fix_alt_intf1 (fix_alt 0 id.fix_alt_intf0 (ret 0, d)))

  -- The pipes of the interface
  unfoldable pub probe_pipes : ModuleParams → IdInfo → TestDev → Ret × TestDev
  probe_pipes m id d =
      if m.force_interrupt || is_low intf.speed
      then (ret 0, int_pipes id d)
      else if id.need_fix_alt
      then fix_alts id d
      else if is_set m.override_alt || id.autoconf
      then get_endpoints set_interface m.override_alt intf.alts d
      else (ret 0, bulk_pipes id d)

-- The end of the probe: what was written to the shared `info` stays in any case.
abbrev pub finish_probe : Driver → Ret × TestDev → Ret × Driver
finish_probe s (err e, d) = (err e, record s { held = s.held - 2; info = d.info })
finish_probe s (ret n, d) = (ret 0, record s { info = d.info; intfdata = some d })

-- `kzalloc` and `kmalloc` say whether the two allocations succeed, `any_id` whether `id->match_flags` is 0.
unfoldable pub usbtest_probe :
    (ℕ → ℕ → Ret) → Bool → Bool → Bool → ModuleParams → IdInfo → Interface → Driver → Ret × Driver
usbtest_probe set_interface kzalloc kmalloc any_id m id intf s =
    if any_id && is_other_id m intf
    then (err enodev, s)
    else if not kzalloc
    then (err enomem, s)
    else if not kmalloc
    then (err enomem, s)
    else finish_probe (record s { held = s.held + 2 })
        (probe_pipes set_interface intf m id (fresh_dev s.info))

abbrev pub release : Driver → Option TestDev → Option Driver
release s none = none
release s (some d) = some (record s { held = s.held - 2; intfdata = none })

unfoldable pub usbtest_disconnect : Driver → Option Driver
usbtest_disconnect s = release s s.intfdata
