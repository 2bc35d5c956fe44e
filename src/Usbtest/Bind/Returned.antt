-- ===== src/Usbtest/Bind/Returned.antt =====
-- What a failed probe and a disconnect give back.
use fuzzusb.Base.{
  ℕ, ◌+◌, ◌-◌, ◌≡◌, ◌⊎◌, inl, inr, refl, ap, arith, Bool, not, ◌&&◌, Option, none, some,
  if◌then◌else◌, pick,
}
use fuzzusb.Usb.{Ret, ret, err, Errno, enomem, enodev}
use fuzzusb.Usbtest.Select.{TestInfo, TestDev}
use fuzzusb.Usbtest.Bind.{
  IdInfo, ModuleParams, Interface, Driver, fresh_dev, is_other_id, probe_pipes, finish_probe,
  usbtest_probe, usbtest_disconnect,
}

-- Either the interface is bound, and a disconnect leaves all but `info` as it was before the probe, with
-- nothing bound; or the probe fails, and has changed at most `info`.
abbrev pub IsReturned : Driver → Ret × Driver → Type 0
IsReturned s (r, s') =
    ((r ≡ ret 0)
      × (d : TestDev) × (s'.intfdata ≡ some d)
      × (usbtest_disconnect s' ≡ some (record s { info = d.info; intfdata = none })))
    ⊎ ((e : Errno) × (r ≡ err e) × (i : TestInfo) × (s' ≡ record s { info = i }))

with_held :
    (s : Driver) (n : ℕ) (i : TestInfo) (o : Option TestDev)
    → n ≡ s.held
    → (record s { held = n; info = i; intfdata = o }) ≡ (record s { info = i; intfdata = o })
with_held s n i o h = ap (λ k. record s { held = k; info = i; intfdata = o }) h

refused-IsReturned : (s : Driver) (e : Errno) → IsReturned s (err e, s)
refused-IsReturned s e = inr (e, refl, s.info, refl)

finish_probe-IsReturned :
    (s : Driver) (got : Ret × TestDev)
    → IsReturned s (finish_probe (record s { held = s.held + 2 }) got)
unfolding usbtest_disconnect
finish_probe-IsReturned s (err e, d) =
    inr (e, refl, d.info, with_held s (s.held + 2 - 2) d.info s.intfdata (omega arith))
finish_probe-IsReturned s (ret n, d) =
    inl (refl, d, refl, ap some (with_held s (s.held + 2 - 2) d.info none (omega arith)))

-- Whatever `usb_set_interface` answers and whether the allocations succeed, the probe either returns 0, and
-- the interface is bound, and a disconnect then leaves the held memory as it was before the probe and
-- nothing bound; or it fails, and the held memory and what is bound are unchanged. The shared
-- `usbtest_info` may keep what the probe wrote in either case.
pub usbtest_probe-IsReturned :
    (set_interface : ℕ → ℕ → Ret) (kzalloc kmalloc any_id : Bool) (m : ModuleParams) (id : IdInfo)
    (intf : Interface) (s : Driver)
    → IsReturned s (usbtest_probe set_interface kzalloc kmalloc any_id m id intf s)
unfolding usbtest_probe
usbtest_probe-IsReturned set_interface kzalloc kmalloc any_id m id intf s =
    let done =
      finish_probe (record s { held = s.held + 2 })
        (probe_pipes set_interface intf m id (fresh_dev s.info)) in
    let buffered = if not kmalloc then (err enomem, s) else done in
    let allocated = if not kzalloc then (err enomem, s) else buffered in
    pick (IsReturned s) (any_id && is_other_id m intf) (err enodev, s) allocated
      (λ h. refused-IsReturned s enodev)
      (λ h.
        pick (IsReturned s) (not kzalloc) (err enomem, s) buffered
          (λ h1. refused-IsReturned s enomem)
          (λ h1.
            pick (IsReturned s) (not kmalloc) (err enomem, s) done
              (λ h2. refused-IsReturned s enomem)
              (λ h2.
                finish_probe-IsReturned s
                  (probe_pipes set_interface intf m id (fresh_dev s.info)))))
