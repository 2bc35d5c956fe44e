-- ===== src/Probe/Outcome.antt =====
-- How `dummy_hcd_probe` ends, and what `dummy_hcd_remove` makes of that.
use fuzzusb.Base.{
  pick, ap, ◌∙◌, true, false, ◌≡◌, ◌≢◌, refl, arith, Option, none, some, if◌then◌else◌,
}
use fuzzusb.Usb.{Ret, ret, err, Errno, enomem}
use fuzzusb.Dummy.{hs, ss}
use fuzzusb.Load.{Parameters}
use fuzzusb.Probe.{
  missing, created, registered, Host, Core, set_stage, dealloc_usb2_hcd, after_add_ss, probe_ss,
  after_add_hs, set_tt, probe_hs, probe, remove_hcd, unprobed, hcds_found, driver_flags,
}

-- `usb_add_hcd` leaves the other controller alone, does not succeed without `dummy_setup`, and leaves no
-- controller registered that it fails to add.
pub record Adds (c : Core) : Type 0 where
  pub other_hs : (h : Host) → (c.add ss h).1.usb2_bus ≡ h.usb2_bus
  pub other_ss : (h : Host) → (c.add hs h).1.usb3_bus ≡ h.usb3_bus
  pub setup_hs : (h : Host) → (c.add hs h).0 ≡ none → (c.add hs h).1.usb2_bus.pointed ≡ true
  pub setup_ss : (h : Host) → (c.add ss h).0 ≡ none → (c.add ss h).1.usb3_bus.pointed ≡ true
  pub unadded_hs :
      (h : Host)
      → h.usb2_bus.stage ≡ created
      → (c.add hs h).0 ≢ none
      → (c.add hs h).1.usb2_bus.stage ≡ created
  pub unadded_ss :
      (h : Host)
      → h.usb3_bus.stage ≡ created
      → (c.add ss h).0 ≢ none
      → (c.add ss h).1.usb3_bus.stage ≡ created

-- No controller is left, and the `struct dummy` points to none.
abbrev pub Bare : Host → Type 0
Bare h =
    (h.usb2_bus.stage ≡ missing)
    × (h.usb3_bus.stage ≡ missing)
    × (h.usb2_bus.pointed ≡ false)
    × (h.usb3_bus.pointed ≡ false)

-- An error and no controller, which `init` notices; or success and the controllers that were
-- asked for, which `init` finds and `dummy_hcd_remove` takes away
abbrev pub Probed : Parameters → Ret × Host → Type 0
Probed p (ret v, h) =
    (v ≡ 0)
    × (h.usb2_bus.stage ≡ registered)
    × (h.usb3_bus.stage ≡ (if p.is_super_speed then registered else missing))
    × (hcds_found p h ≡ true)
    × Bare (remove_hcd h).1
Probed p (err e, h) = Bare h × (hcds_found p h ≡ false)

module _ (p : Parameters) where
  after_add_ss-Probed :
      (o : Option Errno) (h : Host)
      → p.is_super_speed ≡ true
      → h.usb2_bus.stage ≡ registered
      → h.usb2_bus.pointed ≡ true
      → (o ≡ none → h.usb3_bus.pointed ≡ true)
      → (o ≢ none → h.usb3_bus.stage ≡ created)
      → Probed p (after_add_ss (o, h))
  unfolding remove_hcd
  after_add_ss-Probed (some e) h s r t f g =
      let k = g (λ n. ground arith) in ((ground arith, ground arith, refl, refl), refl)
  after_add_ss-Probed none h s r t f k =
      let g = f refl in (refl, r, rw s refl, ground arith, (ground arith, ground arith, refl, refl))

  module _ (c : Core) (adds : Adds c) where
    probe_ss-Probed :
        (h : Host)
        → p.is_super_speed ≡ true
        → h.usb2_bus.stage ≡ registered
        → h.usb2_bus.pointed ≡ true
        → h.usb3_bus.stage ≡ missing
        → Probed p (probe_ss c h)
    probe_ss-Probed h s r t m =
        let h' = set_stage ss created h in
        let same = adds.other_hs h' in
        pick (Probed p) (c.create ss) (after_add_ss (c.add ss h')) (dealloc_usb2_hcd enomem h)
          (λ e.
            after_add_ss-Probed (c.add ss h').0 (c.add ss h').1 s (ap (λ b. b.stage) same ∙ r)
              (ap (λ b. b.pointed) same ∙ t) (adds.setup_ss h') (adds.unadded_ss h' refl))
          (λ e. ((ground arith, m, refl, refl), refl))

    after_add_hs-Probed :
        (o : Option Errno) (h : Host)
        → (o ≡ none → h.usb2_bus.pointed ≡ true)
        → (o ≢ none → h.usb2_bus.stage ≡ created)
        → h.usb3_bus.stage ≡ missing
        → Probed p (after_add_hs p c (o, h))
    unfolding remove_hcd
    after_add_hs-Probed (some e) h f k m =
        let c = k (λ n. ground arith) in ((ground arith, m, refl, refl), refl)
    after_add_hs-Probed none h f k m =
        let g = f refl in
        let h' = set_stage hs registered h in
        pick (Probed p) p.is_super_speed (probe_ss c h') (ret 0, h')
          (λ s. probe_ss-Probed h' s refl g m)
          (λ s. (refl, refl, rw s m, ground arith, (ground arith, ground arith, refl, refl)))

    probe_hs-Probed : (h : Host) → Bare h → Probed p (probe_hs p c h)
    probe_hs-Probed h b =
        let h' = set_tt (set_stage hs created h) in
        pick (Probed p) (c.create hs) (after_add_hs p c (c.add hs h')) (err enomem, h)
          (λ e.
            after_add_hs-Probed (c.add hs h').0 (c.add hs h').1 (adds.setup_hs h')
              (adds.unadded_hs h' refl) (ap (λ x. x.stage) (adds.other_ss h') ∙ b.1))
          (λ e. (b, rw b.2 refl))

-- Probing the host side of a platform device either fails, leaves no host controller and no
-- pointer to one, and then `init` notices; or returns 0 with the USB 2.0 controller registered,
-- the USB 3.0 one exactly if it is asked for, `init` finds them, and removing the device takes all
-- of it away. `usb_add_hcd` does not succeed without calling `dummy_setup`, and leaves the other
-- controller alone, and one that it fails to add is not registered.
pub probe-Probed : (p : Parameters) (c : Core) → Adds c → Probed p (probe p c unprobed)
unfolding probe
probe-Probed p c adds =
    probe_hs-Probed p c adds (record unprobed { flags = driver_flags p }) (refl, refl, refl, refl)
