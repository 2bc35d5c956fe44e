-- ===== src/Examples/ProbeRuns.antt =====
-- Runs of `dummy_hcd_probe`.
use fuzzusb.Base.{true, Option, none, some, ◌≡◌, refl}
use fuzzusb.Usb.{Errno, err, enomem}
use fuzzusb.Dummy.{Side, hs, ss}
use fuzzusb.Load.{Parameters}
use fuzzusb.Probe.{Core, dummy_setup, probe, unprobed}
use fuzzusb.Probe.Outcome.{Adds, Probed, probe-Probed}

abbrev super_speed : Parameters
super_speed = record { is_super_speed = true; is_high_speed = true; num = 1 }

-- A host core that sets up each controller
abbrev core : Core
core = record { create = λ s. true; add = λ s h. (none, dummy_setup s h) }

core-Adds : Adds core
core-Adds = record {
  other_hs = λ h. refl;
  other_ss = λ h. refl;
  setup_hs = λ h e. refl;
  setup_ss = λ h e. refl;
  unadded_hs = λ h c e. c;
  unadded_ss = λ h c e. c;
}

probe-Probed_example : Probed super_speed (probe super_speed core unprobed)
probe-Probed_example = probe-Probed super_speed core core-Adds

-- The USB 3.0 controller is set up, but not added.
abbrev fails_ss : Side → Option Errno
fails_ss hs = none
fails_ss ss = some enomem

abbrev add_fails : Core
add_fails = record { create = λ s. true; add = λ s h. (fails_ss s, dummy_setup s h) }

failed_run : (probe super_speed add_fails unprobed).0 ≡ err enomem
unfolding probe
failed_run = refl
