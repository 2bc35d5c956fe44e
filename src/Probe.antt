-- ===== src/Probe.antt =====
-- `dummy_setup`, `dummy_hcd_probe` and `dummy_hcd_remove` of patch/kernel/dummy_hcd.c: the host
-- controllers of one platform device, which share a `struct dummy`.
pub mod Outcome
use fuzzusb.Base.{ℕ, Bool, true, false, not, ◌&&◌, ◌||◌, Option, none, some, if◌then◌else◌}
use fuzzusb.Usb.{Ret, ret, err, Errno, enomem, Speed, high, super, low}
use fuzzusb.Dummy.{Side, hs, ss, HcdSpeed, usb11, usb2, usb3}
use fuzzusb.Load.{Parameters}

-- What there is of a `struct usb_hcd`
pub data Stage : Type 0 where
  missing created registered : Stage

-- A `struct usb_hcd`, and whether `dum->hs_hcd` or `dum->ss_hcd` points to it
pub record Bus : Type 0 where
  pub stage : Stage
  pub pointed : Bool
  pub speed : HcdSpeed
  pub root_hub_speed : Speed
  pub sg_tablesize : ℕ
  pub has_tt : Bool

-- `dummy_hcd.flags`
pub data DriverFlags : Type 0 where
  flags_none flags_usb3_shared flags_usb2 flags_usb11 : DriverFlags

pub record Host : Type 0 where
  pub usb2_bus : Bus
  pub usb3_bus : Bus
  pub flags : DriverFlags

-- `usb_create_hcd` or `usb_create_shared_hcd`, and `usb_add_hcd`, which calls `dummy_setup`
pub record Core : Type 0 where
  pub create : Side → Bool
  pub add : Side → Host → Option Errno × Host

-- `dummy_setup`; `usb_hcd_is_primary_hcd` tells the sides apart.
abbrev pub dummy_setup : Side → Host → Host
dummy_setup hs h = record h {
  usb2_bus = record h.usb2_bus {
    pointed = true;
    speed = usb2;
    root_hub_speed = high;
    sg_tablesize = 4294967295;
  };
}
dummy_setup ss h = record h {
  usb3_bus = record h.usb3_bus {
    pointed = true;
    speed = usb3;
    root_hub_speed = super;
    sg_tablesize = 4294967295;
  };
}

abbrev pub set_stage : Side → Stage → Host → Host
set_stage hs x h = record h { usb2_bus = record h.usb2_bus { stage = x } }
set_stage ss x h = record h { usb3_bus = record h.usb3_bus { stage = x } }

abbrev pub bus_of : Side → Host → Bus
bus_of hs h = h.usb2_bus
bus_of ss h = h.usb3_bus

-- `usb_put_hcd` drops the reference of the creation: a controller that is still registered stays.
-- `usb_remove_hcd` takes a registered one out of the system.
abbrev pub after_put : Stage → Stage
after_put registered = registered
after_put _ = missing

abbrev pub after_remove : Stage → Stage
after_remove registered = created
after_remove x = x

abbrev pub put_hcd : Side → Host → Host
put_hcd s h = set_stage s (after_put (bus_of s h).stage) h

abbrev pub usb_remove_hcd : Side → Host → Host
usb_remove_hcd s h = set_stage s (after_remove (bus_of s h).stage) h

-- `dum->hs_hcd = dum->ss_hcd = NULL`
abbrev pub forget : Host → Host
forget h = record h {
  usb2_bus = record h.usb2_bus { pointed = false };
  usb3_bus = record h.usb3_bus { pointed = false };
}

abbrev pub driver_flags : Parameters → DriverFlags
driver_flags p =
    if p.is_super_speed
    then flags_usb3_shared
    else if p.is_high_speed
    then flags_usb2
    else flags_usb11

-- The labels at the end
abbrev pub put_usb2_hcd : Errno → Host → Ret × Host
put_usb2_hcd e h = (err e, forget (put_hcd hs h))

abbrev pub dealloc_usb2_hcd : Errno → Host → Ret × Host
dealloc_usb2_hcd e h = put_usb2_hcd e (usb_remove_hcd hs h)

abbrev pub put_usb3_hcd : Errno → Host → Ret × Host
put_usb3_hcd e h = dealloc_usb2_hcd e (put_hcd ss h)

-- The steps of `dummy_hcd_probe`, from the last to the first
abbrev pub after_add_ss : Option Errno × Host → Ret × Host
after_add_ss (some e, h) = put_usb3_hcd e h
after_add_ss (none, h) = (ret 0, set_stage ss registered h)

abbrev pub probe_ss : Core → Host → Ret × Host
probe_ss c h =
    if c.create ss
    then after_add_ss (c.add ss (set_stage ss created h))
    else dealloc_usb2_hcd enomem h

abbrev pub after_add_hs : Parameters → Core → Option Errno × Host → Ret × Host
after_add_hs p c (some e, h) = put_usb2_hcd e h
after_add_hs p c (none, h) =
    if p.is_super_speed
    then probe_ss c (set_stage hs registered h)
    else (ret 0, set_stage hs registered h)

abbrev pub set_tt : Host → Host
set_tt h = record h { usb2_bus = record h.usb2_bus { has_tt = true } }

abbrev pub probe_hs : Parameters → Core → Host → Ret × Host
probe_hs p c h =
    if c.create hs
    then after_add_hs p c (c.add hs (set_tt (set_stage hs created h)))
    else (err enomem, h)

unfoldable pub probe : Parameters → Core → Host → Ret × Host
probe p c h = probe_hs p c (record h { flags = driver_flags p })

-- `dummy_hcd_remove`
abbrev pub remove_bus : Side → Host → Host
remove_bus s h = put_hcd s (usb_remove_hcd s h)

unfoldable pub remove_hcd : Host → Ret × Host
remove_hcd h = (ret 0, forget (remove_bus hs (if h.usb3_bus.pointed then remove_bus ss h else h)))

-- Before the probe
abbrev pub no_bus : Bus
no_bus = record {
  stage = missing;
  pointed = false;
  speed = usb11;
  root_hub_speed = low;
  sg_tablesize = 0;
  has_tt = false;
}

abbrev pub unprobed : Host
unprobed = record { usb2_bus = no_bus; usb3_bus = no_bus; flags = flags_none }

-- What `init` looks for after it has added the device
abbrev pub hcds_found : Parameters → Host → Bool
hcds_found p h = h.usb2_bus.pointed && (h.usb3_bus.pointed || not p.is_super_speed)
