-- ===== src/Load.antt =====
-- Loading of the module: `init` of patch/kernel/dummy_hcd.c, which makes `mod_data.num` pairs of
-- platform devices with a `struct dummy` each, and undoes all of it when a step fails.
pub mod Loops
pub mod Unwind
pub mod Settled
use fuzzusb.Base.{
  ℕ, zero, suc, ◌+◌, Bool, true, false, not, ◌&&◌, ◌||◌, Option, none, some, if◌then◌else◌, ltb,
  leb, ◌==◌, update,
}
use fuzzusb.Usb.{Ret, ret, err, Errno, enomem, einval, enodev}

-- A platform device
pub data Pdev : Type 0 where
  absent allocated added : Pdev

-- An entry of the array `dum` of `init`, which is not initialised
pub data Slot : Type 0 where
  garbage null live freed : Slot

-- What `init` holds. `wild_free` notes a `kfree` of something that is no live pointer.
pub record Module : Type 0 where
  pub hcd_pdev : ℕ → Pdev
  pub udc_pdev : ℕ → Pdev
  pub dum : ℕ → Slot
  pub hcd_driver : Bool
  pub udc_driver : Bool
  pub wild_free : Bool

-- What the kernel answers: an error, or `none` for success. `hs_hcd`, `ss_hcd` and `udc_probed` say
-- whether the probe functions of the devices left a pointer there.
pub record Kernel : Type 0 where
  pub usb_disabled : Bool
  pub alloc_hcd : ℕ → Bool
  pub alloc_udc : ℕ → Bool
  pub alloc_dum : ℕ → Bool
  pub add_hcd_data : ℕ → Option Errno
  pub add_udc_data : ℕ → Option Errno
  pub register_hcd : Option Errno
  pub register_udc : Option Errno
  pub add_hcd : ℕ → Option Errno
  pub hs_hcd : ℕ → Bool
  pub ss_hcd : ℕ → Bool
  pub add_udc : ℕ → Option Errno
  pub udc_probed : ℕ → Bool

-- `struct dummy_hcd_module_parameters`
pub record Parameters : Type 0 where
  pub is_super_speed : Bool
  pub is_high_speed : Bool
  pub num : ℕ

-- `MAX_NUM_UDC`
abbrev pub max_num_udc : ℕ
max_num_udc = 32

-- Before `init`
abbrev pub unloaded : Module
unloaded = record {
  hcd_pdev = λ i. absent;
  udc_pdev = λ i. absent;
  dum = λ i. garbage;
  hcd_driver = false;
  udc_driver = false;
  wild_free = false;
}

abbrev pub set_hcd_pdev : Pdev → ℕ → Module → Module
set_hcd_pdev x i m = record m { hcd_pdev = update m.hcd_pdev i x }

abbrev pub set_udc_pdev : Pdev → ℕ → Module → Module
set_udc_pdev x i m = record m { udc_pdev = update m.udc_pdev i x }

-- `platform_device_put` drops the reference of `platform_device_alloc`: a device that is still added
-- stays. `platform_device_del` takes an added device out of the system.
abbrev pub after_put : Pdev → Pdev
after_put added = added
after_put _ = absent

abbrev pub after_del : Pdev → Pdev
after_del added = allocated
after_del x = x

abbrev pub put_hcd : ℕ → Module → Module
put_hcd i m = set_hcd_pdev (after_put (m.hcd_pdev i)) i m

abbrev pub put_udc : ℕ → Module → Module
put_udc i m = set_udc_pdev (after_put (m.udc_pdev i)) i m

abbrev pub del_hcd : ℕ → Module → Module
del_hcd i m = set_hcd_pdev (after_del (m.hcd_pdev i)) i m

abbrev pub del_udc : ℕ → Module → Module
del_udc i m = set_udc_pdev (after_del (m.udc_pdev i)) i m

abbrev pub is_pointer : Slot → Bool
is_pointer garbage = false
is_pointer freed = false
is_pointer _ = true

abbrev pub after_free : Slot → Slot
after_free live = freed
after_free x = x

-- `kfree(dum[i])`
abbrev pub free_dum : ℕ → Module → Module
free_dum i m = record m {
  dum = update m.dum i (after_free (m.dum i));
  wild_free = not (is_pointer (m.dum i)) || m.wild_free;
}

-- `for (i = 0; i < n; i++)`: `n` rounds are left, `i` is next
unfoldable pub for_each : ℕ → ℕ → (ℕ → Module → Module) → Module → Module
for_each zero i body m = m
for_each (suc n) i body m = for_each n (i + 1) body (body i m)

-- `i--; while (i >= 0) body(i--)`
unfoldable pub back_from : ℕ → (ℕ → Module → Module) → Module → Module
back_from zero body m = m
back_from (suc i) body m = back_from i body (body i m)

-- A loop that a failure leaves: at which index, with which error
pub data Loop : Type 0 where
  through : Module → Loop
  broke : ℕ → Errno → Module → Loop

pub data Step : Type 0 where
  fine : Module → Step
  fails : Errno → Module → Step

abbrev pub after_step : ℕ → (Module → Loop) → Step → Loop
after_step i rest (fine m) = rest m
after_step i rest (fails e m) = broke i e m

unfoldable pub try_each : ℕ → ℕ → (ℕ → Module → Step) → Module → Loop
try_each zero i body m = through m
try_each (suc n) i body m = after_step i (try_each n (i + 1) body) (body i m)

abbrev pub checked : Option Errno → Module → Module → Step
checked none bad good = fine good
checked (some e) bad good = fails e bad

-- The bodies of the loops
abbrev pub alloc_hcd_step : Kernel → ℕ → Module → Step
alloc_hcd_step k i m =
    if k.alloc_hcd i
    then fine (set_hcd_pdev allocated i m)
    else fails enomem (set_hcd_pdev absent i m)

abbrev pub alloc_udc_step : Kernel → ℕ → Module → Step
alloc_udc_step k i m =
    if k.alloc_udc i
    then fine (set_udc_pdev allocated i m)
    else fails enomem (set_udc_pdev absent i m)

abbrev pub set_dum : Slot → ℕ → Module → Module
set_dum x i m = record m { dum = update m.dum i x }

abbrev pub or_error : Option Errno → Option Errno → Option Errno
or_error (some e) later = some e
or_error none later = later

abbrev pub alloc_dum_step : Kernel → ℕ → Module → Step
alloc_dum_step k i m =
    if k.alloc_dum i
    then checked (or_error (k.add_hcd_data i) (k.add_udc_data i)) (set_dum live i m)
        (set_dum live i m)
    else fails enomem (set_dum null i m)

abbrev pub add_hcd_step : Kernel → ℕ → Module → Step
add_hcd_step k i m = checked (k.add_hcd i) m (set_hcd_pdev added i m)

abbrev pub add_udc_step : Kernel → ℕ → Module → Step
add_udc_step k i m = checked (k.add_udc i) m (set_udc_pdev added i m)

abbrev pub hcd_probed : Parameters → Kernel → ℕ → Bool
hcd_probed p k i = k.hs_hcd i && (k.ss_hcd i || not p.is_super_speed)

abbrev pub probe_step : (ℕ → Bool) → ℕ → Module → Step
probe_step probed i m = if probed i then fine m else fails einval m

-- The labels at the end, from the last to the first
unfoldable pub err_alloc_udc : ℕ → Errno → Module → Ret × Module
unfolding for_each
err_alloc_udc n e m = (err e, for_each n 0 put_hcd m)

unfoldable pub err_add_pdata : ℕ → Errno → Module → Ret × Module
err_add_pdata n e m = err_alloc_udc n e (for_each n 0 put_udc (for_each n 0 free_dum m))

unfoldable pub err_register_udc_driver : ℕ → Errno → Module → Ret × Module
err_register_udc_driver n e m = err_add_pdata n e (record m { hcd_driver = false })

unfoldable pub err_add_hcd : ℕ → Errno → Module → Ret × Module
err_add_hcd n e m = err_register_udc_driver n e (record m { udc_driver = false })

unfoldable pub err_add_udc : ℕ → Errno → Module → Ret × Module
err_add_udc n e m = err_add_hcd n e (for_each n 0 del_hcd m)

unfoldable pub err_probe_udc : ℕ → Errno → Module → Ret × Module
err_probe_udc n e m = err_add_udc n e (for_each n 0 del_udc m)

-- The steps of `init`, from the last to the first
abbrev pub after_probe_udc : ℕ → Loop → Ret × Module
after_probe_udc n (through m) = (ret 0, m)
after_probe_udc n (broke i e m) = err_probe_udc n e m

abbrev pub after_add_udc : Parameters → Kernel → Loop → Ret × Module
after_add_udc p k (through m) = after_probe_udc p.num (try_each p.num 0 (probe_step k.udc_probed) m)
after_add_udc p k (broke i e m) = err_add_udc p.num e (back_from i del_udc m)

abbrev pub after_probe_hcd : Parameters → Kernel → Loop → Ret × Module
after_probe_hcd p k (through m) = after_add_udc p k (try_each p.num 0 (add_udc_step k) m)
after_probe_hcd p k (broke i e m) = err_add_udc p.num e m

abbrev pub after_add_hcd : Parameters → Kernel → Loop → Ret × Module
after_add_hcd p k (through m) =
    after_probe_hcd p k (try_each p.num 0 (probe_step (hcd_probed p k)) m)
after_add_hcd p k (broke i e m) = err_add_hcd p.num e (back_from i del_hcd m)

abbrev pub after_register_udc : Parameters → Kernel → Option Errno → Module → Ret × Module
after_register_udc p k (some e) m = err_register_udc_driver p.num e m
after_register_udc p k none m =
    after_add_hcd p k (try_each p.num 0 (add_hcd_step k) (record m { udc_driver = true }))

abbrev pub after_register_hcd : Parameters → Kernel → Option Errno → Module → Ret × Module
after_register_hcd p k (some e) m = err_add_pdata p.num e m
after_register_hcd p k none m =
    after_register_udc p k k.register_udc (record m { hcd_driver = true })

abbrev pub after_alloc_dum : Parameters → Kernel → Loop → Ret × Module
after_alloc_dum p k (through m) = after_register_hcd p k k.register_hcd m
after_alloc_dum p k (broke i e m) = err_add_pdata p.num e m

abbrev pub after_alloc_udc : Parameters → Kernel → Loop → Ret × Module
after_alloc_udc p k (through m) = after_alloc_dum p k (try_each p.num 0 (alloc_dum_step k) m)
after_alloc_udc p k (broke i e m) = err_alloc_udc p.num e (back_from i put_udc m)

abbrev pub after_alloc_hcd : Parameters → Kernel → Loop → Ret × Module
after_alloc_hcd p k (through m) = after_alloc_udc p k (try_each p.num 0 (alloc_udc_step k) m)
after_alloc_hcd p k (broke i e m) = (err e, back_from i put_hcd m)

unfoldable pub init : Parameters → Kernel → Module → Ret × Module
init p k m =
    if k.usb_disabled
    then (err enodev, m)
    else if not p.is_high_speed && p.is_super_speed
    then (err einval, m)
    else if ltb p.num 1 || ltb max_num_udc p.num
    then (err einval, m)
    else after_alloc_hcd p k (try_each p.num 0 (alloc_hcd_step k) m)

-- A round of the loop of `cleanup`, which finds `dum` in the platform data; `platform_device_unregister`
-- is `platform_device_del` with `platform_device_put`.
abbrev pub unregister : ℕ → Module → Module
unregister i m = free_dum i (
    set_hcd_pdev (after_put (after_del (m.hcd_pdev i))) i
      (set_udc_pdev (after_put (after_del (m.udc_pdev i))) i m))

unfoldable pub cleanup : Parameters → Module → Module
cleanup p m = record (for_each p.num 0 unregister m) { udc_driver = false; hcd_driver = false }
