-- ===== src/Load/Settled.antt =====
-- `init` is all or nothing.
use fuzzusb.Base.{
  pick, ◌||◌, ◌&&◌, not, ltb, ℕ, ◌+◌, ◌≤◌, ◌<◌, Bool, true, false, ◌≡◌, refl, ◌∙◌, sym, arith, ◌==◌,
  ==_iff, ◌≢◌, Option, none, some, if◌then◌else◌,
}
use fuzzusb.Usb.{Ret, err, Errno, enomem, einval, enodev}
use fuzzusb.Load.{
  max_num_udc, absent, allocated, added, Slot, null, live, Module, Kernel, Parameters, unloaded,
  after_put, after_del, put_hcd, put_udc, del_hcd, del_udc, set_hcd_pdev, set_udc_pdev, back_from,
  Loop, through, broke, fine, fails, try_each, checked, alloc_hcd_step, alloc_udc_step, set_dum,
  or_error, alloc_dum_step, add_hcd_step, add_udc_step, hcd_probed, probe_step, after_probe_udc,
  after_add_udc, after_probe_hcd, after_add_hcd, after_register_udc, after_register_hcd,
  after_alloc_dum, after_alloc_udc, after_alloc_hcd, init,
}
use fuzzusb.Load.Loops.{
  Below, From, back_from-keeps, try_each-keeps, update-Below, update-From, update-all, From-update,
  weaken-From, nothing, Kept, Held,
}
use fuzzusb.Load.Unwind.{
  Settled, Released, Absent, Added, Idle, Dead, Live, Filled, Undriven, AllIdle, DumFilled,
  after_del-Idle, Live-Filled, err_alloc_udc-Settled, err_add_pdata-Settled,
  err_register_udc_driver-Settled, err_add_hcd-Settled, err_add_udc-Settled, err_probe_udc-Settled,
  cleanup-Released,
}

abbrev Driven : Module → Type 0
Driven m = (m.hcd_driver ≡ true) × (m.udc_driver ≡ true)

abbrev Clean : Module → Type 0
Clean m = m.wild_free ≡ false

-- The state before round `i` of each loop
abbrev UdcFresh : ℕ → Module → Type 0
UdcFresh i m = From Absent i m.udc_pdev × AllIdle m × From Dead 0 m.dum × Clean m × Undriven m

abbrev HcdFresh : ℕ → Module → Type 0
HcdFresh i m = From Absent i m.hcd_pdev × UdcFresh 0 m

abbrev DumReady : ℕ → Module → Type 0
DumReady i m = Below Live i m.dum × Clean m × AllIdle m × Undriven m

-- The state in which the loop over `dum` is left
abbrev DumReadied : ℕ → ℕ → Module → Type 0
DumReadied n i m = DumFilled n m × AllIdle m × Undriven m

abbrev LiveAll : ℕ → Module → Type 0
LiveAll n m = Below Live n m.dum × Clean m × Driven m

abbrev HcdReady : ℕ → ℕ → Module → Type 0
HcdReady n i m =
    Below Added i m.hcd_pdev × From Idle i m.hcd_pdev × From Idle 0 m.udc_pdev × LiveAll n m

abbrev UdcReady : ℕ → ℕ → Module → Type 0
UdcReady n i m =
    Below Added i m.udc_pdev
    × From Idle i m.udc_pdev
    × Below Added n m.hcd_pdev
    × From Idle n m.hcd_pdev
    × LiveAll n m

LiveAll-DumFilled : (n : ℕ) (m : Module) → LiveAll n m → DumFilled n m
LiveAll-DumFilled n m h = (λ j l. Live-Filled (m.dum j) (h.0 j l), h.1)

checked-keeps :
    (P F : ℕ → Module → Type 0) (i : ℕ) (o : Option Errno) (bad good : Module)
    → (o ≢ none → F i bad)
    → P (i + 1) good
    → Kept P F i (checked o bad good)
checked-keeps P F i none bad good h g = g
checked-keeps P F i (some e) bad good h g = h (λ n. ground arith)

-- The memory for `dum`, and the copies of its pointers, are there for all devices but perhaps the last.
abbrev pub FillsDum : Kernel → ℕ → Type 0
FillsDum k n =
    (j : ℕ)
    → j + 1 < n
    → (k.alloc_dum j ≡ true) × (or_error (k.add_hcd_data j) (k.add_udc_data j) ≡ none)

-- The rounds
module _ (k : Kernel) (i : ℕ) (m : Module) where
  alloc_hcd_step-keeps : HcdFresh i m → Kept HcdFresh HcdFresh i (alloc_hcd_step k i m)
  alloc_hcd_step-keeps h =
      pick (Kept HcdFresh HcdFresh i) (k.alloc_hcd i) (fine (set_hcd_pdev allocated i m))
        (fails enomem (set_hcd_pdev absent i m))
        (λ e. (
          From-update Absent m.hcd_pdev i allocated h.0,
          (
            h.1.0,
            (h.1.1.0, update-all Idle m.hcd_pdev i allocated refl h.1.1.1),
            h.1.2,
            h.1.3,
            h.1.4,
          ),
        ))
        (λ e. (
          update-From Absent m.hcd_pdev i absent refl (weaken-From Absent m.hcd_pdev i h.0),
          (h.1.0, (h.1.1.0, update-all Idle m.hcd_pdev i absent refl h.1.1.1), h.1.2, h.1.3, h.1.4),
        ))

  alloc_udc_step-keeps : UdcFresh i m → Kept UdcFresh UdcFresh i (alloc_udc_step k i m)
  alloc_udc_step-keeps h =
      pick (Kept UdcFresh UdcFresh i) (k.alloc_udc i) (fine (set_udc_pdev allocated i m))
        (fails enomem (set_udc_pdev absent i m))
        (λ e. (
          From-update Absent m.udc_pdev i allocated h.0,
          (update-all Idle m.udc_pdev i allocated refl h.1.0, h.1.1),
          h.2,
          h.3,
          h.4,
        ))
        (λ e. (
          update-From Absent m.udc_pdev i absent refl (weaken-From Absent m.udc_pdev i h.0),
          (update-all Idle m.udc_pdev i absent refl h.1.0, h.1.1),
          h.2,
          h.3,
          h.4,
        ))

  -- A round that fails is the last one.
  failed_round :
      (n : ℕ) (x : Slot) → Filled x → n ≤ i + 1 → DumReady i m → DumReadied n i (set_dum x i m)
  failed_round n x v l h = (
    (
      λ j b.
          pick Filled (i == j) x (m.dum j) (λ e. v)
            (λ e. Live-Filled (m.dum j) (h.0 j (ground (arith, ==_iff i j)))),
      h.1,
    ),
    h.2,
    h.3,
  )

  alloc_dum_step-keeps :
      (n : ℕ) → FillsDum k n → DumReady i m → Kept DumReady (DumReadied n) i (alloc_dum_step k i m)
  alloc_dum_step-keeps n fills h =
      pick (Kept DumReady (DumReadied n) i) (k.alloc_dum i)
        (checked (or_error (k.add_hcd_data i) (k.add_udc_data i)) (set_dum live i m)
          (set_dum live i m))
        (fails enomem (set_dum null i m))
        (λ e.
          checked-keeps DumReady (DumReadied n) i (or_error (k.add_hcd_data i) (k.add_udc_data i))
            (set_dum live i m) (set_dum live i m)
            (λ bad. failed_round n live refl (last (λ l. bad (fills i l).1)) h)
            (update-Below Live m.dum i live refl h.0, h.1, h.2, h.3))
        (λ e. failed_round n null refl (last (λ l. falsity (sym (fills i l).0 ∙ e))) h)
    where
      falsity : true ≡ false → ⊥
      falsity e = ground arith

      last : (i + 1 < n → ⊥) → n ≤ i + 1
      last no_more = ground arith

  add_hcd_step-keeps :
      (n : ℕ) → HcdReady n i m → Kept (HcdReady n) (HcdReady n) i (add_hcd_step k i m)
  add_hcd_step-keeps n h =
      checked-keeps (HcdReady n) (HcdReady n) i (k.add_hcd i) m (set_hcd_pdev added i m) (λ e. h)
        (
          update-Below Added m.hcd_pdev i added refl h.0,
          From-update Idle m.hcd_pdev i added h.1,
          h.2,
          h.3,
        )

  add_udc_step-keeps :
      (n : ℕ) → UdcReady n i m → Kept (UdcReady n) (UdcReady n) i (add_udc_step k i m)
  add_udc_step-keeps n h =
      checked-keeps (UdcReady n) (UdcReady n) i (k.add_udc i) m (set_udc_pdev added i m) (λ e. h)
        (
          update-Below Added m.udc_pdev i added refl h.0,
          From-update Idle m.udc_pdev i added h.1,
          h.2,
          h.3,
          h.4,
        )

  probe_step-keeps :
      (P : Module → Type 0) (probed : ℕ → Bool)
      → P m
      → Kept (λ j. P) (λ j. P) i (probe_step probed i m)
  probe_step-keeps P probed h =
      pick (Kept (λ j. P) (λ j. P) i) (probed i) (fine m) (fails einval m) (λ e. h) (λ e. h)

-- The steps
module _ (p : Parameters) (k : Kernel) (fills : FillsDum k p.num) (i : ℕ) (l : i < p.num) where
  after_probe_udc-Settled :
      (o : Loop)
      → Held (λ j. UdcReady p.num p.num) (λ j. UdcReady p.num p.num) p.num o
      → Settled p i (after_probe_udc p.num o)
  after_probe_udc-Settled (through m) h = (
    refl,
    (h.2 i l, h.0 i l, h.4.0 i l, h.4.2.0, h.4.2.1),
    cleanup-Released p i m l (LiveAll-DumFilled p.num m h.4),
  )
  after_probe_udc-Settled (broke j e m) h =
      err_probe_udc-Settled p e i p.num m l h.1 h.3 (LiveAll-DumFilled p.num m h.4)

  after_add_udc-Settled :
      (o : Loop)
      → Held (UdcReady p.num) (UdcReady p.num) p.num o
      → Settled p i (after_add_udc p k o)
  after_add_udc-Settled (through m) h =
      after_probe_udc-Settled (try_each p.num 0 (probe_step k.udc_probed) m) (
        try_each-keeps (λ j. UdcReady p.num p.num) (λ j. UdcReady p.num p.num)
          (probe_step k.udc_probed)
          (λ j x. probe_step-keeps k j x (UdcReady p.num p.num) k.udc_probed) p.num m h)
  after_add_udc-Settled (broke j e m) h =
      let m' = back_from j del_udc m in
      let g =
        back_from-keeps
          (λ a x. From Idle a x.udc_pdev × From Idle p.num x.hcd_pdev × LiveAll p.num x) del_udc
          (λ a x b. (
            update-From Idle x.udc_pdev a (after_del (x.udc_pdev a)) (after_del-Idle (x.udc_pdev a))
                b.0,
            b.1,
            b.2,
          ))
          j m (h.1, h.3, h.4) in
      err_add_udc-Settled p e i p.num m' l g.0 g.1 (LiveAll-DumFilled p.num m' g.2)

  after_probe_hcd-Settled :
      (o : Loop)
      → Held (λ j. HcdReady p.num p.num) (λ j. HcdReady p.num p.num) p.num o
      → Settled p i (after_probe_hcd p k o)
  after_probe_hcd-Settled (through m) h =
      after_add_udc-Settled (try_each p.num 0 (add_udc_step k) m) (
        try_each-keeps (UdcReady p.num) (UdcReady p.num) (add_udc_step k)
          (λ j x. add_udc_step-keeps k j x p.num) p.num m
          (nothing Added m.udc_pdev, h.2, h.0, h.1, h.3))
  after_probe_hcd-Settled (broke j e m) h =
      err_add_udc-Settled p e i p.num m l h.2 h.1 (LiveAll-DumFilled p.num m h.3)

  after_add_hcd-Settled :
      (o : Loop)
      → Held (HcdReady p.num) (HcdReady p.num) p.num o
      → Settled p i (after_add_hcd p k o)
  after_add_hcd-Settled (through m) h =
      after_probe_hcd-Settled (try_each p.num 0 (probe_step (hcd_probed p k)) m) (
        try_each-keeps (λ j. HcdReady p.num p.num) (λ j. HcdReady p.num p.num)
          (probe_step (hcd_probed p k))
          (λ j x. probe_step-keeps k j x (HcdReady p.num p.num) (hcd_probed p k)) p.num m h)
  after_add_hcd-Settled (broke j e m) h =
      let m' = back_from j del_hcd m in
      let g =
        back_from-keeps (λ a x. From Idle a x.hcd_pdev × From Idle 0 x.udc_pdev × LiveAll p.num x)
          del_hcd
          (λ a x b. (
            update-From Idle x.hcd_pdev a (after_del (x.hcd_pdev a)) (after_del-Idle (x.hcd_pdev a))
                b.0,
            b.1,
            b.2,
          ))
          j m (h.1, h.2, h.3) in
      err_add_hcd-Settled p e i p.num m' l (g.1, g.0) (LiveAll-DumFilled p.num m' g.2)

  after_register_udc-Settled :
      (o : Option Errno) (m : Module)
      → m.hcd_driver ≡ true
      → m.udc_driver ≡ false
      → Below Live p.num m.dum
      → Clean m
      → AllIdle m
      → Settled p i (after_register_udc p k o m)
  after_register_udc-Settled (some e) m d u h c a =
      err_register_udc_driver-Settled p e i p.num m l a (λ j b. Live-Filled (m.dum j) (h j b), c) u
  after_register_udc-Settled none m d u h c a =
      let m' = record m { udc_driver = true } in
      after_add_hcd-Settled (try_each p.num 0 (add_hcd_step k) m') (
        try_each-keeps (HcdReady p.num) (HcdReady p.num) (add_hcd_step k)
          (λ j x. add_hcd_step-keeps k j x p.num) p.num m'
          (nothing Added m.hcd_pdev, a.1, a.0, (h, c, (d, refl))))

  after_register_hcd-Settled :
      (o : Option Errno) (m : Module) → DumReady p.num m → Settled p i (after_register_hcd p k o m)
  after_register_hcd-Settled (some e) m h =
      err_add_pdata-Settled p e i p.num m l h.2 (λ j b. Live-Filled (m.dum j) (h.0 j b), h.1) h.3
  after_register_hcd-Settled none m h =
      after_register_udc-Settled k.register_udc (record m { hcd_driver = true }) refl h.3.1 h.0 h.1
        h.2

  after_alloc_dum-Settled :
      (o : Loop) → Held DumReady (DumReadied p.num) p.num o → Settled p i (after_alloc_dum p k o)
  after_alloc_dum-Settled (through m) h = after_register_hcd-Settled k.register_hcd m h
  after_alloc_dum-Settled (broke j e m) h = err_add_pdata-Settled p e i p.num m l h.1 h.0 h.2

  after_alloc_udc-Settled :
      (o : Loop) → Held UdcFresh UdcFresh p.num o → Settled p i (after_alloc_udc p k o)
  after_alloc_udc-Settled (through m) h =
      after_alloc_dum-Settled (try_each p.num 0 (alloc_dum_step k) m) (
        try_each-keeps DumReady (DumReadied p.num) (alloc_dum_step k)
          (λ j x. alloc_dum_step-keeps k j x p.num fills) p.num m
          (nothing Live m.dum, h.3, h.1, h.4))
  after_alloc_udc-Settled (broke j e m) h =
      let m' = back_from j put_udc m in
      let g =
        back_from-keeps UdcFresh put_udc
          (λ a x b. (
            update-From Absent x.udc_pdev a (after_put (x.udc_pdev a)) (b.1.0 a (omega arith)) b.0,
            (
              update-all Idle x.udc_pdev a (after_put (x.udc_pdev a))
                  (rw (b.1.0 a (omega arith)) refl) b.1.0,
              b.1.1,
            ),
            b.2,
            b.3,
            b.4,
          ))
          j m h in
      err_alloc_udc-Settled p e i p.num m' l
        (λ a b. g.0 a (omega arith), g.1.0, g.1.1, (λ a b. g.2 a (omega arith), g.3, g.4))

  after_alloc_hcd-Settled :
      (o : Loop) → Held HcdFresh HcdFresh p.num o → Settled p i (after_alloc_hcd p k o)
  after_alloc_hcd-Settled (through m) h =
      after_alloc_udc-Settled (try_each p.num 0 (alloc_udc_step k) m)
        (try_each-keeps UdcFresh UdcFresh (alloc_udc_step k) (alloc_udc_step-keeps k) p.num m h.1)
  after_alloc_hcd-Settled (broke j e m) h =
      let g =
        back_from-keeps HcdFresh put_hcd
          (λ a x b. (
            update-From Absent x.hcd_pdev a (after_put (x.hcd_pdev a)) (b.1.1.1 a (omega arith))
                b.0,
            (
              b.1.0,
              (
                b.1.1.0,
                update-all Idle x.hcd_pdev a (after_put (x.hcd_pdev a))
                    (rw (b.1.1.1 a (omega arith)) refl) b.1.1.1,
              ),
              b.1.2,
              b.1.3,
              b.1.4,
            ),
          ))
          j m h in
      (g.0 i (omega arith), g.1.0 i (omega arith), g.1.2 i (omega arith), g.1.4.0, g.1.4.1, g.1.3)

fresh : HcdFresh 0 unloaded
fresh = (λ j l. refl, (λ j l. refl, (λ j l. refl, λ j l. refl), λ j l. refl, refl, (refl, refl)))

pick-Settled :
    (p : Parameters) (i : ℕ) (b : Bool) (r s : Ret × Module)
    → Settled p i r
    → Settled p i s
    → Settled p i (if b then r else s)
pick-Settled p i b r s h g = pick (Settled p i) b r s (λ e. h) (λ e. g)

-- Loading the module either fails and leaves no device, no driver and no `struct dummy`, or
-- returns 0 with every device added, both drivers registered and every `struct dummy` allocated,
-- and then unloading releases all of it; only pointers that are live or NULL are freed. This holds for
-- each of the `num` pairs of devices, on every branch and whatever the kernel answers, if each
-- `struct dummy` but perhaps the last is allocated and its pointer copied to the devices: the array
-- of the pointers is not initialised.
pub init-Settled :
    (p : Parameters) (k : Kernel) (i : ℕ)
    → FillsDum k p.num
    → i < p.num
    → Settled p i (init p k unloaded)
unfolding init
init-Settled p k i fills l =
    let gone : Released i unloaded = (refl, refl, refl, refl, refl, refl) in
    let after = after_alloc_hcd p k (try_each p.num 0 (alloc_hcd_step k) unloaded) in
    let big = if ltb p.num 1 || ltb max_num_udc p.num then (err einval, unloaded) else after in
    let slow = if not p.is_high_speed && p.is_super_speed then (err einval, unloaded) else big in
    pick-Settled p i k.usb_disabled (err enodev, unloaded) slow gone
      (pick-Settled p i (not p.is_high_speed && p.is_super_speed) (err einval, unloaded) big gone
        (pick-Settled p i (ltb p.num 1 || ltb max_num_udc p.num) (err einval, unloaded) after gone
          (after_alloc_hcd-Settled p k fills i l (try_each p.num 0 (alloc_hcd_step k) unloaded) (
            try_each-keeps HcdFresh HcdFresh (alloc_hcd_step k) (alloc_hcd_step-keeps k) p.num
              unloaded fresh))))
