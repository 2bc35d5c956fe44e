-- ===== src/Load/Unwind.antt =====
-- What the error labels of `init`, and `cleanup`, leave.
use fuzzusb.Base.{ℕ, ◌+◌, ◌≤◌, ◌<◌, Bool, true, false, ◌≡◌, refl, arith, pick, ◌==◌, ==_iff}
use fuzzusb.Usb.{Ret, ret, err, Errno}
use fuzzusb.Load.{
  Pdev, absent, allocated, added, Slot, garbage, null, live, freed, Module, Parameters, after_put,
  after_del, put_hcd, put_udc, del_hcd, del_udc, is_pointer, after_free, free_dum, for_each,
  err_alloc_udc, err_add_pdata, err_register_udc_driver, err_add_hcd, err_add_udc, err_probe_udc,
  unregister, cleanup,
}
use fuzzusb.Load.Loops.{Below, From, for_each-keeps, update-Below, update-all, From-join, nothing}

abbrev pub is_live : Slot → Bool
is_live live = true
is_live _ = false

-- Nothing of the pair `i` of devices is left, nor the drivers, and only live pointers were freed.
abbrev pub Released : ℕ → Module → Type 0
Released i m =
    (m.hcd_pdev i ≡ absent)
    × (m.udc_pdev i ≡ absent)
    × (is_live (m.dum i) ≡ false)
    × (m.hcd_driver ≡ false)
    × (m.udc_driver ≡ false)
    × (m.wild_free ≡ false)

-- The pair `i` is there with its `struct dummy`, and the drivers are.
abbrev pub Loaded : ℕ → Module → Type 0
Loaded i m =
    (m.hcd_pdev i ≡ added)
    × (m.udc_pdev i ≡ added)
    × (m.dum i ≡ live)
    × (m.hcd_driver ≡ true)
    × (m.udc_driver ≡ true)

-- After `init`: an error and nothing, or success and all of it, which `cleanup` releases
abbrev pub Settled : Parameters → ℕ → Ret × Module → Type 0
Settled p i (ret v, m) = (v ≡ 0) × Loaded i m × Released i (cleanup p m)
Settled p i (err e, m) = Released i m

abbrev pub Absent : Pdev → Type 0
Absent x = x ≡ absent

abbrev pub Added : Pdev → Type 0
Added x = x ≡ added

-- A device that `platform_device_put` frees: one that is not added
abbrev pub Idle : Pdev → Type 0
Idle x = after_put x ≡ absent

abbrev pub Dead : Slot → Type 0
Dead x = is_live x ≡ false

abbrev pub Live : Slot → Type 0
Live x = x ≡ live

-- An entry of `dum` that may be freed
abbrev pub Filled : Slot → Type 0
Filled x = is_pointer x ≡ true

-- The state before each label
abbrev pub Undriven : Module → Type 0
Undriven m = (m.hcd_driver ≡ false) × (m.udc_driver ≡ false)

abbrev pub DumGone : ℕ → Module → Type 0
DumGone n m = Below Dead n m.dum × (m.wild_free ≡ false) × Undriven m

abbrev pub UdcGone : ℕ → ℕ → Module → Type 0
UdcGone n i m =
    Below Absent i m.udc_pdev × From Idle 0 m.udc_pdev × From Idle 0 m.hcd_pdev × DumGone n m

abbrev pub HcdGone : ℕ → ℕ → Module → Type 0
HcdGone n i m =
    Below Absent i m.hcd_pdev × From Idle 0 m.hcd_pdev × Below Absent n m.udc_pdev × DumGone n m

-- All entries of `dum` may be freed, and none was that may not be.
abbrev pub DumFilled : ℕ → Module → Type 0
DumFilled n m = Below Filled n m.dum × (m.wild_free ≡ false)

after_free-Dead : (x : Slot) → Dead (after_free x)
after_free-Dead garbage = refl
after_free-Dead null = refl
after_free-Dead live = refl
after_free-Dead freed = refl

after_put-Idle : (x : Pdev) → Idle x → Idle (after_put x)
after_put-Idle absent h = h
after_put-Idle allocated h = refl
after_put-Idle added h = h

pub after_del-Idle : (x : Pdev) → Idle (after_del x)
after_del-Idle absent = refl
after_del-Idle allocated = refl
after_del-Idle added = refl

pub Live-Filled : (x : Slot) → Live x → Filled x
Live-Filled garbage h = ground arith
Live-Filled null h = refl
Live-Filled live h = refl
Live-Filled freed h = ground arith

-- The state while the first `n` entries of `dum` are freed, before round `i`
abbrev Freeing : ℕ → ℕ → Module → Type 0
Freeing n i m =
    Below Dead i m.dum
    × ((j : ℕ) → i ≤ j → j < n → Filled (m.dum j))
    × (i ≤ n → m.wild_free ≡ false)

free_dum-Freeing : (n i : ℕ) (m : Module) → Freeing n i m → Freeing n (i + 1) (free_dum i m)
free_dum-Freeing n i m h = (
  update-Below Dead m.dum i (after_free (m.dum i)) (after_free-Dead (m.dum i)) h.0,
  λ j l k.
      pick Filled (i == j) (after_free (m.dum i)) (m.dum j)
        (λ e. absurd (ground (arith, ==_iff i j))) (λ e. h.1 j (omega arith) k),
  λ l. rw (h.1 i (omega arith) (omega arith)) (h.2 (omega arith)),
)

pub err_alloc_udc-Settled :
    (p : Parameters) (e : Errno) (i n : ℕ) (m : Module)
    → i < n
    → UdcGone n n m
    → Settled p i (err_alloc_udc n e m)
unfolding err_alloc_udc
err_alloc_udc-Settled p e i n m l g =
    let h =
      for_each-keeps (HcdGone n) put_hcd
        (λ j x k. (
          update-Below Absent x.hcd_pdev j (after_put (x.hcd_pdev j)) (k.1 j (omega arith)) k.0,
          update-all Idle x.hcd_pdev j (after_put (x.hcd_pdev j))
              (after_put-Idle (x.hcd_pdev j) (k.1 j (omega arith))) k.1,
          k.2,
          k.3,
        ))
        n m (nothing Absent m.hcd_pdev, g.2, g.0, g.3) in
    (h.0 i l, h.2 i l, h.3.0 i l, h.3.2.0, h.3.2.1, h.3.1)

-- Both arrays hold no added device.
abbrev pub AllIdle : Module → Type 0
AllIdle m = From Idle 0 m.udc_pdev × From Idle 0 m.hcd_pdev

pub err_add_pdata-Settled :
    (p : Parameters) (e : Errno) (i n : ℕ) (m : Module)
    → i < n
    → AllIdle m
    → DumFilled n m
    → Undriven m
    → Settled p i (err_add_pdata n e m)
unfolding err_add_pdata
err_add_pdata-Settled p e i n m l a f u =
    let m' = for_each n 0 free_dum m in
    let h =
      for_each-keeps (λ j x. Freeing n j x × AllIdle x × Undriven x) free_dum
        (λ j x k. (free_dum-Freeing n j x k.0, k.1, k.2)) n m
        ((nothing Dead m.dum, λ j z k. f.0 j k, λ z. f.1), a, u) in
    err_alloc_udc-Settled p e i n (for_each n 0 put_udc m') l (
      for_each-keeps (UdcGone n) put_udc
        (λ j x k. (
          update-Below Absent x.udc_pdev j (after_put (x.udc_pdev j)) (k.1 j (omega arith)) k.0,
          update-all Idle x.udc_pdev j (after_put (x.udc_pdev j))
              (after_put-Idle (x.udc_pdev j) (k.1 j (omega arith))) k.1,
          k.2,
          k.3,
        ))
        n m' (nothing Absent m'.udc_pdev, h.1.0, h.1.1, (h.0.0, h.0.2 (omega arith), h.2)))

pub err_register_udc_driver-Settled :
    (p : Parameters) (e : Errno) (i n : ℕ) (m : Module)
    → i < n
    → AllIdle m
    → DumFilled n m
    → m.udc_driver ≡ false
    → Settled p i (err_register_udc_driver n e m)
unfolding err_register_udc_driver
err_register_udc_driver-Settled p e i n m l a f g =
    err_add_pdata-Settled p e i n (record m { hcd_driver = false }) l a f (refl, g)

pub err_add_hcd-Settled :
    (p : Parameters) (e : Errno) (i n : ℕ) (m : Module)
    → i < n
    → AllIdle m
    → DumFilled n m
    → Settled p i (err_add_hcd n e m)
unfolding err_add_hcd
err_add_hcd-Settled p e i n m l a f =
    err_register_udc_driver-Settled p e i n (record m { udc_driver = false }) l a f refl

-- No device of the host side is added but the first `n`.
pub err_add_udc-Settled :
    (p : Parameters) (e : Errno) (i n : ℕ) (m : Module)
    → i < n
    → From Idle 0 m.udc_pdev
    → From Idle n m.hcd_pdev
    → DumFilled n m
    → Settled p i (err_add_udc n e m)
unfolding err_add_udc
err_add_udc-Settled p e i n m l a b f =
    let m' = for_each n 0 del_hcd m in
    let h =
      for_each-keeps
        (λ j x.
          Below Idle j x.hcd_pdev × From Idle n x.hcd_pdev × From Idle 0 x.udc_pdev × DumFilled n x)
        del_hcd
        (λ j x k. (
          update-Below Idle x.hcd_pdev j (after_del (x.hcd_pdev j)) (after_del-Idle (x.hcd_pdev j))
              k.0,
          λ c z.
              pick Idle (j == c) (after_del (x.hcd_pdev j)) (x.hcd_pdev c)
                (λ t. after_del-Idle (x.hcd_pdev j)) (λ t. k.1 c z),
          k.2,
          k.3,
        ))
        n m (nothing Idle m.hcd_pdev, b, a, f) in
    err_add_hcd-Settled p e i n m' l (h.2, From-join Idle m'.hcd_pdev n h.0 h.1) h.3

pub err_probe_udc-Settled :
    (p : Parameters) (e : Errno) (i n : ℕ) (m : Module)
    → i < n
    → From Idle n m.udc_pdev
    → From Idle n m.hcd_pdev
    → DumFilled n m
    → Settled p i (err_probe_udc n e m)
unfolding err_probe_udc
err_probe_udc-Settled p e i n m l a b f =
    let m' = for_each n 0 del_udc m in
    let h =
      for_each-keeps
        (λ j x.
          Below Idle j x.udc_pdev × From Idle n x.udc_pdev × From Idle n x.hcd_pdev × DumFilled n x)
        del_udc
        (λ j x k. (
          update-Below Idle x.udc_pdev j (after_del (x.udc_pdev j)) (after_del-Idle (x.udc_pdev j))
              k.0,
          λ c z.
              pick Idle (j == c) (after_del (x.udc_pdev j)) (x.udc_pdev c)
                (λ t. after_del-Idle (x.udc_pdev j)) (λ t. k.1 c z),
          k.2,
          k.3,
        ))
        n m (nothing Idle m.udc_pdev, a, b, f) in
    err_add_udc-Settled p e i n m' l (From-join Idle m'.udc_pdev n h.0 h.1) h.2 h.3

pub cleanup-Released :
    (p : Parameters) (i : ℕ) (m : Module) → i < p.num → DumFilled p.num m → Released i (cleanup p m)
unfolding cleanup
cleanup-Released p i m l f =
    let h =
      for_each-keeps
        (λ j x. Below Absent j x.hcd_pdev × Below Absent j x.udc_pdev × Freeing p.num j x)
        unregister
        (λ j x k. (
          update-Below Absent x.hcd_pdev j (after_put (after_del (x.hcd_pdev j)))
              (after_del-Idle (x.hcd_pdev j)) k.0,
          update-Below Absent x.udc_pdev j (after_put (after_del (x.udc_pdev j)))
              (after_del-Idle (x.udc_pdev j)) k.1,
          free_dum-Freeing p.num j x k.2,
        ))
        p.num m
        (
          nothing Absent m.hcd_pdev,
          nothing Absent m.udc_pdev,
          (nothing Dead m.dum, λ j z k. f.0 j k, λ z. f.1),
        ) in
    (h.0 i l, h.1 i l, h.2.0 i l, refl, refl, h.2.2 (omega arith))
