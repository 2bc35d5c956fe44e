-- ===== src/Vusb/Connected.antt =====
-- From the descriptors of a device to the calls for its endpoints.
use mathlib.Core.Path.{subst}
use fuzzusb.Base.{
  ℕ, zero, suc, ◌+◌, ◌≤◌, ◌<◌, ◌≡◌, ◌≢◌, refl, sym, ap, ◌∙◌, false, Option, none, some, List, [],
  ◌∷◌, map, length, arith, leb, ◌==◌, ==_iff, update, update_at, Bool-cases, inl, inr,
}
use fuzzusb.Vusb.{Memory, EpDesc, IfaceIndex, DeviceIndex, parsed, parse_usb_descriptor}
use fuzzusb.Vusb.Parse.{Sound, parse-Sound}
use fuzzusb.Vusb.Config.{Interface, Config, encode, IsConfig, Holds}
use fuzzusb.Vusb.RoundTrip.{Seen, seen_ep, indexed, described, parse-encode}
use fuzzusb.Vusb.Devices.{
  Call, ep_disable, ep_enable, vbus_draw, configure, Rv, success, Raw, max_usb_fds, Devices, call,
  add_usb_index, find_slot, lookup_usb_index, iface_at, disable_eps, enable_eps, leave, current,
  set_interface, configure_device,
}

-- The calls that enable endpoints, on top of earlier ones
abbrev pub enables : ℕ → List EpDesc → List Call → List Call
enables fd [] cs = cs
enables fd (e ∷ es) cs = enables fd es (ep_enable fd e ∷ cs)

-- The calls that disable `n` endpoints from `ep`
abbrev pub disables : ℕ → ℕ → ℕ → List Call → List Call
disables fd zero ep cs = cs
disables fd (suc n) ep cs = disables fd n (ep + 1) (ep_disable fd ep ∷ cs)

enable_eps_lem :
    (es : List EpDesc) (fd : ℕ) (d : Devices)
    → enable_eps es fd d ≡ record d { calls = enables fd es d.calls }
unfolding enable_eps
enable_eps_lem [] fd d = refl
enable_eps_lem (e ∷ es) fd d = enable_eps_lem es fd (call (ep_enable fd e) d)

disable_eps_lem :
    (n ep fd : ℕ) (d : Devices)
    → disable_eps n ep fd d ≡ record d { calls = disables fd n ep d.calls }
unfolding disable_eps
disable_eps_lem zero ep fd d = refl
disable_eps_lem (suc n) ep fd d = disable_eps_lem n (ep + 1) fd (call (ep_disable fd ep) d)

find_slot_lem :
    (n s i fd : ℕ) (d : Devices)
    → ((j : ℕ) → j < i → d.fds j ≢ fd)
    → d.fds i ≡ fd
    → s ≤ i
    → i < s + n
    → find_slot n s fd d ≡ some i
unfolding find_slot
find_slot_lem zero s i fd d f e l h = absurd (omega arith)
find_slot_lem (suc n) s i fd d f e l h = elim (Bool-cases (s == i)) [
  | inl q ↦ ground (arith, ap d.fds ((==_iff s i).0 q))
  | inr q ↦ ground (arith, f s, ==_iff s i, find_slot_lem n (s + 1) i fd d f e)
]

-- The table with a further device
abbrev stored : ℕ → DeviceIndex → Devices → Devices
stored fd x d = record d {
  num = d.num + 1;
  index = update d.index d.num x;
  fds = update d.fds d.num fd;
}

add_usb_index_lem :
    (mem : Memory) (fd dev len : ℕ) (x : DeviceIndex) (d : Devices)
    → d.num < 6
    → parse_usb_descriptor mem dev len ≡ parsed x
    → add_usb_index mem fd dev len d ≡ (some d.num, stored fd x d)
unfolding add_usb_index
add_usb_index_lem mem fd dev len x d l e =
    let room : leb max_usb_fds d.num ≡ false = ground arith in rw (room, e) refl

lookup_usb_index-stored :
    (fd : ℕ) (x : DeviceIndex) (d : Devices)
    → d.num < 6
    → ((j : ℕ) → j < d.num → d.fds j ≢ fd)
    → lookup_usb_index fd (stored fd x d) ≡ some d.num
unfolding lookup_usb_index
lookup_usb_index-stored fd x d l f =
    find_slot_lem 6 0 d.num fd (stored fd x d) (λ j h e. f j h (ground (arith, e, ==_iff d.num j)))
      (update_at d.fds d.num fd) (omega arith) (omega arith)

-- The calls for the interface that is left, if there is one
abbrev pub disabled : ℕ → Option IfaceIndex → List Call → List Call
disabled fd none cs = cs
disabled fd (some g) cs = disables fd (length g.eps) 0 cs

leave_lem :
    (o : Option IfaceIndex) (fd : ℕ) (d : Devices)
    → leave o fd d ≡ record d { calls = disabled fd o d.calls }
leave_lem none fd d = refl
leave_lem (some g) fd d = disable_eps_lem (length g.eps) 0 fd d

-- The table after the switch of device `i` to interface `n`, which is `f`
abbrev pub switched : ℕ → ℕ → ℕ → IfaceIndex → Devices → Devices
switched fd i n f d = record d {
  index = update d.index i (record (d.index i) { iface_cur = some n });
  calls = enables fd f.eps (disabled fd (current (d.index i)) d.calls);
}

-- A switch of a known device to an interface that it has disables as many endpoints as the current
-- interface has, from 0 up, enables those of the new one in order, makes it the current one, and
-- leaves the other devices alone.
pub set_interface_lem :
    (fd i n : ℕ) (f : IfaceIndex) (d : Devices)
    → lookup_usb_index fd d ≡ some i
    → iface_at (d.index i).ifaces n ≡ some f
    → set_interface fd n d ≡ switched fd i n f d
unfolding set_interface
set_interface_lem fd i n f d e a =
    let mark = λ (d' : Devices). record d' {
      index = update d'.index i (record (d'.index i) { iface_cur = some n });
    } in
    let cs = disabled fd (current (d.index i)) d.calls in
    rw (e, a)
      (ap (λ (d' : Devices). mark (enable_eps f.eps fd d')) (leave_lem (current (d.index i)) fd d)
        ∙ ap mark (enable_eps_lem f.eps fd (record d { calls = cs })))

configure_device_lem :
    (raw : Raw) (fd i : ℕ) (f : IfaceIndex) (d : Devices)
    → lookup_usb_index fd d ≡ some i
    → iface_at (d.index i).ifaces 0 ≡ some f
    → raw (vbus_draw fd (d.index i).max_power) ≡ success
    → raw (configure fd) ≡ success
    → configure_device raw fd d ≡ (
      success,
      switched fd i 0 f
          (record d { calls = configure fd ∷ vbus_draw fd (d.index i).max_power ∷ d.calls }),
    )
unfolding configure_device
configure_device_lem raw fd i f d e a v c =
    rw (e, v, c)
      (ap (λ (d' : Devices). (success, d'))
        (set_interface_lem fd i 0 f
          (record d { calls = configure fd ∷ vbus_draw fd (d.index i).max_power ∷ d.calls }) e a))

-- What is asked of the raw gadget when a device is connected
abbrev pub Brings : ℕ → Config → Interface → Devices → Rv × Devices → Type 0
Brings fd c f d r =
    (r.0 ≡ success)
    × ((r.1.index d.num).iface_cur ≡ some 0)
    × ((es : List EpDesc) × (map seen_ep es ≡ f.eps)
        × (r.1.calls ≡ enables fd es (configure fd ∷ vbus_draw fd c.max_power ∷ d.calls)))

first-indexed :
    (xs : List IfaceIndex) (s : Seen) (ss : List Seen)
    → map indexed xs ≡ s ∷ ss
    → (g : IfaceIndex) × (iface_at xs 0 ≡ some g) × (indexed g ≡ s)
first-indexed [] s ss e = cc
first-indexed (g ∷ xs) s ss e = (g, refl, cc)

-- The same for an index that fits the descriptors
configure_device-stored :
    (raw : Raw) (fd : ℕ) (c : Config) (f : Interface) (x : DeviceIndex) (g : IfaceIndex)
    (d : Devices)
    → d.num < 6
    → ((j : ℕ) → j < d.num → d.fds j ≢ fd)
    → iface_at x.ifaces 0 ≡ some g
    → indexed g ≡ described f
    → x.max_power ≡ c.max_power
    → x.iface_cur ≡ none
    → raw (vbus_draw fd c.max_power) ≡ success
    → raw (configure fd) ≡ success
    → Brings fd c f d (configure_device raw fd (stored fd x d))
configure_device-stored raw fd c f x g d l fresh a s m n v w =
    let e = stored fd x d in
    let at : e.index d.num ≡ x = update_at d.index d.num x in
    let power : (e.index d.num).max_power ≡ c.max_power = ap (λ y. y.max_power) at ∙ m in
    let idle : current (e.index d.num) ≡ none = ap current at ∙ rw n refl in
    let cs = configure fd ∷ vbus_draw fd (e.index d.num).max_power ∷ d.calls in
    let done =
      configure_device_lem raw fd d.num g e (lookup_usb_index-stored fd x d l fresh)
        (ap (λ y. iface_at y.ifaces 0) at ∙ a) (ap (λ k. raw (vbus_draw fd k)) power ∙ v) w in
    subst (Brings fd c f d) (sym done) (
      refl,
      ap (λ y. y.iface_cur)
          (update_at e.index d.num (record (e.index d.num) { iface_cur = some 0 })),
      (
        g.eps,
        ap (λ y. y.eps) s,
        ap (λ o. enables fd g.eps (disabled fd o cs)) idle
            ∙ ap (λ k. enables fd g.eps (configure fd ∷ vbus_draw fd k ∷ d.calls)) power,
      ),
    )

-- A device with room in the table, whose descriptors stand in memory, whose file descriptor is
-- new and whose configuration the raw gadget takes: it gets an entry, and configuring it asks for
-- the power of its configuration and for the endpoints of its first interface, all of them in
-- order as they are described, and makes that interface the current one.
pub configure_device-add :
    (raw : Raw) (mem : Memory) (fd dev : ℕ) (c : Config) (f : Interface) (fs : List Interface)
    (d : Devices)
    → IsConfig c
    → Holds mem dev (encode c)
    → c.interfaces ≡ f ∷ fs
    → d.num < 6
    → ((j : ℕ) → j < d.num → d.fds j ≢ fd)
    → raw (vbus_draw fd c.max_power) ≡ success
    → raw (configure fd) ≡ success
    → ((add_usb_index mem fd dev (length (encode c)) d).0 ≡ some d.num)
      × Brings fd c f d (configure_device raw fd (add_usb_index mem fd dev (length (encode c)) d).1)
configure_device-add raw mem fd dev c f fs d k h i l fresh v w =
    let len = length (encode c) in
    let (x, p, q, m) = parse-encode c mem dev k h in
    let (g, a, s) =
      first-indexed x.ifaces (described f) (map described fs) (q ∙ ap (λ t. map described t) i) in
    let sound : Sound len (parsed x) = subst (Sound len) p (parse-Sound mem dev len) in
    let added = add_usb_index_lem mem fd dev len x d l p in
    (
      ap (λ r. r.0) added,
      subst (λ (r : Option ℕ × Devices). Brings fd c f d (configure_device raw fd r.1)) (sym added)
          (configure_device-stored raw fd c f x g d l fresh a s m sound.3 v w),
    )
