-- ===== src/Vusb/Devices.antt =====
-- The table of emulated devices of patch/syzkaller/common_usb.h, and what is asked of the raw gadget
-- for their interfaces.
use fuzzusb.Base.{
  ℕ, zero, suc, ◌+◌, ◌&&◌, Option, none, some, List, [], ◌∷◌, length, if◌then◌else◌, leb, ◌==◌,
  update,
}
use fuzzusb.Vusb.{Memory, EpDesc, IfaceIndex, DeviceIndex, Parsed, parsed, parse_usb_descriptor}

-- Where the bytes of a reply come from
pub data Source : Type 0 where
  null default_lang_id default_string : Source
  address : ℕ → Source

-- The `ioctl` calls on a file descriptor
pub data Call : Type 0 where
  ep_disable : ℕ → ℕ → Call
  ep_enable : ℕ → EpDesc → Call
  vbus_draw : ℕ → ℕ → Call
  configure : ℕ → Call
  ep0_write : ℕ → Source → ℕ → Call
  ep0_read : ℕ → ℕ → Call

-- An `int` result: a number, or minus a number
pub data Rv : Type 0 where
  success : Rv
  minus : ℕ → Rv

-- What the calls answer
abbrev pub Raw : Type 0
Raw = Call → Rv

abbrev pub max_usb_fds : ℕ
max_usb_fds = 6

-- `usb_devices_num` and `usb_devices`, with the calls made, the newest first
pub record Devices : Type 0 where
  pub num : ℕ
  pub fds : ℕ → ℕ
  pub index : ℕ → DeviceIndex
  pub calls : List Call

abbrev pub call : Call → Devices → Devices
call c d = record d { calls = c ∷ d.calls }

abbrev pub store_index : ℕ → ℕ → Parsed → Devices → Option ℕ × Devices
store_index fd i (parsed x) d =
    (some i, record d { index = update d.index i x; fds = update d.fds i fd })
store_index fd i _ d = (none, d)

unfoldable pub add_usb_index : Memory → ℕ → ℕ → ℕ → Devices → Option ℕ × Devices
add_usb_index mem fd dev dev_len d =
    let d' = record d { num = d.num + 1 } in
    if leb max_usb_fds d.num
    then (none, d')
    else store_index fd d.num (parse_usb_descriptor mem dev dev_len) d'

-- `n` slots are left, from `i`.
unfoldable pub find_slot : ℕ → ℕ → ℕ → Devices → Option ℕ
find_slot zero i fd d = none
find_slot (suc n) i fd d = if d.fds i == fd then some i else find_slot n (i + 1) fd d

unfoldable pub lookup_usb_index : ℕ → Devices → Option ℕ
unfolding find_slot
lookup_usb_index fd d = find_slot max_usb_fds 0 fd d

unfoldable pub find_iface : ℕ → ℕ → ℕ → List IfaceIndex → Option ℕ
find_iface i number alt [] = none
find_iface i number alt (f ∷ fs) =
    if f.interface_number == number && f.alternate_setting == alt
    then some i
    else find_iface (i + 1) number alt fs

abbrev pub find_in : Option ℕ → ℕ → ℕ → Devices → Option ℕ
find_in none number alt d = none
find_in (some i) number alt d = find_iface 0 number alt (d.index i).ifaces

unfoldable pub lookup_interface : ℕ → ℕ → ℕ → Devices → Option ℕ
unfolding lookup_usb_index find_iface
lookup_interface fd number alt d = find_in (lookup_usb_index fd d) number alt d

abbrev pub iface_at : List IfaceIndex → ℕ → Option IfaceIndex
iface_at [] n = none
iface_at (f ∷ fs) zero = some f
iface_at (f ∷ fs) (suc n) = iface_at fs n

-- `n` endpoints are left, from `ep`.
unfoldable pub disable_eps : ℕ → ℕ → ℕ → Devices → Devices
disable_eps zero ep fd d = d
disable_eps (suc n) ep fd d = disable_eps n (ep + 1) fd (call (ep_disable fd ep) d)

unfoldable pub enable_eps : List EpDesc → ℕ → Devices → Devices
enable_eps [] fd d = d
enable_eps (e ∷ es) fd d = enable_eps es fd (call (ep_enable fd e) d)

abbrev pub leave : Option IfaceIndex → ℕ → Devices → Devices
leave none fd d = d
leave (some f) fd d = disable_eps (length f.eps) 0 fd d

abbrev pub current : DeviceIndex → Option IfaceIndex
current x = elim x.iface_cur [ none ↦ none | some n ↦ iface_at x.ifaces n ]

abbrev pub enter : Option IfaceIndex → ℕ → ℕ → ℕ → Devices → Devices
enter none i n fd d = d
enter (some f) i n fd d =
    let d' = enable_eps f.eps fd d in
    record d' { index = update d'.index i (record (d'.index i) { iface_cur = some n }) }

abbrev pub set_in : Option ℕ → ℕ → ℕ → Devices → Devices
set_in none fd n d = d
set_in (some i) fd n d =
    enter (iface_at (d.index i).ifaces n) i n fd (leave (current (d.index i)) fd d)

unfoldable pub set_interface : ℕ → ℕ → Devices → Devices
unfolding lookup_usb_index disable_eps enable_eps
set_interface fd n d = set_in (lookup_usb_index fd d) fd n d

abbrev pub after_configure : Rv → ℕ → Devices → Rv × Devices
after_configure (minus e) fd d = (minus e, d)
after_configure success fd d = (success, set_interface fd 0 d)

abbrev pub after_vbus_draw : Raw → Rv → ℕ → Devices → Rv × Devices
after_vbus_draw raw (minus e) fd d = (minus e, d)
after_vbus_draw raw success fd d = after_configure (raw (configure fd)) fd (call (configure fd) d)

abbrev pub configure_in : Raw → Option ℕ → ℕ → Devices → Rv × Devices
configure_in raw none fd d = (minus 1, d)
configure_in raw (some i) fd d =
    let c = vbus_draw fd (d.index i).max_power in after_vbus_draw raw (raw c) fd (call c d)

unfoldable pub configure_device : Raw → ℕ → Devices → Rv × Devices
unfolding lookup_usb_index set_interface
configure_device raw fd d = configure_in raw (lookup_usb_index fd d) fd d
