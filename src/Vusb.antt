-- ===== src/Vusb.antt =====
-- The emulated devices of patch/syzkaller/common_usb.h: `parse_usb_descriptor`, the table of devices,
-- and what is asked of the raw gadget. Memory is a function from address to byte.
pub mod Parse
pub mod Config
pub mod Walk
pub mod Devices
pub mod Connected
pub mod Reply
pub mod Respond
pub mod RoundTrip
use fuzzusb.Base.{
  ℕ, zero, suc, ◌+◌, ◌-◌, ◌*◌, ◌%◌, ◌^◌, Bool, true, false, ◌&&◌, Option, none, some, List, [], ◌∷◌,
  ◌++◌, length, if◌then◌else◌, ltb, leb, ◌==◌, update,
}

abbrev pub Memory : Type 0
Memory = ℕ → ℕ

-- `struct usb_endpoint_descriptor`
pub record EpDesc : Type 0 where
  pub length : ℕ
  pub descriptor_type : ℕ
  pub address : ℕ
  pub attributes : ℕ
  pub max_packet : ℕ
  pub interval : ℕ
  pub refresh : ℕ
  pub synch_address : ℕ

-- `struct usb_iface_index`, with as many of `eps` as are set
pub record IfaceIndex : Type 0 where
  pub iface : ℕ
  pub interface_number : ℕ
  pub alternate_setting : ℕ
  pub eps : List EpDesc

-- `struct usb_device_index`, with as many of `ifaces` as are set. `dev` and `config` are addresses,
-- and `none` in `iface_cur` is -1. `config_length` is the bits of an `int`, which only a `uint32` is
-- read from.
pub record DeviceIndex : Type 0 where
  pub dev : ℕ
  pub config : ℕ
  pub max_power : ℕ
  pub config_length : ℕ
  pub ifaces : List IfaceIndex
  pub iface_cur : Option ℕ

abbrev pub usb_max_iface_num : ℕ
usb_max_iface_num = 4

abbrev pub usb_max_ep_num : ℕ
usb_max_ep_num = 32

-- `sizeof(struct usb_device_descriptor)` and `sizeof(struct usb_config_descriptor)`
abbrev pub device_size : ℕ
device_size = 18

abbrev pub config_size : ℕ
config_size = 9

-- `memcpy` of `sizeof(struct usb_endpoint_descriptor)` bytes
abbrev pub read_ep : Memory → ℕ → EpDesc
read_ep mem a = record {
  length = mem a;
  descriptor_type = mem (a + 1);
  address = mem (a + 2);
  attributes = mem (a + 3);
  max_packet = mem (a + 4) + 256 * mem (a + 5);
  interval = mem (a + 6);
  refresh = mem (a + 7);
  synch_address = mem (a + 8);
}

abbrev pub new_iface : Memory → ℕ → IfaceIndex
new_iface mem a = record {
  iface = a;
  interface_number = mem (a + 2);
  alternate_setting = mem (a + 3);
  eps = [];
}

abbrev pub add_iface : IfaceIndex → List IfaceIndex → List IfaceIndex
add_iface f fs = if ltb (length fs) usb_max_iface_num then fs ++ f ∷ [] else fs

abbrev pub push_ep : EpDesc → IfaceIndex → IfaceIndex
push_ep e f = if ltb (length f.eps) usb_max_ep_num then record f { eps = f.eps ++ e ∷ [] } else f

-- At `ifaces[ifaces_num - 1]`, if there is one
unfoldable pub add_ep : EpDesc → List IfaceIndex → List IfaceIndex
add_ep e [] = []
add_ep e (f ∷ []) = push_ep e f ∷ []
add_ep e (f ∷ g ∷ fs) = f ∷ add_ep e (g ∷ fs)

-- The two tests of a round of the loop, for the descriptor at address `a`. `USB_DT_INTERFACE` is 4,
-- and `USB_DT_ENDPOINT` is 5.
abbrev pub note : Memory → ℕ → List IfaceIndex → List IfaceIndex
note mem a fs =
    if mem (a + 1) == 4
    then add_iface (new_iface mem a) fs
    else if mem (a + 1) == 5
    then add_ep (read_ep mem a) fs
    else fs

-- The loop, for buffers that end so far below 2 ^ 64 that no offset wraps around; `none` means that the fuel ran out.
unfoldable pub walk : ℕ → Memory → ℕ → ℕ → ℕ → List IfaceIndex → Option (List IfaceIndex)
walk zero mem buffer len offset fs = none
walk (suc fuel) mem buffer len offset fs =
    let a = buffer + offset in
    let rest = walk fuel mem buffer len (offset + mem a) (note mem a fs) in
    if leb len (offset + 1)
    then some fs
    else if leb (mem a) 2
    then some fs
    else if ltb len (offset + mem a)
    then some fs
    else rest

pub data Parsed : Type 0 where
  out_of_fuel rejected : Parsed
  parsed : DeviceIndex → Parsed

abbrev pub index_of : Memory → ℕ → ℕ → Option (List IfaceIndex) → Parsed
index_of mem buffer len none = out_of_fuel
index_of mem buffer len (some fs) = parsed (record {
  dev = buffer;
  config = buffer + device_size;
  max_power = mem (buffer + device_size + 8);
  config_length = (len - device_size) % 2 ^ 32;
  ifaces = fs;
  iface_cur = none;
})

unfoldable pub parse_usb_descriptor : Memory → ℕ → ℕ → Parsed
parse_usb_descriptor mem buffer len =
    if ltb len (device_size + config_size)
    then rejected
    else index_of mem buffer len (walk (len + 1) mem buffer len 0 [])
