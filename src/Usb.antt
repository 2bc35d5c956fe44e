-- ===== src/Usb.antt =====
-- What the driver takes from the kernel's USB headers: speeds, transfer types, error numbers, the
-- numbers of the port features and of the status bits (USB 2.0 and 3.0 specifications, chapters 9
-- to 11), and endpoint descriptors as the accessors of linux/usb/ch9.h read them.
pub mod Port
pub mod Feature
pub mod Device
use fuzzusb.Base.{ℕ, ◌/◌, ◌%◌, ◌^◌, ◌==◌, List, [], ◌∷◌, Bool, true, false}

-- `enum usb_device_speed`
pub data Speed : Type 0 where
  unknown low full high wireless super super_plus : Speed

pub data TransferType : Type 0 where
  control isoc bulk interrupt : TransferType

-- The `E...` codes; `other` is any code that the driver does not name.
pub data Errno : Type 0 where
  einval enomem eshutdown einprogress econnreset eagain enolink eio eoverflow epipe : Errno
  eproto eopnotsupp etimedout ebusy enodev : Errno
  other : ℕ → Errno

-- An `int` that is a result `n ≥ 0` or `-E...`.
pub data Ret : Type 0 where
  ret : ℕ → Ret
  err : Errno → Ret

-- `status == -EINPROGRESS`
abbrev pub is_inprogress : Ret → Bool
is_inprogress (err einprogress) = true
is_inprogress _ = false

abbrev pub is_super : Speed → Bool
is_super super = true
is_super _ = false

abbrev pub is_high : Speed → Bool
is_high high = true
is_high _ = false

abbrev pub is_bulk : TransferType → Bool
is_bulk bulk = true
is_bulk _ = false

-- `struct usb_endpoint_descriptor`: the two bytes that the driver reads itself, and the values of
-- `usb_endpoint_type`, `usb_endpoint_maxp` and `usb_endpoint_maxp_mult`.
pub record Descriptor : Type 0 where
  pub descriptor_type : ℕ
  pub endpoint_address : ℕ
  pub transfer_type : TransferType
  pub maxp : ℕ
  pub maxp_mult : ℕ

-- `USB_DT_ENDPOINT`
abbrev pub dt_endpoint : ℕ
dt_endpoint = 5

-- `address & USB_DIR_IN`, for a byte
abbrev pub is_dir_in : ℕ → Bool
is_dir_in a = (a / 128) % 2 == 1

-- `usb_endpoint_num`
abbrev pub endpoint_num : Descriptor → ℕ
endpoint_num desc = desc.endpoint_address % 16

-- `struct usb_ep_caps`
pub record Caps : Type 0 where
  pub type_control : Bool
  pub type_iso : Bool
  pub type_bulk : Bool
  pub type_int : Bool
  pub dir_in : Bool
  pub dir_out : Bool
