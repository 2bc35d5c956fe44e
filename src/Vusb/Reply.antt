-- ===== src/Vusb/Reply.antt =====
-- How patch/syzkaller/common_usb.h answers control requests: `lookup_connect_response`,
-- `lookup_control_response`, the events of `syz_usb_connect` and `syz_usb_control_io`.
use fuzzusb.Base.{
  ℕ, zero, suc, ◌+◌, ◌-◌, ◌/◌, ◌%◌, Bool, false, not, ◌&&◌, Option, none, some, List, [], ◌∷◌,
  if◌then◌else◌, ◌==◌, bit_and,
}
use fuzzusb.Dummy.{Setup}
use fuzzusb.Vusb.{DeviceIndex, device_size}
use fuzzusb.Vusb.Devices.{
  Source, null, default_lang_id, default_string, address, Devices, lookup_usb_index,
}

-- `bRequestType & USB_DIR_IN`, and `bRequestType & USB_TYPE_MASK`
abbrev pub dir_in : Setup → Bool
dir_in c = not (bit_and c.request_type 128 == 0)

abbrev pub type_of : Setup → ℕ
type_of c = bit_and c.request_type 96

-- `wValue >> 8`
abbrev pub desc_type_of : Setup → ℕ
desc_type_of c = c.value / 256

-- `struct vusb_connect_string_descriptor`
pub record Str : Type 0 where
  pub len : ℕ
  pub str : Source

-- `struct vusb_connect_descriptors`, with `strs_len` strings
pub record ConnectDescs : Type 0 where
  pub qual_len : ℕ
  pub qual : Source
  pub bos_len : ℕ
  pub bos : Source
  pub strs : List Str

-- What a lookup comes to: nothing, the end of the process by `fail`, an address and a length, or a
-- response pointer that was overwritten
pub data Reply : Type 0 where
  absent fails wild : Reply
  reply : Source → ℕ → Reply

abbrev pub str_at : List Str → ℕ → Reply → Reply
str_at [] n other = other
str_at (s ∷ ss) zero other = reply s.str s.len
str_at (s ∷ ss) (suc n) other = str_at ss n other

abbrev pub strs_of : Option ConnectDescs → List Str
strs_of none = []
strs_of (some d) = d.strs

-- `descs->bos` and `descs->qual` fault where there is no `descs`, and the lookup has then found
-- nothing. Where there is no qualifier, its fields are written over the response pointer.
abbrev pub bos_reply : Option ConnectDescs → Reply
bos_reply none = absent
bos_reply (some d) = reply d.bos d.bos_len

abbrev pub qual_reply : Option ConnectDescs → Reply
qual_reply none = absent
qual_reply (some d) = elim d.qual [ null ↦ wild | q ↦ reply q d.qual_len ]

abbrev pub string_reply : Option ConnectDescs → ℕ → Reply
string_reply descs i =
    str_at (strs_of descs) i (if i == 0 then reply default_lang_id 4 else reply default_string 8)

-- The descriptor types are `USB_DT_DEVICE`, `_CONFIG`, `_STRING`, `_BOS` and `_DEVICE_QUALIFIER`.
abbrev pub descriptor_reply : DeviceIndex → Option ConnectDescs → Setup → Reply
descriptor_reply x descs c =
    if desc_type_of c == 1
    then reply (address x.dev) device_size
    else if desc_type_of c == 2
    then reply (address x.config) x.config_length
    else if desc_type_of c == 3
    then string_reply descs (c.value % 256)
    else if desc_type_of c == 15
    then bos_reply descs
    else if desc_type_of c == 6
    then qual_reply descs
    else fails

-- A standard request, `USB_REQ_GET_DESCRIPTOR`
abbrev pub reply_of : Option ℕ → Option ConnectDescs → Setup → Devices → Reply
reply_of none descs c d = absent
reply_of (some i) descs c d =
    if type_of c == 0 && c.request == 6 then descriptor_reply (d.index i) descs c else fails

unfoldable pub lookup_connect_response : ℕ → Option ConnectDescs → Setup → Devices → Reply
unfolding lookup_usb_index
lookup_connect_response fd descs c d = reply_of (lookup_usb_index fd d) descs c d

-- `struct vusb_descriptor` and `struct vusb_response` have the same layout: two keys, a length and
-- the data behind it.
pub record Entry : Type 0 where
  pub key : ℕ
  pub key' : ℕ
  pub len : ℕ
  pub content : ℕ

-- `struct vusb_descriptors` and `struct vusb_responses`: the length in bytes, the generic entry,
-- and the pointers behind it
pub record Entries : Type 0 where
  pub len : ℕ
  pub generic : Option Entry
  pub entry : ℕ → Option Entry

-- (len - 12) / 8; a `len` below 12 wraps round to a negative number of entries.
abbrev pub num_of : Option Entries → ℕ
num_of none = 0
num_of (some e) = (e.len - 12) / 8

abbrev pub matches : ℕ → ℕ → Option Entry → Bool
matches k k' none = false
matches k k' (some e) = e.key == k && e.key' == k'

abbrev pub content_reply : Option Entry → Reply
content_reply none = absent
content_reply (some e) = reply (if e.len == 0 then null else address e.content) e.len

-- `n` entries are left, from `i`.
unfoldable pub find_entry : ℕ → ℕ → ℕ → ℕ → (ℕ → Option Entry) → Option Entry
find_entry zero i k k' entry = none
find_entry (suc n) i k k' entry =
    if matches k k' (entry i) then entry i else find_entry n (i + 1) k k' entry

-- The data of the generic entry is taken whatever its length.
abbrev pub generic_reply : Option Entry → Reply
generic_reply none = absent
generic_reply (some e) = reply (address e.content) e.len

abbrev pub or_generic : Option Entry → Option Entry → Reply
or_generic none generic = generic_reply generic
or_generic (some e) generic = content_reply (some e)

unfoldable pub entries_reply : Option Entries → ℕ → ℕ → Reply
unfolding find_entry
entries_reply none k k' = absent
entries_reply (some e) k k' = or_generic (find_entry (num_of (some e)) 0 k k' e.entry) e.generic

unfoldable pub lookup_control_response : Option Entries → Option Entries → Setup → Reply
unfolding entries_reply
lookup_control_response descs resps c =
    if c.request == 6
    then entries_reply descs (type_of c) (desc_type_of c)
    else entries_reply resps (type_of c) c.request
