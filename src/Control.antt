-- ===== src/Control.antt =====
-- The standard requests that the controller answers itself: `find_endpoint` and
-- `handle_control_request` of patch/kernel/dummy_hcd.c.
pub mod Find
pub mod Features
use fuzzusb.Base.{
  ℕ, zero, suc, ◌+◌, ◌-◌, ◌/◌, ◌%◌, Bool, true, false, not, ◌&&◌, ◌||◌, Option, none, some,
  if◌then◌else◌, ltb, leb, ◌==◌, List, [], ◌∷◌, Flags, raise, clear, min, take, drop, ◌++◌, any_of,
}
use fuzzusb.Usb.{Ret, ret, err, eopnotsupp, Descriptor, is_super}
use fuzzusb.Usb.Port
use fuzzusb.Usb.Device
use fuzzusb.Dummy.{Dummy, Ep, Hcd, Side, hs, ss, Setup, Urb, dummy_endpoints}
use fuzzusb.Dummy.Access.{hcd, gadget_hcd, is_usb3, set_ep, set_urb}
use fuzzusb.Endpoint.Enable.{is_ep0}

-- `is_active`
abbrev pub port_active : Hcd → Bool
port_active h =
    h.port_status Port.connection && h.port_status Port.enable && not (h.port_status Port.suspend)

-- `ep->desc && ep->desc->bEndpointAddress == address`
abbrev pub answers_to : ℕ → Option Descriptor → Bool
answers_to address none = false
answers_to address (some desc) = desc.endpoint_address == address

-- The loop of `find_endpoint`: `n` endpoints are left, from `i` on
unfoldable pub find_from : Dummy → ℕ → ℕ → ℕ → Option ℕ
find_from d address zero i = none
find_from d address (suc n) i =
    let rest = find_from d address n (i + 1) in
    if answers_to address (d.ep i).desc then some i else rest

-- `find_endpoint`, for a byte
unfoldable pub find_endpoint : Dummy → ℕ → Option ℕ
find_endpoint d address =
    if not (port_active (hcd d (gadget_hcd d)))
    then none
    else if not d.ints_enabled
    then none
    else if address == 0 || address == 128
    then some 0
    else find_from d address (dummy_endpoints - 1) 1

-- The `bRequestType`s: standard type (0), recipient device (0), interface (1) or endpoint (2), and
-- `USB_DIR_IN` (128)
abbrev pub dev_request : ℕ
dev_request = 0

abbrev pub ep_request : ℕ
ep_request = 2

abbrev pub dev_in_request : ℕ
dev_in_request = 128

abbrev pub intf_in_request : ℕ
intf_in_request = 129

abbrev pub ep_in_request : ℕ
ep_in_request = 130

-- What `handle_control_request` returns and leaves: the return value, `*status` if it was set, and
-- the state. 1 asks for the gadget driver.
abbrev pub Handled : Type 0
Handled = Ret × Option Ret × Dummy

abbrev pub not_handled : Dummy → Handled
not_handled d = (ret 1, none, d)

abbrev pub refused : Dummy → Handled
refused d = (err eopnotsupp, none, d)

abbrev pub handled : Dummy → Handled
handled d = (ret 0, some (ret 0), d)

-- Which status bit a device feature stands for on this bus, and what `SET_FEATURE` does to the
-- gadget besides. `none` is -EOPNOTSUPP.
abbrev pub on_usb3 : Bool → ℕ → Option ℕ
on_usb3 true bit = some bit
on_usb3 false bit = none

unfoldable pub set_feature_stat : Bool → ℕ → Option ℕ
set_feature_stat usb3 value =
    if value == Device.remote_wakeup
      || value == Device.b_hnp_enable
      || value == Device.a_hnp_support
      || value == Device.a_alt_hnp_support
    then some value
    else if value == Device.u1_enable
    then on_usb3 usb3 Device.stat_u1_enabled
    else if value == Device.u2_enable
    then on_usb3 usb3 Device.stat_u2_enabled
    else if value == Device.ltm_enable
    then on_usb3 usb3 Device.stat_ltm_enabled
    else none

abbrev pub mark_hnp : ℕ → Dummy → Dummy
mark_hnp value d = record d {
  b_hnp_enable = value == Device.b_hnp_enable || d.b_hnp_enable;
  a_hnp_support = value == Device.a_hnp_support || d.a_hnp_support;
  a_alt_hnp_support = value == Device.a_alt_hnp_support || d.a_alt_hnp_support;
}

unfoldable pub clear_feature_stat : Bool → ℕ → Option ℕ
clear_feature_stat usb3 value =
    if value == Device.remote_wakeup
    then some value
    else if value == Device.u1_enable
    then on_usb3 usb3 Device.stat_u1_enabled
    else if value == Device.u2_enable
    then on_usb3 usb3 Device.stat_u2_enabled
    else if value == Device.ltm_enable
    then on_usb3 usb3 Device.stat_ltm_enabled
    else none

-- `case USB_REQ_SET_FEATURE`; `w_index` becomes the byte that `find_endpoint` takes.
unfoldable pub set_feature : Side → Setup → Dummy → Handled
unfolding set_feature_stat find_endpoint
set_feature s setup d =
    if setup.request_type == dev_request
    then elim (set_feature_stat (is_usb3 (hcd d s).speed) setup.value) [
      | none ↦ refused d
      | some bit ↦
          handled (mark_hnp setup.value (record d { devstatus = raise (bit ∷ []) d.devstatus }))
    ]
    else if setup.request_type == ep_request
    then elim (find_endpoint d (setup.index % 256)) [
      | none ↦ refused d
      | some i ↦
          if is_ep0 (d.ep i)
          then refused d
          else handled (set_ep i (record (d.ep i) { halted = true }) d)
    ]
    else not_handled d

-- `case USB_REQ_CLEAR_FEATURE`
unfoldable pub clear_feature : Side → Setup → Dummy → Handled
unfolding clear_feature_stat find_endpoint
clear_feature s setup d =
    if setup.request_type == dev_request
    then elim (clear_feature_stat (is_usb3 (hcd d s).speed) setup.value) [
      | none ↦ refused d
      | some bit ↦ handled (record d { devstatus = clear (bit ∷ []) d.devstatus })
    ]
    else if setup.request_type == ep_request
    then elim (find_endpoint d (setup.index % 256)) [
      | none ↦ refused d
      | some i ↦
          handled (if (d.ep i).wedged then d else set_ep i (record (d.ep i) { halted = false }) d)
    ]
    else not_handled d

-- `(u8)dum->devstatus`
abbrev bit_value : Flags → ℕ → ℕ → ℕ
bit_value w i v = if w i then v else 0

abbrev pub low_byte : Flags → ℕ
low_byte w =
    bit_value w 0 1
    + bit_value w 1 2
    + bit_value w 2 4
    + bit_value w 3 8
    + bit_value w 4 16
    + bit_value w 5 32
    + bit_value w 6 64
    + bit_value w 7 128

-- The first byte of the answer to `GET_STATUS`, written if the buffer has room; `none` is a missing
-- endpoint.
unfoldable pub status_byte : Setup → Dummy → Option ℕ
unfolding find_endpoint
status_byte setup d =
    if setup.request_type == ep_in_request
    then elim (find_endpoint d (setup.index % 256)) [
      | none ↦ none
      | some i ↦ some (if (d.ep i).halted then 1 else 0)
    ]
    else if setup.request_type == dev_in_request
    then some (low_byte d.devstatus)
    else some 0

-- The answer in the buffer: `buf[0]`, and 0 in `buf[1]`
abbrev pub put_status : ℕ → Urb → Urb
put_status byte u = record u {
  transfer_buffer =
      take (min 2 u.transfer_buffer_length) (byte ∷ 0 ∷ [])
      ++ drop (min 2 u.transfer_buffer_length) u.transfer_buffer;
  actual_length = min 2 u.transfer_buffer_length;
}

-- `case USB_REQ_GET_STATUS`
unfoldable pub get_status : ℕ → Setup → Dummy → Handled
unfolding status_byte
get_status urb setup d =
    let u = d.urbs urb in
    if setup.request_type == dev_in_request
      || setup.request_type == intf_in_request
      || setup.request_type == ep_in_request
    then (if u.transfer_buffer_length == 0
        then handled (set_urb urb (put_status 0 u) d)
        else elim (status_byte setup d) [
          | none ↦ refused d
          | some byte ↦ handled (set_urb urb (put_status byte u) d)
        ])
    else not_handled d

-- The `bRequest`s GET_STATUS 0, CLEAR_FEATURE 1, SET_FEATURE 3 and SET_ADDRESS 5
unfoldable pub handle_control_request : Side → ℕ → Setup → Dummy → Handled
unfolding set_feature clear_feature get_status
handle_control_request s urb setup d =
    if setup.request == 5
    then (if setup.request_type == dev_request
        then handled (record d { address = setup.value })
        else not_handled d)
    else if setup.request == 3
    then set_feature s setup d
    else if setup.request == 1
    then clear_feature s setup d
    else if setup.request == 0
    then get_status urb setup d
    else not_handled d
