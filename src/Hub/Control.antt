-- ===== src/Hub/Control.antt =====
-- `dummy_hub_control`, `dummy_hub_status` and the suspend and resume of the bus and of the platform
-- device, in patch/kernel/dummy_hcd.c.
use fuzzusb.Base.{
  ℕ, ◌+◌, true, false, not, ◌&&◌, ◌||◌, Option, none, some, if◌then◌else◌, ltb, ◌==◌, List, [], ◌∷◌,
  Flags, any_of, ◌/◌,
}
use fuzzusb.Usb.{Ret, ret, err, epipe, etimedout, eshutdown, ebusy}
use fuzzusb.Usb.Port
use fuzzusb.Dummy.{Dummy, Hcd, Side, Env, Event, running, suspended, hc_running, hc_suspended}
use fuzzusb.Dummy.Access.{hcd, set_hcd, is_usb3, is_running, is_suspended, is_empty, log}
use fuzzusb.Hub.Port as HubPort
use fuzzusb.Hub.Port.{relink, set_status, end_resume, timed_out}

-- The `typeReq` of the `switch`; `unnamed` is any other.
pub data Request : Type 0 where
  clear_hub_feature clear_port_feature get_hub_descriptor get_device_descriptor : Request
  get_hub_status get_port_status set_hub_feature set_port_feature get_port_error_count : Request
  set_hub_depth unnamed : Request

-- `struct usb_hub_descriptor`, cleared by `memset` but for the first fields and the union's
pub record HubDescriptor : Type 0 where
  pub desc_length : ℕ
  pub descriptor_type : ℕ
  pub nbr_ports : ℕ
  pub characteristics : ℕ
  pub hub_hdr_dec_lat : ℕ
  pub device_removable : List ℕ

-- What is written to `buf`
pub data Answer : Type 0 where
  untouched : Answer
  hub_desc : HubDescriptor → Answer
  bos : Answer
  words : Flags → Answer
  zero_word : Answer

-- `ss_hub_descriptor` (`USB_DT_SS_HUB` is 0x2a)
unfoldable pub ss_hub_descriptor : HubDescriptor
ss_hub_descriptor = record {
  desc_length = 12;
  descriptor_type = 0x2a;
  nbr_ports = 1;
  characteristics = 1;
  hub_hdr_dec_lat = 4;
  device_removable = 0 ∷ [];
}

-- `hub_descriptor` (`USB_DT_HUB` is 0x29)
unfoldable pub hub_descriptor : HubDescriptor
hub_descriptor = record {
  desc_length = 9;
  descriptor_type = 0x29;
  nbr_ports = 1;
  characteristics = 1;
  hub_hdr_dec_lat = 0;
  device_removable = 0 ∷ 0xff ∷ [];
}

-- `sizeof(usb3_bos_desc)`: `USB_DT_BOS_SIZE + USB_DT_USB_SS_CAP_SIZE`
abbrev pub bos_size : ℕ
bos_size = 5 + 10

abbrev pub Outcome : Type 0
Outcome = Option (Ret × Answer × Dummy)

-- An answer of its own to a request that a USB 2.0 root hub refuses
abbrev only_usb3 : Side → Answer → Dummy → Outcome
only_usb3 s answer d =
    some (if is_usb3 (hcd d s).speed then (ret 0, answer, d) else (err epipe, untouched, d))

-- A port request writes nothing to the buffer.
abbrev no_answer : Option (Ret × Dummy) → Outcome
no_answer none = none
no_answer (some (r, d)) = some (r, untouched, d)

-- `switch (typeReq)`
unfoldable pub hub_request : Env → Side → Request → ℕ → ℕ → ℕ → Dummy → Outcome
hub_request env s clear_hub_feature value index length d = some (ret 0, untouched, d)
hub_request env s clear_port_feature value index length d =
    no_answer (HubPort.clear_port_feature env s value d)
hub_request env s get_hub_descriptor value index length d = some (
    if is_usb3 (hcd d s).speed && (ltb length 12 || not (value == 0x2a00))
    then (err epipe, untouched, d)
    else if is_usb3 (hcd d s).speed
    then (ret 0, hub_desc ss_hub_descriptor, d)
    else (ret 0, hub_desc hub_descriptor, d))
hub_request env s get_device_descriptor value index length d = some (
    if not (is_usb3 (hcd d s).speed)
    then (err epipe, untouched, d)
    else if not (value / 256 == 0x0f)
    then (err epipe, untouched, d)
    else (ret bos_size, bos, d))
hub_request env s get_hub_status value index length d = some (ret 0, zero_word, d)
hub_request env s get_port_status value index length d =
    let d' = HubPort.get_port_status env s d in
    some ((if index == 1 then ret 0 else err epipe), words (hcd d' s).port_status, d')
hub_request env s set_hub_feature value index length d = some (err epipe, untouched, d)
hub_request env s set_port_feature value index length d =
    no_answer (HubPort.set_port_feature env s value d)
hub_request env s get_port_error_count value index length d = only_usb3 s zero_word d
hub_request env s set_hub_depth value index length d = only_usb3 s untouched d
hub_request env s unnamed value index length d = some (err epipe, untouched, d)

-- `PORT_C_MASK`
abbrev pub port_c_mask : List ℕ
port_c_mask =
    Port.c_connection ∷ Port.c_enable ∷ Port.c_suspend ∷ Port.c_overcurrent ∷ Port.c_reset ∷ []

-- `usb_hcd_poll_rh_status`, once the lock is dropped, if there are changes to report
abbrev pub poll_changes : Side → Dummy → Dummy
poll_changes s d = if any_of port_c_mask (hcd d s).port_status then log (Event.polled s) d else d

unfoldable pub hub_control : Env → Side → Request → ℕ → ℕ → ℕ → Dummy → Outcome
unfolding hub_request
hub_control env s req value index length d =
    if not (hcd d s).hw_accessible
    then some (err etimedout, untouched, d)
    else elim (hub_request env s req value index length d) [
      | none ↦ none
      | some (r, answer, d') ↦ some (r, answer, poll_changes s d')
    ]

-- Resume signalling that `dummy_hub_status` ends
unfoldable pub finish_resume : Env → Side → Dummy → Dummy
unfolding end_resume
finish_resume env s d =
    let h = hcd d s in if h.resuming && timed_out d h then relink env s (end_resume d h) d else d

-- The value 1 goes with the byte `1 << 1` in the buffer.
unfoldable pub report_changes : Side → Dummy → Ret × Dummy
report_changes s d =
    if any_of port_c_mask (hcd d s).port_status
    then (ret 1, if is_suspended (hcd d s).rh_state then log (Event.resumed_root_hub s) d else d)
    else (ret 0, d)

-- `dummy_hub_status`
unfoldable pub hub_status : Env → Side → Dummy → Ret × Dummy
hub_status env s d =
    if not (hcd d s).hw_accessible then (ret 0, d) else report_changes s (finish_resume env s d)

unfoldable pub bus_suspend : Env → Side → Dummy → Ret × Dummy
bus_suspend env s d =
    let d' = relink env s (record (hcd d s) { rh_state = suspended }) d in
    (ret 0, set_hcd s (record (hcd d' s) { state = hc_suspended }) d')

-- `if (!list_empty(&dum_hcd->urbp_list)) mod_timer(&dum_hcd->timer, jiffies)`
abbrev pub kick_timer : Dummy → Hcd → Hcd
kick_timer d h = if is_empty h.urbp_list then h else record h { timer = some d.jiffies }

unfoldable pub bus_resume : Env → Side → Dummy → Ret × Dummy
bus_resume env s d =
    if not (hcd d s).hw_accessible
    then (err eshutdown, d)
    else (let d' = relink env s (record (hcd d s) { rh_state = running }) d in
        (ret 0, set_hcd s (record (kick_timer d' (hcd d' s)) { state = hc_running }) d'))

-- `dummy_hcd_suspend`
unfoldable pub hcd_suspend : Side → Dummy → Ret × Dummy
hcd_suspend s d =
    if is_running (hcd d s).rh_state
    then (err ebusy, d)
    else (ret 0, set_hcd s (record (hcd d s) { hw_accessible = false }) d)

-- `dummy_hcd_resume`
unfoldable pub hcd_resume : Side → Dummy → Ret × Dummy
hcd_resume s d =
    (ret 0, log (Event.polled s) (set_hcd s (record (hcd d s) { hw_accessible = true }) d))
