-- ===== src/Vusb/Respond.antt =====
-- `syz_usb_connect` and `syz_usb_control_io` of patch/syzkaller/common_usb.h: the events of a device and
-- the transfers on its endpoint 0.
pub mod Within
use fuzzusb.Base.{
  ℕ, ◌+◌, ◌%◌, Bool, true, false, not, ◌&&◌, ◌||◌, Option, none, some, List, [], ◌∷◌, if◌then◌else◌,
  ltb, leb, ◌==◌,
}
use fuzzusb.Dummy.{Setup}
use fuzzusb.Vusb.{Memory, DeviceIndex}
use fuzzusb.Vusb.Devices.{
  Source, null, Call, ep0_write, ep0_read, Rv, success, minus, Raw, Devices, call, add_usb_index,
  lookup_interface, set_interface, configure_device,
}
use fuzzusb.Vusb.Reply.{
  dir_in, type_of, ConnectDescs, Reply, absent, fails, wild, reply, lookup_connect_response,
  Entries, lookup_control_response,
}

-- What `usb_raw_event_fetch` gives
pub data Fetched : Type 0 where
  fetch_fails : ℕ → Fetched
  other_event : Fetched
  control : Setup → Fetched

-- How a handler ends: it returns, it exits by `fail`, it copies from a pointer that was overwritten,
-- or it goes on to the next event.
pub data Ended : Type 0 where
  returns : Rv → Devices → Ended
  exits corrupts goes_on : Devices → Ended

abbrev pub usb_max_packet_size : ℕ
usb_max_packet_size = 1024

-- The length of a response for a request of `w_length` bytes
abbrev pub cut_to : ℕ → ℕ → ℕ
cut_to w_length n =
    let m = if ltb usb_max_packet_size n then 0 else n in if ltb w_length m then w_length else m

abbrev pub unless_failed : Rv → Ended → Devices → Ended
unless_failed success next d = next
unless_failed (minus e) next d = returns (minus e) d

-- A transfer on endpoint 0, and what comes after it
abbrev pub transfers : Raw → Call → (Devices → Ended) → Devices → Ended
transfers raw c next d = unless_failed (raw c) (next (call c d)) (call c d)

-- Events of `syz_usb_connect`: an answer is written, and `SET_CONFIGURATION` ends the loop.
abbrev pub connect_reply : Raw → ℕ → Setup → Reply → Devices → Ended
connect_reply raw fd c absent d = returns (minus 1) d
connect_reply raw fd c fails d = exits d
connect_reply raw fd c wild d = corrupts d
connect_reply raw fd c (reply s n) d = transfers raw (ep0_write fd s (cut_to c.length n)) goes_on d

abbrev pub after_configure_device : Raw → ℕ → Setup → Rv × Devices → Ended
after_configure_device raw fd c (minus e, d) = returns (minus e) d
after_configure_device raw fd c (success, d) =
    transfers raw (ep0_read fd (cut_to c.length 0)) (returns success) d

unfoldable pub connect_event : Raw → ℕ → Option ConnectDescs → Fetched → Devices → Ended
connect_event raw fd descs (fetch_fails e) d = returns (minus e) d
connect_event raw fd descs other_event d = goes_on d
connect_event raw fd descs (control c) d =
    if dir_in c
    then connect_reply raw fd c (lookup_connect_response fd descs c d) d
    else if not (type_of c == 0) || not (c.request == 9)
    then exits d
    else after_configure_device raw fd c (configure_device raw fd d)

-- The loop over the events that come; it waits when there are no more.
unfoldable pub connect_loop : Raw → ℕ → Option ConnectDescs → List Fetched → Devices → Ended
unfolding connect_event
connect_loop raw fd descs [] d = goes_on d
connect_loop raw fd descs (x ∷ xs) d = elim (connect_event raw fd descs x d) [
  | goes_on d' ↦ connect_loop raw fd descs xs d'
  | other ↦ other
]

-- The index of the device; the results of `usb_raw_init` and `usb_raw_run`
abbrev pub connect_known :
    Raw → ℕ → Option ConnectDescs → Rv → Rv → List Fetched → Option ℕ × Devices → Ended
connect_known raw fd descs init run xs (none, d) = returns (minus 1) d
connect_known raw fd descs init run xs (some i, d) =
    unless_failed init (unless_failed run (connect_loop raw fd descs xs d) d) d

-- `syz_usb_connect` after `usb_raw_open`, which gave `fd`; `dev` is `none` for NULL. On success it
-- returns `fd`.
unfoldable pub usb_connect :
    Raw
    → Memory
    → ℕ
    → ℕ
    → Option ℕ
    → ℕ
    → Option ConnectDescs
    → Rv
    → Rv
    → List Fetched
    → Devices
    → Ended
unfolding connect_loop add_usb_index
usb_connect raw mem max_fds fd none dev_len descs init run xs d = returns (minus 1) d
usb_connect raw mem max_fds fd (some dev) dev_len descs init run xs d =
    if leb max_fds fd
    then returns (minus 1) d
    else connect_known raw fd descs init run xs (add_usb_index mem fd dev dev_len d)

-- The request of `syz_usb_control_io` that carries data to the host
abbrev pub wants_data : Setup → Bool
wants_data c = dir_in c && not (c.length == 0)

abbrev pub control_reply : Raw → ℕ → Setup → Reply → Devices → Ended
control_reply raw fd c (reply s n) d =
    transfers raw (ep0_write fd s (cut_to c.length n)) (returns success) d
control_reply raw fd c _ d = returns (minus 1) d

abbrev pub go_to : Option ℕ → ℕ → Devices → Devices
go_to none fd d = d
go_to (some n) fd d = set_interface fd n d

abbrev pub control_out : ℕ → Setup → Devices → Devices
control_out fd c d =
    if type_of c == 0 || c.request == 11
    then go_to (lookup_interface fd (c.index % 256) (c.value % 256) d) fd d
    else d

abbrev pub read_length : Setup → ℕ
read_length c = if dir_in c && c.length == 0 then usb_max_packet_size else cut_to c.length c.length

unfoldable pub usb_control_io :
    Raw → ℕ → Option Entries → Option Entries → Fetched → Devices → Ended
usb_control_io raw fd descs resps (fetch_fails e) d = returns (minus e) d
usb_control_io raw fd descs resps other_event d = returns (minus 1) d
usb_control_io raw fd descs resps (control c) d =
    if wants_data c
    then control_reply raw fd c (lookup_control_response descs resps c) d
    else transfers raw (ep0_read fd (read_length c)) (returns success) (control_out fd c d)
