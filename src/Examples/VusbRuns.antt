-- ===== src/Examples/VusbRuns.antt =====
-- A device with one interface and two endpoints, from its descriptors to its endpoints.
use fuzzusb.Base.{
  ℕ, zero, suc, ◌+◌, ◌-◌, ◌==◌, if◌then◌else◌, ◌≡◌, refl, arith, none, some, List, [], ◌∷◌, length,
  map,
}
use fuzzusb.Dummy.{Setup}
use fuzzusb.Vusb.{
  Memory, Parsed, DeviceIndex, IfaceIndex, parse_usb_descriptor, parsed, walk, add_ep,
}
use fuzzusb.Vusb.Parse.{Sound, parse-Sound}
use fuzzusb.Vusb.Config.{Endpoint, Interface, Config, encode, IsConfig, Holds}
use fuzzusb.Vusb.RoundTrip.{indexed, described, parse-encode}
use fuzzusb.Vusb.Devices.{
  ep0_write, address, null, success, Raw, Devices, add_usb_index, configure_device, set_interface,
  lookup_usb_index,
}
use fuzzusb.Vusb.Connected.{Brings, configure_device-add, switched, set_interface_lem}
use fuzzusb.Vusb.Reply.{
  Entries, lookup_control_response, lookup_connect_response, ConnectDescs, wild,
}
use fuzzusb.Vusb.Respond.{control, usb_control_io}
use fuzzusb.Vusb.Respond.Within.{AllWithin, calls_of, usb_control_io-Within}

abbrev source_ep : Endpoint
source_ep = record { address = 129; attributes = 3; max_packet = 520; interval = 4 }

abbrev sink_ep : Endpoint
sink_ep = record { address = 2; attributes = 2; max_packet = 64; interval = 0 }

abbrev human : Interface
human = record {
  number = 0;
  alternate = 1;
  class = 2 ∷ 3 ∷ 0 ∷ 1 ∷ 0 ∷ [];
  others = record { descriptor_type = 33; body = 17 ∷ 1 ∷ [] } ∷ [];
  eps = source_ep ∷ sink_ep ∷ [];
}

abbrev gadget : Config
gadget = record {
  device = 0 ∷ 2 ∷ 0 ∷ 0 ∷ 0 ∷ 64 ∷ 109 ∷ 4 ∷ 28 ∷ 198 ∷ 0 ∷ 1 ∷ 1 ∷ 2 ∷ 0 ∷ 1 ∷ [];
  total_length = 36;
  num_interfaces = 1;
  value = 1;
  string = 0;
  attributes = 128;
  max_power = 50;
  interfaces = human ∷ [];
}

abbrev byte_at : List ℕ → ℕ → ℕ
byte_at [] n = 0
byte_at (x ∷ xs) zero = x
byte_at (x ∷ xs) (suc n) = byte_at xs n

-- The descriptors stand at address 100.
abbrev memory : Memory
memory a = byte_at (encode gadget) (a - 100)

gadget-IsConfig : IsConfig gadget
gadget-IsConfig = omega arith

memory-Holds : Holds memory 100 (encode gadget)
memory-Holds = omega arith

parse-encode_example :
    (x : DeviceIndex) × (parse_usb_descriptor memory 100 (length (encode gadget)) ≡ parsed x)
    × (map indexed x.ifaces ≡ map described gadget.interfaces)
    × (x.max_power ≡ 50)
parse-encode_example = parse-encode gadget memory 100 gadget-IsConfig memory-Holds

-- A descriptor that claims more bytes than there are ends the parse.
parse-Sound_example : Sound 60 (parse_usb_descriptor memory 100 60)
parse-Sound_example = parse-Sound memory 100 60

-- The bytes of the descriptors, and another byte behind them
abbrev other_memory : Memory
other_memory a = if a == 154 then 9 else memory a

abbrev refreshes : List IfaceIndex → List (List ℕ)
refreshes [] = []
refreshes (f ∷ fs) = map (λ e. e.refresh) f.eps ∷ refreshes fs

abbrev refreshes_of : Parsed → List (List ℕ)
refreshes_of (parsed x) = refreshes x.ifaces
refreshes_of _ = []

-- The copy of an endpoint descriptor at the end of the buffer takes a byte from behind the buffer.
overread :
    (length (encode gadget) ≡ 54)
    × (refreshes_of (parse_usb_descriptor other_memory 100 54) ≡ (7 ∷ 9 ∷ []) ∷ [])
unfolding parse_usb_descriptor walk add_ep
overread = (refl, refl)

abbrev no_index : DeviceIndex
no_index = record {
  dev = 0;
  config = 0;
  max_power = 0;
  config_length = 0;
  ifaces = [];
  iface_cur = none;
}

abbrev no_devices : Devices
no_devices = record { num = 0; fds = λ i. 0; index = λ i. no_index; calls = [] }

abbrev agrees : Raw
agrees c = success

configure_device-add_example :
    ((add_usb_index memory 5 100 (length (encode gadget)) no_devices).0 ≡ some 0)
    × Brings 5 gadget human no_devices (
        configure_device agrees 5
          (add_usb_index memory 5 100 (length (encode gadget)) no_devices).1)
configure_device-add_example =
    configure_device-add agrees memory 5 100 gadget human [] no_devices gadget-IsConfig memory-Holds
      refl (omega arith) (λ j l e. absurd (omega arith)) refl refl

abbrev plain : ℕ → IfaceIndex
plain n = record { iface = n; interface_number = n; alternate_setting = 0; eps = [] }

-- Device 3 in slot 1 is at its first interface.
abbrev second : Devices
second = record no_devices {
  num = 2;
  fds = λ i. i + 2;
  index = λ i. record no_index { ifaces = plain 0 ∷ plain 1 ∷ []; iface_cur = some 0 };
}

second-lookup : lookup_usb_index 3 second ≡ some 1
unfolding lookup_usb_index
second-lookup = refl

set_interface_lem_example : set_interface 3 1 second ≡ switched 3 1 1 (plain 1) second
set_interface_lem_example = set_interface_lem 3 1 1 (plain 1) second second-lookup refl

-- A request for a report descriptor of 63 bytes
abbrev get_report : Setup
get_report = record { request_type = 129; request = 6; value = 8704; index = 0; length = 63 }

abbrev reports : Entries
reports = record {
  len = 20;
  generic = none;
  entry = λ i. some (record { key = 0; key' = 34; len = 40; content = 500 });
}

usb_control_io-Within_example :
    AllWithin get_report
      (lookup_control_response (some reports) none get_report)
      (calls_of (usb_control_io agrees 5 (some reports) none (control get_report) no_devices))
usb_control_io-Within_example =
    usb_control_io-Within agrees 5 (some reports) none get_report no_devices tt

report_run :
    calls_of (usb_control_io agrees 5 (some reports) none (control get_report) no_devices)
    ≡ ep0_write 5 (address 500) 40 ∷ []
unfolding usb_control_io lookup_control_response
report_run = refl

-- A request for a device qualifier that the description of the device does not have
abbrev get_qualifier : Setup
get_qualifier = record { request_type = 128; request = 6; value = 1536; index = 0; length = 10 }

abbrev no_qualifier : ConnectDescs
no_qualifier = record { qual_len = 0; qual = null; bos_len = 0; bos = null; strs = [] }

qualifier_run : lookup_connect_response 3 (some no_qualifier) get_qualifier second ≡ wild
unfolding lookup_connect_response
qualifier_run = refl
