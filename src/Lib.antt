-- ===== src/Lib.antt =====
-- The dummy USB host and device controller of patch/kernel/dummy_hcd.c: a gadget driver and a host
-- driver on one machine talk to each other through an emulated root hub with one port.
--
-- The state is the record `Dummy` (Dummy.antt) for `struct dummy`, with its endpoints (`Ep`), its two
-- halves on the host's side (`Hcd`, for `struct dummy_hcd` with the fields of `struct usb_hcd`), and
-- stores for requests and URBs, which the C code reaches by pointers: a pointer is a number. A flag
-- word is a function from bit number to bit (Base/Words.antt), since the driver only combines such
-- words with constant masks. Spin locks are left out: the operations are the critical sections. Where
-- the driver drops its lock to call out, the callee is a function of the parameter `Env`, from state
-- to state, so it may do anything, and a theorem that needs a rule for callbacks has it as a
-- hypothesis.
--
-- Usb.antt and Usb/: speeds, error numbers and constants of the kernel's USB headers.
-- Dummy/Table.antt: `ep_info`; Dummy/Access.antt: access to the state, givebacks.
-- Nuke.antt: `nuke`, `stop_activity`; Nuke/: what they leave and keep.
-- Link.antt: `set_link_state`, which ties the port to the gadget; Link/: its rules.
-- Endpoint/Enable, Queue, Halt: `dummy_ep_ops`; the other files of Endpoint/ prove their laws.
-- Stream.antt: bulk streams; Stream/: their allocation, and the nibble that all endpoints share.
-- Hub/Port, Hub/Control: the root hub's requests; Hub/Defined, Hub/Reset: their laws.
-- Control.antt: `find_endpoint` and `handle_control_request`; Control/: their laws.
-- Udc.antt: the gadget operations, start and stop; Udc/: attach, stop, wakeup.
-- Perform.antt: `dummy_perform_transfer`; Perform/: scatter lists against one buffer.
-- Transfer.antt: `transfer` and `periodic_bytes`; Transfer/Cut and Bounds: packets and bounds; Pending,
--   Send, Finish, Served, Outcome and Flow: the bytes to the host in order.
-- Urbs.antt: `dummy_urb_enqueue` and `dummy_urb_dequeue`.
-- Timer.antt: `dummy_timer`, which calls `transfer`, `find_endpoint` and `handle_control_request`;
--   Timer/Cancel: what it gives back on a suspended bus.
-- Load.antt: `init` and `cleanup`, which load and unload the module; Load/: the loops, error labels
--   and outcome.
-- Probe.antt: `dummy_setup`, `dummy_hcd_probe` and `dummy_hcd_remove`; Probe/Outcome: how they end.
-- Usbtest.antt: the buffer patterns of the host-side test driver, patch/kernel/usbtest.c;
--   Usbtest/Pattern: what its check accepts. Usbtest/Select: `get_endpoints`, `fz_get_endpoints`; Io:
--   `simple_io`; Halt: `test_halt`, `test_toggle_sync`; Ctrl: `test_ctrl_queue` and `ctrl_complete`,
--   whose runs are lists of events, and which can stop where the callback drops its lock to unlink the
--   other URBs; Descs and Ch9: `ch9_postconfig` and its checks of descriptors; Queue: `test_queue`,
--   `iso_alloc_urb`, `complicated_callback`; Run: `usbtest_do_ioctl`, with the tests it calls as the
--   record `Actions`, of which nothing is assumed, Run/Switch its cases, Run/Fuzz the requests of the
--   fuzzer, Run/Ioctl `usbtest_ioctl`, Run/Ledger what the dispatch allocates and frees; CtrlOut:
--   `ctrl_out`; Bind: `usbtest_probe`, `usbtest_disconnect`. The files below these prove their laws.
-- Vusb.antt: the parse of USB descriptors in patch/syzkaller/common_usb.h, over a memory; Vusb/Devices:
--   the table of emulated devices; Vusb/Reply and Respond: answers to control requests. Vusb/Parse:
--   bounds of the parse; Config, Walk and RoundTrip: what it reads back; Connected: from descriptors
--   to enabled endpoints; Respond/Within: the sizes of the answers.
-- Examples/: the theorems at concrete controllers and buffers.
--
-- Fuel: the loop of `nuke` takes the length of the queue, since a round takes one request off, and the
-- parameter `nuke_rounds` more, for callbacks that queue requests; where it goes on even so, the trace
-- says so (`nuke_cut`), and with callbacks that queue none again it ends by its own test. The wait of `dummy_udc_stop` takes the list of what happens during its sleeps. `transfer` takes one
-- round more than the URB has bytes left, since a byte passes before each `goto top`. `dummy_timer`
-- takes one round more than there are URBs in the list and requests on `ep0`, since a restart takes
-- one of these off.
-- The parse of descriptors takes one round more than the buffer has bytes, since each round passes at
-- least three.
-- `none` stands for undefined behaviour in Hub/ and Usbtest/, and for `BUG()` in Stream.antt. The
-- lengths and steps that Usbtest/Io is given are below 2 ^ 31; their sum wraps around as an `int` does.
--
-- Not modelled: the start and stop of the host controller, the probe and remove functions of the
-- device side, printing to sysfs and the log; of usbtest.c the scatter lists and the tests of unlinking;
-- and under patch/syzkaller the state transitions and configfs helpers of common_usb.h and the patched
-- files of that project.
pub mod Base
pub mod Usb
pub mod Dummy
pub mod Nuke
pub mod Link
pub mod Endpoint
pub mod Stream
pub mod Hub
pub mod Control
pub mod Udc
pub mod Perform
pub mod Transfer
pub mod Urbs
pub mod Timer
pub mod Load
pub mod Probe
pub mod Usbtest
pub mod Vusb
mod Examples
