-- ===== src/Usb/Feature.antt =====
-- `USB_PORT_FEAT_...`, the `wValue` of the port requests
use fuzzusb.Base.{ℕ}

abbrev pub suspend : ℕ
suspend = 2

abbrev pub reset : ℕ
reset = 4

abbrev pub link_state : ℕ
link_state = 5

abbrev pub power : ℕ
power = 8

abbrev pub u1_timeout : ℕ
u1_timeout = 23

abbrev pub u2_timeout : ℕ
u2_timeout = 24

abbrev pub bh_port_reset : ℕ
bh_port_reset = 28
