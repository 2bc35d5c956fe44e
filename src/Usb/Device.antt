-- ===== src/Usb/Device.antt =====
-- `USB_DEVICE_...` feature selectors and the `USB_DEV_STAT_...` bits of the device status
use fuzzusb.Base.{ℕ}

abbrev pub self_powered : ℕ
self_powered = 0

abbrev pub remote_wakeup : ℕ
remote_wakeup = 1

abbrev pub b_hnp_enable : ℕ
b_hnp_enable = 3

abbrev pub a_hnp_support : ℕ
a_hnp_support = 4

abbrev pub a_alt_hnp_support : ℕ
a_alt_hnp_support = 5

abbrev pub u1_enable : ℕ
u1_enable = 48

abbrev pub u2_enable : ℕ
u2_enable = 49

abbrev pub ltm_enable : ℕ
ltm_enable = 50

abbrev pub stat_u1_enabled : ℕ
stat_u1_enabled = 2

abbrev pub stat_u2_enabled : ℕ
stat_u2_enabled = 3

abbrev pub stat_ltm_enabled : ℕ
stat_ltm_enabled = 4
