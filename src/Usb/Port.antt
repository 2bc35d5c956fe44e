-- ===== src/Usb/Port.antt =====
-- The bits of a port status: the low half is `wPortStatus`, the high half `wPortChange`.
use fuzzusb.Base.{ℕ, List, [], ◌∷◌}

abbrev pub connection : ℕ
connection = 0

abbrev pub enable : ℕ
enable = 1

abbrev pub suspend : ℕ
suspend = 2

abbrev pub reset : ℕ
reset = 4

abbrev pub power : ℕ
power = 8

abbrev pub ss_power : ℕ
ss_power = 9

abbrev pub low_speed : ℕ
low_speed = 9

abbrev pub high_speed : ℕ
high_speed = 10

-- `USB_PORT_STAT_LINK_STATE`; U0 is the state in which all four are clear

abbrev pub link_state : List ℕ
link_state = 5 ∷ 6 ∷ 7 ∷ 8 ∷ []

-- `USB_PORT_STAT_SPEED_5GBPS` is 0

abbrev pub speed_5gbps : List ℕ
speed_5gbps = []

abbrev pub c_connection : ℕ
c_connection = 16

abbrev pub c_enable : ℕ
c_enable = 17

abbrev pub c_suspend : ℕ
c_suspend = 18

abbrev pub c_overcurrent : ℕ
c_overcurrent = 19

abbrev pub c_reset : ℕ
c_reset = 20
