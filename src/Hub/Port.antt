-- ===== src/Hub/Port.antt =====
-- The port requests of `dummy_hub_control`. `none` is undefined behaviour: a shift by 32 or more.
use fuzzusb.Base.{
  ℕ, ◌+◌, Bool, true, false, not, ◌&&◌, ◌||◌, Option, none, some, if◌then◌else◌, ltb, leb, ◌==◌,
  List, [], ◌∷◌, Flags, raise, clear, keep, no_flags,
}
use fuzzusb.Usb.{Speed, low, high, Ret, ret, err, epipe}
use fuzzusb.Usb.Port
use fuzzusb.Usb.Feature
use fuzzusb.Usb.Device
use fuzzusb.Dummy.{Dummy, Hcd, Side, Env}
use fuzzusb.Dummy.Access.{hcd, set_hcd, set_ep, is_usb3}
use fuzzusb.Link.{set_link_state, power_bit}

abbrev pub set_status : Flags → Hcd → Hcd
set_status w h = record h { port_status = w }

-- `dum_hcd->re_timeout = jiffies + msecs_to_jiffies(ms)`
abbrev pub start_timeout : Env → ℕ → Dummy → Hcd → Hcd
start_timeout env ms d h = record h { re_timeout = d.jiffies + env.msecs_to_jiffies ms }

-- Write the port and let the link follow.
abbrev pub relink : Env → Side → Hcd → Dummy → Dummy
relink env s h d = set_link_state env s (set_hcd s h d)

-- `case ClearPortFeature`
unfoldable pub clear_port_feature : Env → Side → ℕ → Dummy → Option (Ret × Dummy)
clear_port_feature env s value d =
    let h = hcd d s in
    if value == Feature.suspend
    then some (
        if is_usb3 h.speed
        then (err epipe, d)
        else if h.port_status Port.suspend
        then (ret 0, set_hcd s (start_timeout env 20 d (record h { resuming = true })) d)
        else (ret 0, d))
    else if value == Feature.power
    then some (ret 0, relink env s (set_status (clear (power_bit h ∷ []) h.port_status) h) d)
    else if ltb value 32
    then some (ret 0, relink env s (set_status (clear (value ∷ []) h.port_status) h) d)
    else none

-- `time_after_eq(jiffies, dum_hcd->re_timeout)`
abbrev pub timed_out : Dummy → Hcd → Bool
timed_out d h = leb h.re_timeout d.jiffies

-- The end of resume signalling
unfoldable pub end_resume : Dummy → Hcd → Hcd
end_resume d h =
    if h.resuming && timed_out d h
    then set_status (clear (Port.suspend ∷ []) (raise (Port.c_suspend ∷ []) h.port_status)) h
    else h

-- The speed bits that a USB 2.0 port shows after a reset
abbrev pub speed_bits : Speed → List ℕ
speed_bits high = Port.high_speed ∷ []
speed_bits low = Port.low_speed ∷ []
speed_bits _ = []

-- Is the reset over?
abbrev pub reset_over : Dummy → Hcd → Bool
reset_over d h = h.port_status Port.reset && timed_out d h

-- The end of a reset, at the port
unfoldable pub end_reset : Dummy → Hcd → Hcd
end_reset d h =
    if reset_over d h
    then (let w = clear (Port.reset ∷ []) (raise (Port.c_reset ∷ []) h.port_status) in
        set_status
          (if d.pullup
            then (if is_usb3 h.speed
                then raise (Port.enable ∷ []) w
                else raise (Port.enable ∷ speed_bits d.speed) w)
            else w)
          h)
    else h

-- The end of a reset, at the gadget: a low-speed gadget's `ep0` takes 8 bytes.
abbrev is_low : Speed → Bool
is_low low = true
is_low _ = false

unfoldable pub shrink_ep0 : Hcd → Dummy → Dummy
shrink_ep0 h d =
    if reset_over d h && d.pullup && not (is_usb3 h.speed) && is_low d.speed
    then set_ep 0 (record (d.ep 0) { maxpacket = 8 }) d
    else d

-- `case GetPortStatus`, up to the two words that are written to the buffer
unfoldable pub get_port_status : Env → Side → Dummy → Dummy
unfolding end_resume end_reset shrink_ep0
get_port_status env s d =
    let h = end_resume d (hcd d s) in relink env s (end_reset d h) (shrink_ep0 h d)

-- `case USB_PORT_FEAT_RESET`, up to its fall through
unfoldable pub start_reset : Env → Side → Dummy → Dummy
start_reset env s d =
    let h = hcd d s in
    let w =
      if is_usb3 h.speed
      then raise (Port.ss_power ∷ Port.connection ∷ Port.reset ∷ []) no_flags
      else clear (Port.enable ∷ Port.low_speed ∷ Port.high_speed ∷ []) h.port_status in
    set_hcd s (start_timeout env 50 d (set_status w h))
      (record d { devstatus = keep (Device.self_powered ∷ []) d.devstatus })

-- The `default` case of `SetPortFeature`
unfoldable pub set_feature_bit : Env → Side → ℕ → Dummy → Option (Ret × Dummy)
set_feature_bit env s value d =
    let h = hcd d s in
    if h.port_status (power_bit h)
    then (if ltb value 32
        then some (ret 0, relink env s (set_status (raise (value ∷ []) h.port_status) h) d)
        else none)
    else some (ret 0, relink env s h d)

-- `case SetPortFeature`
unfoldable pub set_port_feature : Env → Side → ℕ → Dummy → Option (Ret × Dummy)
unfolding start_reset set_feature_bit
set_port_feature env s value d =
    let h = hcd d s in
    if value == Feature.link_state || value == Feature.u1_timeout || value == Feature.u2_timeout
    then some ((if is_usb3 h.speed then ret 0 else err epipe), d)
    else if value == Feature.suspend
    then some (
        if is_usb3 h.speed
        then (err epipe, d)
        else if h.active
        then (ret 0, relink env s (set_status (raise (Port.suspend ∷ []) h.port_status) h) d)
        else (ret 0, d))
    else if value == Feature.power
    then some (ret 0, relink env s (set_status (raise (power_bit h ∷ []) h.port_status) h) d)
    else if value == Feature.bh_port_reset
    then (if is_usb3 h.speed
        then set_feature_bit env s value (start_reset env s d)
        else some (err epipe, d))
    else if value == Feature.reset
    then set_feature_bit env s value (start_reset env s d)
    else set_feature_bit env s value d
