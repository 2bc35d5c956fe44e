-- ===== src/Link.antt =====
-- The state of the link between the root hub's port and the gadget: `set_link_state_by_speed` and
-- `set_link_state` of patch/kernel/dummy_hcd.c.
pub mod Active
pub mod Latch
pub mod Silent
pub mod Passive
pub mod Settled
use fuzzusb.Base.{
  differs, ℕ, Bool, true, false, not, ◌&&◌, ◌||◌, List, [], ◌∷◌, ◌++◌, if◌then◌else◌, Flags, raise,
  clear, no_flags, any_of,
}
use fuzzusb.Usb.{is_super}
use fuzzusb.Usb.Port
use fuzzusb.Dummy.{Dummy, Hcd, Side, Env, Driver, Event}
use mathlib.Core.Option.{Option, none, some}
use fuzzusb.Dummy.Access.{hcd, set_hcd, is_usb3, is_suspended, log, with_usage}
use fuzzusb.Nuke.{stop_activity}

-- Is the device on the bus, and awake?
abbrev pub attached : Dummy → Bool
attached d = d.pullup && not d.udc_suspended

-- `if (changed) port_status |= USB_PORT_STAT_C_CONNECTION << 16`
abbrev notice : Bool → Flags → Flags
notice changed w = if changed then raise (Port.c_connection ∷ []) w else w

-- The branch `speed == HCD_USB3`
unfoldable pub link_ss : Dummy → Hcd → Hcd
link_ss d h =
    if not (h.port_status Port.ss_power)
    then record h { port_status = no_flags }
    else if not d.pullup || d.udc_suspended
    then record h {
      port_status =
          notice (h.old_status Port.connection)
            (clear (Port.connection ∷ Port.enable ∷ []) h.port_status);
    }
    else (let status =
          notice (not (h.old_status Port.connection))
            (raise (Port.connection ∷ Port.speed_5gbps) h.port_status) in
        record h {
          port_status = status;
          active =
              if status Port.enable
                && not (any_of Port.link_state status)
                && not (is_suspended h.rh_state)
              then true
              else h.active;
        })

-- The `else` branch: a USB 2.0 port. The test of `USB_PORT_STAT_SUSPEND` is made where the port is
-- enabled, so the bit that the first branch clears is not the one it reads.
unfoldable pub link_hs : Dummy → Hcd → Hcd
link_hs d h =
    if not (h.port_status Port.power)
    then record h { port_status = no_flags }
    else if not d.pullup || d.udc_suspended
    then record h {
      port_status = notice (h.old_status Port.connection) (
          clear
            (Port.connection ∷ Port.enable ∷ Port.low_speed ∷ Port.high_speed ∷ Port.suspend ∷ [])
            h.port_status);
    }
    else (let status =
          notice (not (h.old_status Port.connection))
            (raise (Port.connection ∷ []) h.port_status) in
        if not (status Port.enable)
        then record h { port_status = clear (Port.suspend ∷ []) status }
        else record h {
          port_status = status;
          active =
              if not (status Port.suspend) && not (is_suspended h.rh_state) then true else h.active;
        })

unfoldable pub set_link_state_by_speed : Dummy → Hcd → Hcd
unfolding link_ss link_hs
set_link_state_by_speed d h = if is_usb3 h.speed then link_ss d h else link_hs d h

-- A SuperSpeed gadget is not on the USB 2.0 bus, nor another gadget on the USB 3.0 bus.
abbrev pub wrong_bus : Dummy → Hcd → Bool
wrong_bus d h = differs (is_usb3 h.speed) (is_super d.speed)

abbrev pub power_bit : Hcd → ℕ
power_bit h = if is_usb3 h.speed then Port.ss_power else Port.power

-- `stop_activity` and the gadget core's `usb_gadget_udc_reset`
unfoldable pub tell_reset : Env → Dummy → Dummy
tell_reset env d = with_usage (λ c. env.udc_reset (log Event.udc_reset c)) (stop_activity env d)

-- `stop_activity` and the gadget driver's `disconnect`
unfoldable pub tell_disconnect : Env → Dummy → Dummy
tell_disconnect env d =
    with_usage (λ c. env.disconnect (log Event.disconnected c)) (stop_activity env d)

-- The gadget driver is told of a reset or a disconnect.
unfoldable pub report_reset : Env → Side → Dummy → Dummy
report_reset env s d =
    let h = hcd d s in
    let disconnect = h.old_status (power_bit h) && not (h.port_status (power_bit h)) in
    let reset = not (h.old_status Port.reset) && h.port_status Port.reset in
    if d.ints_enabled && (disconnect || reset)
    then (if reset then tell_reset env d else tell_disconnect env d)
    else d

abbrev has_suspend : Option Driver → Bool
has_suspend none = false
has_suspend (some g) = g.has_suspend

abbrev has_resume : Option Driver → Bool
has_resume none = false
has_resume (some g) = g.has_resume

-- The optional callback for a bus that falls asleep or wakes up
unfoldable pub sleep_or_wake : Env → Bool → Option Driver → Dummy → Dummy
sleep_or_wake env was_active driver c =
    if was_active && has_suspend driver
    then env.suspend (log Event.driver_suspended c)
    else if not was_active && has_resume driver
    then env.resume (log Event.driver_resumed c)
    else c

-- The gadget driver is told that the bus falls asleep or wakes up.
unfoldable pub report_suspend : Env → Side → Dummy → Dummy
report_suspend env s d =
    let h = hcd d s in
    if differs h.active h.old_active && d.ints_enabled
    then with_usage (sleep_or_wake env h.old_active d.driver) d
    else d

-- From the port's new status to the calls of the gadget driver
unfoldable pub report : Env → Side → Dummy → Dummy
unfolding report_reset report_suspend
report env s d =
    let h = hcd d s in
    if not (h.port_status (power_bit h)) || h.port_status Port.reset
    then report_reset env s d
    else report_suspend env s d

-- `dum_hcd->old_status = dum_hcd->port_status; dum_hcd->old_active = dum_hcd->active;`
unfoldable pub latch : Side → Dummy → Dummy
latch s d =
    let h = hcd d s in set_hcd s (record h { old_status = h.port_status; old_active = h.active }) d

-- The port after `set_link_state_by_speed` and the end of resume signalling
unfoldable pub refresh : Dummy → Hcd → Hcd
unfolding set_link_state_by_speed
refresh d h =
    let h' = set_link_state_by_speed d (record h { active = false }) in
    if not (h'.port_status Port.enable) || h'.active then record h' { resuming = false } else h'

unfoldable pub set_link_state : Env → Side → Dummy → Dummy
unfolding refresh report latch
set_link_state env s d =
    let h = hcd d s in
    if d.pullup && wrong_bus d h
    then set_hcd s (record h { active = false }) d
    else latch s (report env s (set_hcd s (refresh d h) d))
