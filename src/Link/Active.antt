-- ===== src/Link/Active.antt =====
-- What `set_link_state_by_speed` makes of a port.
use fuzzusb.Base.{differs, ℕ, Bool, true, false, not, ◌&&◌, ◌||◌, ◌≡◌, if◌then◌else◌, any_of, arith}
use fuzzusb.Usb.Port
use fuzzusb.Dummy.{Dummy, Hcd}
use fuzzusb.Dummy.Access.{is_usb3, is_suspended}
use fuzzusb.Link.{power_bit, attached, refresh}

-- The port connects exactly when it has power and the gadget is attached, and the bus is active
-- exactly when, besides, the port is enabled, not suspended, and the root hub is awake.
abbrev pub awake : Hcd → Bool
awake h =
    (if is_usb3 h.speed
      then not (any_of Port.link_state h.port_status)
      else not (h.port_status Port.suspend))
    && not (is_suspended h.rh_state)

-- The bus is active after the step exactly if the port has power, the gadget is attached, the port
-- is enabled and in U0 (USB 3.0) or not suspended (USB 2.0), and the root hub is not suspended; the
-- port reads as connected exactly if it has power and the gadget is attached.
pub refresh-active :
    (d : Dummy) (h : Hcd)
    → ((refresh d h).active
        ≡ (h.port_status (power_bit h) && attached d && h.port_status Port.enable && awake h))
      × ((refresh d h).port_status Port.connection ≡ (h.port_status (power_bit h) && attached d))
unfolding refresh
refresh-active d h = ground arith

-- A port that keeps its power reports a change of connection, by `C_CONNECTION`, exactly if its
-- connection bit now differs from the latched one, or the change was already pending; without power
-- every bit is cleared.
pub refresh-c_connection :
    (d : Dummy) (h : Hcd)
    → (h.port_status (power_bit h) ≡ true
        → (refresh d h).port_status Port.c_connection ≡ (
            differs ((refresh d h).port_status Port.connection) (h.old_status Port.connection)
            || h.port_status Port.c_connection))
      × (h.port_status (power_bit h) ≡ false → (i : ℕ) → (refresh d h).port_status i ≡ false)
unfolding refresh
refresh-c_connection d h = (ground arith, λ e i. ground arith)

-- The device cannot stay enabled when it detaches, nor resume signalling go on when the port is
-- active or disabled.
pub refresh-detached :
    (d : Dummy) (h : Hcd)
    → (attached d ≡ false
        → ((refresh d h).port_status Port.enable ≡ false) × ((refresh d h).active ≡ false))
      × ((refresh d h).resuming
          ≡ (h.resuming && (refresh d h).port_status Port.enable && not (refresh d h).active))
unfolding refresh
refresh-detached d h = ground arith
