-- ===== src/Udc/Attach.antt =====
-- The gadget comes and goes: pull-up, suspend of the device controller, stop of the gadget driver.
use fuzzusb.Base.{ℕ, Bool, true, false, not, ◌&&◌, ◌||◌, ◌≡◌, refl, arith, ◌==◌, differs, ap, ◌∙◌}
use fuzzusb.Usb.Port
use fuzzusb.Dummy.{Dummy, Hcd, Side, hs, ss, Env, Event}
use fuzzusb.Dummy.Access.{hcd, set_hcd, gadget_hcd, is_usb3, log}
use fuzzusb.Link.{power_bit, wrong_bus, refresh, attached, set_link_state}
use fuzzusb.Link.Active.{refresh-active, refresh-detached, refresh-c_connection}
use fuzzusb.Link.Silent.{latched}
use fuzzusb.Link.Passive.{IsPassive, view, set_link_state-view}
use fuzzusb.Udc.{pullup, udc_suspend, udc_resume, udc_pm}

-- The two halves of the controller are on their buses, as `dummy_setup` leaves them.
pub record IsWired (d : Dummy) : Type 0 where
  pub hs_bus : is_usb3 d.hs_hcd.speed ≡ false
  pub ss_bus : is_usb3 d.ss_hcd.speed ≡ true

-- What the port of the gadget's bus shows when the gadget's presence is set
pub record Shows (h h' : Hcd) (present : Bool) : Type 0 where
  pub connection : h'.port_status Port.connection ≡ (h.port_status (power_bit h) && present)
  pub gone : present ≡ false → (h'.port_status Port.enable ≡ false) × (h'.active ≡ false)
  pub change :
      h.port_status (power_bit h) ≡ true
      → h'.port_status Port.c_connection
        ≡ (differs present (h.old_status Port.connection) || h.port_status Port.c_connection)

refresh-Shows : (d : Dummy) (h : Hcd) → Shows h (latched (refresh d h)) (attached d)
refresh-Shows d h = record {
  connection = (refresh-active d h).1;
  gone = (refresh-detached d h).0;
  change = λ p. ground (arith, (refresh-c_connection d h).0 p, (refresh-active d h).1);
}

right_bus : (d : Dummy) → IsWired d → wrong_bus d (hcd d (gadget_hcd d)) ≡ false
right_bus d w = ground arith

hcd-view : (s : Side) (c d : Dummy) → view c ≡ view d → hcd c s ≡ hcd d s
hcd-view hs c d e = ap (λ v. v.0) e
hcd-view ss c d e = ap (λ v. v.1) e

hcd-set_hcd : (s : Side) (h : Hcd) (d : Dummy) → hcd (set_hcd s h d) s ≡ h
hcd-set_hcd hs h d = refl
hcd-set_hcd ss h d = refl

module _ (env : Env) (passive : IsPassive env) where
  linked-hcd :
      (d : Dummy) (s : Side)
      → wrong_bus d (hcd d s) ≡ false
      → hcd (set_link_state env s d) s ≡ latched (refresh d (hcd d s))
  linked-hcd d s w =
      hcd-view s (set_link_state env s d) (set_hcd s (latched (refresh d (hcd d s))) d)
        (set_link_state-view env passive s d (ground arith))
      ∙ hcd-set_hcd s (latched (refresh d (hcd d s))) d

  -- `set_link_state` at a controller in which only the gadget's presence is new
  linked-Shows :
      (s : Side) (d : Dummy) (up asleep present : Bool) (e : Event)
      → wrong_bus d (hcd d s) ≡ false
      → (up && not asleep) ≡ present
      → Shows
          (hcd d s)
          (hcd (log e (set_link_state env s (record d { pullup = up; udc_suspended = asleep }))) s)
          present
  linked-Shows hs d up asleep present e w p =
      rw (linked-hcd (record d { pullup = up; udc_suspended = asleep }) hs w, ← p)
        (refresh-Shows (record d { pullup = up; udc_suspended = asleep }) d.hs_hcd)
  linked-Shows ss d up asleep present e w p =
      rw (linked-hcd (record d { pullup = up; udc_suspended = asleep }) ss w, ← p)
        (refresh-Shows (record d { pullup = up; udc_suspended = asleep }) d.ss_hcd)

module _ (env : Env) (passive : IsPassive env) (d : Dummy) (w : IsWired d) where
  -- `dummy_pullup`, with the two halves of the controller on their buses: the port of the gadget's bus
  -- shows a connection exactly if it has power, the gadget is pulled up, and the device controller is
  -- not suspended. If the port has power, a difference to the connection noted last is reported as a
  -- change. A gadget that is not there is disabled and its bus idle. (The callbacks do not reach into
  -- the controller.)
  pub pullup-Shows :
      (value : ℕ)
      → Shows
          (hcd d (gadget_hcd d))
          (hcd (pullup env value d).1 (gadget_hcd d))
          (not (value == 0) && not d.udc_suspended)
  unfolding pullup
  pullup-Shows value =
      linked-Shows env passive (gadget_hcd d) d (not (value == 0)) d.udc_suspended
        (not (value == 0) && not d.udc_suspended) (Event.polled (gadget_hcd d)) (right_bus d w) refl

  -- `dummy_udc_suspend` takes the gadget off the bus, and `dummy_udc_resume` brings it back.
  pub udc_suspend-Shows :
      Shows (hcd d (gadget_hcd d)) (hcd (udc_suspend env d).1 (gadget_hcd d)) false
      × Shows (hcd d (gadget_hcd d)) (hcd (udc_resume env d).1 (gadget_hcd d)) d.pullup
  unfolding udc_suspend udc_resume udc_pm
  udc_suspend-Shows = (
    linked-Shows env passive (gadget_hcd d) d d.pullup true false (Event.polled (gadget_hcd d))
        (right_bus d w) (ground arith),
    linked-Shows env passive (gadget_hcd d) d d.pullup false d.pullup (Event.polled (gadget_hcd d))
        (right_bus d w) (ground arith),
  )
