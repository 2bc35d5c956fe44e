-- ===== src/Udc.antt =====
-- The device side as a whole: the gadget operations (`dummy_ops`), the start and stop of a gadget
-- driver, and the suspend and resume of the device controller, in patch/kernel/dummy_hcd.c.
pub mod Attach
pub mod Wakeup
pub mod Stop
pub mod Fresh
use fuzzusb.Base.{
  ℕ, zero, suc, ◌+◌, Bool, true, false, not, ◌&&◌, ◌||◌, Option, none, some, if◌then◌else◌, ltb,
  ◌==◌, List, [], ◌∷◌, Flags, raise, clear, any_of, no_flags,
}
use fuzzusb.Usb.{
  Speed, unknown, low, full, high, super, Ret, ret, err, einval, enolink, eio, is_super,
}
use fuzzusb.Usb.Port
use fuzzusb.Usb.Device
use fuzzusb.Dummy.{Dummy, Ep, Hcd, Side, Env, Driver, Event, dummy_endpoints}
use fuzzusb.Dummy.Access.{hcd, set_hcd, gadget_hcd, is_suspended, set_ep, log}
use fuzzusb.Dummy.Table.{Info, ep_info}
use fuzzusb.Link.{set_link_state}
use fuzzusb.Nuke.{stop_activity}
use Prim.Native.String.{String}

-- `dummy_wakeup`
unfoldable pub wakeup : Env → Dummy → Ret × Dummy
wakeup env d =
    let s = gadget_hcd d in
    let h = hcd d s in
    if not (any_of (Device.b_hnp_enable ∷ Device.remote_wakeup ∷ []) d.devstatus)
    then (err einval, d)
    else if not (h.port_status Port.connection)
    then (err enolink, d)
    else if not (h.port_status Port.suspend) && not (is_suspended h.rh_state)
    then (err eio, d)
    else (let expiry = d.jiffies + env.msecs_to_jiffies 20 in
        (
          ret 0,
          set_hcd s (record h { resuming = true; re_timeout = expiry; rh_timer = some expiry }) d,
        ))

unfoldable pub set_selfpowered : ℕ → Dummy → Ret × Dummy
set_selfpowered value d =
    let on = not (value == 0) in
    (
      ret 0,
      record d {
        is_selfpowered = on;
        devstatus =
            if on
            then raise (Device.self_powered ∷ []) d.devstatus
            else clear (Device.self_powered ∷ []) d.devstatus;
      },
    )

-- `dummy_udc_update_ep0`
unfoldable pub udc_update_ep0 : Dummy → Dummy
udc_update_ep0 d = set_ep 0 (record (d.ep 0) { maxpacket = if is_super d.speed then 9 else 64 }) d

unfoldable pub pullup : Env → ℕ → Dummy → Ret × Dummy
pullup env value d =
    let s = gadget_hcd d in
    (ret 0, log (Event.polled s) (set_link_state env s (record d { pullup = not (value == 0) })))

unfoldable pub udc_set_speed : Speed → Dummy → Dummy
unfolding udc_update_ep0
udc_set_speed speed d = udc_update_ep0 (record d { speed = speed })

-- `switch (g->speed)`
abbrev pub supported : Speed → Bool
supported low = true
supported full = true
supported high = true
supported super = true
supported _ = false

unfoldable pub udc_start : Driver → Dummy → Ret × Dummy
udc_start driver d =
    if supported d.speed
    then (ret 0, record d { devstatus = no_flags; driver = some driver; ints_enabled = true })
    else (err einval, d)

-- `while (dum->callback_usage > 0)`: what the rest of the system does during each sleep is given;
-- `none` is a wait that outlasts it.
unfoldable pub wait_callbacks : List (Dummy → Dummy) → Dummy → Option Dummy
wait_callbacks [] d = if ltb 0 d.callback_usage then none else some d
wait_callbacks (sleep ∷ rest) d =
    let later = wait_callbacks rest (sleep d) in if ltb 0 d.callback_usage then later else some d

unfoldable pub udc_stop : Env → List (Dummy → Dummy) → Dummy → Option (Ret × Dummy)
unfolding wait_callbacks
udc_stop env sleeps d =
    elim (wait_callbacks sleeps (stop_activity env (record d { ints_enabled = false }))) [
      | none ↦ none
      | some d' ↦ some (ret 0, record d' { driver = none })
    ]

-- One round of `init_dummy_udc_hw`: `usb_ep_set_maxpacket_limit(&ep->ep, ~0)` sets the limit and the
-- packet size to the largest `unsigned short`.
unfoldable pub init_ep : Info → ℕ → Ep → Ep
init_ep i jiffies e = record e {
  name = i.name;
  caps = i.caps;
  halted = false;
  wedged = false;
  already_seen = false;
  setup_stage = false;
  maxpacket_limit = 0xffff;
  maxpacket = 0xffff;
  max_streams = 16;
  last_io = jiffies;
  desc = none;
  queue = [];
}

-- `for (i = 0; i < DUMMY_ENDPOINTS; i++)`, over the table
unfoldable pub init_eps : List Info → ℕ → Dummy → Dummy
unfolding init_ep
init_eps [] i d = d
init_eps (x ∷ xs) i d = init_eps xs (i + 1) (set_ep i (init_ep x d.jiffies (d.ep i)) d)

unfoldable pub init_dummy_udc_hw : Dummy → Dummy
unfolding init_eps
init_dummy_udc_hw d = init_eps ep_info 0 d

-- `dummy_udc_pm`
unfoldable pub udc_pm : Env → Side → Bool → Dummy → Dummy
udc_pm env s suspend d = set_link_state env s (record d { udc_suspended = suspend })

unfoldable pub udc_suspend : Env → Dummy → Ret × Dummy
unfolding udc_pm
udc_suspend env d = let s = gadget_hcd d in (ret 0, log (Event.polled s) (udc_pm env s true d))

unfoldable pub udc_resume : Env → Dummy → Ret × Dummy
unfolding udc_pm
udc_resume env d = let s = gadget_hcd d in (ret 0, log (Event.polled s) (udc_pm env s false d))
