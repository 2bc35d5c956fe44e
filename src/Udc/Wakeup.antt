-- ===== src/Udc/Wakeup.antt =====
-- Remote wakeup, from `dummy_wakeup` to the `dummy_hub_status` that ends the resume signalling.
use fuzzusb.Base.{
  ℕ, ◌+◌, ◌≤◌, true, false, ◌||◌, some, ◌≡◌, ◌≢◌, ◌↔◌, refl, arith, ap, ◌∙◌, raise, clear, [], ◌∷◌,
}
use fuzzusb.Usb.{ret, err, einval}
use fuzzusb.Usb.Port
use fuzzusb.Usb.Device
use fuzzusb.Dummy.{Dummy, Hcd, Side, hs, Env, Setup}
use fuzzusb.Dummy.Access.{hcd, gadget_hcd, is_usb3, is_suspended}
use fuzzusb.Link.{refresh}
use fuzzusb.Link.Active.{refresh-active, refresh-detached}
use fuzzusb.Link.Silent.{
  latched, refresh-suspend, refresh-enable, refresh-c_suspend, refresh-rh_state,
}
use fuzzusb.Link.Passive.{IsPassive}
use fuzzusb.Hub.Port as HubPort
use fuzzusb.Hub.Control.{hub_status, finish_resume, report_changes}
use fuzzusb.Hub.Reset.{IsReady, relinked}
use fuzzusb.Control.{set_feature, dev_request}
use fuzzusb.Udc.{wakeup}

-- A USB 2.0 port that is suspended under a gadget that has asked for a wakeup
pub record IsWaking (d : Dummy) : Type 0 where
  pub ready : IsReady d
  pub accessible : d.hs_hcd.hw_accessible ≡ true
  pub enabled : d.hs_hcd.port_status Port.enable ≡ true
  pub resuming : d.hs_hcd.resuming ≡ true

-- `dummy_wakeup` succeeds exactly if the host has allowed it (or the bit of `B_HNP_ENABLE` is set),
-- the gadget is connected, and its port or the root hub is suspended; the port then signals resume,
-- with a deadline 20 ms away for which the root hub's timer is set.
pub wakeup_iff :
    (env : Env) (d : Dummy)
    → (((wakeup env d).0 ≡ ret 0)
        ↔ ((d.devstatus Device.b_hnp_enable || d.devstatus Device.remote_wakeup) ≡ true)
          × ((hcd d (gadget_hcd d)).port_status Port.connection ≡ true)
          × (((hcd d (gadget_hcd d)).port_status Port.suspend
                || is_suspended (hcd d (gadget_hcd d)).rh_state)
              ≡ true))
      × ((wakeup env d).0 ≡ ret 0
          → let h = hcd (wakeup env d).1 (gadget_hcd d) in
            (h.resuming ≡ true)
            × (h.re_timeout ≡ d.jiffies + env.msecs_to_jiffies 20)
            × (h.rh_timer ≡ some h.re_timeout))
unfolding wakeup
wakeup_iff env d = ((λ h. ground arith, λ h. ground arith), λ h. ground arith)

-- The port with which `dummy_hub_status` calls `set_link_state`
abbrev woken : Dummy → Hcd
woken d =
    HubPort.set_status
      (clear (Port.suspend ∷ []) (raise (Port.c_suspend ∷ []) d.hs_hcd.port_status)) d.hs_hcd

finish_resume-woken :
    (env : Env) (d : Dummy)
    → IsWaking d
    → d.hs_hcd.re_timeout ≤ d.jiffies
    → finish_resume env hs d ≡ HubPort.relink env hs (woken d) d
unfolding finish_resume
finish_resume-woken env d w late = ground arith

report_changes-some :
    (d : Dummy)
    → d.hs_hcd.port_status Port.c_suspend ≡ true
    → is_suspended d.hs_hcd.rh_state ≡ false
    → report_changes hs d ≡ (ret 1, d)
unfolding report_changes
report_changes-some d c r = ground arith

hub_status-changed :
    (env : Env) (d : Dummy) (h : Hcd)
    → d.hs_hcd.hw_accessible ≡ true
    → (finish_resume env hs d).hs_hcd ≡ h
    → h.port_status Port.c_suspend ≡ true
    → is_suspended h.rh_state ≡ false
    → hub_status env hs d ≡ (ret 1, finish_resume env hs d)
unfolding hub_status
hub_status-changed env d h a e c r =
    ground (arith, report_changes-some (finish_resume env hs d) (rw e c) (rw e r))

module _ (d : Dummy) (w : IsWaking d) where
  abbrev awoken : Hcd
  awoken = refresh d (woken d)

  awoken-suspend : awoken.port_status Port.suspend ≡ false
  awoken-suspend = ground (arith, refresh-suspend d (woken d) w.ready.usb2)

  awoken-enable : awoken.port_status Port.enable ≡ true
  awoken-enable = ground (arith, refresh-enable d (woken d), w.ready.on)

  awoken-active : awoken.active ≡ true
  awoken-active = ground (arith, (refresh-active d (woken d)).0, w.ready.on)

  awoken-c_suspend : awoken.port_status Port.c_suspend ≡ true
  awoken-c_suspend = ground (arith, refresh-c_suspend d (woken d))

  awoken-resuming : awoken.resuming ≡ false
  awoken-resuming = ground (arith, (refresh-detached d (woken d)).1, awoken-active)

  awoken-root : is_suspended awoken.rh_state ≡ false
  awoken-root = rw (refresh-rh_state d (woken d)) w.ready.awake

-- On a USB 2.0 port that is powered, enabled and signals resume, below a root hub that is accessible and
-- not suspended, with an attached gadget that is not SuperSpeed: once the deadline is over,
-- `dummy_hub_status` ends the resume: it reports a change, the port is no longer suspended and says
-- why, the bus is active, and the signalling is over. (The callbacks do not reach into the controller.)
pub hub_status-resumes :
    (env : Env) (d : Dummy)
    → IsPassive env
    → IsWaking d
    → d.hs_hcd.re_timeout ≤ d.jiffies
    → let (r, e) = hub_status env hs d in
      (r ≡ ret 1)
      × (e.hs_hcd.active ≡ true)
      × (e.hs_hcd.port_status Port.suspend ≡ false)
      × (e.hs_hcd.port_status Port.c_suspend ≡ true)
      × (e.hs_hcd.resuming ≡ false)
hub_status-resumes env d passive w late =
    rw
      (hub_status-changed env d (latched (awoken d w)) w.accessible e (awoken-c_suspend d w)
        (awoken-root d w))
      (
        refl,
        rw e (awoken-active d w),
        rw e (awoken-suspend d w),
        rw e (awoken-c_suspend d w),
        rw e (awoken-resuming d w),
      )
  where
    e : (finish_resume env hs d).hs_hcd ≡ latched (awoken d w)
    e =
        ap (λ c. c.hs_hcd) (finish_resume-woken env d w late)
        ∙ ap (λ v. v.0) (relinked env passive d (woken d) w.ready.usb2 w.ready.right_bus)

-- A port that sleeps under a gadget which the host has allowed to wake it
pub record IsAsleep (d : Dummy) : Type 0 where
  pub ready : IsReady d
  pub accessible : d.hs_hcd.hw_accessible ≡ true
  pub enabled : d.hs_hcd.port_status Port.enable ≡ true
  pub connected : d.hs_hcd.port_status Port.connection ≡ true
  pub suspended : d.hs_hcd.port_status Port.suspend ≡ true
  pub allowed : d.devstatus Device.remote_wakeup ≡ true

wakeup-IsWaking :
    (env : Env) (d : Dummy) (t : ℕ)
    → IsAsleep d
    → IsWaking (record (wakeup env d).1 { jiffies = t })
unfolding wakeup
wakeup-IsWaking env d t a = record {
  ready = record {
    usb2 = ground (arith, a.ready.usb2, a.ready.right_bus);
    right_bus = ground (arith, a.ready.right_bus);
    powered = ground (arith, a.ready.powered, a.ready.right_bus);
    on = ground (arith, a.ready.on);
    awake = ground (arith, a.ready.awake, a.ready.right_bus);
  };
  accessible = ground (arith, a.accessible, a.ready.right_bus);
  enabled = ground (arith, a.enabled, a.ready.right_bus);
  resuming = ground (arith, a.allowed, a.connected, a.suspended, a.ready.right_bus);
}

wakeup-deadline :
    (env : Env) (d : Dummy)
    → IsAsleep d
    → ((wakeup env d).0 ≡ ret 0)
      × ((wakeup env d).1.hs_hcd.re_timeout ≡ d.jiffies + env.msecs_to_jiffies 20)
unfolding wakeup
wakeup-deadline env d a = (
  ground (arith, a.allowed, a.connected, a.suspended, a.ready.right_bus),
  ground (arith, a.allowed, a.connected, a.suspended, a.ready.right_bus),
)

-- A remote wakeup from its start to its end: on a USB 2.0 port that is powered, enabled, connected and
-- suspended, below a root hub that is accessible and not suspended, with an attached gadget that is not
-- SuperSpeed and that the host has allowed to wake it, `dummy_wakeup` succeeds; and the
-- `dummy_hub_status` that comes 20 ms later or after that reports a change, and the port is active,
-- no longer suspended or resuming, and says why. (In between only the time goes on; the callbacks do
-- not reach into the controller.)
pub wakeup-resumes :
    (env : Env) (d : Dummy) (t : ℕ)
    → IsPassive env
    → IsAsleep d
    → d.jiffies + env.msecs_to_jiffies 20 ≤ t
    → let (r, e) = hub_status env hs (record (wakeup env d).1 { jiffies = t }) in
      ((wakeup env d).0 ≡ ret 0)
      × (r ≡ ret 1)
      × (e.hs_hcd.active ≡ true)
      × (e.hs_hcd.port_status Port.suspend ≡ false)
      × (e.hs_hcd.port_status Port.c_suspend ≡ true)
      × (e.hs_hcd.resuming ≡ false)
wakeup-resumes env d t passive a late =
    let k = wakeup-deadline env d a in
    let h =
      hub_status-resumes env (record (wakeup env d).1 { jiffies = t }) passive
        (wakeup-IsWaking env d t a) (rw k.1 late) in
    (k.0, h.0, h.1, h.2, h.3, h.4)

-- With the U2 feature of a USB 3.0 bus set, `dummy_wakeup` no longer asks whether the host has
-- allowed a remote wakeup: the status bit of U2 is the bit that stands for `B_HNP_ENABLE`.
pub wakeup-u2 :
    (env : Env) (s : Side) (setup : Setup) (d : Dummy)
    → is_usb3 (hcd d s).speed ≡ true
    → setup.request_type ≡ dev_request
    → setup.value ≡ Device.u2_enable
    → (wakeup env (set_feature s setup d).2).0 ≢ err einval
unfolding wakeup set_feature
wakeup-u2 env s setup d u t v = ground arith
