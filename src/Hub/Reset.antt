-- ===== src/Hub/Reset.antt =====
-- A port reset, from `SetPortFeature(PORT_RESET)` to the `GetPortStatus` that ends it.
use fuzzusb.Base.{
  ◌+◌, ◌≤◌, ◌<◌, true, false, some, ◌≡◌, arith, keep, raise, clear, [], ◌∷◌, ap, ◌∙◌,
}
use fuzzusb.Usb.{high, ret, is_super}
use fuzzusb.Usb.Port
use fuzzusb.Usb.Feature
use fuzzusb.Usb.Device
use fuzzusb.Dummy.{Dummy, Hcd, hs, Env}
use fuzzusb.Dummy.Access.{set_hcd, is_usb3, is_suspended}
use fuzzusb.Link.{refresh, attached}
use fuzzusb.Link.Active.{refresh-detached, refresh-active}
use fuzzusb.Link.Silent.{
  latched, refresh-power, refresh-reset, refresh-enable, refresh-suspend, refresh-speed,
  refresh-rh_state, refresh-re_timeout, refresh-c_reset, refresh-high_speed,
}
use fuzzusb.Link.Passive.{IsPassive, view, set_link_state-view}
use fuzzusb.Hub.Port as HubPort

-- A USB 2.0 port with power on a root hub that is awake, and an attached gadget of its bus
pub record IsReady (d : Dummy) : Type 0 where
  pub usb2 : is_usb3 d.hs_hcd.speed ≡ false
  pub right_bus : is_super d.speed ≡ false
  pub powered : d.hs_hcd.port_status Port.power ≡ true
  pub on : attached d ≡ true
  pub awake : is_suspended d.hs_hcd.rh_state ≡ false

-- The same, between the two requests of a reset
pub record IsResetting (d : Dummy) : Type 0 where
  pub ready : IsReady d
  pub resetting : d.hs_hcd.port_status Port.reset ≡ true
  pub disabled : d.hs_hcd.port_status Port.enable ≡ false
  pub not_suspended : d.hs_hcd.port_status Port.suspend ≡ false
  pub not_resuming : d.hs_hcd.resuming ≡ false

module _ (env : Env) (passive : IsPassive env) where
  -- The port after a `set_link_state` of a ready controller
  pub relinked :
      (d : Dummy) (h : Hcd)
      → is_usb3 h.speed ≡ false
      → is_super d.speed ≡ false
      → view (HubPort.relink env hs h d) ≡ view (set_hcd hs (latched (refresh d h)) d)
  unfolding refresh
  relinked d h u r = set_link_state-view env passive hs (set_hcd hs h d) (ground arith)

-- The state and the port with which `SetPortFeature(PORT_RESET)` calls `set_link_state`
abbrev forgotten : Dummy → Dummy
forgotten d = record d { devstatus = keep (Device.self_powered ∷ []) d.devstatus }

abbrev begun : Env → Dummy → Hcd
begun env d =
    HubPort.set_status
      (raise (Port.reset ∷ [])
        (clear (Port.enable ∷ Port.low_speed ∷ Port.high_speed ∷ []) d.hs_hcd.port_status))
      (HubPort.start_timeout env 50 d d.hs_hcd)

set_port-reset :
    (env : Env) (d : Dummy)
    → IsReady d
    → HubPort.set_port_feature env hs Feature.reset d
      ≡ some (ret 0, HubPort.relink env hs (begun env d) (forgotten d))
unfolding HubPort.set_port_feature
set_port-reset env d r = ground arith

module _ (env : Env) (d : Dummy) (r : IsReady d) where
  abbrev k : Hcd
  k = refresh (forgotten d) (begun env d)

  k-power : k.port_status Port.power ≡ true
  k-power = ground (arith, refresh-power (forgotten d) (begun env d))

  k-reset : k.port_status Port.reset ≡ true
  k-reset = ground (arith, refresh-reset (forgotten d) (begun env d))

  k-enable : k.port_status Port.enable ≡ false
  k-enable = ground (arith, refresh-enable (forgotten d) (begun env d))

  k-suspend : k.port_status Port.suspend ≡ false
  k-suspend = ground (arith, refresh-suspend (forgotten d) (begun env d) r.usb2)

  k-resuming : k.resuming ≡ false
  k-resuming = ground (arith, (refresh-detached (forgotten d) (begun env d)).1, k-enable)

  k-speed : is_usb3 k.speed ≡ false
  k-speed = rw (refresh-speed (forgotten d) (begun env d)) r.usb2

  k-awake : is_suspended k.rh_state ≡ false
  k-awake = rw (refresh-rh_state (forgotten d) (begun env d)) r.awake

  k-timeout : k.re_timeout ≡ d.jiffies + env.msecs_to_jiffies 50
  k-timeout = refresh-re_timeout (forgotten d) (begun env d)

-- What holds of the state that the link leaves holds of a state with the same view.
IsResetting-view :
    (d e : Dummy) (h : Hcd)
    → view e ≡ view (set_hcd hs (latched h) d)
    → IsResetting (set_hcd hs (latched h) d)
    → IsResetting e
IsResetting-view d e h v i = record {
  ready = record {
    usb2 = rw (ap (λ w. w.0) v) i.ready.usb2;
    right_bus = rw (ap (λ w. w.4) v) i.ready.right_bus;
    powered = rw (ap (λ w. w.0) v) i.ready.powered;
    on = rw (ap (λ w. w.2) v, ap (λ w. w.3) v) i.ready.on;
    awake = rw (ap (λ w. w.0) v) i.ready.awake;
  };
  resetting = rw (ap (λ w. w.0) v) i.resetting;
  disabled = rw (ap (λ w. w.0) v) i.disabled;
  not_suspended = rw (ap (λ w. w.0) v) i.not_suspended;
  not_resuming = rw (ap (λ w. w.0) v) i.not_resuming;
}

-- The port with which `GetPortStatus` calls `set_link_state` when a reset is over
abbrev ended : Dummy → Hcd
ended d =
    HubPort.set_status
      (raise (Port.enable ∷ HubPort.speed_bits d.speed)
        (clear (Port.reset ∷ []) (raise (Port.c_reset ∷ []) d.hs_hcd.port_status)))
      d.hs_hcd

module _ (env : Env) (d : Dummy) (i : IsResetting d) where
  get_port_status-over :
      d.hs_hcd.re_timeout ≤ d.jiffies
      → HubPort.get_port_status env hs d
        ≡ HubPort.relink env hs (ended d) (HubPort.shrink_ep0 d.hs_hcd d)
  unfolding HubPort.get_port_status
  get_port_status-over late = ground arith

  get_port_status-early :
      d.jiffies < d.hs_hcd.re_timeout
      → HubPort.get_port_status env hs d ≡ HubPort.relink env hs d.hs_hcd d
  unfolding HubPort.get_port_status
  get_port_status-early early = ground arith

-- What a finished reset shows at the port
pub record IsReset (d e : Dummy) : Type 0 where
  pub active : e.hs_hcd.active ≡ true
  pub enabled : e.hs_hcd.port_status Port.enable ≡ true
  pub connected : e.hs_hcd.port_status Port.connection ≡ true
  pub reset_done : e.hs_hcd.port_status Port.reset ≡ false
  pub reported : e.hs_hcd.port_status Port.c_reset ≡ true
  pub fast : d.speed ≡ high → e.hs_hcd.port_status Port.high_speed ≡ true

module _ (env : Env) (d : Dummy) (i : IsResetting d) where
  abbrev at : Dummy
  at = HubPort.shrink_ep0 d.hs_hcd d

  at-view : view at ≡ view d
  unfolding HubPort.shrink_ep0
  at-view = ground arith

  at-on : attached at ≡ true
  at-on = rw (ap (λ w. w.2) at-view, ap (λ w. w.3) at-view) i.ready.on

  abbrev m : Hcd
  m = refresh at (ended d)

  m-IsReset : IsReset d (set_hcd hs (latched m) at)
  m-IsReset = record {
    active = ground (arith, (refresh-active at (ended d)).0, at-on);
    enabled = ground (arith, refresh-enable at (ended d), at-on);
    connected = ground (arith, (refresh-active at (ended d)).1, at-on);
    reset_done = ground (arith, refresh-reset at (ended d));
    reported = ground (arith, refresh-c_reset at (ended d));
    fast = λ h. ground (arith, refresh-high_speed at (ended d) i.ready.usb2, at-on);
  }

IsReset-view : (d e f : Dummy) → view e ≡ view f → IsReset d f → IsReset d e
IsReset-view d e f v i = record {
  active = rw (ap (λ w. w.0) v) i.active;
  enabled = rw (ap (λ w. w.0) v) i.enabled;
  connected = rw (ap (λ w. w.0) v) i.connected;
  reset_done = rw (ap (λ w. w.0) v) i.reset_done;
  reported = rw (ap (λ w. w.0) v) i.reported;
  fast = λ h. rw (ap (λ w. w.0) v) (i.fast h);
}

module _ (env : Env) (passive : IsPassive env) (d : Dummy) where
  -- `SetPortFeature(PORT_RESET)` on a USB 2.0 port that has power, on a root hub that is not suspended,
  -- with a gadget attached that is not SuperSpeed: the request succeeds, the port is in reset, disabled, and neither suspended nor resuming, until 50 ms
  -- from now. (The callbacks do not reach into the controller.)
  pub set_port_feature-IsResetting :
      IsReady d
      → (d' : Dummy) × (HubPort.set_port_feature env hs Feature.reset d ≡ some (ret 0, d'))
        × IsResetting d'
        × (d'.hs_hcd.re_timeout ≡ d.jiffies + env.msecs_to_jiffies 50)
        × (d'.jiffies ≡ d.jiffies)
  set_port_feature-IsResetting r = (
    HubPort.relink env hs (begun env d) (forgotten d),
    set_port-reset env d r,
    IsResetting-view (forgotten d) _ (k env d r) v (record {
      ready = record {
        usb2 = k-speed env d r;
        right_bus = r.right_bus;
        powered = k-power env d r;
        on = r.on;
        awake = k-awake env d r;
      };
      resetting = k-reset env d r;
      disabled = k-enable env d r;
      not_suspended = k-suspend env d r;
      not_resuming = k-resuming env d r;
    }),
    ap (λ w. w.0.re_timeout) v ∙ k-timeout env d r,
    ap (λ w. w.5) v,
  )
    where
      v :
          view (HubPort.relink env hs (begun env d) (forgotten d))
          ≡ view (set_hcd hs (latched (k env d r)) (forgotten d))
      v = relinked env passive (forgotten d) (begun env d) r.usb2 r.right_bus

  -- On a USB 2.0 port that has power, on a root hub that is not suspended, with a gadget attached that is
  -- not SuperSpeed, and that is in reset, disabled, and neither suspended nor resuming: a `GetPortStatus`
  -- once the reset's time is over ends it, the port is enabled and connected, the bus is active, the
  -- end of the reset is reported, and a high-speed gadget shows as such. (The callbacks do not reach
  -- into the controller.)
  pub get_port_status-IsReset :
      IsResetting d → d.hs_hcd.re_timeout ≤ d.jiffies → IsReset d (HubPort.get_port_status env hs d)
  get_port_status-IsReset i late = rw (get_port_status-over env d i late) (
      IsReset-view d _ _
        (relinked env passive (at env d i) (ended d) i.ready.usb2
          (rw (ap (λ w. w.4) (at-view env d i)) i.ready.right_bus))
        (m-IsReset env d i))

  -- Before that, `GetPortStatus` leaves the port in reset.
  pub get_port_status-IsResetting :
      IsResetting d
      → d.jiffies < d.hs_hcd.re_timeout
      → IsResetting (HubPort.get_port_status env hs d)
  get_port_status-IsResetting i early = rw (get_port_status-early env d i early) (
      IsResetting-view d _ (refresh d d.hs_hcd)
        (relinked env passive d d.hs_hcd i.ready.usb2 i.ready.right_bus)
        (record {
          ready = record {
            usb2 = ground (arith, refresh-speed d d.hs_hcd);
            right_bus = i.ready.right_bus;
            powered = ground (arith, refresh-power d d.hs_hcd);
            on = i.ready.on;
            awake = ground (arith, refresh-rh_state d d.hs_hcd);
          };
          resetting = ground (arith, refresh-reset d d.hs_hcd);
          disabled = ground (arith, refresh-enable d d.hs_hcd);
          not_suspended = ground (arith, refresh-suspend d d.hs_hcd i.ready.usb2);
          not_resuming = ground (arith, (refresh-detached d d.hs_hcd).1);
        }))
