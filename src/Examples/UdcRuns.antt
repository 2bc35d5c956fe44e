-- ===== src/Examples/UdcRuns.antt =====
-- The gadget comes, goes and wakes the host.
use fuzzusb.Base.{
  ◌≡◌, ◌≢◌, true, false, List, [], ◌∷◌, none, some, refl, arith, ◌==◌, raise, no_flags,
}
use fuzzusb.Usb.{ret, err, einval}
use fuzzusb.Usb.Port
use fuzzusb.Usb.Device
use fuzzusb.Dummy.{Dummy, Setup, hs, ss}
use fuzzusb.Dummy.Table.{ep_info, Info}
use fuzzusb.Hub.Control.{hub_status}
use fuzzusb.Control.{set_feature}
use fuzzusb.Udc.{pullup, udc_suspend, udc_resume, udc_stop, wakeup, init_dummy_udc_hw}
use fuzzusb.Udc.Attach.{IsWired, Shows, pullup-Shows, udc_suspend-Shows}
use fuzzusb.Udc.Stop.{udc_stop_lem}
use fuzzusb.Udc.Fresh.{IsFresh, get_elem?, init_dummy_udc_hw-IsFresh}
use fuzzusb.Udc.Wakeup.{
  IsWaking, IsAsleep, wakeup_iff, hub_status-resumes, wakeup-resumes, wakeup-u2,
}
use fuzzusb.Endpoint.Enable.{is_ep0}
use fuzzusb.Examples.Data.{env, env-NoRequeue, env-IsPassive, dummy, hs_port}

dummy-IsWired : IsWired dummy
dummy-IsWired = record { hs_bus = refl; ss_bus = refl }

pullup-Shows_example : Shows hs_port (pullup env 0 dummy).1.hs_hcd false
pullup-Shows_example = pullup-Shows env env-IsPassive dummy dummy-IsWired 0

suspend_run :
    Shows hs_port (udc_suspend env dummy).1.hs_hcd false
    × Shows hs_port (udc_resume env dummy).1.hs_hcd true
suspend_run = udc_suspend-Shows env env-IsPassive dummy dummy-IsWired

-- A callback runs, and ends during the first sleep.
abbrev called : Dummy
called = record dummy { callback_usage = 1; ep = λ i. record (dummy.ep 0) { queue = [] } }

abbrev sleeps : List (Dummy → Dummy)
sleeps = (λ d. record d { callback_usage = 0 }) ∷ []

udc_stop_lem_example : udc_stop env sleeps called ≢ none
udc_stop_lem_example = (udc_stop_lem env sleeps called env-NoRequeue).1 1 (omega arith) refl

fourth : (x : Info) × (get_elem? ep_info 3 ≡ some x)
fourth = (_, refl)

init_run :
    IsFresh fourth.0 ((init_dummy_udc_hw dummy).ep 3)
    × (is_ep0 ((init_dummy_udc_hw dummy).ep 3) ≡ false)
init_run = init_dummy_udc_hw-IsFresh dummy 3 {x = fourth.0} fourth.1

-- The port sleeps, and the host has allowed a wakeup.
abbrev asleep : Dummy
asleep = record dummy {
  devstatus = λ i. i == Device.remote_wakeup;
  hs_hcd = record hs_port {
    port_status = raise (Port.power ∷ Port.connection ∷ Port.enable ∷ Port.suspend ∷ []) no_flags;
    active = false;
  };
}

wakeup_run : (wakeup env asleep).0 ≡ ret 0
wakeup_run = (wakeup_iff env asleep).0.1 (refl, refl, refl)

abbrev waking : Dummy
waking = record asleep { hs_hcd = record (asleep.hs_hcd) { resuming = true; re_timeout = 90 } }

waking-IsWaking : IsWaking waking
waking-IsWaking = record {
  ready = record { usb2 = refl; right_bus = refl; powered = refl; on = refl; awake = refl };
  accessible = refl;
  enabled = refl;
  resuming = refl;
}

hub_status-resumes_example :
    let (r, e) = hub_status env hs waking in
    (r ≡ ret 1)
    × (e.hs_hcd.active ≡ true)
    × (e.hs_hcd.port_status Port.suspend ≡ false)
    × (e.hs_hcd.port_status Port.c_suspend ≡ true)
    × (e.hs_hcd.resuming ≡ false)
hub_status-resumes_example =
    hub_status-resumes env waking env-IsPassive waking-IsWaking (omega arith)

asleep-IsAsleep : IsAsleep asleep
asleep-IsAsleep = record {
  ready = record { usb2 = refl; right_bus = refl; powered = refl; on = refl; awake = refl };
  accessible = refl;
  enabled = refl;
  connected = refl;
  suspended = refl;
  allowed = refl;
}

wakeup-resumes_example :
    let (r, e) = hub_status env hs (record (wakeup env asleep).1 { jiffies = 500 }) in
    ((wakeup env asleep).0 ≡ ret 0)
    × (r ≡ ret 1)
    × (e.hs_hcd.active ≡ true)
    × (e.hs_hcd.port_status Port.suspend ≡ false)
    × (e.hs_hcd.port_status Port.c_suspend ≡ true)
    × (e.hs_hcd.resuming ≡ false)
wakeup-resumes_example = wakeup-resumes env asleep 500 env-IsPassive asleep-IsAsleep (omega arith)

abbrev u2_setup : Setup
u2_setup = record { request_type = 0; request = 3; value = 49; index = 0; length = 0 }

u2_run : (wakeup env (set_feature ss u2_setup dummy).2).0 ≢ err einval
u2_run = wakeup-u2 env ss u2_setup dummy refl refl refl
