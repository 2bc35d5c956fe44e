-- ===== src/Examples/HubRuns.antt =====
-- The root hub and the standard requests.
use fuzzusb.Base.{
  ℕ, ◌≡◌, ◌≤◌, ◌<◌, true, false, [], ◌∷◌, none, some, refl, arith, ◌||◌, ◌==◌, raise, no_flags,
  if◌then◌else◌,
}
use fuzzusb.Usb.{ret}
use fuzzusb.Usb.Port
use fuzzusb.Usb.Feature
use fuzzusb.Dummy.{Dummy, Setup, hs}
use fuzzusb.Hub.Port as HubPort
use fuzzusb.Hub.Control.{Request, hub_request, hub_control, untouched}
use fuzzusb.Hub.Defined.{hub_control-none, stall_unchanged}
use fuzzusb.Hub.Reset.{
  IsReady, IsResetting, IsReset, set_port_feature-IsResetting, get_port_status-IsReset,
  get_port_status-IsResetting,
}
use fuzzusb.Control.{set_feature, clear_feature, find_endpoint, find_from, set_feature_stat}
use fuzzusb.Control.{answers_to}
use fuzzusb.Base.{◌⊎◌}
use fuzzusb.Control.Find.{find_endpoint_lem, reachable, Answers}
use fuzzusb.Control.Features.{halt_feature, device_feature}
use fuzzusb.Examples.Data.{env, env-IsPassive, dummy, hs_port}

dummy-IsReady : IsReady dummy
dummy-IsReady = record { usb2 = refl; right_bus = refl; powered = refl; on = refl; awake = refl }

set_port_feature-IsResetting_example :
    (d' : Dummy) × (HubPort.set_port_feature env hs Feature.reset dummy ≡ some (ret 0, d'))
    × IsResetting d'
    × (d'.hs_hcd.re_timeout ≡ 150)
    × (d'.jiffies ≡ 100)
set_port_feature-IsResetting_example =
    set_port_feature-IsResetting env env-IsPassive dummy dummy-IsReady

-- In reset until 150, at 100 and at 160
abbrev in_reset : Dummy
in_reset = record dummy {
  hs_hcd = record hs_port {
    port_status = raise (Port.power ∷ Port.connection ∷ Port.reset ∷ []) no_flags;
    re_timeout = 150;
  };
}

abbrev late : Dummy
late = record in_reset { jiffies = 160 }

in_reset-IsResetting : IsResetting in_reset
in_reset-IsResetting = record {
  ready = record { usb2 = refl; right_bus = refl; powered = refl; on = refl; awake = refl };
  resetting = refl;
  disabled = refl;
  not_suspended = refl;
  not_resuming = refl;
}

late-IsResetting : IsResetting late
late-IsResetting = record {
  ready = record { usb2 = refl; right_bus = refl; powered = refl; on = refl; awake = refl };
  resetting = refl;
  disabled = refl;
  not_suspended = refl;
  not_resuming = refl;
}

early_run : IsResetting (HubPort.get_port_status env hs in_reset)
early_run =
    get_port_status-IsResetting env env-IsPassive in_reset in_reset-IsResetting (omega arith)

get_port_status-IsReset_example : IsReset late (HubPort.get_port_status env hs late)
get_port_status-IsReset_example =
    get_port_status-IsReset env env-IsPassive late late-IsResetting (omega arith)

-- Feature 40 is no bit of a port's status.
hub_control-none_example : hub_control env hs Request.clear_port_feature 40 1 0 dummy ≡ none
hub_control-none_example =
    (hub_control-none env hs Request.clear_port_feature 40 1 0 dummy).1 (refl, omega arith)

stall_run : (dummy ≡ dummy) × (untouched ≡ untouched)
unfolding hub_request
stall_run =
    stall_unchanged env hs Request.set_hub_feature 0 1 0 dummy {answer = untouched} {d' = dummy}
      refl (λ e. cc)

-- The endpoint with address 0x81 is the first of those that are enabled with it.
find_endpoint_example : find_endpoint dummy 129 ≡ some 1
unfolding find_endpoint find_from
find_endpoint_example = refl

find_endpoint_run :
    (reachable dummy ≡ true)
    × (1 < 31)
    × (◌≡◌ {A = ℕ} 1 0 × ((129 == 0 || 129 == 128) ≡ true)
        ⊎ (1 ≤ 1)
          × Answers dummy 129 1
          × ((j : ℕ) → 1 ≤ j → j < 1 → answers_to 129 (dummy.ep j).desc ≡ false))
find_endpoint_run = (find_endpoint_lem dummy 129).0 1 find_endpoint_example

halt_setup : Setup
halt_setup = record { request_type = 2; request = 3; value = 0; index = 129; length = 0 }

halt_run :
    (((set_feature hs halt_setup dummy).0 ≡ ret 0)
      × (((set_feature hs halt_setup dummy).2.ep 1).halted ≡ true))
    × (((clear_feature hs halt_setup dummy).0 ≡ ret 0)
        × (((clear_feature hs halt_setup dummy).2.ep 1).halted ≡ false))
unfolding halt_setup find_endpoint find_from
halt_run = halt_feature hs halt_setup dummy 1 refl refl refl

wakeup_setup : Setup
wakeup_setup = record { request_type = 0; request = 3; value = 1; index = 0; length = 0 }

device_run :
    (bit : ℕ) × (set_feature_stat false 1 ≡ some bit)
    × ((set_feature hs wakeup_setup dummy).2.devstatus 1 ≡ (1 == bit || false))
    × ((clear_feature hs wakeup_setup (set_feature hs wakeup_setup dummy).2).2.devstatus 1
        ≡ (if 1 == bit then false else false))
unfolding wakeup_setup set_feature clear_feature
device_run = device_feature hs wakeup_setup dummy 1 refl refl refl
