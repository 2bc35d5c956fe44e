-- ===== src/Hub/Defined.antt =====
-- For which requests `dummy_hub_control` has defined behaviour, and how it refuses requests.
use fuzzusb.Base.{ℕ, ◌≤◌, true, none, some, ◌≡◌, ◌≢◌, ◌↔◌, refl, arith}
use fuzzusb.Usb.{err, epipe}
use fuzzusb.Dummy.{Dummy, Side, Env}
use fuzzusb.Dummy.Access.{hcd}
use fuzzusb.Link.{power_bit}
use fuzzusb.Hub.Port as HubPort
use fuzzusb.Hub.Control.{Request, Answer, untouched, hub_request, hub_control}

-- A feature selector of 32 or more, from a port request that uses it as a bit number
abbrev pub ShiftsTooFar : Dummy → Side → Request → ℕ → Type 0
ShiftsTooFar d s Request.clear_port_feature value = 32 ≤ value
ShiftsTooFar d s Request.set_port_feature value =
    (32 ≤ value) × ((hcd d s).port_status (power_bit (hcd d s)) ≡ true)
ShiftsTooFar d s _ value = ⊥

clear_port-none :
    (env : Env) (s : Side) (value : ℕ) (d : Dummy)
    → (HubPort.clear_port_feature env s value d ≡ none) ↔ (32 ≤ value)
unfolding HubPort.clear_port_feature
clear_port-none env s value d = (λ h. ground arith, λ h. ground arith)

set_port-none :
    (env : Env) (s : Side) (value : ℕ) (d : Dummy)
    → (HubPort.set_port_feature env s value d ≡ none)
      ↔ (32 ≤ value) × ((hcd d s).port_status (power_bit (hcd d s)) ≡ true)
unfolding HubPort.set_port_feature
set_port-none env s value d = (λ h. ground arith, λ h. ground arith)

hub_request-none :
    (env : Env) (s : Side) (req : Request) (v i l : ℕ) (d : Dummy)
    → (hub_request env s req v i l d ≡ none) ↔ ShiftsTooFar d s req v
unfolding hub_request
hub_request-none env s Request.clear_port_feature v i l d = (
  λ h. (clear_port-none env s v d).0 (ground arith),
  λ h. ground (arith, (clear_port-none env s v d).1 h),
)
hub_request-none env s Request.set_port_feature v i l d = (
  λ h. (set_port-none env s v d).0 (ground arith),
  λ h. ground (arith, (set_port-none env s v d).1 h),
)
hub_request-none env s _ v i l d = (λ h. cc, λ h. absurd h)

-- `dummy_hub_control` has undefined behaviour exactly if the hub is accessible and a port feature
-- of 32 or more is cleared, or is set on a port that has power.
pub hub_control-none :
    (env : Env) (s : Side) (req : Request) (v i l : ℕ) (d : Dummy)
    → (hub_control env s req v i l d ≡ none)
      ↔ ((hcd d s).hw_accessible ≡ true) × ShiftsTooFar d s req v
unfolding hub_control
hub_control-none env s req v i l d = (
  λ h. (ground arith, (hub_request-none env s req v i l d).0 (ground arith)),
  λ h. ground (arith, (hub_request-none env s req v i l d).1 h.1),
)

clear_port-refused :
    (env : Env) (s : Side) (v : ℕ) (d : Dummy) {d' : Dummy}
    → HubPort.clear_port_feature env s v d ≡ some (err epipe, d')
    → d' ≡ d
unfolding HubPort.clear_port_feature
clear_port-refused env s v d h = ground arith

set_port-refused :
    (env : Env) (s : Side) (v : ℕ) (d : Dummy) {d' : Dummy}
    → HubPort.set_port_feature env s v d ≡ some (err epipe, d')
    → d' ≡ d
unfolding HubPort.set_port_feature
set_port-refused env s v d h = ground arith

-- A protocol stall changes nothing: a request that is answered with -EPIPE leaves the controller and
-- the buffer as they were, unless it is a `GetPortStatus`, which always carries out its work.
pub stall_unchanged :
    (env : Env) (s : Side) (req : Request) (v i l : ℕ) (d : Dummy) {answer : Answer} {d' : Dummy}
    → hub_request env s req v i l d ≡ some (err epipe, answer, d')
    → req ≢ Request.get_port_status
    → (d' ≡ d) × (answer ≡ untouched)
unfolding hub_request
stall_unchanged env s Request.clear_port_feature v i l d {d' = e} h ne =
    ground (arith, clear_port-refused env s v d {d' = e})
stall_unchanged env s Request.set_port_feature v i l d {d' = e} h ne =
    ground (arith, set_port-refused env s v d {d' = e})
stall_unchanged env s Request.get_port_status v i l d h ne = absurd (ne refl)
stall_unchanged env s _ v i l d h ne = ground arith
