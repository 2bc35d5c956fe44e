-- ===== src/Timer.antt =====
-- The timer that moves the bytes of both sides: `dummy_timer` of patch/kernel/dummy_hcd.c. The kernel
-- has taken the timer off its list when it calls this. `total` is only tested for being positive and
-- used as a limit when it is, so that it stops at 0.
pub mod Cancel
use fuzzusb.Base.{
  ℕ, zero, suc, ◌+◌, ◌-◌, ◌*◌, Bool, true, false, not, ◌&&◌, Option, none, some, if◌then◌else◌, ltb,
  ◌==◌, max, length, List, [], ◌∷◌,
}
use fuzzusb.Usb.{
  Ret, ret, err, einprogress, eoverflow, epipe, eproto, is_inprogress, Speed, low, full, high,
  super, TransferType, isoc, interrupt, control, bulk,
}
use fuzzusb.Dummy.{Dummy, Ep, Urb, Hcd, Env, Side, Event, Setup, Driver, dummy_endpoints}
use fuzzusb.Dummy.Access.{
  hcd, set_hcd, set_ep, set_req, set_urb, log, is_running, is_empty, remove, giveback,
}
use fuzzusb.Control.{find_endpoint, handle_control_request}
use fuzzusb.Perform.{SgMiter}
use fuzzusb.Transfer.{Transferred, done, trapped, transfer, periodic_bytes}

-- The bytes of a frame
abbrev pub frame_bytes : Speed → ℕ
frame_bytes low = 8 * 12
frame_bytes full = 64 * 19
frame_bytes high = 512 * 13 * 8
frame_bytes super = 490000
frame_bytes _ = 0

-- How the body of the loop over the URBs ends: `continue`, `goto restart`, `goto return_urb` with a
-- status and the endpoint if one was found, a fault (a NULL pointer or a division by zero), or the
-- end of the fuel of `transfer`
pub data Visit : Type 0 where
  skip restart : ℕ → Dummy → Visit
  return_urb : Ret → Option ℕ → ℕ → Dummy → Visit
  fault no_fuel : Visit

-- The end of the body: is the transfer incomplete?
abbrev pub after_transfer : ℕ → ℕ → Transferred → Visit
after_transfer i total (done p) =
    if is_inprogress p.status
    then skip (total - p.sent) p.state
    else return_urb p.status (some i) (total - p.sent) p.state
after_transfer i total trapped = fault
after_transfer i total Transferred.out_of_fuel = no_fuel

abbrev pub touch : ℕ → Dummy → Dummy
touch i d = set_ep i (record (d.ep i) { last_io = d.jiffies }) d

-- `treat_control_like_bulk`
unfoldable pub bulk_like : Env → SgMiter → Side → ℕ → ℕ → ℕ → ℕ → Dummy → Visit
unfolding transfer
bulk_like env miter s u i limit total d =
    after_transfer i total (transfer env miter s u i limit (touch i d))

-- `setup()` of the gadget driver, counted by `callback_usage`
unfoldable pub call_setup : Env → Setup → Dummy → Ret × Dummy
call_setup env setup d =
    let (value, d') = env.setup setup (record d { callback_usage = d.callback_usage + 1 }) in
    (value, record d' { callback_usage = d'.callback_usage - 1 })

-- `value < 0`
abbrev pub fail_setup : ℕ → ℕ → Dummy → Visit
fail_setup u total d =
    return_urb (err epipe) (some 0) total (set_urb u (record (d.urbs u) { actual_length = 0 }) d)

abbrev pub setup_done : Env → SgMiter → Side → ℕ → ℕ → Ret → Dummy → Visit
setup_done env miter s u total (ret n) d = bulk_like env miter s u 0 (64 * 1024) total d
setup_done env miter s u total (err e) d = fail_setup u total d

-- The request goes to the gadget driver, unless the controller has handled or refused it.
abbrev pub ask_driver : Env → SgMiter → Side → ℕ → Setup → ℕ → Option Driver → Dummy → Visit
ask_driver env miter s u setup total none d = fault
ask_driver env miter s u setup total (some driver) d =
    let (value, d') = call_setup env setup d in setup_done env miter s u total value d'

abbrev pub status_or : Option Ret → Ret
status_or none = err einprogress
status_or (some status) = status

abbrev pub control_done : Env → SgMiter → Side → ℕ → Setup → ℕ → Ret → Option Ret → Dummy → Visit
control_done env miter s u setup total (ret zero) status d =
    return_urb (status_or status) (some 0) total d
control_done env miter s u setup total (ret (suc n)) status d =
    ask_driver env miter s u setup total d.driver d
control_done env miter s u setup total (err e) status d = fail_setup u total d

-- The setup stage of a control request, with no request left on `ep0`
unfoldable pub begin_setup : Env → SgMiter → Side → ℕ → ℕ → Dummy → Visit
unfolding call_setup bulk_like
begin_setup env miter s u total d =
    let setup = (d.urbs u).setup_packet in
    let d' =
      set_ep 0 (record (d.ep 0) { last_io = d.jiffies; setup_stage = false; halted = false }) d in
    let (value, status, d'') = handle_control_request s u setup d' in
    control_done env miter s u setup total value status d''

-- A stale request fails.
unfoldable pub drop_stale : Env → ℕ → List ℕ → Dummy → Dummy
unfolding giveback
drop_stale env r rs d =
    let d' = giveback env 0 r (
      set_req r (record (d.reqs r) { linked = false; status = err eoverflow })
        (set_ep 0 (record (d.ep 0) { queue = rs }) d)) in
    set_ep 0 (record (d'.ep 0) { already_seen = false }) d'

abbrev pub control_request : Env → SgMiter → Side → ℕ → ℕ → List ℕ → Dummy → Visit
control_request env miter s u total [] d = begin_setup env miter s u total d
control_request env miter s u total (r ∷ rs) d = restart total (drop_stale env r rs d)

abbrev is_periodic : TransferType → Bool
is_periodic isoc = true
is_periodic interrupt = true
is_periodic _ = false

unfoldable pub data_request : Env → SgMiter → Side → ℕ → ℕ → ℕ → Dummy → Visit
unfolding bulk_like periodic_bytes
data_request env miter s u i total d =
    if is_periodic (d.urbs u).pipe_type
    then elim (periodic_bytes d.speed (d.ep i)) [
      | none ↦ fault
      | some n ↦ bulk_like env miter s u i (max total n) total d
    ]
    else bulk_like env miter s u i total total d

-- From the mark `already_seen` on: a new control URB starts a setup stage.
abbrev pub begin_urb : ℕ → ℕ → Dummy → Dummy
begin_urb u i d =
    let d' = set_ep i (record (d.ep i) { already_seen = true }) d in
    if i == 0 && not ((d.urbs u).error_count == 0)
    then set_urb u (record (d'.urbs u) { error_count = 0 })
        (set_ep i (record (d'.ep i) { setup_stage = true }) d')
    else d'

unfoldable pub serve_urb : Env → SgMiter → Side → ℕ → ℕ → ℕ → Dummy → Visit
unfolding begin_setup drop_stale data_request
serve_urb env miter s u i total d =
    let d' = begin_urb u i d in
    let e = d'.ep i in
    if e.halted && not e.setup_stage
    then return_urb (err epipe) (some i) total d'
    else if i == 0 && e.setup_stage
    then control_request env miter s u total e.queue d'
    else data_request env miter s u i total d'

abbrev pub urb_address : Urb → ℕ
urb_address x = if x.dir_in then x.endpoint + 128 else x.endpoint

-- An URB that the gadget answers, if it has the endpoint
abbrev pub find_and_serve : Env → SgMiter → Side → ℕ → ℕ → Dummy → Option ℕ → Visit
find_and_serve env miter s u total d none = return_urb (err eproto) none total d
find_and_serve env miter s u total d (some i) =
    if (d.ep i).already_seen then skip total d else serve_urb env miter s u i total d

-- The body of the loop, for one URB
unfoldable pub visit : Env → SgMiter → Side → ℕ → ℕ → Dummy → Visit
visit env miter s u total d =
    if (d.urbs u).unlinked
    then return_urb (err einprogress) none total d
    else if not (is_running (hcd d s).rh_state)
    then skip total d
    else if total == 0
    then skip total d
    else find_and_serve env miter s u total d (find_endpoint d (urb_address (d.urbs u)))

abbrev forget_ep : Option ℕ → Dummy → Dummy
forget_ep none d = d
forget_ep (some i) d = set_ep i (record (d.ep i) { already_seen = false; setup_stage = false }) d

-- `return_urb`: the URB leaves the list and is given back to the host core.
unfoldable pub give_urb_back : Env → Side → ℕ → Ret → Option ℕ → Dummy → Dummy
give_urb_back env s u status ep d =
    let h = hcd d s in
    let d' = forget_ep ep (set_hcd s (record h { urbp_list = remove u h.urbp_list }) d) in
    env.giveback_urb s u status (log (Event.gave_urb s u status) d')

-- How a pass over the list of URBs ends
pub data Pass : Type 0 where
  ended again : ℕ → Dummy → Pass
  failed starved : Pass

abbrev pub after_visit : Env → Side → ℕ → (ℕ → Dummy → Pass) → Visit → Pass
after_visit env s u rest (skip total d) = rest total d
after_visit env s u rest (restart total d) = again total d
after_visit env s u rest (return_urb status ep total d) =
    again total (give_urb_back env s u status ep d)
after_visit env s u rest fault = failed
after_visit env s u rest no_fuel = starved

-- `urbp == dum_hcd->next_frame_urbp`
abbrev pub is_mark : ℕ → Option ℕ → Bool
is_mark u none = false
is_mark u (some v) = u == v

-- `list_for_each_entry_safe`. URBs that are queued while the loop runs stand behind the others, and
-- the first of them is `next_frame_urbp`, which ends the loop: so the list is read once.
unfoldable pub pass_urbs : Env → SgMiter → Side → List ℕ → ℕ → Dummy → Pass
pass_urbs env miter s [] total d = ended total d
pass_urbs env miter s (u ∷ us) total d =
    let rest = pass_urbs env miter s us in
    if is_mark u (hcd d s).next_frame_urbp
    then ended total d
    else after_visit env s u rest (visit env miter s u total d)

-- What the timer comes to: it returns, it hits a fault, or the fuel is used up.
pub data Timed : Type 0 where
  returned : Dummy → Timed
  faulted out_of_fuel : Timed

-- After the loop: the device is let go, or the timer is started for the next frame.
unfoldable pub next_frame : Env → Side → Dummy → Dummy
next_frame env s d =
    let h = hcd d s in
    if is_empty h.urbp_list
    then set_hcd s (record h { udev = none }) d
    else if is_running h.rh_state
    then set_hcd s (record h { timer = some (d.jiffies + env.msecs_to_jiffies 1) }) d
    else d

abbrev pub after_pass : Env → Side → (ℕ → Dummy → Timed) → Pass → Timed
after_pass env s restarted (ended total d) = returned (next_frame env s d)
after_pass env s restarted (again total d) = restarted total d
after_pass env s restarted failed = faulted
after_pass env s restarted starved = out_of_fuel

-- `restart:`, with fuel
unfoldable pub timer_loop : Env → SgMiter → Side → ℕ → ℕ → Dummy → Timed
timer_loop env miter s zero total d = out_of_fuel
timer_loop env miter s (suc fuel) total d =
    after_pass env s (timer_loop env miter s fuel)
      (pass_urbs env miter s (hcd d s).urbp_list total d)

-- `next_frame_urbp = NULL`, and no endpoint was seen yet.
abbrev pub begin_frame : Side → Dummy → Dummy
begin_frame s d =
    set_hcd s (record (hcd d s) { next_frame_urbp = none })
      (record d {
        ep =
            λ i. if ltb i dummy_endpoints then record (d.ep i) { already_seen = false } else d.ep i;
      })

abbrev pub has_device : Option ℕ → Bool
has_device none = false
has_device (some dev) = true

-- Each restart takes an URB off the list, or a request off the queue of `ep0`.
unfoldable pub run_timer : Env → SgMiter → Side → Dummy → Timed
run_timer env miter s d =
    if has_device (hcd d s).udev
    then timer_loop env miter s (length (hcd d s).urbp_list + length (d.ep 0).queue + 1)
        (frame_bytes d.speed) (begin_frame s d)
    else returned d
