-- ===== src/Usbtest/Ctrl.antt =====
-- Queued control requests of patch/kernel/usbtest.c: the subcases, `ctrl_complete` and
-- `test_ctrl_queue`. An URB is its place in the queue. `flight` lists the URBs that the host core
-- has, oldest first. Where `ctrl_complete` drops its lock to unlink the other URBs, it stops, and goes
-- on by events of its own, so that other completions come between.
pub mod Cases
pub mod Counts
pub mod Woken
pub mod Order
use fuzzusb.Base.{
  ℕ, zero, suc, ◌+◌, ◌-◌, ◌*◌, ◌/◌, ◌%◌, ◌^◌, Bool, true, false, not, ◌&&◌, ◌||◌, Option, none,
  some, List, [], ◌∷◌, ◌++◌, if◌then◌else◌, ltb, ◌==◌, update,
}
use fuzzusb.Usb.{Ret, ret, err, Errno, enomem, econnreset, epipe, eopnotsupp, other}
use fuzzusb.Usbtest.Io.{is_zero}
use Cases.{Expect, exactly, allowed, same_ret, Device, Subcase, subcase}

-- `struct ctrl_ctx` with the host core's queue. `last` is `none` for -1; `live` says which URBs have
-- a `dev`; `signals` counts the calls of `complete`; `unlinker` is the URB whose completion is at
-- unlinking the others, with the `i` of its loop; `unlinked` lists the URBs that were unlinked.
pub record Ctx : Type 0 where
  pub count : ℕ
  pub pending : ℕ
  pub status : Ret
  pub last : Option ℕ
  pub live : ℕ → Bool
  pub flight : List ℕ
  pub signals : ℕ
  pub unlinker : Option (ℕ × ℕ)
  pub unlinked : List ℕ

-- `n--`, for an `unsigned`
abbrev pub decrement : ℕ → ℕ
decrement n = (n + 4294967295) % 4294967296

abbrev pub waits : ℕ → List ℕ → Bool
waits k [] = false
waits k (j ∷ js) = j == k || waits k js

abbrev pub take_out : ℕ → List ℕ → List ℕ
take_out k [] = []
take_out k (j ∷ js) = if j == k then js else j ∷ take_out k js

-- `subcase->number - ctx->last == 1`
abbrev pub follows : ℕ → Option ℕ → Bool
follows number none = false
follows number (some l) = number == l + 1

-- The status of a completion, where a fault that is expected or allowed counts as 0
abbrev pub faults_allowed : ℕ → Expect → Ret → Ret
faults_allowed number (allowed e) status =
    if same_ret status (err e) || is_zero status || (number == 12 && same_ret status (err epipe))
    then ret 0
    else status
faults_allowed number (exactly r) status =
    if number == 12 && same_ret status (err epipe) then ret 0 else status

abbrev pub is_expected : Expect → Ret → Bool
is_expected (exactly r) status = same_ret status r
is_expected (allowed e) status = false

abbrev pub judge : ℕ → Expect → Ret → Ret
judge number expected status =
    if is_expected expected status
    then ret 0
    else if same_ret status (err econnreset)
    then status
    else faults_allowed number expected status

-- `-EDOM`
abbrev pub edom : Errno
edom = other 33

-- The order of completions, then the judgement
abbrev pub judge_in_order : ℕ → Expect → Option ℕ → Ret → Ret
judge_in_order number expected last status =
    if ltb 0 number && not (follows number last) then err edom else judge number expected status

-- "signal completion when nothing's queued"
abbrev pub signal : Ctx → Ctx
signal c = if c.pending == 0 then record c { signals = c.signals + 1 } else c

abbrev pub retire : ℕ → Ctx → Ctx
retire k c = record c { live = update c.live k false }

-- "resubmit if we need to, else mark this as done"; `answer` is that of `usb_submit_urb`.
abbrev pub resubmit : ℕ → Ret → Ctx → Ctx
resubmit k answer c =
    if is_zero answer
    then record c { pending = c.pending + 1; flight = c.flight ++ k ∷ [] }
    else retire k c

unfoldable pub finish : ℕ → Ret → Ret → Ctx → Ctx
finish k status answer c =
    signal (if is_zero status && ltb c.pending c.count then resubmit k answer c else retire k c)

-- A completion, with the answer to a resubmission; or the completion that unlinks goes on.
pub data Event : Type 0 where
  completed : ℕ → Ret → Ret → Event
  goes_on : Event

abbrev pub and_then : Option Ctx → (Ctx → Option Ctx) → Option Ctx
and_then none rest = none
and_then (some c) rest = rest c

module _ (sglen : ℕ) (expect : ℕ → Expect) where
  -- What follows the judgement: the first error starts to unlink the other URBs.
  abbrev pub after_judge : ℕ → Ret → Ret → Ctx → Ctx
  after_judge k status answer c =
      if not (is_zero status) && is_zero c.status
      then record c { status = status; unlinker = some (k, 1) }
      else finish k status answer c

  -- `ctrl_complete`, for the URB at place `k`
  unfoldable pub ctrl_complete : ℕ → Ret → Ret → Ctx → Ctx
  unfolding finish
  ctrl_complete k status answer c =
      after_judge k (judge_in_order (k % 16) (expect k) c.last status) answer (record c {
        count = decrement c.count;
        pending = decrement c.pending;
        flight = take_out k c.flight;
        last = some (k % 16);
      })

  -- One round of the loop that unlinks, and what follows its end. `usb_unlink_urb` only tells the host
  -- core, which completes the URB later.
  abbrev pub unlink_one : ℕ → ℕ → ℕ → Ctx → Ctx
  unlink_one k i j c =
      if j == k || not (c.live j)
      then record c { unlinker = some (k, i + 1) }
      else record c { unlinker = some (k, i + 1); unlinked = j ∷ c.unlinked }

  abbrev pub unlink_round : Option (ℕ × ℕ) → Ctx → Option Ctx
  unlink_round none c = none
  unlink_round (some (k, i)) c = some (
      if ltb i sglen
      then unlink_one k i ((i + k % 16) % sglen) c
      else finish k c.status (ret 0) (record c { unlinker = none }))

  -- `none` if that cannot happen
  abbrev pub step : Event → Ctx → Option Ctx
  step (completed k status answer) c =
      if waits k c.flight then some (ctrl_complete k status answer c) else none
  step goes_on c = unlink_round c.unlinker c

  unfoldable pub run : List Event → Ctx → Option Ctx
  unfolding ctrl_complete
  run [] c = some c
  run (e ∷ es) c = and_then (step e c) (run es)

-- The loop that queues the URBs, with `n` left from place `i` on
unfoldable pub submit_all : (ℕ → Ret) → ℕ → ℕ → Ctx → Ctx
submit_all answers zero i c = c
submit_all answers (suc n) i c =
    let rest =
      submit_all answers n (i + 1)
        (record c { status = answers i; pending = c.pending + 1; flight = c.flight ++ i ∷ [] }) in
    if is_zero (answers i) then rest else record c { status = answers i; count = c.pending }

abbrev pub fresh : ℕ → Ctx
fresh count = record {
  count = count;
  pending = 0;
  status = err enomem;
  last = none;
  live = λ k. true;
  flight = [];
  signals = 0;
  unlinker = none;
  unlinked = [];
}

-- The wait, once the events have happened: `none` while it goes on
abbrev pub waited : Option Ctx → Option Ret
waited none = none
waited (some c) = if c.signals == 0 then none else some c.status

-- `table` and `room` are what the allocations answer.
unfoldable pub test_ctrl_queue : Device → ℕ → ℕ → Bool → Bool → (ℕ → Ret) → List Event → Option Ret
unfolding run submit_all
test_ctrl_queue d sglen iterations table room answers events =
    if sglen == 0 || ltb (4294967295 / sglen) iterations
    then some (err eopnotsupp)
    else if not (table && room)
    then some (err enomem)
    else let c = submit_all answers sglen 0 (fresh (sglen * iterations)) in
      if c.pending == 0
      then some c.status
      else waited (run sglen (λ k. (subcase d (k % 16)).expected) events c)
