-- ===== src/Examples/CtrlRuns.antt =====
-- Queues of two control requests, each run twice, and of one whose device fails.
use fuzzusb.Base.{
  ℕ, zero, suc, ◌+◌, ◌≤◌, ◌<◌, ◌%◌, ◌≡◌, ◌⊎◌, refl, arith, true, Option, none, some, List, [], ◌∷◌,
  length,
}
use fuzzusb.Usb.{Ret, ret, err, epipe, high}
use fuzzusb.Usbtest.Ctrl.Cases.{Device, Expect, subcase}
use fuzzusb.Usbtest.Ctrl.{
  Ctx, Event, completed, goes_on, judge, step, run, submit_all, test_ctrl_queue,
}
use fuzzusb.Usbtest.Ctrl.Woken.{
  completions, queued_state, Awaited, ctrl_queue-Awaited, ctrl_queue_ends,
}
use fuzzusb.Usbtest.Ctrl.Order.{in_turn, test_ctrl_queue-in_turn}

abbrev camera : Device
camera = record { speed = high; max_packet_size0 = 64; bos = none; bcd_usb = 512 }

abbrev fine : ℕ → ℕ → Ret
fine d k = ret 0

fine_legal :
    (i k : ℕ) → k < 2 → judge (k % 16) (subcase camera (k % 16)).expected (fine i k) ≡ ret 0
fine_legal i zero h = refl
fine_legal i (suc zero) h = refl
fine_legal i (suc (suc k)) h = absurd (omega arith)

test_ctrl_queue-in_turn_example :
    test_ctrl_queue camera 2 2 true true (λ _. ret 0) (in_turn 2 fine 4 0 0) ≡ some (ret 0)
test_ctrl_queue-in_turn_example =
    test_ctrl_queue-in_turn camera 2 2 fine (omega arith) (omega arith) (omega arith) fine_legal

abbrev expects : ℕ → Expect
expects k = (subcase camera (k % 16)).expected

-- The first request fails; while its completion unlinks the second, that one completes too.
abbrev stalled : List Event
stalled = completed 0 (err epipe) (ret 0) ∷ goes_on ∷ completed 1 (ret 0) (ret 0) ∷ []

abbrev taken : ℕ → Ret
taken i = ret 0

abbrev and_then : Option Ctx → Ctx
and_then none = queued_state taken 0 0
and_then (some c) = c

after_stall : Ctx
unfolding run submit_all
after_stall = and_then (run 2 expects stalled (queued_state taken 2 1))

stall_ran : run 2 expects stalled (queued_state taken 2 1) ≡ some after_stall
unfolding run submit_all after_stall
stall_ran = refl

begun : 0 < (queued_state taken 2 1).pending
unfolding submit_all
begun = omega arith

ctrl_queue-Awaited_example :
    (completions stalled + after_stall.count ≡ (queued_state taken 2 1).count)
    × ((queued_state taken 2 1).count ≤ 2)
    × (after_stall.pending ≡ length after_stall.flight)
    × (after_stall.pending ≤ after_stall.count)
    × Awaited after_stall
ctrl_queue-Awaited_example =
    ctrl_queue-Awaited taken 2 1 expects stalled after_stall (omega arith) (omega arith) begun
      stall_ran

ctrl_queue_ends_example :
    (length stalled ≤ 5)
    × ((0 < after_stall.signals)
        ⊎ ((e : Event) × (d : Ctx) × (step 2 expects e after_stall ≡ some d)))
ctrl_queue_ends_example =
    ctrl_queue_ends taken 2 1 expects stalled after_stall (omega arith) (omega arith) begun
      stall_ran

-- The test is woken while the first completion is still at unlinking.
early_run : (after_stall.signals ≡ 1) × (after_stall.unlinker ≡ some (0, 2))
unfolding run submit_all after_stall
early_run = (refl, refl)

-- A resubmission that is refused is not reported.
abbrev refused : List Event
refused = completed 0 (ret 0) (err epipe) ∷ []

refused_run : test_ctrl_queue camera 1 5 true true taken refused ≡ some (ret 0)
unfolding test_ctrl_queue
refused_run = refl
