-- ===== src/Examples/QueueRuns.antt =====
-- Two bulk URBs, each of them twice, and an isochronous transfer of 2500 bytes.
use fuzzusb.Base.{
  ℕ, ◌+◌, ◌*◌, ◌/◌, ◌≤◌, ◌<◌, ◌≡◌, ◌⊎◌, refl, arith, true, false, Option, none, some, List, [], ◌∷◌,
  length, ltb, if◌then◌else◌,
}
use fuzzusb.Usb.{ret, err, eio, high, Descriptor, isoc}
use fuzzusb.Usbtest.Queue.{
  IsoUrb, iso_alloc_urb, Context, Completion, complicated_callback, run, submit_all, test_queue,
}
use fuzzusb.Usbtest.Queue.Frames.{IsCut, iso_alloc_urb-IsCut}
use fuzzusb.Usbtest.Queue.Verdict.{
  queued_state, all_faults, queue_waits, test_queue-verdict, queue_all,
}

abbrev ep_iso : Descriptor
ep_iso = record {
  descriptor_type = 5;
  endpoint_address = 131;
  transfer_type = isoc;
  maxp = 1000;
  maxp_mult = 1;
}

iso_alloc_urb-IsCut_example :
    (u : IsoUrb) × (iso_alloc_urb high ep_iso 1 4 2500 ≡ some u)
    × (length u.iso_frame_desc ≡ u.number_of_packets)
    × IsCut 1000 0 u.transfer_buffer_length u.iso_frame_desc
    × (u.transfer_buffer_length ≡ 2500)
iso_alloc_urb-IsCut_example =
    iso_alloc_urb-IsCut high ep_iso 1 4 2500 (omega arith) (omega arith) (omega arith)

abbrev passed : ℕ → Completion
passed k = record {
  place = k;
  status = ret 0;
  error_count = 0;
  actual_length = 64;
  guards = [];
  answer = ret 0;
}

-- The URB at 1 is faster.
abbrev done : List Completion
done = passed 1 ∷ passed 0 ∷ passed 1 ∷ passed 0 ∷ []

abbrev state_or : Option Context → Context
state_or none = queued_state 0 0
state_or (some c) = c

after : Context
unfolding run submit_all
after = state_or (run false 0 64 done (queued_state 2 2))

ran : run false 0 64 done (queued_state 2 2) ≡ some after
unfolding run submit_all after complicated_callback
ran = refl

waits_run :
    (length done + after.count ≡ 4)
    × (after.pending ≡ length after.flight)
    × (after.pending ≤ after.count)
    × (((after.signals ≡ 0) × (0 < after.pending)) ⊎ ((0 < after.signals) × (after.pending ≡ 0)))
waits_run = queue_waits false 0 64 2 2 done after (omega arith) (omega arith) (omega arith) ran

woken : 0 < after.signals
unfolding run submit_all after complicated_callback
woken = omega arith

test_queue-verdict_example :
    test_queue false 0 64 2 2 true (λ _. ret 0) done
    ≡ some (
        if ltb (if false then length done * 0 / 10 else 0) (all_faults false 0 64 done)
        then err eio
        else ret 0)
test_queue-verdict_example =
    test_queue-verdict false 0 64 2 2 done after (omega arith) (omega arith) (omega arith) ran
      (omega arith) (refl, (refl, (refl, (refl, tt)))) woken

all_run : length done ≡ 4
all_run =
    queue_all false 0 64 2 2 done after (omega arith) (omega arith) (omega arith) ran
      (refl, (refl, (refl, (refl, tt)))) (refl, (refl, (refl, (refl, tt)))) woken
