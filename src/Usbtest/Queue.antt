-- ===== src/Usbtest/Queue.antt =====
-- Queued isochronous and bulk transfers of patch/kernel/usbtest.c: `iso_alloc_urb`,
-- `complicated_callback` and `test_queue`. An URB is its place in the array `urbs`; `flight` lists those
-- that the host core has. `none` is undefined behaviour: a division by 0, or a shift by a negative number.
pub mod Frames
pub mod Verdict
use fuzzusb.Base.{
  ℕ, zero, suc, ◌+◌, ◌-◌, ◌*◌, ◌/◌, ◌%◌, ◌^◌, min, Bool, true, false, not, ◌&&◌, ◌||◌, Option, none,
  some, List, [], ◌∷◌, ◌++◌, if◌then◌else◌, ltb, ◌==◌,
}
use fuzzusb.Usb.{
  Ret, ret, err, Errno, einval, enomem, eio, other, Speed, super, super_plus, Descriptor,
}
use fuzzusb.Usbtest.{check_guard_bytes}
use fuzzusb.Usbtest.Io.{is_zero}
use fuzzusb.Usbtest.Ctrl.{decrement, waits, take_out}

-- `struct usb_iso_packet_descriptor`
pub record Frame : Type 0 where
  pub length : ℕ
  pub offset : ℕ

-- The loop that fills in the packets, with `n` left from `i` on
unfoldable pub frames : ℕ → ℕ → ℕ → ℕ → List Frame
frames maxp i zero bytes = []
frames maxp i (suc n) bytes =
    record { length = min bytes maxp; offset = maxp * i }
    ∷ frames maxp (i + 1) n (bytes - min bytes maxp)

-- `speed >= USB_SPEED_SUPER`
abbrev pub at_least_super : Speed → Bool
at_least_super super = true
at_least_super super_plus = true
at_least_super _ = false

-- From the companion descriptor: `bmAttributes` and `bMaxBurst`
abbrev pub ss_isoc_get_packet_num : ℕ → ℕ → ℕ
ss_isoc_get_packet_num attributes max_burst = (1 + attributes % 4) * (1 + max_burst)

abbrev pub bytes_per_interval : Speed → Descriptor → ℕ → ℕ
bytes_per_interval speed desc ss_num =
    desc.maxp * (if at_least_super speed then ss_num else desc.maxp_mult)

-- What `iso_alloc_urb` fills in, apart from the buffer
pub record IsoUrb : Type 0 where
  pub number_of_packets : ℕ
  pub transfer_buffer_length : ℕ
  pub iso_frame_desc : List Frame
  pub interval : ℕ

unfoldable pub iso_alloc_urb : Speed → Descriptor → ℕ → ℕ → ℕ → Option IsoUrb
iso_alloc_urb speed desc ss_num b_interval bytes =
    let maxp = bytes_per_interval speed desc ss_num in
    let packets = (bytes + maxp - 1) / maxp in
    if maxp == 0 || b_interval == 0 || ltb 31 b_interval
    then none
    else some (record {
      number_of_packets = packets;
      transfer_buffer_length = bytes;
      iso_frame_desc = frames maxp 0 packets bytes;
      interval = 2 ^ (b_interval - 1);
    })

-- `struct transfer_context`, with the host core's queue; `signals` counts the calls of `complete`.
pub record Context : Type 0 where
  pub count : ℕ
  pub pending : ℕ
  pub submit_error : Bool
  pub errors : ℕ
  pub packet_count : ℕ
  pub flight : List ℕ
  pub signals : ℕ

-- An URB completes, with the guard bytes before its buffer, and with the answer to a resubmission.
pub record Completion : Type 0 where
  pub place : ℕ
  pub status : Ret
  pub error_count : ℕ
  pub actual_length : ℕ
  pub guards : List ℕ
  pub answer : Ret

module _ (is_iso : Bool) (packets len : ℕ) where
  -- How many errors a completion is
  abbrev pub faults : Completion → ℕ
  faults e =
      if ltb 0 e.error_count
      then e.error_count
      else if not (is_zero e.status)
      then (if is_iso then packets else 1)
      else if not (e.actual_length == len)
      then 1
      else if is_zero (check_guard_bytes e.guards)
      then 0
      else 1

  abbrev pub tally : Completion → Context → Context
  tally e c = record c {
    count = decrement c.count;
    packet_count = c.packet_count + packets;
    errors = c.errors + faults e;
    flight = take_out e.place c.flight;
  }

  abbrev pub signal : Context → Context
  signal c = if c.pending == 0 then record c { signals = c.signals + 1 } else c

  abbrev pub give_up : Context → Context
  give_up c = signal (record c { pending = decrement c.pending })

  -- `usb_submit_urb`, by its answer
  abbrev pub resubmit : ℕ → Ret → Context → Context
  resubmit k answer c =
      if is_zero answer
      then record c { flight = c.flight ++ k ∷ [] }
      else give_up (record c { submit_error = true })

  abbrev pub is_left : Completion → Context → Bool
  is_left e c = is_zero e.status && ltb (decrement c.pending) c.count && not c.submit_error

  abbrev pub go_further : Completion → Context → Context
  go_further e c = if is_left e c then resubmit e.place e.answer c else give_up c

  unfoldable pub complicated_callback : Completion → Context → Context
  complicated_callback e c = go_further e (tally e c)

  abbrev pub and_then : Option Context → (Context → Option Context) → Option Context
  and_then none rest = none
  and_then (some c) rest = rest c

  -- `none` if an URB completes that is not queued
  unfoldable pub run : List Completion → Context → Option Context
  run [] c = some c
  run (e ∷ es) c = if waits e.place c.flight then run es (complicated_callback e c) else none

-- The loop that submits the URBs, with `n` left from `i` on, and the last status; `none` if the first
-- one is refused.
unfoldable pub submit_all : (ℕ → Ret) → ℕ → ℕ → Context → Ret × Context
submit_all answers zero i c = (ret 0, c)
submit_all answers (suc n) i c =
    let rest =
      submit_all answers n (i + 1)
        (record c { pending = c.pending + 1; flight = c.flight ++ i ∷ [] }) in
    if is_zero (answers i) then rest else (answers i, record c { submit_error = true })

abbrev pub fresh : ℕ → Context
fresh count = record {
  count = count;
  pending = 0;
  submit_error = false;
  errors = 0;
  packet_count = 0;
  flight = [];
  signals = 0;
}

-- `-EACCES`
abbrev pub eacces : Errno
eacces = other 13

-- The result, once the test was woken
abbrev pub verdict : Bool → Ret → Context → Ret
verdict is_iso status c =
    if not (is_zero status)
    then status
    else if c.submit_error
    then err eacces
    else if ltb (if is_iso then c.packet_count / 10 else 0) c.errors
    then err eio
    else ret 0

abbrev pub waited : Bool → Ret → Option Context → Option Ret
waited is_iso status none = none
waited is_iso status (some c) = if c.signals == 0 then none else some (verdict is_iso status c)

-- The wait: nothing was submitted if the first URB was refused.
abbrev pub after_submits : Bool → ℕ → ℕ → List Completion → Ret × Context → Option Ret
after_submits is_iso packets len es (status, c) =
    if c.pending == 0 then some status else waited is_iso status (run is_iso packets len es c)

-- `room` is what the allocations answer.
unfoldable pub test_queue : Bool → ℕ → ℕ → ℕ → ℕ → Bool → (ℕ → Ret) → List Completion → Option Ret
unfolding run submit_all complicated_callback
test_queue is_iso packets len sglen iterations room answers es =
    if sglen == 0 || ltb (4294967295 / sglen) iterations || ltb 128 sglen
    then some (err einval)
    else if not room
    then some (err enomem)
    else after_submits is_iso packets len es
        (submit_all answers sglen 0 (fresh (iterations * sglen)))
