-- ===== src/Usbtest/Io.antt =====
-- `simple_io` of patch/kernel/usbtest.c: transfers one after the other, with a pattern or the data of
-- the fuzzer.
pub mod Lengths
use fuzzusb.Base.{
  ℕ, zero, suc, ◌+◌, ◌-◌, ◌%◌, ◌^◌, Bool, true, false, not, ◌&&◌, Option, none, some, List,
  if◌then◌else◌, ltb, ◌==◌,
}
use fuzzusb.Usb.{Ret, ret, err, Errno, etimedout, other}
use fuzzusb.Usbtest.{simple_fill_buf, fz_simple_fill_buf, simple_check_buf}

-- `struct urb`, as far as the tests use it. `guards` are the bytes in front of the buffer, and
-- `maxpacket` is that of the endpoint of its pipe.
pub record TestUrb : Type 0 where
  pub is_in : Bool
  pub maxpacket : ℕ
  pub guards : List ℕ
  pub buf : List ℕ
  pub transfer_buffer_length : ℕ
  pub actual_length : ℕ
  pub zero_packet : Bool

-- What comes of `usb_submit_urb`: it is refused; or it completes with a status, the bytes of the
-- buffer, and how many of them were transferred; or it is killed after the timeout, with a status
pub data Answer : Type 0 where
  refused : Errno → Answer
  completed : Ret → ℕ → List ℕ → Answer
  killed : Ret → ℕ → List ℕ → Answer

-- The device under test and the host core, with a state `W`
pub record Device (W : Type 0) : Type 0 where
  pub submit : TestUrb → W → Answer × W
  -- `usb_get_std_status`: an error, or the status
  pub get_std_status : ℕ → W → (Ret × ℕ) × W
  pub set_halt : ℕ → W → Ret × W
  pub clear_halt : W → Ret × W

-- The state of the test: the URB and the world
pub record Io (W : Type 0) : Type 0 where
  pub urb : TestUrb
  pub world : W

abbrev pub is_zero : Ret → Bool
is_zero (ret zero) = true
is_zero _ = false

-- What an outgoing transfer sends; `host_data` is the data of the fuzzer, or `none` for NULL.
abbrev pub fill : ℕ → Option (List ℕ) → TestUrb → Option (List ℕ)
fill pattern none u = simple_fill_buf pattern u.maxpacket u.transfer_buffer_length u.buf
fill pattern (some source) u = fz_simple_fill_buf source u.transfer_buffer_length u.buf

abbrev pub filled : TestUrb → Option (List ℕ) → Option TestUrb
filled u none = none
filled u (some bytes) = some (record u { buf = bytes; zero_packet = true })

abbrev pub prepare : ℕ → Option (List ℕ) → TestUrb → Option TestUrb
prepare pattern host_data u = if u.is_in then some u else filled u (fill pattern host_data u)

-- `-ENOENT` is the status of an URB that was killed.
abbrev pub killed_status : Ret → Ret
killed_status (err (other n)) = if n == 2 then err etimedout else err (other n)
killed_status status = status

-- `len % max` for the sum `len` of two `int`s, which wraps around to `len - 2 ^ 32` from 2 ^ 31 on: the
-- remainder is then not positive, and these are its bits.
abbrev pub int_rem : ℕ → ℕ → ℕ
int_rem len max = if ltb len (2 ^ 31) then len % max else (2 ^ 32 - (2 ^ 32 - len) % max) % 2 ^ 32

-- `len += vary; len %= max` and what follows; `none` is a division by 0. `vary`, `max` and the length
-- before are `int`s from 0 on.
abbrev pub next_length : ℕ → ℕ → ℕ → Option ℕ
next_length vary max len =
    if vary == 0
    then some len
    else if max == 0
    then none
    else some (
        if int_rem (len + vary) max == 0
        then (if ltb vary max then vary else max)
        else int_rem (len + vary) max)

-- The rounds end with a result, the URB and the world.
pub data Rounds (W : Type 0) : Type 0 where
  undefined : Rounds W
  ended : Ret → Io W → Rounds W

module _ {W : Type 0} (device : Device W) (pattern : ℕ) (host_data : Option (List ℕ))
    (vary max : ℕ) where
  -- The end of a round, with `rest` for the rounds that are left
  abbrev pub vary_length : Ret → TestUrb → W → (TestUrb → W → Rounds W) → Option ℕ → Rounds W
  vary_length status u w rest none = undefined
  vary_length status u w rest (some len) =
      let u' = record u { transfer_buffer_length = len } in
      if is_zero status then rest u' w else ended status (record { urb = u'; world = w })

  abbrev pub after_check : TestUrb → W → (TestUrb → W → Rounds W) → Option Ret → Rounds W
  after_check u w rest none = undefined
  after_check u w rest (some status) =
      vary_length status u w rest (next_length vary max u.transfer_buffer_length)

  abbrev pub check_in : Ret → TestUrb → Option Ret
  check_in status u =
      if is_zero status && u.is_in
      then simple_check_buf u.guards pattern u.maxpacket u.actual_length u.buf
      else some status

  abbrev pub after_submit : TestUrb → (TestUrb → W → Rounds W) → Answer × W → Rounds W
  after_submit u rest (refused e, w) = ended (err e) (record { urb = u; world = w })
  after_submit u rest (completed status n bytes, w) =
      let u' = record u { buf = bytes; actual_length = n } in
      after_check u' w rest (check_in status u')
  after_submit u rest (killed status n bytes, w) =
      let u' = record u { buf = bytes; actual_length = n } in
      after_check u' w rest (check_in (killed_status status) u')

  abbrev pub submit_filled : (TestUrb → W → Rounds W) → W → Option TestUrb → Rounds W
  submit_filled rest w none = undefined
  submit_filled rest w (some u) = after_submit u rest (device.submit u w)

  unfoldable pub io_rounds : ℕ → TestUrb → W → Rounds W
  io_rounds zero u w = ended (ret 0) (record { urb = u; world = w })
  io_rounds (suc iterations) u w =
      submit_filled (io_rounds iterations) w (prepare pattern host_data u)

abbrev pub restore_length : {W : Type 0} → ℕ → Rounds W → Rounds W
restore_length max undefined = undefined
restore_length max (ended r s) =
    ended r (record s { urb = record s.urb { transfer_buffer_length = max } })

unfoldable pub simple_io :
    {W : Type 0} → Device W → ℕ → Option (List ℕ) → ℕ → ℕ → TestUrb → W → Rounds W
unfolding io_rounds
simple_io device pattern host_data iterations vary u w =
    restore_length u.transfer_buffer_length
      (io_rounds device pattern host_data vary u.transfer_buffer_length iterations u w)
