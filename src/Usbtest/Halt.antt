-- ===== src/Usbtest/Halt.antt =====
-- The tests of endpoint halts and data toggles of patch/kernel/usbtest.c: `verify_not_halted`,
-- `verify_halted`, `test_halt` and `test_toggle_sync`.
pub mod Cleared
use fuzzusb.Base.{
  ℕ, zero, suc, Bool, true, false, not, Option, none, some, List, if◌then◌else◌, ◌==◌,
}
use fuzzusb.Usb.{Ret, ret, err, Errno, einval, epipe}
use fuzzusb.Usbtest.Io.{TestUrb, Device, Io, is_zero, Rounds, undefined, ended, simple_io}

-- `retval == -EPIPE`
abbrev pub is_epipe : Ret → Bool
is_epipe (err epipe) = true
is_epipe _ = false

-- What follows a transfer, unless its result is not the expected one
abbrev pub expect : {W : Type 0} → (Ret → Bool) → (TestUrb → W → Rounds W) → Rounds W → Rounds W
expect ok next undefined = undefined
expect ok next (ended r s) = if ok r then next s.urb s.world else ended (err einval) s

abbrev pub finished : {W : Type 0} → TestUrb → W → Rounds W
finished u w = ended (ret 0) (record { urb = u; world = w })

-- What follows a step that returned 0 or more; a negative result is returned
abbrev pub if_ok : {W : Type 0} → (TestUrb → W → Rounds W) → Rounds W → Rounds W
if_ok next undefined = undefined
if_ok next (ended (ret n) s) = next s.urb s.world
if_ok next (ended (err e) s) = ended (err e) s

-- What follows a call that returned 0 or more
abbrev pub after_call : {W : Type 0} → (TestUrb → W → Rounds W) → TestUrb → Ret × W → Rounds W
after_call next u (err e, w) = ended (err e) (record { urb = u; world = w })
after_call next u (ret n, w) = next u w

module _ {W : Type 0} (device : Device W) (pattern : ℕ) (host_data : Option (List ℕ)) where
  -- One transfer
  abbrev pub one : TestUrb → W → Rounds W
  one u w = simple_io device pattern host_data 1 0 u w

  abbrev pub with_status : ℕ → (TestUrb → W → Rounds W) → TestUrb → (Ret × ℕ) × W → Rounds W
  with_status expected next u ((err e, status), w) = ended (err e) (record { urb = u; world = w })
  with_status expected next u ((ret n, status), w) =
      if status == expected then next u w else ended (err einval) (record { urb = u; world = w })

  unfoldable pub verify_not_halted : ℕ → TestUrb → W → Rounds W
  unfolding simple_io
  verify_not_halted ep u w =
      with_status 0 (λ u' w'. expect is_zero finished (one u' w')) u (device.get_std_status ep w)

  unfoldable pub verify_halted : ℕ → TestUrb → W → Rounds W
  unfolding simple_io
  verify_halted ep u w =
      with_status 1
        (λ u' w'. expect is_epipe (λ u'' w''. expect is_epipe finished (one u'' w'')) (one u' w')) u
        (device.get_std_status ep w)

  -- After `verify_halted`: the halt is cleared in any case.
  abbrev pub after_halted : (TestUrb → W → Rounds W) → Rounds W → Rounds W
  after_halted next undefined = undefined
  after_halted next (ended (err e) s) =
      ended (err e) (record s { world = (device.clear_halt s.world).1 })
  after_halted next (ended (ret n) s) = after_call next s.urb (device.clear_halt s.world)

  unfoldable pub test_halt : ℕ → TestUrb → W → Rounds W
  unfolding verify_not_halted verify_halted
  test_halt ep u w =
      if_ok
        (λ u1 w1.
          after_call
            (λ u2 w2.
              after_halted (λ u3 w3. if_ok finished (verify_not_halted ep u3 w3))
                (verify_halted ep u2 w2))
            u1 (device.set_halt ep w1))
        (verify_not_halted ep u w)

  unfoldable pub test_toggle_sync : TestUrb → W → Rounds W
  unfolding simple_io
  test_toggle_sync u w =
      after_call
        (λ u1 w1. expect is_zero (λ u2 w2. after_call one u2 (device.clear_halt w2)) (one u1 w1)) u
        (device.clear_halt w)
