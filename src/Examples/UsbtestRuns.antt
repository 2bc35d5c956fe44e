-- ===== src/Examples/UsbtestRuns.antt =====
-- Buffers of the test driver: packets of 4 bytes, three guard bytes before the buffer.
use fuzzusb.Base.{ℕ, some, ◌≡◌, refl, arith, List, [], ◌∷◌, length, take, ◌↔◌}
use fuzzusb.Usb.{ret, err, einval}
use fuzzusb.Usbtest.{fill_bytes, simple_fill_buf, fz_simple_fill_buf, simple_check_buf}
use fuzzusb.Usbtest.Pattern.{
  guards_of, simple_check_buf_iff, simple_fill_buf-check, simple_check_buf-unsupported,
}

-- What a device left in the buffer
abbrev received : List ℕ
received = 0 ∷ 1 ∷ 2 ∷ 3 ∷ 0 ∷ 1 ∷ 9 ∷ 9 ∷ []

filled_run : simple_fill_buf 1 4 6 received ≡ some received
unfolding simple_fill_buf
filled_run = refl

mutated_run : fz_simple_fill_buf (7 ∷ 8 ∷ []) 2 received ≡ some (7 ∷ 8 ∷ 2 ∷ 3 ∷ 0 ∷ 1 ∷ 9 ∷ 9 ∷ [])
unfolding fz_simple_fill_buf
mutated_run = refl

bad_byte_run : simple_check_buf (guards_of 3) 1 4 7 received ≡ some (err einval)
unfolding simple_check_buf
bad_byte_run = refl

check_iff_run :
    (simple_check_buf (guards_of 3) 1 4 6 received ≡ some (ret 0))
    ↔ ((guards_of 3 ≡ guards_of 3) × (fill_bytes 1 4 6 ≡ some (take 6 received)))
check_iff_run =
    simple_check_buf_iff (guards_of 3) 1 4 6 received (omega arith) (omega arith) (omega arith)

simple_fill_buf-check_example :
    (filled : List ℕ) × (simple_fill_buf 1 4 8 received ≡ some filled)
    × (length filled ≡ 8)
    × (simple_check_buf (guards_of 3) 1 4 5 filled ≡ some (ret 0))
simple_fill_buf-check_example =
    simple_fill_buf-check 3 1 4 8 5 received (omega arith) (omega arith) (omega arith) (omega arith)

unsupported_run : simple_check_buf (guards_of 3) 2 4 1 received ≡ some (err einval)
unsupported_run =
    simple_check_buf-unsupported (guards_of 3) 2 4 1 received (omega arith) (omega arith)
      (omega arith)
