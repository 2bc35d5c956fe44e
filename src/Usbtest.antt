-- ===== src/Usbtest.antt =====
-- The patterns that the test driver writes into the buffers of its transfers and looks for in what
-- it reads: `simple_fill_buf`, `fz_simple_fill_buf` and `simple_check_buf` of
-- patch/kernel/usbtest.c. A buffer is the list of its bytes. `maxpacket` is what `get_maxpacket`
-- reads from the endpoint. `none` is undefined behaviour: an access behind the end of a buffer, or a
-- division by a packet size of 0.
pub mod Pattern
pub mod Select
pub mod Io
pub mod Halt
pub mod Ctrl
pub mod Descs
pub mod Ch9
pub mod Queue
pub mod Run
pub mod Bind
pub mod CtrlOut
use fuzzusb.Base.{
  ℕ, zero, suc, ◌+◌, ◌%◌, ◌^◌, Option, none, some, if◌then◌else◌, leb, ◌==◌, List, [], ◌∷◌, ◌++◌,
  length, take, drop,
}
use fuzzusb.Usb.{Ret, ret, err, einval}

abbrev pub guard_byte : ℕ
guard_byte = 165

-- `memset(buf, 0, len)`
abbrev pub zeros : ℕ → List ℕ
zeros zero = []
zeros (suc n) = 0 ∷ zeros n

-- The loop of `case 1`, with `len` rounds left
abbrev pub mod63 : ℕ → ℕ → ℕ → List ℕ
mod63 maxpacket i zero = []
mod63 maxpacket i (suc len) = i % maxpacket % 63 % 2 ^ 8 ∷ mod63 maxpacket (i + 1) len

-- The `switch` over the pattern: the bytes that are written
unfoldable pub fill_bytes : ℕ → ℕ → ℕ → Option (List ℕ)
fill_bytes pattern maxpacket len =
    if pattern == 1
    then (if maxpacket == 0
        then (if len == 0 then some [] else none)
        else some (mod63 maxpacket 0 len))
    else some (zeros len)

-- The first bytes of a buffer are written.
abbrev pub overwrite : List ℕ → List ℕ → List ℕ
overwrite bytes buf = bytes ++ drop (length bytes) buf

unfoldable pub simple_fill_buf : ℕ → ℕ → ℕ → List ℕ → Option (List ℕ)
unfolding fill_bytes
simple_fill_buf pattern maxpacket len buf =
    if leb len (length buf)
    then elim (fill_bytes pattern maxpacket len) [
      | none ↦ none
      | some bytes ↦ some (overwrite bytes buf)
    ]
    else none

-- `len` bytes are copied from the data to mutate with.
unfoldable pub fz_simple_fill_buf : List ℕ → ℕ → List ℕ → Option (List ℕ)
fz_simple_fill_buf source len buf =
    if leb len (length buf)
    then (if leb len (length source) then some (overwrite (take len source) buf) else none)
    else none

-- `guards` are the bytes between the aligned start of the allocation and the buffer.
unfoldable pub check_guard_bytes : List ℕ → Ret
check_guard_bytes [] = ret 0
check_guard_bytes (g ∷ gs) =
    let rest = check_guard_bytes gs in if g == guard_byte then rest else err einval

-- The byte that the pattern has at `i`, where `b` was read
unfoldable pub expected : ℕ → ℕ → ℕ → ℕ → Option ℕ
expected pattern maxpacket i b =
    if pattern == 0
    then some 0
    else if pattern == 1
    then (if maxpacket == 0 then none else some (i % maxpacket % 63 % 2 ^ 8))
    else some (if b == 0 then 1 else 0)

-- The loop of `simple_check_buf`, with `len` rounds left
unfoldable pub check_bytes : ℕ → ℕ → ℕ → ℕ → List ℕ → Option Ret
unfolding expected
check_bytes pattern maxpacket i zero buf = some (ret 0)
check_bytes pattern maxpacket i (suc len) [] = none
check_bytes pattern maxpacket i (suc len) (b ∷ bs) =
    let rest = check_bytes pattern maxpacket (i + 1) len bs in
    elim (expected pattern maxpacket i b) [
      | none ↦ none
      | some e ↦ if b == e then rest else some (err einval)
    ]

unfoldable pub simple_check_buf : List ℕ → ℕ → ℕ → ℕ → List ℕ → Option Ret
unfolding check_guard_bytes check_bytes
simple_check_buf guards pattern maxpacket len buf = elim (check_guard_bytes guards) [
  | err e ↦ some (err e)
  | ret v ↦ if v == 0 then check_bytes pattern maxpacket 0 len buf else some (ret v)
]
