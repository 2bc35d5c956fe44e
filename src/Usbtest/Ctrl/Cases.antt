-- ===== src/Usbtest/Ctrl/Cases.antt =====
-- The requests that `test_ctrl_queue` of patch/kernel/usbtest.c queues, and which result each may have.
use fuzzusb.Base.{ℕ, ◌*◌, ◌-◌, Bool, true, false, Option, none, some, if◌then◌else◌, ltb, ◌==◌}
use fuzzusb.Usb.{
  Ret, ret, err, Errno, einval, enomem, eshutdown, einprogress, econnreset, eagain, enolink, eio,
  eoverflow, epipe, eproto, eopnotsupp, etimedout, ebusy, enodev, other, Speed, is_super, is_high,
}

-- The numbers of `errno.h`
abbrev pub errno_number : Errno → ℕ
errno_number einval = 22
errno_number enomem = 12
errno_number eshutdown = 108
errno_number einprogress = 115
errno_number econnreset = 104
errno_number eagain = 11
errno_number enolink = 67
errno_number eio = 5
errno_number eoverflow = 75
errno_number epipe = 32
errno_number eproto = 71
errno_number eopnotsupp = 95
errno_number etimedout = 110
errno_number ebusy = 16
errno_number enodev = 19
errno_number (other n) = n

-- `==` of two results
abbrev pub same_ret : Ret → Ret → Bool
same_ret (ret a) (ret b) = a == b
same_ret (err a) (err b) = errno_number a == errno_number b
same_ret _ _ = false

-- `expected`: 0 or a negative number is the result that the request must have; a positive one is the
-- number of an error that it may have.
pub data Expect : Type 0 where
  exactly : Ret → Expect
  allowed : Errno → Expect

-- `-EREMOTEIO`
abbrev pub eremoteio : Errno
eremoteio = other 121

-- What the subcases read of `struct usb_device`: `bos` is `wTotalLength`, if there is such a descriptor.
pub record Device : Type 0 where
  pub speed : Speed
  pub max_packet_size0 : ℕ
  pub bos : Option ℕ
  pub bcd_usb : ℕ

-- `struct usb_ctrlrequest` without its index, which is 0, with the direction of the pipe and `expected`
pub record Subcase : Type 0 where
  pub request_type : ℕ
  pub request : ℕ
  pub value : ℕ
  pub len : ℕ
  pub pipe_in : Bool
  pub expected : Expect

abbrev succeeds : Expect
succeeds = exactly (ret 0)

abbrev get_descriptor : ℕ → ℕ → Expect → Subcase
get_descriptor type len expected = record {
  request_type = 128;
  request = 6;
  value = 256 * type;
  len = len;
  pipe_in = true;
  expected = expected;
}

abbrev get_other : ℕ → ℕ → ℕ → Expect → Subcase
get_other request_type request len expected = record {
  request_type = request_type;
  request = request;
  value = 0;
  len = len;
  pipe_in = true;
  expected = expected;
}

-- `len` of case 14
abbrev fill_packet : Speed → ℕ → ℕ
fill_packet s size =
    let len = if is_super s then 512 else size in
    if len == 8 then 24 else if len == 16 then 32 else len

abbrev bos_length : Option ℕ → ℕ
bos_length none = 5
bos_length (some total) = total

-- The cases of the `switch` from 8 on
abbrev later_subcase : Device → ℕ → Subcase
later_subcase d n =
    if n == 8
    then record {
      request_type = 2;
      request = 1;
      value = 0;
      len = 0;
      pipe_in = false;
      expected = allowed epipe;
    }
    else if n == 9
    then get_other 130 0 2 succeeds
    else if n == 10
    then get_descriptor 2 1024 (exactly (err eremoteio))
    else if n == 11
    then get_descriptor 5 9 (allowed epipe)
    else if n == 12
    then get_descriptor 3 9 (allowed eremoteio)
    else if n == 13
    then get_descriptor 2 (if is_super d.speed then 512 else 1024 - d.max_packet_size0)
        (exactly (err eremoteio))
    else if n == 14
    then get_descriptor 1 (fill_packet d.speed d.max_packet_size0) (exactly (err eremoteio))
    else get_descriptor 15 (bos_length d.bos)
        (if ltb d.bcd_usb 513 then exactly (err epipe) else succeeds)

-- The `switch` over `i % NUM_SUBCASES`
abbrev pub subcase : Device → ℕ → Subcase
subcase d n =
    if n == 0
    then get_descriptor 1 18 succeeds
    else if n == 1
    then get_descriptor 2 9 succeeds
    else if n == 2
    then get_other 129 10 1 (allowed epipe)
    else if n == 3
    then get_other 129 0 2 succeeds
    else if n == 4
    then get_other 128 0 2 succeeds
    else if n == 5
    then get_descriptor 6 10 (if is_high d.speed then succeeds else allowed epipe)
    else if n == 6
    then get_descriptor 2 18 succeeds
    else if n == 7
    then get_descriptor 4 9 (exactly (err epipe))
    else later_subcase d n
