-- ===== src/Usbtest/Descs.antt =====
-- The checks of descriptors in patch/kernel/usbtest.c: `is_good_config`, `is_good_ext`,
-- `is_good_ss_cap`, `is_good_con_id`, and the loop of `ch9_postconfig` over device capabilities.
-- `none` is a read behind the end of the buffer `dev->buf`, which is the list of its bytes.
pub mod Good
use fuzzusb.Base.{
  ℕ, zero, suc, ◌+◌, ◌*◌, ◌/◌, ◌%◌, Bool, true, false, not, ◌&&◌, ◌||◌, Option, none, some, List,
  [], ◌∷◌, length, if◌then◌else◌, ltb, leb, ◌==◌,
}
use fuzzusb.Usb.{Ret, ret, err}

-- A byte; the reads below stay within the list.
abbrev pub get : List ℕ → ℕ → ℕ
get [] i = 0
get (b ∷ bs) zero = b
get (b ∷ bs) (suc i) = get bs i

abbrev pub read : List ℕ → ℕ → (ℕ → Option Bool) → Option Bool
read buf i next = if ltb i (length buf) then next (get buf i) else none

-- `le16_to_cpu` of a field
abbrev pub read16 : List ℕ → ℕ → (ℕ → Option Bool) → Option Bool
read16 buf i next = read buf i (λ low. read buf (i + 1) (λ high. next (low + 256 * high)))

-- `TBUF_SIZE`
abbrev pub tbuf_size : ℕ
tbuf_size = 256

-- `le16_to_cpu(config->wTotalLength) == len`, where `len` may be negative
abbrev pub is_length : ℕ → Ret → Bool
is_length total (ret n) = total == n
is_length total (err e) = false

-- `len < sizeof(*config)`: the comparison is unsigned, so that a negative `len` is a large one.
abbrev pub is_short : Ret → Bool
is_short (ret n) = ltb n 9
is_short (err e) = false

abbrev pub size_fits : List ℕ → Ret → Option Bool
size_fits buf len = read16 buf 2 (λ total. some (is_length total len || leb tbuf_size total))

abbrev pub attributes_fit : Bool → ℕ → Bool
attributes_fit realworld attr = (realworld || attr / 128 % 2 == 1) && attr % 32 == 0

unfoldable pub is_good_config : Bool → List ℕ → Ret → Option Bool
is_good_config realworld buf len =
    if is_short len
    then some false
    else read buf 1 (λ type.
      if type == 2 || type == 7
      then read buf 0 (λ size.
        if size == 9
        then read buf 7
            (λ attr. if attributes_fit realworld attr then size_fits buf len else some false)
        else some false)
      else some false)

-- `attr & ~0xfffe` is 0, byte by byte
unfoldable pub is_good_ext : List ℕ → ℕ → Option Bool
is_good_ext buf p = read buf p (λ size.
    if size == 7
    then read buf (p + 3) (λ a.
      read buf (p + 4) (λ b.
        read buf (p + 5) (λ c. read buf (p + 6) (λ d. some (a % 2 == 0 && c == 0 && d == 0)))))
    else some false)

unfoldable pub is_good_ss_cap : List ℕ → ℕ → Option Bool
is_good_ss_cap buf p = read buf p (λ size.
    if size == 10
    then read buf (p + 3) (λ attr.
      if attr == 0 || attr == 2
      then read16 buf (p + 4) (λ speeds. some (ltb speeds 16))
      else some false)
    else some false)

unfoldable pub is_good_con_id : List ℕ → ℕ → Option Bool
is_good_con_id buf p =
    read buf p (λ size. if size == 20 then read buf (p + 3) (λ r. some (r == 0)) else some false)

-- `buf + size > dev->buf + total || !is_good(dev, buf)`, negated
abbrev pub fits_and : ℕ → ℕ → ℕ → Option Bool → Option Bool
fits_and p size total good = if leb (p + size) total then good else some false

-- The `switch` over the capability at `p`
unfoldable pub good_cap : List ℕ → ℕ → ℕ → Option Bool
unfolding is_good_ext is_good_ss_cap is_good_con_id
good_cap buf total p = read buf (p + 1) (λ type.
    if type == 16
    then read buf (p + 2) (λ cap.
      if cap == 2
      then fits_and p 7 total (is_good_ext buf p)
      else if cap == 3
      then fits_and p 10 total (is_good_ss_cap buf p)
      else if cap == 4
      then fits_and p 20 total (is_good_con_id buf p)
      else some true)
    else some true)

-- `if (!good) return -EDOM`, and else the rounds that are left
abbrev pub and_all : Option Bool → Option Bool → Option Bool
and_all none rest = none
and_all (some false) rest = some false
and_all (some true) rest = rest

-- The loop over the capabilities, with `num` rounds left; the next header stands `length` bytes behind `p`.
unfoldable pub check_caps : List ℕ → ℕ → ℕ → ℕ → ℕ → Option Bool
check_caps buf total zero p step = some true
check_caps buf total (suc num) p step =
    if leb (p + step + 3) total
    then read buf (p + step)
        (λ size. and_all (good_cap buf total (p + step)) (check_caps buf total num (p + step) size))
    else some true
