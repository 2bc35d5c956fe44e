-- ===== src/Usbtest/Io/Lengths.antt =====
-- `simple_io` is defined, and what it submits stays within its buffer.
use mathlib.Core.Path.{subst}
use fuzzusb.Base.{
  ℕ, zero, suc, ◌+◌, ◌≤◌, ◌<◌, ◌%◌, ◌^◌, ◌≡◌, ◌⊎◌, refl, sym, true, false, ◌&&◌, Option, none, some,
  List, [], ◌∷◌, length, take, length-take, arith, pick, Bool-cases, inl, inr, ltb, leb, ◌==◌,
  if◌then◌else◌,
}
use fuzzusb.Usb.{Ret, ret, err, einval}
use fuzzusb.Usbtest.{
  zeros, mod63, fill_bytes, simple_fill_buf, fz_simple_fill_buf, expected, check_bytes,
  simple_check_buf,
}
use fuzzusb.Usbtest.Pattern.{length-zeros, length-mod63, length-overwrite, guards_result}
use fuzzusb.Usbtest.Io.{
  TestUrb, Answer, refused, completed, killed, Device, is_zero, fill, filled, prepare,
  killed_status, next_length, Rounds, undefined, ended, vary_length, after_check, check_in,
  after_submit, submit_filled, io_rounds, restore_length, simple_io,
}

abbrev HasLength : ℕ → Option (List ℕ) → Type 0
HasLength n none = ⊥
HasLength n (some bytes) = length bytes ≡ n

abbrev IsSome {ℓ} : {A : Type ℓ} → Option A → Type 0
IsSome none = ⊥
IsSome (some a) = Unit {0}

fill_bytes_total :
    (p m n : ℕ) → 0 < m → (bytes : List ℕ) × (fill_bytes p m n ≡ some bytes) × (length bytes ≡ n)
unfolding fill_bytes
fill_bytes_total p m n pos = elim (Bool-cases (p == 1)) [
  | inl e ↦ (mod63 m 0 n, ground arith, length-mod63 m 0 n)
  | inr e ↦ (zeros n, ground arith, length-zeros n)
]

simple_fill_buf_total :
    (p m n : ℕ) (buf : List ℕ)
    → 0 < m
    → n ≤ length buf
    → HasLength (length buf) (simple_fill_buf p m n buf)
unfolding simple_fill_buf
simple_fill_buf_total p m n buf pos h =
    let (bytes, e, l) = fill_bytes_total p m n pos in
    let fits : leb n (length buf) ≡ true = ground arith in
    rw (fits, e) (length-overwrite bytes buf (omega (arith, l)))

fz_simple_fill_buf_total :
    (source : List ℕ) (n : ℕ) (buf : List ℕ)
    → n ≤ length source
    → n ≤ length buf
    → HasLength (length buf) (fz_simple_fill_buf source n buf)
unfolding fz_simple_fill_buf
fz_simple_fill_buf_total source n buf l h =
    let fits : leb n (length buf) ≡ true = ground arith in
    let there : leb n (length source) ≡ true = ground arith in
    rw (fits, there) (length-overwrite (take n source) buf (omega (arith, length-take n source)))

expected_total : (p m i b : ℕ) → 0 < m → (e : ℕ) × (expected p m i b ≡ some e)
unfolding expected
expected_total p m i b pos = elim (Bool-cases (p == 0)) [
  | inl z ↦ (0, ground arith)
  | inr z ↦ elim (Bool-cases (p == 1)) [
    | inl o ↦ (i % m % 63 % 256, ground arith)
    | inr o ↦ (if b == 0 then 1 else 0, ground arith)
  ]
]

check_bytes_total :
    (p m i n : ℕ) (buf : List ℕ) → 0 < m → n ≤ length buf → IsSome (check_bytes p m i n buf)
unfolding check_bytes
check_bytes_total p m i zero buf pos h = tt
check_bytes_total p m i (suc n) [] pos h = elim h [ ]
check_bytes_total p m i (suc n) (b ∷ bs) pos h =
    let rest = check_bytes p m (i + 1) n bs in
    let (e, q) = expected_total p m i b pos in
    subst
      (λ (o : Option ℕ).
        IsSome {A = Ret}
          (elim o [ none ↦ none | some x ↦ if b == x then rest else some (err einval) ]))
      (sym q)
      (pick IsSome (b == e) rest (some (err einval))
        (λ _. check_bytes_total p m (i + 1) n bs pos (omega arith)) (λ _. tt))

simple_check_buf_total :
    (gs : List ℕ) (p m n : ℕ) (buf : List ℕ)
    → 0 < m
    → n ≤ length buf
    → IsSome (simple_check_buf gs p m n buf)
unfolding simple_check_buf
simple_check_buf_total gs p m n buf pos h =
    let bytes = check_bytes p m 0 n buf in
    let known = λ (o : Ret).
      IsSome {A = Ret}
        (elim o [ err e ↦ some (err e) | ret v ↦ if v == 0 then bytes else some (ret v) ]) in
    elim (guards_result gs) [
      | inl e ↦ subst known (sym e) (check_bytes_total p m 0 n buf pos h)
      | inr e ↦ subst known (sym e) tt
    ]

-- An URB with room for what it transfers, up to `max` bytes
abbrev pub Good : ℕ → TestUrb → Type 0
Good max u =
    (1 ≤ u.transfer_buffer_length)
    × (u.transfer_buffer_length ≤ max)
    × (max ≤ length u.buf)
    × (0 < u.maxpacket)

-- What the host core answers to an URB, with a property of the world
abbrev pub Answers : {W : Type 0} → (W → Type 0) → TestUrb → Answer × W → Type 0
Answers P u (refused e, w) = P w
Answers P u (completed status n bytes, w) =
    (n ≤ u.transfer_buffer_length) × (length bytes ≡ length u.buf) × P w
Answers P u (killed status n bytes, w) =
    (n ≤ u.transfer_buffer_length) × (length bytes ≡ length u.buf) × P w

-- The transfers end, with the length of the URB as given and the property kept.
abbrev pub EndsWith : {W : Type 0} → (W → Type 0) → (TestUrb → Type 0) → Rounds W → Type 0
EndsWith P Q undefined = ⊥
EndsWith P Q (ended r s) = P s.world × Q s.urb

-- The data of the fuzzer, if it is used, is long enough.
abbrev pub Enough : ℕ → Option (List ℕ) → Type 0
Enough max none = Unit {0}
Enough max (some source) = max ≤ length source

varied_bounds :
    (m vary max : ℕ)
    → m < max
    → (vary == 0) ≡ false
    → (1 ≤ (if m == 0 then (if ltb vary max then vary else max) else m))
      × ((if m == 0 then (if ltb vary max then vary else max) else m) ≤ max)
varied_bounds m vary max l v = (ground arith, ground arith)

mod_lt : (a b : ℕ) → 0 < b → a % b < b
mod_lt a b h = grind arith

next_length_bounds :
    (vary max len : ℕ)
    → 1 ≤ len
    → len ≤ max
    → (vary ≡ 0) ⊎ (vary + max < 2 ^ 31)
    → (n : ℕ) × (next_length vary max len ≡ some n) × (1 ≤ n) × (n ≤ max)
next_length_bounds vary max len l h b = elim (Bool-cases (vary == 0)) [
  | inl z ↦ (len, rw z refl, l, h)
  | inr v ↦
      let m = (len + vary) % max in
      let n = if m == 0 then (if ltb vary max then vary else max) else m in
      let pos : (max == 0) ≡ false = ground arith in
      let small : ltb (len + vary) (2 ^ 31) ≡ true = ground arith in
      let k = varied_bounds m vary max (mod_lt (len + vary) max (omega arith)) v in
      (n, rw (v, pos, small) refl, k.0, k.1)
]

module _ {W : Type 0} (device : Device W) (pattern : ℕ) (host_data : Option (List ℕ)) (vary max : ℕ)
    (P : W → Type 0)
    (fair : (u : TestUrb) (w : W) → Good max u → P w → Answers P u (device.submit u w))
    (enough : Enough max host_data) (small : (vary ≡ 0) ⊎ (vary + max < 2 ^ 31)) where
  abbrev E : Rounds W → Type 0
  E = EndsWith P (Good max)

  vary_length-EndsWith :
      (status : Ret) (u : TestUrb) (w : W) (rest : TestUrb → W → Rounds W)
      → Good max u
      → P w
      → ((u' : TestUrb) → Good max u' → E (rest u' w))
      → E (
          vary_length device pattern host_data vary max status u w rest
            (next_length vary max u.transfer_buffer_length))
  vary_length-EndsWith status u w rest g p k =
      let (n, e, l, h) = next_length_bounds vary max u.transfer_buffer_length g.0 g.1 small in
      let u' = record u { transfer_buffer_length = n } in
      subst (λ o. E (vary_length device pattern host_data vary max status u w rest o)) (sym e)
        (pick E (is_zero status) (rest u' w) (ended status (record { urb = u'; world = w }))
          (λ _. k u' (l, h, g.2, g.3)) (λ _. (p, (l, h, g.2, g.3))))

  after_check-EndsWith :
      (o : Option Ret) (u : TestUrb) (w : W) (rest : TestUrb → W → Rounds W)
      → IsSome o
      → Good max u
      → P w
      → ((u' : TestUrb) → Good max u' → E (rest u' w))
      → E (after_check device pattern host_data vary max u w rest o)
  after_check-EndsWith none u w rest s g p k = s
  after_check-EndsWith (some status) u w rest s g p k = vary_length-EndsWith status u w rest g p k

  check_in-IsSome :
      (status : Ret) (u : TestUrb)
      → 0 < u.maxpacket
      → u.actual_length ≤ length u.buf
      → IsSome (check_in device pattern host_data vary max status u)
  check_in-IsSome status u m l =
      pick IsSome (is_zero status && u.is_in)
        (simple_check_buf u.guards pattern u.maxpacket u.actual_length u.buf) (some status)
        (λ _. simple_check_buf_total u.guards pattern u.maxpacket u.actual_length u.buf m l)
        (λ _. tt)

  answered :
      (status : Ret) (u : TestUrb) (n : ℕ) (bytes : List ℕ) (w : W) (rest : TestUrb → W → Rounds W)
      → Good max u
      → (n ≤ u.transfer_buffer_length) × (length bytes ≡ length u.buf) × P w
      → ((u' : TestUrb) (w' : W) → Good max u' → P w' → E (rest u' w'))
      → E (
          after_check device pattern host_data vary max
            (record u { buf = bytes; actual_length = n })
            w
            rest
            (check_in device pattern host_data vary max status
              (record u { buf = bytes; actual_length = n })))
  answered status u n bytes w rest g a k =
      let u' = record u { buf = bytes; actual_length = n } in
      after_check-EndsWith (check_in device pattern host_data vary max status u') u' w rest
        (check_in-IsSome status u' g.3 (omega arith)) (omega arith) a.2 (λ u'' g'. k u'' w g' a.2)

  after_submit-EndsWith :
      (r : Answer × W) (u : TestUrb) (rest : TestUrb → W → Rounds W)
      → Good max u
      → Answers P u r
      → ((u' : TestUrb) (w' : W) → Good max u' → P w' → E (rest u' w'))
      → E (after_submit device pattern host_data vary max u rest r)
  after_submit-EndsWith (refused e, w) u rest g a k = (a, g)
  after_submit-EndsWith (completed status n bytes, w) u rest g a k =
      answered status u n bytes w rest g a k
  after_submit-EndsWith (killed status n bytes, w) u rest g a k =
      answered (killed_status status) u n bytes w rest g a k

  -- What is submitted is good again.
  abbrev Prepared : Option TestUrb → Type 0
  Prepared none = ⊥
  Prepared (some u) = Good max u

  filled-Prepared :
      (u : TestUrb) (o : Option (List ℕ))
      → Good max u
      → HasLength (length u.buf) o
      → Prepared (filled u o)
  filled-Prepared u none g h = h
  filled-Prepared u (some bytes) g h = (g.0, g.1, omega arith, g.3)

  fill-HasLength :
      (o : Option (List ℕ)) (u : TestUrb)
      → Enough max o
      → Good max u
      → HasLength (length u.buf) (fill pattern o u)
  fill-HasLength none u h g =
      simple_fill_buf_total pattern u.maxpacket u.transfer_buffer_length u.buf g.3 (omega arith)
  fill-HasLength (some source) u h g =
      fz_simple_fill_buf_total source u.transfer_buffer_length u.buf (omega arith) (omega arith)

  prepare-Prepared : (u : TestUrb) → Good max u → Prepared (prepare pattern host_data u)
  prepare-Prepared u g =
      pick Prepared u.is_in (some u) (filled u (fill pattern host_data u)) (λ _. g)
        (λ _. filled-Prepared u (fill pattern host_data u) g (fill-HasLength host_data u enough g))

  submit_filled-EndsWith :
      (o : Option TestUrb) (w : W) (rest : TestUrb → W → Rounds W)
      → Prepared o
      → P w
      → ((u' : TestUrb) (w' : W) → Good max u' → P w' → E (rest u' w'))
      → E (submit_filled device pattern host_data vary max rest w o)
  submit_filled-EndsWith none w rest g p k = g
  submit_filled-EndsWith (some u) w rest g p k =
      after_submit-EndsWith (device.submit u w) u rest g (fair u w g p) k

  io_rounds-EndsWith :
      (n : ℕ) (u : TestUrb) (w : W)
      → Good max u
      → P w
      → E (io_rounds device pattern host_data vary max n u w)
  unfolding io_rounds
  io_rounds-EndsWith zero u w g p = (p, g)
  io_rounds-EndsWith (suc n) u w g p =
      submit_filled-EndsWith (prepare pattern host_data u) w
        (io_rounds device pattern host_data vary max n) (prepare-Prepared u g) p
        (io_rounds-EndsWith n)

restored :
    {W : Type 0} (P : W → Type 0) (max : ℕ) (r : Rounds W)
    → EndsWith P (Good max) r
    → EndsWith P (λ u. Good max u × (u.transfer_buffer_length ≡ max)) (restore_length max r)
restored P max undefined h = h
restored P max (ended r s) h = (h.0, ((omega arith, omega arith, h.1.2, h.1.3), refl))

-- `simple_io` is defined and returns, hands over only URBs of 1 to `max` bytes that their buffer
-- has room for, and leaves the URB with its length of `max`, whatever `vary` is: so a property of
-- the world that holds before, and that the answers to such URBs keep, holds after it. The URB has
-- room for its `max` bytes, at least one, its packet size is positive, the data of the fuzzer is
-- long enough, the length is not varied, or the sum of `vary` and `max` is an `int`, and the host core transfers no more than was
-- asked for.
pub simple_io-EndsWith :
    {W : Type 0} (device : Device W) (pattern : ℕ) (host_data : Option (List ℕ))
    (iterations vary : ℕ) (u : TestUrb) (w : W) (P : W → Type 0)
    → ((v : TestUrb) (x : W)
        → Good u.transfer_buffer_length v
        → P x
        → Answers P v (device.submit v x))
    → Enough u.transfer_buffer_length host_data
    → (vary ≡ 0) ⊎ (vary + u.transfer_buffer_length < 2 ^ 31)
    → Good u.transfer_buffer_length u
    → P w
    → EndsWith P
        (λ v.
          Good u.transfer_buffer_length v × (v.transfer_buffer_length ≡ u.transfer_buffer_length))
        (simple_io device pattern host_data iterations vary u w)
unfolding simple_io
simple_io-EndsWith device pattern host_data iterations vary u w P fair enough small g p =
    let max = u.transfer_buffer_length in
    restored P max (io_rounds device pattern host_data vary max iterations u w)
      (io_rounds-EndsWith device pattern host_data vary max P fair enough small iterations u w g p)
