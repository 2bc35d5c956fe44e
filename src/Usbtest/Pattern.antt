-- ===== src/Usbtest/Pattern.antt =====
-- What `simple_check_buf` accepts, against what `simple_fill_buf` writes.
use fuzzusb.Base.{
  ℕ, zero, suc, ◌+◌, ◌≤◌, ◌<◌, some, ◌≡◌, ◌↔◌, refl, arith, List, [], ◌∷◌, ◌++◌, length, take, drop,
  length-append, length-drop, ◌⊎◌, inl,
}
use fuzzusb.Usb.{ret, err, einval}
use fuzzusb.Usbtest.{
  guard_byte, zeros, mod63, fill_bytes, simple_fill_buf, check_guard_bytes, check_bytes,
  simple_check_buf, overwrite,
}

-- The bytes of the two patterns from index `i` on
abbrev pub pattern_from : ℕ → ℕ → ℕ → ℕ → List ℕ
pattern_from zero m i n = zeros n
pattern_from (suc p) m i n = mod63 m i n

check_bytes-zero :
    (m i n : ℕ) (buf : List ℕ)
    → n ≤ length buf
    → (check_bytes 0 m i n buf ≡ some (ret 0)) ↔ (take n buf ≡ zeros n)
unfolding check_bytes
check_bytes-zero m i zero buf h = (λ _. refl, λ _. refl)
check_bytes-zero m i (suc n) [] h = elim h [ ]
check_bytes-zero m i (suc n) (b ∷ bs) h = ground (arith, check_bytes-zero m (i + 1) n bs)

check_bytes-mod63 :
    (m i n : ℕ) (buf : List ℕ)
    → 0 < m
    → n ≤ length buf
    → (check_bytes 1 m i n buf ≡ some (ret 0)) ↔ (take n buf ≡ mod63 m i n)
unfolding check_bytes
check_bytes-mod63 m i zero buf pos h = (λ _. refl, λ _. refl)
check_bytes-mod63 m i (suc n) [] pos h = elim h [ ]
check_bytes-mod63 m i (suc n) (b ∷ bs) pos h = ground (arith, check_bytes-mod63 m (i + 1) n bs)

check_bytes-pattern :
    (p m n : ℕ) (buf : List ℕ)
    → p ≤ 1
    → 0 < m
    → n ≤ length buf
    → (check_bytes p m 0 n buf ≡ some (ret 0)) ↔ (take n buf ≡ pattern_from p m 0 n)
check_bytes-pattern zero m n buf small pos h = check_bytes-zero m 0 n buf h
check_bytes-pattern (suc zero) m n buf small pos h = check_bytes-mod63 m 0 n buf pos h
check_bytes-pattern (suc (suc p)) m n buf small pos h = ground arith

fill_bytes-pattern : (p m n : ℕ) → p ≤ 1 → 0 < m → fill_bytes p m n ≡ some (pattern_from p m 0 n)
unfolding fill_bytes
fill_bytes-pattern zero m n small pos = refl
fill_bytes-pattern (suc zero) m n small pos = ground arith
fill_bytes-pattern (suc (suc p)) m n small pos = ground arith

-- The guard bytes as `usbtest_alloc_urb` sets them
abbrev pub guards_of : ℕ → List ℕ
guards_of zero = []
guards_of (suc n) = guard_byte ∷ guards_of n

guards_iff : (gs : List ℕ) → (check_guard_bytes gs ≡ ret 0) ↔ (gs ≡ guards_of (length gs))
unfolding check_guard_bytes
guards_iff [] = (λ _. refl, λ _. refl)
guards_iff (g ∷ gs) = ground (arith, guards_iff gs)

guards_of-length : (g : ℕ) → guards_of g ≡ guards_of (length (guards_of g))
guards_of-length zero = refl
guards_of-length (suc g) = ground (arith, guards_of-length g)

pub guards_result :
    (gs : List ℕ) → (check_guard_bytes gs ≡ ret 0) ⊎ (check_guard_bytes gs ≡ err einval)
unfolding check_guard_bytes
guards_result [] = inl refl
guards_result (g ∷ gs) = ground (arith, guards_result gs)

check_bytes-unsupported :
    (p m i n : ℕ) (buf : List ℕ)
    → 1 < p
    → 0 < n
    → n ≤ length buf
    → check_bytes p m i n buf ≡ some (err einval)
unfolding check_bytes
check_bytes-unsupported p m i zero buf big pos h = ground arith
check_bytes-unsupported p m i (suc n) [] big pos h = elim h [ ]
check_bytes-unsupported p m i (suc n) (b ∷ bs) big pos h = ground arith

-- A buffer whose bytes were all read is accepted, for the patterns 0 and 1, exactly if the guard
-- bytes are as they were set and the read bytes are those that a fill of that length writes. The
-- packet size is positive.
pub simple_check_buf_iff :
    (gs : List ℕ) (p m n : ℕ) (buf : List ℕ)
    → p ≤ 1
    → 0 < m
    → n ≤ length buf
    → (simple_check_buf gs p m n buf ≡ some (ret 0))
      ↔ ((gs ≡ guards_of (length gs)) × (fill_bytes p m n ≡ some (take n buf)))
unfolding simple_check_buf
simple_check_buf_iff gs p m n buf small pos h = ground (
  arith,
  guards_iff gs,
  check_bytes-pattern p m n buf small pos h,
  fill_bytes-pattern p m n small pos,
)

take-zeros : (a k : ℕ) (ys : List ℕ) → a ≤ k → take a (zeros k ++ ys) ≡ zeros a
take-zeros zero k ys h = refl
take-zeros (suc a) zero ys h = ground arith
take-zeros (suc a) (suc k) ys h = ground (arith, take-zeros a k ys)

take-mod63 : (m i a k : ℕ) (ys : List ℕ) → a ≤ k → take a (mod63 m i k ++ ys) ≡ mod63 m i a
take-mod63 m i zero k ys h = refl
take-mod63 m i (suc a) zero ys h = ground arith
take-mod63 m i (suc a) (suc k) ys h = ground (arith, take-mod63 m (i + 1) a k ys)

take-pattern :
    (p m a k : ℕ) (ys : List ℕ) → a ≤ k → take a (pattern_from p m 0 k ++ ys) ≡ pattern_from p m 0 a
take-pattern zero m a k ys h = take-zeros a k ys h
take-pattern (suc p) m a k ys h = take-mod63 m 0 a k ys h

pub length-zeros : (n : ℕ) → length (zeros n) ≡ n
length-zeros zero = refl
length-zeros (suc n) = omega (arith, length-zeros n)

pub length-mod63 : (m i n : ℕ) → length (mod63 m i n) ≡ n
length-mod63 m i zero = refl
length-mod63 m i (suc n) = omega (arith, length-mod63 m (i + 1) n)

length-pattern : (p m n : ℕ) → length (pattern_from p m 0 n) ≡ n
length-pattern zero m n = length-zeros n
length-pattern (suc p) m n = length-mod63 m 0 n

pub length-overwrite :
    (bytes buf : List ℕ) → length bytes ≤ length buf → length (overwrite bytes buf) ≡ length buf
length-overwrite bytes buf h =
    omega (arith, length-append bytes (drop (length bytes) buf), length-drop (length bytes) buf)

-- A buffer that was filled with pattern 0 or 1 keeps its length, and what arrives of it, be it the
-- whole or a shorter transfer, is accepted if the guard bytes are untouched. The packet size is
-- positive.
pub simple_fill_buf-check :
    (g p m n a : ℕ) (buf : List ℕ)
    → p ≤ 1
    → 0 < m
    → n ≤ length buf
    → a ≤ n
    → (filled : List ℕ) × (simple_fill_buf p m n buf ≡ some filled)
      × (length filled ≡ length buf)
      × (simple_check_buf (guards_of g) p m a filled ≡ some (ret 0))
unfolding simple_fill_buf
simple_fill_buf-check g p m n a buf small pos h le = (
  filled,
  ground (arith, fill_bytes-pattern p m n small pos),
  kept,
  (simple_check_buf_iff (guards_of g) p m a filled small pos (omega (arith, kept, h, le))).1 (
    guards_of-length g,
    rw (fill_bytes-pattern p m a small pos, take-pattern p m a n rest le) refl,
  ),
)
  where
    rest : List ℕ
    rest = drop (length (pattern_from p m 0 n)) buf

    filled : List ℕ
    filled = pattern_from p m 0 n ++ rest

    kept : length filled ≡ length buf
    kept = length-overwrite (pattern_from p m 0 n) buf (omega (arith, length-pattern p m n, h))

-- A pattern above 1 accepts no byte: a buffer of which a byte was read is refused with -EINVAL.
pub simple_check_buf-unsupported :
    (gs : List ℕ) (p m n : ℕ) (buf : List ℕ)
    → 1 < p
    → 0 < n
    → n ≤ length buf
    → simple_check_buf gs p m n buf ≡ some (err einval)
unfolding simple_check_buf
simple_check_buf-unsupported gs p m n buf big pos h =
    ground (arith, guards_result gs, check_bytes-unsupported p m 0 n buf big pos h)
