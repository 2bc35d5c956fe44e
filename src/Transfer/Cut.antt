-- ===== src/Transfer/Cut.antt =====
-- How `transfer` cuts what is to be sent into packets.
use native.Mathlib.Nat.{div-add-mod', mul-mod_left, mod-lt, mod-le}
use fuzzusb.Base.{
  refl, ℕ, ◌+◌, ◌-◌, ◌*◌, ◌/◌, ◌%◌, ◌≤◌, ◌<◌, Bool, true, false, ◌≡◌, ◌≢◌, ◌⊎◌, inl, inr, arith,
  min,
}
use fuzzusb.Transfer.{Packets, wait, trap, send, cut, sub32, add32}

pub sub32_lem : (a b : ℕ) → b ≤ a → a < 4294967296 → sub32 a b ≡ a - b
unfolding sub32
sub32_lem a b h w = omega arith

pub add32_lem : (a b : ℕ) → a + b < 4294967296 → add32 a b ≡ a + b
unfolding add32
add32_lem a b w = omega arith

whole_packets : (n m : ℕ) → n - n % m ≡ n / m * m
whole_packets n m = omega (arith, div-add-mod' n m)

cut_mod : (n m : ℕ) → 0 < m → m ≤ n → ((n - n % m) % m ≡ 0) × (0 < n - n % m)
cut_mod n m pos h =
    (rw (whole_packets n m) (mul-mod_left (n / m) m), omega (arith, mod-lt n {m = m} pos))

pub Packets-cases :
    (c : Packets)
    → (c ≡ wait)
      ⊎ (c ≡ trap)
      ⊎ ((n : ℕ) × (short : Bool) × (rescan : Bool) × (c ≡ send n short rescan))
Packets-cases wait = inl refl
Packets-cases trap = inr (inl refl)
Packets-cases (send n short rescan) = inr (inr (n, short, rescan, refl))

-- What `cut` chooses for a positive packet size: no more than is left or than the limit allows. A
-- short packet is all that is left, and less than a packet. Otherwise whole packets go, at least
-- one, and unless the rest is to be sent in another round, all that is left and the limit allows.
pub cut_lem :
    (limit m len n : ℕ) (short rescan : Bool)
    → 0 < m
    → cut limit m len ≡ send n short rescan
    → (n ≤ len)
      × (n ≤ limit)
      × (short ≡ true → (n ≡ len) × (n < m) × (rescan ≡ false))
      × (short ≡ false → (0 < n) × (n % m ≡ 0) × (rescan ≡ false → n ≡ min len limit))
unfolding cut
cut_lem limit m len n short rescan pos e = (
  ground (arith, mod-le (min len limit) m),
  ground (arith, mod-le (min len limit) m),
  λ s. (ground arith, ground arith, ground arith),
  λ s. (
    ground (arith, cut_mod (min len limit) m),
    ground (arith, cut_mod (min len limit) m),
    λ r. ground arith,
  ),
)

pub cut-trap : (limit m len : ℕ) → 0 < m → cut limit m len ≢ trap
unfolding cut
cut-trap limit m len pos e = ground arith
