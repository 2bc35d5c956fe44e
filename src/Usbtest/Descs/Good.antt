-- ===== src/Usbtest/Descs/Good.antt =====
-- What the checks of descriptors accept, and that they stay within the buffer.
use fuzzusb.Base.{
  ℕ, zero, suc, ◌+◌, ◌*◌, ◌%◌, ◌≤◌, ◌<◌, ◌≡◌, ◌≢◌, ◌↔◌, ◌⊎◌, inl, inr, refl, arith, Bool, true,
  false, Option, none, some, List, [], ◌∷◌, length, if◌then◌else◌, ltb, leb, ◌==◌, Bool-cases,
}
use fuzzusb.Usb.{Ret, ret, err}
use fuzzusb.Usbtest.Descs.{
  get, attributes_fit, is_good_config, is_good_ext, is_good_ss_cap, is_good_con_id, fits_and,
  good_cap, and_all, check_caps,
}

-- What a configuration descriptor in the buffer must be, apart from the length that was read
abbrev pub ConfigShape : Bool → List ℕ → Type 0
ConfigShape realworld buf =
    ((get buf 1 ≡ 2) ⊎ (get buf 1 ≡ 7))
    × (get buf 0 ≡ 9)
    × (attributes_fit realworld (get buf 7) ≡ true)

abbrev pub total_length : List ℕ → ℕ
total_length buf = get buf 2 + 256 * get buf 3

-- What is asked of the result of the read: a negative one is not compared with the size.
abbrev pub IsRead : Ret → List ℕ → Type 0
IsRead (ret n) buf = (9 ≤ n) × ((n ≡ total_length buf) ⊎ (256 ≤ total_length buf))
IsRead (err e) buf = 256 ≤ total_length buf

-- `is_good_config` accepts exactly the configuration descriptors of 9 bytes, also those of the other
-- speed, whose reserved bits are 0, and the highest one 1 unless `realworld` is set, where the result of
-- the read is at least 9 and the total length, or the total length is 256 or more; but a negative result
-- is accepted too, if the buffer still holds such a descriptor with a total length of 256 or more. The
-- buffer has at least 9 bytes.
pub is_good_config_iff :
    (realworld : Bool) (buf : List ℕ) (len : Ret)
    → 9 ≤ length buf
    → (is_good_config realworld buf len ≡ some true) ↔ (ConfigShape realworld buf × IsRead len buf)
unfolding is_good_config
is_good_config_iff realworld buf (ret n) h = ground arith
is_good_config_iff realworld buf (err e) h = ground arith

pub is_good_config-ne-none :
    (realworld : Bool) (buf : List ℕ) (len : Ret)
    → 9 ≤ length buf
    → is_good_config realworld buf len ≢ none
unfolding is_good_config
is_good_config-ne-none realworld buf (ret n) h = ground arith
is_good_config-ne-none realworld buf (err e) h = ground arith

-- A USB 2.0 extension, a SuperSpeed capability and a container id within the first `total` bytes
abbrev pub IsExt : List ℕ → ℕ → ℕ → Type 0
IsExt buf total p =
    (get buf (p + 2) ≡ 2)
    × (p + 7 ≤ total)
    × (get buf p ≡ 7)
    × (get buf (p + 3) % 2 ≡ 0)
    × (get buf (p + 5) ≡ 0)
    × (get buf (p + 6) ≡ 0)

abbrev pub IsSsCap : List ℕ → ℕ → ℕ → Type 0
IsSsCap buf total p =
    (get buf (p + 2) ≡ 3)
    × (p + 10 ≤ total)
    × (get buf p ≡ 10)
    × ((get buf (p + 3) ≡ 0) ⊎ (get buf (p + 3) ≡ 2))
    × (get buf (p + 4) + 256 * get buf (p + 5) < 16)

abbrev pub IsConId : List ℕ → ℕ → ℕ → Type 0
IsConId buf total p =
    (get buf (p + 2) ≡ 4) × (p + 20 ≤ total) × (get buf p ≡ 20) × (get buf (p + 3) ≡ 0)

-- Another descriptor or another capability, or a good one of these
abbrev pub GoodCap : List ℕ → ℕ → ℕ → Type 0
GoodCap buf total p =
    (get buf (p + 1) ≢ 16)
    ⊎ ((get buf (p + 2) ≢ 2) × (get buf (p + 2) ≢ 3) × (get buf (p + 2) ≢ 4))
    ⊎ IsExt buf total p
    ⊎ IsSsCap buf total p
    ⊎ IsConId buf total p

is_good_ext_iff :
    (buf : List ℕ) (p total : ℕ)
    → total ≤ length buf
    → get buf (p + 2) ≡ 2
    → (fits_and p 7 total (is_good_ext buf p) ≡ some true) ↔ IsExt buf total p
unfolding is_good_ext
is_good_ext_iff buf p total h t = ground arith

is_good_ss_cap_iff :
    (buf : List ℕ) (p total : ℕ)
    → total ≤ length buf
    → get buf (p + 2) ≡ 3
    → (fits_and p 10 total (is_good_ss_cap buf p) ≡ some true) ↔ IsSsCap buf total p
unfolding is_good_ss_cap
is_good_ss_cap_iff buf p total h t = ground arith

is_good_con_id_iff :
    (buf : List ℕ) (p total : ℕ)
    → total ≤ length buf
    → get buf (p + 2) ≡ 4
    → (fits_and p 20 total (is_good_con_id buf p) ≡ some true) ↔ IsConId buf total p
unfolding is_good_con_id
is_good_con_id_iff buf p total h t = ground arith

caps-ne-none :
    (buf : List ℕ) (p total : ℕ)
    → total ≤ length buf
    → (fits_and p 7 total (is_good_ext buf p) ≢ none)
      × (fits_and p 10 total (is_good_ss_cap buf p) ≢ none)
      × (fits_and p 20 total (is_good_con_id buf p) ≢ none)
unfolding is_good_ext is_good_ss_cap is_good_con_id
caps-ne-none buf p total h = (ground arith, ground arith, ground arith)

-- The test of one capability, with the three checks shut
abbrev by_type : Bool → Bool → Bool → Bool → Option Bool → Option Bool → Option Bool → Option Bool
by_type dev ext ss con a b c =
    if dev then (if ext then a else if ss then b else if con then c else some true) else some true

good_cap_lem :
    (buf : List ℕ) (total p : ℕ)
    → total ≤ length buf
    → p + 3 ≤ total
    → good_cap buf total p
      ≡ by_type
          (get buf (p + 1) == 16)
          (get buf (p + 2) == 2)
          (get buf (p + 2) == 3)
          (get buf (p + 2) == 4)
          (fits_and p 7 total (is_good_ext buf p))
          (fits_and p 10 total (is_good_ss_cap buf p))
          (fits_and p 20 total (is_good_con_id buf p))
unfolding good_cap
good_cap_lem buf total p h l =
    let one : ltb (p + 1) (length buf) ≡ true = ground arith in
    let two : ltb (p + 2) (length buf) ≡ true = ground arith in rw (one, two) refl

good_cap_iff :
    (buf : List ℕ) (total p : ℕ)
    → total ≤ length buf
    → p + 3 ≤ total
    → ((good_cap buf total p ≡ some true) ↔ GoodCap buf total p) × (good_cap buf total p ≢ none)
good_cap_iff buf total p h l = ground (
  arith,
  good_cap_lem buf total p h l,
  caps-ne-none buf p total h,
  is_good_ext_iff buf p total h,
  is_good_ss_cap_iff buf p total h,
  is_good_con_id_iff buf p total h,
)

-- Where the headers of the capabilities stand, each as long as its own length says
abbrev pub headers : List ℕ → ℕ → ℕ → ℕ → ℕ → List ℕ
headers buf total zero p step = []
headers buf total (suc num) p step =
    let rest = headers buf total num (p + step) (get buf (p + step)) in
    if leb (p + step + 3) total then (p + step) ∷ rest else []

abbrev pub All {ℓ} : {A : Type ℓ} → (A → Type 0) → List A → Type 0
All P [] = Unit {0}
All P (x ∷ xs) = P x × All P xs

and_all_iff :
    {P Q : Type 0} (a rest : Option Bool)
    → ((a ≡ some true) ↔ P) × (a ≢ none)
    → ((rest ≡ some true) ↔ Q) × (rest ≢ none)
    → ((and_all a rest ≡ some true) ↔ (P × Q)) × (and_all a rest ≢ none)
and_all_iff none rest h k = absurd (h.1 refl)
and_all_iff (some true) rest h k = ((λ e. (h.0.0 refl, k.0.0 e), λ q. k.0.1 q.1), k.1)
and_all_iff (some false) rest h k = ((λ e. cc, λ q. absurd (cc (h.0.1 q.0))), λ e. cc)

-- The loop over the capabilities reads only within the `total` bytes that were read of the descriptor
-- set, and accepts it exactly if each of the first `num` headers that end there is that of another
-- descriptor or capability or of a good one, which ends there too.
pub check_caps_iff :
    (buf : List ℕ) (total num p step : ℕ)
    → total ≤ length buf
    → ((check_caps buf total num p step ≡ some true)
        ↔ All (GoodCap buf total) (headers buf total num p step))
      × (check_caps buf total num p step ≢ none)
unfolding check_caps
check_caps_iff buf total zero p step h = ground arith
check_caps_iff buf total (suc num) p step h = elim (Bool-cases (leb (p + step + 3) total)) [
  | inl fits ↦
      let there : ltb (p + step) (length buf) ≡ true = ground arith in
      let rest = check_caps_iff buf total num (p + step) (get buf (p + step)) h in
      rw (fits, there)
        (and_all_iff (good_cap buf total (p + step))
          (check_caps buf total num (p + step) (get buf (p + step)))
          (good_cap_iff buf total (p + step) h (ground arith)) rest)
  | inr over ↦ rw over (ground arith)
]
