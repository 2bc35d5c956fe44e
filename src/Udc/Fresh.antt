-- ===== src/Udc/Fresh.antt =====
-- The endpoints after `init_dummy_udc_hw`.
use fuzzusb.Base.{
  ℕ, zero, suc, ◌+◌, ◌<◌, Bool, true, false, Option, none, some, ◌≡◌, refl, ◌∙◌, arith, ◌==◌, List,
  [], ◌∷◌, not, ◌&&◌, differs,
}
use fuzzusb.Dummy.{Dummy, Ep}
use fuzzusb.Dummy.Access.{set_ep}
use fuzzusb.Dummy.Table.{Info, ep_info}
use fuzzusb.Udc.{init_ep, init_eps, init_dummy_udc_hw}
use fuzzusb.Endpoint.Enable.{is_ep0}
use text.Mathlib.Text.{◌==◌ as str_eq}

abbrev pub get_elem? {ℓ} : {A : Type ℓ} → List A → ℕ → Option A
get_elem? [] i = none
get_elem? (x ∷ xs) zero = some x
get_elem? (x ∷ xs) (suc i) = get_elem? xs i

init_eps-below : (xs : List Info) (i j : ℕ) (d : Dummy) → j < i → (init_eps xs i d).ep j ≡ d.ep j
unfolding init_eps
init_eps-below [] i j d h = refl
init_eps-below (x ∷ xs) i j d h =
    init_eps-below xs (i + 1) j (set_ep i (init_ep x d.jiffies (d.ep i)) d) (omega arith)
    ∙ ground arith

init_eps-jiffies : (xs : List Info) (i : ℕ) (d : Dummy) → (init_eps xs i d).jiffies ≡ d.jiffies
unfolding init_eps
init_eps-jiffies [] i d = refl
init_eps-jiffies (x ∷ xs) i d =
    init_eps-jiffies xs (i + 1) (set_ep i (init_ep x d.jiffies (d.ep i)) d)

-- What a fresh endpoint looks like
pub record IsFresh (x : Info) (e : Ep) : Type 0 where
  pub named : e.name ≡ x.name
  pub able : e.caps ≡ x.caps
  pub disabled : e.desc ≡ none
  pub idle : e.queue ≡ []
  pub running : e.halted ≡ false
  pub free : e.wedged ≡ false
  pub streams : e.max_streams ≡ 16

init_ep-IsFresh : (x : Info) (t : ℕ) (e : Ep) → IsFresh x (init_ep x t e)
unfolding init_ep
init_ep-IsFresh x t e = ground arith

init_eps-IsFresh :
    (xs : List Info) (i k : ℕ) (d : Dummy) {x : Info}
    → get_elem? xs k ≡ some x
    → IsFresh x ((init_eps xs i d).ep (i + k))
unfolding init_eps
init_eps-IsFresh [] i k d h = cc
init_eps-IsFresh (y ∷ xs) i zero d {x} h =
    rw (step) (ground (arith, init_ep-IsFresh x d.jiffies (d.ep i)))
  where
    step :
        (init_eps xs (i + 1) (set_ep i (init_ep y d.jiffies (d.ep i)) d)).ep (i + 0)
        ≡ init_ep y d.jiffies (d.ep i)
    step =
        init_eps-below xs (i + 1) (i + 0) (set_ep i (init_ep y d.jiffies (d.ep i)) d) (omega arith)
        ∙ ground arith
init_eps-IsFresh (y ∷ xs) i (suc k) d {x} h =
    rw (shift) (init_eps-IsFresh xs (i + 1) k (set_ep i (init_ep y d.jiffies (d.ep i)) d) h)
  where
    shift : i + suc k ≡ i + 1 + k
    shift = omega arith

-- Is `ep0` the name of the table's first entry only?
only_ep0 : List Info → ℕ → Bool
only_ep0 [] i = true
only_ep0 (x ∷ xs) i = not (differs (str_eq x.name "ep0") (i == 0)) && only_ep0 xs (i + 1)

only_ep0_sound :
    (xs : List Info) (i k : ℕ) {x : Info}
    → only_ep0 xs i ≡ true
    → get_elem? xs k ≡ some x
    → str_eq x.name "ep0" ≡ (i + k == 0)
unfolding only_ep0
only_ep0_sound [] i k c h = cc
only_ep0_sound (y ∷ xs) i zero {x} c h = ground arith
only_ep0_sound (y ∷ xs) i (suc k) {x} c h = ground (arith, only_ep0_sound xs (i + 1) k {x = x})

ep_info-only_ep0 : only_ep0 ep_info 0 ≡ true
unfolding only_ep0
ep_info-only_ep0 = refl

-- After `init_dummy_udc_hw` each endpoint of the table has its name and capabilities, is disabled and
-- idle, neither halted nor wedged, and has 16 streams at most; and `ep0` is the name of endpoint 0
-- and of no other.
pub init_dummy_udc_hw-IsFresh :
    (d : Dummy) (k : ℕ) {x : Info}
    → get_elem? ep_info k ≡ some x
    → IsFresh x ((init_dummy_udc_hw d).ep k) × (is_ep0 ((init_dummy_udc_hw d).ep k) ≡ (k == 0))
unfolding init_dummy_udc_hw
init_dummy_udc_hw-IsFresh d k {x} h =
    (fresh, rw (fresh.named) (only_ep0_sound ep_info 0 k ep_info-only_ep0 h ∙ ground arith))
  where
    start : 0 + k ≡ k
    start = omega arith

    fresh : IsFresh x ((init_eps ep_info 0 d).ep k)
    fresh = rw start at (init_eps-IsFresh ep_info 0 k d h)
