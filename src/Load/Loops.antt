-- ===== src/Load/Loops.antt =====
-- What the loops of `init` keep.
use mathlib.Core.Path.{subst}
use fuzzusb.Base.{pick, ℕ, zero, suc, ◌+◌, ◌≤◌, ◌<◌, arith, ◌⊎◌, inl, inr, ◌==◌, ==_iff, update}
use fuzzusb.Load.{
  Module, for_each, back_from, Loop, through, broke, Step, fine, fails, after_step, try_each,
}

-- An array below an index, and from an index
abbrev pub Below {ℓ} : {A : Type ℓ} → (A → Type 0) → ℕ → (ℕ → A) → Type 0
Below V i f = (j : ℕ) → j < i → V (f j)

abbrev pub From {ℓ} : {A : Type ℓ} → (A → Type 0) → ℕ → (ℕ → A) → Type 0
From V i f = (j : ℕ) → i ≤ j → V (f j)

pub update-Below {ℓ} :
    {A : Type ℓ} (V : A → Type 0) (f : ℕ → A) (i : ℕ) (a : A)
    → V a
    → Below V i f
    → Below V (i + 1) (update f i a)
update-Below V f i a v b j l =
    pick V (i == j) a (f j) (λ e. v) (λ e. b j (ground (arith, ==_iff i j)))

pub update-From {ℓ} :
    {A : Type ℓ} (V : A → Type 0) (f : ℕ → A) (i : ℕ) (a : A)
    → V a
    → From V (i + 1) f
    → From V i (update f i a)
update-From V f i a v b j l = pick V (i == j) a (f j) (λ e. v) (λ e. b j (ground arith))

pub From-update {ℓ} :
    {A : Type ℓ} (V : A → Type 0) (f : ℕ → A) (i : ℕ) (a : A)
    → From V i f
    → From V (i + 1) (update f i a)
From-update V f i a b j l =
    pick V (i == j) a (f j) (λ e. absurd (ground arith)) (λ e. b j (omega arith))

pub weaken-From {ℓ} :
    {A : Type ℓ} (V : A → Type 0) (f : ℕ → A) (i : ℕ) → From V i f → From V (i + 1) f
weaken-From V f i b j l = b j (omega arith)

-- What holds of all of an array holds after an update.
pub update-all {ℓ} :
    {A : Type ℓ} (V : A → Type 0) (f : ℕ → A) (i : ℕ) (a : A)
    → V a
    → From V 0 f
    → From V 0 (update f i a)
update-all V f i a v b j l = pick V (i == j) a (f j) (λ e. v) (λ e. b j l)

pub From-join {ℓ} :
    {A : Type ℓ} (V : A → Type 0) (f : ℕ → A) (n : ℕ) → Below V n f → From V n f → From V 0 f
From-join V f n b h j l = elim (leb_cases j n) [ inl k ↦ b j k | inr k ↦ h j k ]
  where
    leb_cases : (j n : ℕ) → (j < n) ⊎ (n ≤ j)
    leb_cases j n = ground arith

-- What each round of a loop that cannot fail keeps, the loop keeps.
module _ (P : ℕ → Module → Type 0) where
  for_each-go :
      (body : ℕ → Module → Module) (step : (i : ℕ) (m : Module) → P i m → P (i + 1) (body i m))
      (n i : ℕ) (m : Module)
      → P i m
      → P (i + n) (for_each n i body m)
  unfolding for_each
  for_each-go body step zero i m h = subst (λ k. P k m) (omega arith) h
  for_each-go body step (suc n) i m h =
      subst (λ k. P k (for_each n (i + 1) body (body i m))) (omega arith)
        (for_each-go body step n (i + 1) (body i m) (step i m h))

  pub back_from-keeps :
      (body : ℕ → Module → Module) (step : (i : ℕ) (m : Module) → P (i + 1) m → P i (body i m))
      (i : ℕ) (m : Module)
      → P i m
      → P 0 (back_from i body m)
  unfolding back_from
  back_from-keeps body step zero m h = h
  back_from-keeps body step (suc i) m h =
      back_from-keeps body step i (body i m) (step i m (subst (λ k. P k m) (omega arith) h))

  pub for_each-keeps :
      (body : ℕ → Module → Module) (step : (i : ℕ) (m : Module) → P i m → P (i + 1) (body i m))
      (n : ℕ) (m : Module)
      → P 0 m
      → P n (for_each n 0 body m)
  for_each-keeps body step n m h =
      subst (λ k. P k (for_each n 0 body m)) (omega arith) (for_each-go body step n 0 m h)

-- What each round of a loop keeps, the loop keeps; `F` holds where a round fails.
module _ (P F : ℕ → Module → Type 0) where
  abbrev pub Kept : ℕ → Step → Type 0
  Kept i (fine m) = P (i + 1) m
  Kept i (fails e m) = F i m

  abbrev pub Held : ℕ → Loop → Type 0
  Held n (through m) = P n m
  Held n (broke i e m) = F i m

  after_step-keeps :
      (i n : ℕ) (rest : Module → Loop) (s : Step)
      → Kept i s
      → ((m : Module) → P (i + 1) m → Held n (rest m))
      → Held n (after_step i rest s)
  after_step-keeps i n rest (fine m) h next = next m h
  after_step-keeps i n rest (fails e m) h next = h

  try_each-go :
      (body : ℕ → Module → Step) (step : (i : ℕ) (m : Module) → P i m → Kept i (body i m)) (n i : ℕ)
      (m : Module)
      → P i m
      → Held (i + n) (try_each n i body m)
  unfolding try_each
  try_each-go body step zero i m h = subst (λ k. P k m) (omega arith) h
  try_each-go body step (suc n) i m h =
      after_step-keeps i (i + suc n) (try_each n (i + 1) body) (body i m) (step i m h) (λ m' h'.
        subst (λ k. Held k (try_each n (i + 1) body m')) (omega arith)
          (try_each-go body step n (i + 1) m' h'))

  pub try_each-keeps :
      (body : ℕ → Module → Step) (step : (i : ℕ) (m : Module) → P i m → Kept i (body i m)) (n : ℕ)
      (m : Module)
      → P 0 m
      → Held n (try_each n 0 body m)
  try_each-keeps body step n m h =
      subst (λ k. Held k (try_each n 0 body m)) (omega arith) (try_each-go body step n 0 m h)

pub nothing {ℓ} : {A : Type ℓ} (V : A → Type 0) (f : ℕ → A) → Below V 0 f
nothing V f j l = absurd (omega arith)
