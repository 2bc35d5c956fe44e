-- ===== src/Base/Slices.antt =====
-- Parts of lists, and lists written over a part of another.
use Prim.Native.Nat.{ℕ, zero, suc, ◌+◌, ◌≤◌}
use mathlib.Core.Path.{◌≡◌, refl, ap, sym, ◌∙◌}
use mathlib.Core.List.{List, [], ◌∷◌, ◌++◌}
use native.Mathlib.Omega.{arith}
use fuzzusb.Base.Lists.{length, take, drop}

suc_add : (n m : ℕ) → suc n + m ≡ suc (n + m)
suc_add n m = omega arith

module _ {ℓ} {A : Type ℓ} where
  pub take-add : (n m : ℕ) (s : List A) → take (n + m) s ≡ take n s ++ take m (drop n s)
  take-add zero m s = ap (λ k. take k s) (omega arith)
  take-add (suc n) zero [] = rw (suc_add n zero) refl
  take-add (suc n) (suc m) [] = rw (suc_add n (suc m)) refl
  take-add (suc n) m (x ∷ s) = rw (suc_add n m) (ap (λ t. x ∷ t) (take-add n m s))

  pub drop-add : (n m : ℕ) (s : List A) → drop m (drop n s) ≡ drop (n + m) s
  drop-add zero m s = ap (λ k. drop k s) (omega arith)
  drop-add (suc n) zero [] = rw (suc_add n zero) refl
  drop-add (suc n) (suc m) [] = rw (suc_add n (suc m)) refl
  drop-add (suc n) m (x ∷ s) = rw (suc_add n m) (drop-add n m s)

  -- The bytes of the first list are written over those of the second, as far as that goes.
  abbrev pub overlay : List A → List A → List A
  overlay [] xs = xs
  overlay (b ∷ bs) [] = []
  overlay (b ∷ bs) (x ∷ xs) = b ∷ overlay bs xs

  -- The list `bs` is written over `xs` from position `n` on.
  abbrev pub splice : List A → ℕ → List A → List A
  splice xs zero bs = overlay bs xs
  splice [] (suc n) bs = []
  splice (x ∷ xs) (suc n) bs = x ∷ splice xs n bs

  pub length-overlay : (bs xs : List A) → length (overlay bs xs) ≡ length xs
  length-overlay [] xs = refl
  length-overlay (b ∷ bs) [] = refl
  length-overlay (b ∷ bs) (x ∷ xs) = omega (arith, length-overlay bs xs)

  pub length-splice : (xs : List A) (n : ℕ) (bs : List A) → length (splice xs n bs) ≡ length xs
  length-splice xs zero bs = length-overlay bs xs
  length-splice [] (suc n) bs = refl
  length-splice (x ∷ xs) (suc n) bs = omega (arith, length-splice xs n bs)

  take-overlay : (bs xs : List A) → length bs ≤ length xs → take (length bs) (overlay bs xs) ≡ bs
  take-overlay [] xs h = refl
  take-overlay (b ∷ bs) [] h = elim h [ ]
  take-overlay (b ∷ bs) (x ∷ xs) h = ap (λ t. b ∷ t) (take-overlay bs xs (omega arith))

  pub take-splice :
      (xs : List A) (n : ℕ) (bs : List A)
      → n + length bs ≤ length xs
      → take (n + length bs) (splice xs n bs) ≡ take n xs ++ bs
  take-splice xs zero bs h =
      ap (λ k. take k (overlay bs xs)) (omega arith) ∙ take-overlay bs xs (omega arith)
  take-splice [] (suc n) bs h = absurd (omega arith)
  take-splice (x ∷ xs) (suc n) bs h =
      rw (suc_add n (length bs)) (ap (λ t. x ∷ t) (take-splice xs n bs (omega arith)))

  overlay-append :
      (bs cs xs : List A) → overlay (bs ++ cs) xs ≡ splice (overlay bs xs) (length bs) cs
  overlay-append [] cs xs = refl
  overlay-append (b ∷ bs) cs [] = refl
  overlay-append (b ∷ bs) cs (x ∷ xs) = ap (λ t. b ∷ t) (overlay-append bs cs xs)

  -- Two lists written one behind the other
  pub splice-splice :
      (xs : List A) (n : ℕ) (bs cs : List A)
      → splice (splice xs n bs) (n + length bs) cs ≡ splice xs n (bs ++ cs)
  splice-splice xs zero bs cs =
      ap (λ k. splice (overlay bs xs) k cs) (omega arith) ∙ sym (overlay-append bs cs xs)
  splice-splice [] (suc n) bs cs = rw (suc_add n (length bs)) refl
  splice-splice (x ∷ xs) (suc n) bs cs =
      rw (suc_add n (length bs)) (ap (λ t. x ∷ t) (splice-splice xs n bs cs))
