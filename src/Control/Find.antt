-- ===== src/Control/Find.antt =====
-- Which endpoint `find_endpoint` finds.
use fuzzusb.Base.{
  ℕ, zero, suc, ◌+◌, ◌≤◌, ◌<◌, Bool, true, false, ◌&&◌, ◌||◌, none, some, ◌≡◌, ◌⊎◌, arith, ◌==◌,
  Bool-cases, inl, inr,
}
use fuzzusb.Dummy.{Dummy, dummy_endpoints}
use fuzzusb.Dummy.Access.{hcd, gadget_hcd}
use fuzzusb.Control.{find_from, find_endpoint, answers_to, port_active}

module _ (d : Dummy) (address : ℕ) where
  abbrev pub Answers : ℕ → Type 0
  Answers i = answers_to address (d.ep i).desc ≡ true

  find_from-some :
      (n i k : ℕ)
      → find_from d address n i ≡ some k
      → (i ≤ k)
        × (k < i + n)
        × Answers k
        × ((j : ℕ) → i ≤ j → j < k → answers_to address (d.ep j).desc ≡ false)
  unfolding find_from
  find_from-some zero i k h = cc
  find_from-some (suc n) i k h = elim (Bool-cases (answers_to address (d.ep i).desc)) [
    | inl e ↦ (ground arith, ground arith, ground arith, λ j a b. absurd (ground arith))
    | inr e ↦
        (let r : find_from d address n (i + 1) ≡ some k = ground arith in
          let (a, b, c, f) = find_from-some n (i + 1) k r in
          (omega arith, omega arith, c, λ j x y. ground (arith, f j)))
  ]

  find_from-none :
      (n i j : ℕ)
      → find_from d address n i ≡ none
      → i ≤ j
      → j < i + n
      → answers_to address (d.ep j).desc ≡ false
  unfolding find_from
  find_from-none zero i j h a b = absurd (omega arith)
  find_from-none (suc n) i j h a b = ground (arith, find_from-none n (i + 1) j)

-- Is the gadget reachable from the bus?
abbrev pub reachable : Dummy → Bool
reachable d = port_active (hcd d (gadget_hcd d)) && d.ints_enabled

-- An endpoint that `find_endpoint` finds: the gadget is reachable, and it is `ep0` for the addresses
-- 0 and 0x80; for any other address it is the first endpoint after `ep0` that is enabled with it.
-- If none is found, the gadget is not reachable or no endpoint is enabled with the address.
pub find_endpoint_lem :
    (d : Dummy) (address : ℕ)
    → ((k : ℕ)
        → find_endpoint d address ≡ some k
        → (reachable d ≡ true)
          × (k < dummy_endpoints)
          × ((k ≡ 0) × ((address == 0 || address == 128) ≡ true)
              ⊎ (1 ≤ k)
                × Answers d address k
                × ((j : ℕ) → 1 ≤ j → j < k → answers_to address (d.ep j).desc ≡ false)))
      × (find_endpoint d address ≡ none
          → (reachable d ≡ false)
            ⊎ ((address == 0 || address == 128) ≡ false)
              × ((j : ℕ) → 1 ≤ j → j < dummy_endpoints → answers_to address (d.ep j).desc ≡ false))
unfolding find_endpoint
find_endpoint_lem d address = (λ k h. found k h, missing)
  where
    found :
        (k : ℕ)
        → find_endpoint d address ≡ some k
        → (reachable d ≡ true)
          × (k < dummy_endpoints)
          × ((k ≡ 0) × ((address == 0 || address == 128) ≡ true)
              ⊎ (1 ≤ k)
                × Answers d address k
                × ((j : ℕ) → 1 ≤ j → j < k → answers_to address (d.ep j).desc ≡ false))
    found k h = elim (Bool-cases (address == 0 || address == 128)) [
      | inl e ↦ (ground arith, ground arith, inl (ground arith, e))
      | inr e ↦
          (let r : find_from d address 30 1 ≡ some k = ground arith in
            let (a, b, c, f) = find_from-some d address 30 1 k r in
            (ground arith, omega arith, inr (a, c, f)))
    ]

    missing :
        find_endpoint d address ≡ none
        → (reachable d ≡ false)
          ⊎ ((address == 0 || address == 128) ≡ false)
            × ((j : ℕ) → 1 ≤ j → j < dummy_endpoints → answers_to address (d.ep j).desc ≡ false)
    missing h = elim (Bool-cases (reachable d)) [
      | inr e ↦ inl e
      | inl e ↦
          inr
            (ground arith, λ j a b. find_from-none d address 30 1 j (ground arith) a (omega arith))
    ]
