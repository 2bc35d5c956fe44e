-- ===== src/Nuke/Empty.antt =====
-- What `nuke` and `stop_activity` leave behind: empty queues, each request given back once.
use native.Mathlib.Decide.{ℕ_discrete}
use fuzzusb.Base.{
  List-cases, ap, ℕ, zero, suc, ◌+◌, ◌≤◌, ◌<◌, ◌≡◌, refl, List, [], ◌∷◌, length, arith, ◌⊎◌, inl,
  inr,
}
use fuzzusb.Usb.{err, eshutdown}
use fuzzusb.Dummy.{Dummy, Env, Event, dummy_endpoints}
use fuzzusb.Dummy.Access.{log, call_complete}
use fuzzusb.Nuke.{fail_first, nuke_one, nuke_loop, nuke, nuke_all, stop_activity}

abbrev pub queue_length : Dummy → ℕ → ℕ
queue_length d i = length (d.ep i).queue

-- The rule for completion routines: a request that failed with -ESHUTDOWN is not queued again, nor
-- another in its place, on any endpoint.
abbrev pub NoRequeue : Env → Type 0
NoRequeue env =
    (i r j : ℕ) (d : Dummy)
    → (d.reqs r).status ≡ err eshutdown
    → queue_length (env.complete i r d) j ≤ queue_length d j

-- The state in which the completion routine of the first request is called
unfoldable pub failed : ℕ → ℕ → List ℕ → Dummy → Dummy
failed i r rs d =
    log (Event.gave_request i r (err eshutdown) (d.reqs r).actual) (fail_first i r rs d)

reqs-failed :
    (i r : ℕ) (rs : List ℕ) (d : Dummy) → ((failed i r rs d).reqs r).status ≡ err eshutdown
unfolding failed fail_first
reqs-failed i r rs d = ground arith

ep-failed :
    (i r j : ℕ) (rs : List ℕ) (d : Dummy)
    → (d.ep i).queue ≡ r ∷ rs
    → queue_length (failed i r rs d) j ≤ queue_length d j
unfolding failed fail_first
ep-failed i r j rs d e = ground arith

ep-failed_self :
    (i r : ℕ) (rs : List ℕ) (d : Dummy)
    → (d.ep i).queue ≡ r ∷ rs
    → suc (queue_length (failed i r rs d) i) ≡ queue_length d i
unfolding failed fail_first
ep-failed_self i r rs d e = ground arith

pub nuke_one-eq :
    (env : Env) (i r : ℕ) (rs : List ℕ) (d : Dummy)
    → nuke_one env i r rs d ≡ call_complete env i r (failed i r rs d)
unfolding nuke_one failed
nuke_one-eq env i r rs d = ground arith

pub nuke_loop-cut :
    (env : Env) (i r : ℕ) (rs : List ℕ) (d : Dummy)
    → (d.ep i).queue ≡ r ∷ rs
    → nuke_loop env zero i d ≡ log (Event.nuke_cut i) d
unfolding nuke_loop
nuke_loop-cut env i r rs d e = rw (e, nuke_loop)

pub nuke_loop-nil :
    (env : Env) (fuel i : ℕ) (d : Dummy) → (d.ep i).queue ≡ [] → nuke_loop env fuel i d ≡ d
unfolding nuke_loop
nuke_loop-nil env zero i d e = rw (e, nuke_loop)
nuke_loop-nil env (suc fuel) i d e = rw (e, nuke_loop)

pub nuke_loop-cons :
    (env : Env) (fuel i r : ℕ) (rs : List ℕ) (d : Dummy)
    → (d.ep i).queue ≡ r ∷ rs
    → nuke_loop env (suc fuel) i d ≡ nuke_loop env fuel i (nuke_one env i r rs d)
unfolding nuke_loop
nuke_loop-cons env fuel i r rs d e = rw (e, nuke_loop)

nil-of_length : (q : List ℕ) → length q ≤ 0 → q ≡ []
nil-of_length [] h = refl
nil-of_length (x ∷ q) h = absurd (omega arith)

module _ (env : Env) (rule : NoRequeue env) where
  complete-le :
      (i r j : ℕ) (d : Dummy)
      → (d.reqs r).status ≡ err eshutdown
      → queue_length (call_complete env i r d) j ≤ queue_length d j
  unfolding call_complete
  complete-le i r j d e = ground (arith, rule i r j d e)

  nuke_one-le :
      (i r j : ℕ) (rs : List ℕ) (d : Dummy)
      → (d.ep i).queue ≡ r ∷ rs
      → queue_length (nuke_one env i r rs d) j ≤ queue_length d j
  nuke_one-le i r j rs d e = rw (nuke_one-eq env i r rs d) (
      omega
        (arith, complete-le i r j (failed i r rs d) (reqs-failed i r rs d), ep-failed i r j rs d e))

  nuke_one-lt :
      (i r : ℕ) (rs : List ℕ) (d : Dummy)
      → (d.ep i).queue ≡ r ∷ rs
      → queue_length (nuke_one env i r rs d) i < queue_length d i
  nuke_one-lt i r rs d e = rw (nuke_one-eq env i r rs d) (
      omega (
        arith,
        complete-le i r i (failed i r rs d) (reqs-failed i r rs d),
        ep-failed_self i r rs d e,
      ))

  nuke_loop-le :
      (fuel i j : ℕ) (d : Dummy) → queue_length (nuke_loop env fuel i d) j ≤ queue_length d j
  nuke_loop-le zero i j d = elim (List-cases (d.ep i).queue) [
    | inl e ↦ rw (nuke_loop-nil env zero i d e) (omega arith)
    | inr (r, rs, e) ↦ rw (nuke_loop-cut env i r rs d e) (omega arith)
  ]
  nuke_loop-le (suc fuel) i j d = elim (List-cases (d.ep i).queue) [
    | inl e ↦ rw (nuke_loop-nil env (suc fuel) i d e) (omega arith)
    | inr (r, rs, e) ↦
        rw (nuke_loop-cons env fuel i r rs d e)
          (omega (arith, nuke_loop-le fuel i j (nuke_one env i r rs d), nuke_one-le i r j rs d e))
  ]

  nuke_loop-empty :
      (fuel i : ℕ) (d : Dummy)
      → queue_length d i ≤ fuel
      → ((nuke_loop env fuel i d).ep i).queue ≡ []
  nuke_loop-empty zero i d h =
      let e = nil-of_length (d.ep i).queue h in rw (nuke_loop-nil env zero i d e) e
  nuke_loop-empty (suc fuel) i d h = elim (List-cases (d.ep i).queue) [
    | inl e ↦ rw (nuke_loop-nil env (suc fuel) i d e) e
    | inr (r, rs, e) ↦
        rw (nuke_loop-cons env fuel i r rs d e)
          (nuke_loop-empty fuel i (nuke_one env i r rs d) (omega (arith, nuke_one-lt i r rs d e)))
  ]

  -- `nuke` empties the endpoint's queue, if completion routines obey the rule: its loop ends by its
  -- own test, and no endpoint's queue grows.
  pub nuke-empty :
      (i : ℕ) (d : Dummy)
      → (((nuke env i d).ep i).queue ≡ [])
        × ((j : ℕ) → queue_length (nuke env i d) j ≤ queue_length d j)
  unfolding nuke
  nuke-empty i d = (
    nuke_loop-empty (queue_length d i + env.nuke_rounds) i d (omega arith),
    λ j. nuke_loop-le (queue_length d i + env.nuke_rounds) i j d,
  )

  nuke_all-le : (n i j : ℕ) (d : Dummy) → queue_length (nuke_all env n i d) j ≤ queue_length d j
  unfolding nuke_all
  nuke_all-le zero i j d = omega arith
  nuke_all-le (suc n) i j d =
      omega (arith, nuke_all-le n (i + 1) j (nuke env i d), (nuke-empty i d).1 j)

  nuke_all-empty :
      (n i j : ℕ) (d : Dummy)
      → (i ≤ j) × (j < i + n) ⊎ (queue_length d j ≡ 0)
      → queue_length (nuke_all env n i d) j ≡ 0
  unfolding nuke_all
  nuke_all-empty zero i j d h = omega arith
  nuke_all-empty (suc n) i j d h = nuke_all-empty n (i + 1) j (nuke env i d) (step (ℕ_discrete i j))
    where
      step : Dec (i ≡ j) → (i + 1 ≤ j) × (j < i + 1 + n) ⊎ (queue_length (nuke env i d) j ≡ 0)
      step (yes e) = inr (rw (← e) (ap length (nuke-empty i d).0))
      step (no ne) = elim h [
        | inl b ↦ inl (omega (arith, b), omega (arith, b))
        | inr z ↦ inr (omega (arith, z, (nuke-empty i d).1 j))
      ]

  -- `stop_activity` empties the queue of every endpoint, if completion routines obey the rule.
  pub stop_activity-empty :
      (j : ℕ) (d : Dummy) → j < dummy_endpoints → queue_length (stop_activity env d) j ≡ 0
  unfolding stop_activity
  stop_activity-empty j d h =
      nuke_all-empty dummy_endpoints 0 j (record d { address = 0 }) (inl (omega arith, omega arith))
