-- ===== src/Usbtest/Ctrl/Woken.antt =====
-- `test_ctrl_queue` waits as long as control requests are queued, and not for ever.
use mathlib.Core.Path.{subst}
use mathlib.Core.Option.{some-injective}
use native.Mathlib.Nat.{add-zero, zero-add, add_assoc}
use fuzzusb.Base.{
  ℕ, zero, suc, ◌+◌, ◌*◌, ◌≤◌, ◌<◌, ◌≡◌, ◌⊎◌, inl, inr, refl, ap, arith, Bool, true, false, Option,
  none, some, List, [], ◌∷◌, ◌++◌, length, ◌==◌, ==_refl, Bool-cases, Option-cases, List-cases,
  pick,
}
use fuzzusb.Usb.{Ret, ret}
use fuzzusb.Usbtest.Io.{is_zero}
use fuzzusb.Usbtest.Ctrl.Cases.{Expect}
use fuzzusb.Usbtest.Ctrl.{
  Ctx, ctrl_complete, Event, completed, goes_on, step, run, submit_all, fresh,
}
use fuzzusb.Usbtest.Ctrl.Counts.{Inv, unlinked_by, weight, measure, budget, length_snoc, step-Inv}

-- How many of the events are completions
abbrev pub completions : List Event → ℕ
completions [] = 0
completions (e ∷ es) = weight e + completions es

run-Inv :
    (sglen : ℕ) (expect : ℕ → Expect) (total done : ℕ) (es : List Event) (c c' : Ctx)
    → Inv total done c
    → run sglen expect es c ≡ some c'
    → Inv total (done + completions es) c' × (length es + measure sglen c' ≤ measure sglen c)
unfolding run
run-Inv sglen expect total done [] c c' h r =
    subst (λ x. Inv total (done + 0) x × (0 + measure sglen x ≤ measure sglen c))
      (some-injective c c' r) (rw add-zero h, omega arith)
run-Inv sglen expect total done (e ∷ es) c c' h r = elim (Option-cases (step sglen expect e c)) [
  | inl stuck ↦ let never : none ≡ some c' = rw stuck at r in cc
  | inr (d, s) ↦
      let first = step-Inv sglen expect total done e c d h s in
      let rest = run-Inv sglen expect total (done + weight e) es d c' first.0 (rw s at r) in
      (rw (add_assoc done (weight e) (completions es)) at rest.0, omega arith)
]

-- What the loop that queues the URBs leaves behind
record Submitted (most : ℕ) (c : Ctx) : Type 0 where
  queued : c.pending ≡ length c.flight
  room : c.pending ≤ c.count
  bound : c.count ≤ most
  quiet : c.signals ≡ 0
  free : c.unlinker ≡ none

submit_all-Submitted :
    (answers : ℕ → Ret) (most n i : ℕ) (c : Ctx)
    → Submitted most c
    → n + c.pending ≤ c.count
    → Submitted most (submit_all answers n i c)
unfolding submit_all
submit_all-Submitted answers most zero i c h l = h
submit_all-Submitted answers most (suc n) i c h l =
    let rest = record c {
      status = answers i;
      pending = c.pending + 1;
      flight = c.flight ++ i ∷ [];
    } in
    pick (Submitted most) (is_zero (answers i)) (submit_all answers n (i + 1) rest)
      (record c { status = answers i; count = c.pending })
      (λ _.
        submit_all-Submitted answers most n (i + 1) rest
          (record {
            queued = omega (arith, h.queued, length_snoc c.flight i);
            room = omega (arith, l);
            bound = h.bound;
            quiet = h.quiet;
            free = h.free;
          })
          (omega (arith, l)))
      (λ _. record {
        queued = h.queued;
        room = omega arith;
        bound = omega arith;
        quiet = h.quiet;
        free = h.free;
      })

budget_bound : (sglen : ℕ) (b : Bool) → budget sglen none b ≤ sglen + 1
budget_bound sglen true = omega arith
budget_bound sglen false = omega arith

-- The state of the test when the URBs were queued
abbrev pub queued_state : (ℕ → Ret) → ℕ → ℕ → Ctx
queued_state answers sglen iterations = submit_all answers sglen 0 (fresh (sglen * iterations))

-- Either something is queued or a completion unlinks the rest, and the test waits; or nothing is
-- queued, and the test was woken.
abbrev pub Awaited : Ctx → Type 0
Awaited c =
    ((c.signals ≡ 0) × ((0 < c.pending) ⊎ ((p : ℕ × ℕ) × (c.unlinker ≡ some p))))
    ⊎ ((0 < c.signals) × (c.pending ≡ 0))

module _ (answers : ℕ → Ret) (sglen iterations : ℕ) (expect : ℕ → Expect) (es : List Event)
    (c : Ctx) (some_rounds : 0 < iterations) (fits : sglen * iterations < 4294967296)
    (begun : 0 < (queued_state answers sglen iterations).pending)
    (ran : run sglen expect es (queued_state answers sglen iterations) ≡ some c) where
  abbrev start : Ctx
  start = queued_state answers sglen iterations

  submitted : Submitted (sglen * iterations) start
  submitted =
      submit_all-Submitted answers (sglen * iterations) sglen 0 (fresh (sglen * iterations))
        (record {
          queued = refl;
          room = omega arith;
          bound = omega arith;
          quiet = refl;
          free = refl;
        })
        (grind arith)

  start-Inv : Inv start.count 0 start
  start-Inv =
      let h = submitted in
      record {
        counts = record {
          queued = h.queued;
          room = h.room;
          small = omega (arith, h.bound);
          sum = omega arith;
          woken = λ w. omega (arith, h.quiet);
        };
        unlinking = rw h.free (λ z. absurd (omega (arith, begun)));
      }

  ended : Inv start.count (completions es) c × (length es + measure sglen c ≤ measure sglen start)
  ended =
      let both = run-Inv sglen expect start.count 0 es start c start-Inv ran in
      (rw zero-add at both.0, both.1)

  Awaited-of : (o : Option (ℕ × ℕ)) → c.unlinker ≡ o → Awaited c
  Awaited-of none e =
      let woken : c.pending ≡ 0 → 0 < c.signals = rw e at ended.0.unlinking in
      let idle : 0 < c.signals → c.pending ≡ 0 = ended.0.counts.woken in ground (arith, woken, idle)
  Awaited-of (some p) e =
      let idle : 0 < c.signals → c.pending ≡ 0 = ended.0.counts.woken in
      elim (Bool-cases (c.signals == 0)) [
        | inl z ↦ inl (ground arith, inr (p, e))
        | inr n ↦ inr (ground arith, ground (arith, idle))
      ]

  -- Whatever URBs complete, with whatever statuses, in whatever order, and however far the unlinking
  -- of the others has come in between: the completions so far and those that are left add up to the
  -- number at the start, which is at most `sglen` times `iterations`; `pending` is the number of
  -- queued URBs and at most what is left; and either the test was not woken, and an URB is queued or a
  -- completion is at unlinking, or it was woken, and no URB is queued. At least one round is asked for,
  -- the product fits an `unsigned`, and the first URB was queued.
  pub ctrl_queue-Awaited :
      (completions es + c.count ≡ start.count)
      × (start.count ≤ sglen * iterations)
      × (c.pending ≡ length c.flight)
      × (c.pending ≤ c.count)
      × Awaited c
  ctrl_queue-Awaited = (
    ended.0.counts.sum,
    submitted.bound,
    ended.0.counts.queued,
    ended.0.counts.room,
    Awaited-of c.unlinker refl,
  )

  -- What can happen next
  abbrev Next : Type 0
  Next = (e : Event) × (d : Ctx) × (step sglen expect e c ≡ some d)

  next_of :
      (o : Option (ℕ × ℕ))
      → c.unlinker ≡ o
      → 0 < c.pending ⊎ ((p : ℕ × ℕ) × (c.unlinker ≡ some p))
      → Next
  next_of (some (k, i)) e w = (goes_on, unlinked_by sglen expect k i c, rw e refl)
  next_of none e (inr (p, busy)) = absurd (cc)
  next_of none e (inl w) = elim (List-cases c.flight) [
    | inl empty ↦ absurd (omega (arith, ended.0.counts.queued, ap length empty))
    | inr (k, ks, f) ↦ (
      completed k (ret 0) (ret 0),
      ctrl_complete sglen expect k (ret 0) (ret 0) c,
      rw (f, ==_refl k) refl,
    )
  ]

  -- The test does not wait for ever: at most as many events happen as there are completions to come
  -- and rounds of one unlinking, and as long as it was not woken another one can happen. At least one
  -- round is asked for, the product fits an `unsigned`, and the first URB was queued.
  pub ctrl_queue_ends : (length es ≤ sglen * iterations + sglen + 1) × ((0 < c.signals) ⊎ Next)
  ctrl_queue_ends = (
    omega (arith, ended.1, submitted.bound, start_measure),
    elim (ctrl_queue-Awaited.4) [
      | inl (z, w) ↦ inr (next_of c.unlinker refl w)
      | inr (s, z) ↦ inl s
    ],
  )
    where
      start_measure : measure sglen start ≤ start.count + (sglen + 1)
      start_measure = rw submitted.free (omega (arith, budget_bound sglen (is_zero start.status)))
