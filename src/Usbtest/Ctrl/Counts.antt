-- ===== src/Usbtest/Ctrl/Counts.antt =====
-- What the queue of control requests counts, whatever completes and whatever the answers are.
use mathlib.Core.Path.{subst}
use mathlib.Core.Option.{some-injective}
use native.Mathlib.Nat.{add-zero}
use fuzzusb.Base.{
  ℕ, suc, ◌+◌, ◌-◌, ◌%◌, ◌≤◌, ◌<◌, ◌≡◌, inl, inr, refl, ap, arith, Bool, true, false, not, ◌||◌,
  Option, none, some, List, [], ◌∷◌, ◌++◌, length, length-append, if◌then◌else◌, ltb, ◌==◌,
  Bool-cases, Option-cases, pick,
}
use fuzzusb.Usb.{Ret, ret}
use fuzzusb.Usbtest.Io.{is_zero}
use fuzzusb.Usbtest.Ctrl.Cases.{Expect}
use fuzzusb.Usbtest.Ctrl.{
  Ctx, decrement, waits, take_out, judge_in_order, finish, after_judge, ctrl_complete, unlink_one,
  Event, completed, goes_on, step,
}

-- While an URB unlinks the others, the result of the test is an error.
abbrev pub Unlinking : Option (ℕ × ℕ) → Ctx → Type 0
Unlinking none c = c.pending ≡ 0 → 0 < c.signals
Unlinking (some p) c = is_zero c.status ≡ false

-- The counts before the end of a completion
pub record Counts (total done : ℕ) (c : Ctx) : Type 0 where
  pub queued : c.pending ≡ length c.flight
  pub room : c.pending ≤ c.count
  pub small : total < 4294967296
  pub sum : done + c.count ≡ total
  pub woken : 0 < c.signals → c.pending ≡ 0

pub record Inv (total done : ℕ) (c : Ctx) : Type 0 where
  pub counts : Counts total done c
  pub unlinking : Unlinking c.unlinker c

pub length-take_out :
    (k : ℕ) (js : List ℕ) → waits k js ≡ true → length (take_out k js) + 1 ≡ length js
length-take_out k [] h = cc
length-take_out k (j ∷ js) h = ground (arith, length-take_out k js)

pub length_snoc : (js : List ℕ) (k : ℕ) → length (js ++ k ∷ []) ≡ length js + 1
length_snoc js k = length-append js (k ∷ [])

finish-Counts :
    (total done k : ℕ) (status answer : Ret) (c : Ctx)
    → Counts total done c
    → (is_zero status ≡ true → c.signals ≡ 0)
    → Counts total done (finish k status answer c)
unfolding finish
finish-Counts total done k status answer c h s = ground (arith, length_snoc c.flight k)

finish_wakes :
    (k : ℕ) (status answer : Ret) (c : Ctx)
    → (finish k status answer c).pending ≡ 0
    → 0 < (finish k status answer c).signals
unfolding finish
finish_wakes k status answer c h = ground arith

finish-unlinker :
    (k : ℕ) (status answer : Ret) (c : Ctx)
    → ((finish k status answer c).unlinker ≡ c.unlinker)
      × ((finish k status answer c).status ≡ c.status)
unfolding finish
finish-unlinker k status answer c = ground arith

Unlinking-of :
    (o : Option (ℕ × ℕ)) (c : Ctx)
    → (o ≡ none → c.pending ≡ 0 → 0 < c.signals)
    → ((p : ℕ × ℕ) → o ≡ some p → is_zero c.status ≡ false)
    → Unlinking o c
Unlinking-of none c n s = n refl
Unlinking-of (some p) c n s = s p refl

-- The status of the test is an error while an URB unlinks the others.
Failing : Ctx → Type 0
Failing c = (p : ℕ × ℕ) → c.unlinker ≡ some p → is_zero c.status ≡ false

Inv-Failing : {total done : ℕ} {c : Ctx} → Inv total done c → Failing c
unfolding Failing
Inv-Failing {c = c} i p e = rw e at i.unlinking

finish-Inv :
    (total done k : ℕ) (status answer : Ret) (c : Ctx)
    → Counts total done c
    → (is_zero status ≡ true → c.signals ≡ 0)
    → Failing c
    → Inv total done (finish k status answer c)
unfolding Failing
finish-Inv total done k status answer c h s f =
    let kept = finish-unlinker k status answer c in
    record {
      counts = finish-Counts total done k status answer c h s;
      unlinking =
          Unlinking-of (finish k status answer c).unlinker (finish k status answer c)
            (λ _. finish_wakes k status answer c) (λ p e. rw kept.1 (f p (cc (kept.0))));
    }

-- Before the judgement nothing was signalled, since an URB was still queued.
after_judge-Inv :
    (sglen : ℕ) (expect : ℕ → Expect) (total done k : ℕ) (status answer : Ret) (c : Ctx)
    → Counts total done c
    → c.signals ≡ 0
    → Failing c
    → Inv total done (after_judge sglen expect k status answer c)
after_judge-Inv sglen expect total done k status answer c h z f =
    elim (Bool-cases (is_zero status)) [
      | inl ok ↦ rw ok (finish-Inv total done k status answer c h (λ _. z) f)
      | inr bad ↦ elim (Bool-cases (is_zero c.status)) [
        | inl first ↦
            rw (bad, first)
              (record {
                counts = record {
                  queued = h.queued;
                  room = h.room;
                  small = h.small;
                  sum = h.sum;
                  woken = h.woken;
                };
                unlinking = bad;
              })
        | inr later ↦ rw (bad, later) (finish-Inv total done k status answer c h (λ _. z) f)
      ]
    ]

-- The record after a completion has left the queue
abbrev gone : ℕ → Ctx → Ctx
gone k c = record c {
  count = decrement c.count;
  pending = decrement c.pending;
  flight = take_out k c.flight;
  last = some (k % 16);
}

gone-Counts :
    (total done k : ℕ) (c : Ctx)
    → Counts total done c
    → waits k c.flight ≡ true
    → Counts total (done + 1) (gone k c) × (c.signals ≡ 0)
gone-Counts total done k c h w =
    (ground (arith, length-take_out k c.flight w), ground (arith, length-take_out k c.flight w))

-- How many events of an unlinking are left
abbrev pub budget : ℕ → Option (ℕ × ℕ) → Bool → ℕ
budget sglen (some (k, i)) fine = suc (sglen - i)
budget sglen none true = sglen + 1
budget sglen none false = 0

abbrev pub measure : ℕ → Ctx → ℕ
measure sglen c = c.count + budget sglen c.unlinker (is_zero c.status)

finish-count : (k : ℕ) (status answer : Ret) (c : Ctx) → (finish k status answer c).count ≡ c.count
unfolding finish
finish-count k status answer c = ground arith

finish-measure :
    (sglen k : ℕ) (status answer : Ret) (c : Ctx)
    → measure sglen (finish k status answer c) ≡ measure sglen c
finish-measure sglen k status answer c =
    let kept = finish-unlinker k status answer c in
    cc (finish-count k status answer c, kept.0, kept.1)

after_judge-measure :
    (sglen : ℕ) (expect : ℕ → Expect) (k : ℕ) (status answer : Ret) (c : Ctx)
    → Failing c
    → measure sglen (after_judge sglen expect k status answer c) ≤ measure sglen c
unfolding Failing
after_judge-measure sglen expect k status answer c f = elim (Option-cases c.unlinker) [
  | inl free ↦ ground (arith, finish-measure sglen k status answer c)
  | inr (p, busy) ↦ let e = f p busy in ground (arith, finish-measure sglen k status answer c)
]

-- What a round of the unlinking makes of the state
abbrev pub unlinked_by : ℕ → (ℕ → Expect) → ℕ → ℕ → Ctx → Ctx
unlinked_by sglen expect k i c =
    if ltb i sglen
    then unlink_one sglen expect k i ((i + k % 16) % sglen) c
    else finish k c.status (ret 0) (record c { unlinker = none })

unlink_one-measure :
    (sglen : ℕ) (expect : ℕ → Expect) (k i j : ℕ) (c : Ctx)
    → measure sglen (unlink_one sglen expect k i j c) ≡ c.count + suc (sglen - (i + 1))
unlink_one-measure sglen expect k i j c = ground arith

unlinked_by-measure :
    (sglen : ℕ) (expect : ℕ → Expect) (k i : ℕ) (c : Ctx)
    → c.unlinker ≡ some (k, i)
    → is_zero c.status ≡ false
    → measure sglen (unlinked_by sglen expect k i c) < measure sglen c
unlinked_by-measure sglen expect k i c u s = rw u (elim (Bool-cases (ltb i sglen)) [
  | inl more ↦
      rw more (ground (arith, unlink_one-measure sglen expect k i ((i + k % 16) % sglen) c))
  | inr over ↦
      let freed = record c { unlinker = none } in
      rw over
        (omega (arith, finish-measure sglen k c.status (ret 0) freed, ap (budget sglen none) s))
])

unlinked_by-Inv :
    (sglen : ℕ) (expect : ℕ → Expect) (total done k i : ℕ) (c : Ctx)
    → Inv total done c
    → c.unlinker ≡ some (k, i)
    → is_zero c.status ≡ false
    → Inv total done (unlinked_by sglen expect k i c)
unfolding Failing
unlinked_by-Inv sglen expect total done k i c h u s = elim (Bool-cases (ltb i sglen)) [
  | inl more ↦ rw more (one ((i + k % 16) % sglen))
  | inr over ↦ rw over (
      finish-Inv total done k c.status (ret 0) (record c { unlinker = none }) counts (λ z. cc)
        (λ p e. cc))
]
  where
    counts : Counts total done (record c { unlinker = none })
    counts = record {
      queued = h.counts.queued;
      room = h.counts.room;
      small = h.counts.small;
      sum = h.counts.sum;
      woken = h.counts.woken;
    }

    again : (l : List ℕ) → Inv total done (record c { unlinker = some (k, i + 1); unlinked = l })
    again l = record {
      counts = record {
        queued = h.counts.queued;
        room = h.counts.room;
        small = h.counts.small;
        sum = h.counts.sum;
        woken = h.counts.woken;
      };
      unlinking = s;
    }

    one : (j : ℕ) → Inv total done (unlink_one sglen expect k i j c)
    one j =
        pick (Inv total done) (j == k || not (c.live j)) (record c { unlinker = some (k, i + 1) })
          (record c { unlinker = some (k, i + 1); unlinked = j ∷ c.unlinked })
          (λ _. again c.unlinked) (λ _. again (j ∷ c.unlinked))

-- Whether an event is a completion
abbrev pub weight : Event → ℕ
weight (completed k status answer) = 1
weight goes_on = 0

ctrl_complete-Inv :
    (sglen : ℕ) (expect : ℕ → Expect) (total done k : ℕ) (status answer : Ret) (c : Ctx)
    → Inv total done c
    → waits k c.flight ≡ true
    → Inv total (done + 1) (ctrl_complete sglen expect k status answer c)
      × (measure sglen (ctrl_complete sglen expect k status answer c) < measure sglen c)
unfolding ctrl_complete Failing
ctrl_complete-Inv sglen expect total done k status answer c h w =
    let failing = Inv-Failing h in
    let (counts, quiet) = gone-Counts total done k c h.counts w in
    let judged = judge_in_order (k % 16) (expect k) c.last status in
    (
      after_judge-Inv sglen expect total (done + 1) k judged answer (gone k c) counts quiet failing,
      omega (
        arith,
        after_judge-measure sglen expect k judged answer (gone k c) failing,
        length-take_out k c.flight w,
        h.counts.queued,
        h.counts.room,
        h.counts.small,
        h.counts.sum,
      ),
    )

-- An event keeps the counts, and brings the end nearer.
pub step-Inv :
    (sglen : ℕ) (expect : ℕ → Expect) (total done : ℕ) (e : Event) (c c' : Ctx)
    → Inv total done c
    → step sglen expect e c ≡ some c'
    → Inv total (done + weight e) c' × (measure sglen c' < measure sglen c)
unfolding Failing
step-Inv sglen expect total done (completed k status answer) c c' h s =
    elim (Bool-cases (waits k c.flight)) [
      | inl w ↦
          subst (λ x. Inv total (done + 1) x × (measure sglen x < measure sglen c))
            (some-injective _ _ (rw w at s))
            (ctrl_complete-Inv sglen expect total done k status answer c h w)
      | inr w ↦ cc
    ]
step-Inv sglen expect total done goes_on c c' h s = elim (Option-cases c.unlinker) [
  | inl free ↦ cc
  | inr ((k, i), busy) ↦
      let failing = Inv-Failing h (k, i) busy in
      subst (λ x. Inv total (done + 0) x × (measure sglen x < measure sglen c))
        (some-injective (unlinked_by sglen expect k i c) c' (rw busy at s))
        (rw add-zero (
          unlinked_by-Inv sglen expect total done k i c h busy failing,
          unlinked_by-measure sglen expect k i c busy failing,
        ))
]
