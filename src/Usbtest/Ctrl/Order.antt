-- ===== src/Usbtest/Ctrl/Order.antt =====
-- A host that completes control requests in the order in which they were queued passes the test.
use native.Mathlib.Nat.{le-div_iff_mul-le}
use fuzzusb.Base.{
  ℕ, zero, suc, ◌+◌, ◌-◌, ◌*◌, ◌/◌, ◌%◌, ◌≤◌, ◌<◌, ◌≡◌, refl, sym, ap, ◌∙◌, arith, min, true, false,
  not, ◌&&◌, ◌||◌, none, some, List, [], ◌∷◌, ◌++◌, append-nil, append_assoc, if◌then◌else◌, ltb,
  ◌==◌, ==_refl, Bool-cases, inl, inr,
}
use fuzzusb.Usb.{Ret, ret}
use fuzzusb.Usbtest.Ctrl.Cases.{Expect, Device, subcase}
use fuzzusb.Usbtest.Ctrl.{
  Ctx, decrement, waits, take_out, follows, judge, finish, ctrl_complete, Event, completed, run,
  submit_all, fresh, test_ctrl_queue,
}

-- The place behind `k`
abbrev pub next : ℕ → ℕ → ℕ
next n k = if k + 1 == n then 0 else k + 1

-- `p` places from `k` on, round and round
abbrev cycle : ℕ → ℕ → ℕ → List ℕ
cycle n k zero = []
cycle n k (suc p) = k ∷ cycle n (next n k) p

abbrev ahead : ℕ → ℕ → ℕ → ℕ
ahead n k zero = k
ahead n k (suc p) = ahead n (next n k) p

ahead_lem : (n k p : ℕ) → k < n → p ≤ n → ahead n k p ≡ (if ltb (k + p) n then k + p else k + p - n)
ahead_lem n k zero l h = ground arith
ahead_lem n k (suc p) l h = elim (Bool-cases (k + 1 == n)) [
  | inl e ↦ rw e (ground (arith, ahead_lem n 0 p))
  | inr e ↦ rw e (ground (arith, ahead_lem n (k + 1) p))
]

cycle_snoc : (n k p : ℕ) → cycle n k p ++ ahead n k p ∷ [] ≡ cycle n k (suc p)
cycle_snoc n k zero = refl
cycle_snoc n k (suc p) = ap (λ t. k ∷ t) (cycle_snoc n (next n k) p)

-- A whole round ends where it began.
cycle_round :
    (n k p : ℕ) → k < n → suc p ≡ n → cycle n (next n k) p ++ k ∷ [] ≡ cycle n (next n k) (suc p)
cycle_round n k p l e =
    let whole : ahead n (next n k) p ≡ k = ahead_lem n k (suc p) l (omega arith) ∙ ground arith in
    rw whole at (cycle_snoc n (next n k) p)

-- `n` places from `i` on
abbrev from : ℕ → ℕ → List ℕ
from i zero = []
from i (suc n) = i ∷ from (i + 1) n

cycle-from : (n i p : ℕ) → i + p ≤ n → cycle n i p ≡ from i p
cycle-from n i zero h = refl
cycle-from n i (suc zero) h = refl
cycle-from n i (suc (suc p)) h =
    let inside : (i + 1 == n) ≡ false = ground arith in
    rw inside (ap (λ t. i ∷ t) (cycle-from n (i + 1) (suc p) (omega arith)))

-- All URBs are queued.
submit_all-from :
    (n i : ℕ) (c : Ctx)
    → c.status ≡ ret 0
    → let s = submit_all (λ _. ret 0) n i c in
      (s.count ≡ c.count)
      × (s.pending ≡ c.pending + n)
      × (s.status ≡ ret 0)
      × (s.last ≡ c.last)
      × (s.flight ≡ c.flight ++ from i n)
      × (s.signals ≡ c.signals)
      × (s.unlinker ≡ c.unlinker)
unfolding submit_all
submit_all-from zero i c h = (refl, omega arith, h, refl, sym (append-nil c.flight), refl, refl)
submit_all-from (suc n) i c h =
    let next_c = record c {
      status = ret 0;
      pending = c.pending + 1;
      flight = c.flight ++ i ∷ [];
    } in
    let r = submit_all-from n (i + 1) next_c refl in
    (
      r.0,
      omega (arith, r.1),
      r.2,
      r.3,
      r.4 ∙ append_assoc c.flight (i ∷ []) (from (i + 1) n),
      r.5,
      r.6,
    )

-- The state with `m` completions left, the next of them of the URB at `k`
record Orderly (sglen m k : ℕ) (c : Ctx) : Type 0 where
  count : c.count ≡ m
  pending : c.pending ≡ min sglen m
  fine : c.status ≡ ret 0
  order : (ltb 0 (k % 16) && not (follows (k % 16) c.last)) ≡ false
  flight : c.flight ≡ cycle sglen k (min sglen m)
  signals : c.signals ≡ (if m == 0 then 1 else 0)
  free : c.unlinker ≡ none

waits_first : (n k p : ℕ) → 0 < p → waits k (cycle n k p) ≡ true
waits_first n k zero h = elim h [ ]
waits_first n k (suc p) h = rw (==_refl k) refl

take_out_first : (n k p : ℕ) → 0 < p → take_out k (cycle n k p) ≡ cycle n (next n k) (p - 1)
take_out_first n k zero h = elim h [ ]
take_out_first n k (suc p) h = rw (==_refl k) (ap (cycle n (next n k)) (omega arith))

next_order :
    (n k : ℕ) → (ltb 0 (next n k % 16) && not (follows (next n k % 16) (some (k % 16)))) ≡ false
next_order n k = ground arith

in_order_of :
    (sglen k : ℕ) (c : Ctx)
    → c.last ≡ some (k % 16)
    → (ltb 0 (next sglen k % 16) && not (follows (next sglen k % 16) c.last)) ≡ false
in_order_of sglen k c e = rw e (next_order sglen k)

-- A completion that is as it should be
finish-Orderly :
    (sglen m k : ℕ) (c : Ctx)
    → k < sglen
    → c.count ≡ m
    → c.pending ≡ min sglen (suc m) - 1
    → c.status ≡ ret 0
    → c.last ≡ some (k % 16)
    → c.flight ≡ cycle sglen (next sglen k) (min sglen (suc m) - 1)
    → c.signals ≡ 0
    → c.unlinker ≡ none
    → Orderly sglen m (next sglen k) (finish k (ret 0) (ret 0) c)
unfolding finish
finish-Orderly sglen m k c l count pending fine last flight signals free =
    let p = min sglen (suc m) - 1 in
    let in_order = in_order_of sglen k c last in
    elim (Bool-cases (ltb c.pending c.count)) [
      | inl more ↦
          let below : c.pending < m = ground arith in
          let busy : (c.pending + 1 == 0) ≡ false = ground arith in
          let left : (m == 0) ≡ false = ground arith in
          let again = cycle_round sglen k p l (omega arith) in
          rw (more, busy)
            (record {
              count = count;
              pending = omega arith;
              fine = fine;
              order = in_order;
              flight =
                  rw flight (again ∙ ap (cycle sglen (next sglen k)) {x = suc p} (omega arith));
              signals = rw left signals;
              free = free;
            })
      | inr over ↦
          let all_left : c.pending ≡ m = ground arith in
          let round : c.flight ≡ cycle sglen (next sglen k) (min sglen m) =
            flight ∙ ap (cycle sglen (next sglen k)) (omega arith) in
          rw over (elim (Bool-cases (c.pending == 0)) [
            | inl z ↦
                let end : (m == 0) ≡ true = ground arith in
                rw z (record {
                  count = count;
                  pending = omega arith;
                  fine = fine;
                  order = in_order;
                  flight = round;
                  signals = rw end (omega arith);
                  free = free;
                })
            | inr n ↦
                let left : (m == 0) ≡ false = ground arith in
                rw n (record {
                  count = count;
                  pending = omega arith;
                  fine = fine;
                  order = in_order;
                  flight = round;
                  signals = rw left signals;
                  free = free;
                })
          ])
    ]

next-lt : (n k : ℕ) → k < n → next n k < n
next-lt n k h = ground arith

-- What happens if the URBs complete in turn: `m` completions, the first of them being number `d` and
-- that of the URB at `k`, and each resubmission is taken
abbrev pub in_turn : ℕ → (ℕ → ℕ → Ret) → ℕ → ℕ → ℕ → List Event
in_turn sglen statuses zero d k = []
in_turn sglen statuses (suc m) d k =
    completed k (statuses d k) (ret 0) ∷ in_turn sglen statuses m (d + 1) (next sglen k)

module _ (sglen : ℕ) (expect : ℕ → Expect) (statuses : ℕ → ℕ → Ret)
    (legal : (d k : ℕ) → k < sglen → judge (k % 16) (expect k) (statuses d k) ≡ ret 0) where
  ctrl_complete-Orderly :
      (m d k : ℕ) (c : Ctx)
      → Orderly sglen (suc m) k c
      → k < sglen
      → suc m < 4294967296
      → Orderly sglen m (next sglen k) (ctrl_complete sglen expect k (statuses d k) (ret 0) c)
  unfolding ctrl_complete
  ctrl_complete-Orderly m d k c h l small =
      let never : (suc m == 0) ≡ false = ground arith in
      rw (h.order, legal d k l)
        (finish-Orderly sglen m k
          (record c {
            count = decrement c.count;
            pending = decrement c.pending;
            flight = take_out k c.flight;
            last = some (k % 16);
          })
          l (omega (arith, h.count)) (omega (arith, h.pending)) h.fine refl
          (rw h.flight (take_out_first sglen k (min sglen (suc m)) (omega arith)))
          (rw never at h.signals) h.free)

  run-Orderly :
      (m d k : ℕ) (c : Ctx)
      → Orderly sglen m k c
      → k < sglen
      → m < 4294967296
      → (c' : Ctx) × (run sglen expect (in_turn sglen statuses m d k) c ≡ some c')
        × (c'.status ≡ ret 0)
        × (c'.signals ≡ 1)
  unfolding run
  run-Orderly zero d k c h l small = (c, refl, h.fine, h.signals)
  run-Orderly (suc m) d k c h l small =
      let there : waits k c.flight ≡ true =
        rw h.flight (waits_first sglen k (min sglen (suc m)) (omega arith)) in
      let after = ctrl_complete sglen expect k (statuses d k) (ret 0) c in
      let rest =
        run-Orderly m (d + 1) (next sglen k) after (ctrl_complete-Orderly m d k c h l small)
          (next-lt sglen k l) (omega arith) in
      (rest.0, rw there rest.1, rest.2, rest.3)

start-Orderly :
    (sglen total : ℕ)
    → 0 < sglen
    → sglen ≤ total
    → Orderly sglen total 0 (submit_all (λ _. ret 0) sglen 0 (fresh total))
unfolding submit_all
start-Orderly zero total pos h = elim pos [ ]
start-Orderly (suc n) total pos h =
    let first = record (fresh total) { status = ret 0; pending = 0 + 1; flight = 0 ∷ [] } in
    let q = submit_all-from n 1 first refl in
    let some_left : (total == 0) ≡ false = ground arith in
    record {
      count = q.0;
      pending = omega (arith, q.1);
      fine = q.2;
      order = refl;
      flight =
          q.4
          ∙ sym (cycle-from (suc n) 0 (suc n) (omega arith))
          ∙ ap (cycle (suc n) 0) {x = suc n} (omega arith);
      signals = rw some_left q.5;
      free = q.6;
    }

product_fits : (a b : ℕ) → 0 < a → b ≤ 4294967295 / a → a * b ≤ 4294967295
product_fits a b pos h = grind (arith, le-div_iff_mul-le)

-- A host that takes every URB, completes them in the order in which they were queued, and with
-- statuses that the subcases allow, passes: after `sglen` times `iterations` completions
-- `test_ctrl_queue` returns 0. The allocations succeed, `sglen` and `iterations` are positive, and
-- their product fits an `unsigned`.
pub test_ctrl_queue-in_turn :
    (d : Device) (sglen iterations : ℕ) (statuses : ℕ → ℕ → Ret)
    → 0 < sglen
    → 0 < iterations
    → iterations ≤ 4294967295 / sglen
    → ((i k : ℕ) → k < sglen → judge (k % 16) (subcase d (k % 16)).expected (statuses i k) ≡ ret 0)
    → test_ctrl_queue d sglen iterations true true
        (λ _. ret 0)
        (in_turn sglen statuses (sglen * iterations) 0 0)
      ≡ some (ret 0)
unfolding test_ctrl_queue
test_ctrl_queue-in_turn d sglen iterations statuses pos some_rounds fits legal =
    let total = sglen * iterations in
    let enough : sglen ≤ total = grind arith in
    let small : total < 4294967296 = omega (arith, product_fits sglen iterations pos fits) in
    let begun = start-Orderly sglen total pos enough in
    let known : (sglen == 0 || ltb (4294967295 / sglen) iterations) ≡ false = ground arith in
    let waits : ((submit_all (λ _. ret 0) sglen 0 (fresh total)).pending == 0) ≡ false =
      ground (arith, begun.pending) in
    let done =
      run-Orderly sglen (λ k. (subcase d (k % 16)).expected) statuses legal total 0 0
        (submit_all (λ _. ret 0) sglen 0 (fresh total)) begun pos small in
    rw (known, waits, done.1, done.3, done.2) refl
