-- ===== src/Usbtest/Queue/Verdict.antt =====
-- How `test_queue` ends: it waits as long as transfers are queued, and its verdict is that of all the
-- completions.
use mathlib.Core.Path.{subst}
use mathlib.Core.Option.{some-injective}
use native.Mathlib.Nat.{le-div_iff_mul-le, add-zero, zero-add}
use fuzzusb.Base.{
  ℕ, zero, suc, ◌+◌, ◌*◌, ◌/◌, ◌≤◌, ◌<◌, ◌≡◌, ◌⊎◌, ◌∙◌, inl, inr, refl, sym, ap, arith, min, Bool,
  true, false, ◌||◌, none, some, List, [], ◌∷◌, ◌++◌, length, if◌then◌else◌, ltb, ◌==◌, Bool-cases,
  pick,
}
use fuzzusb.Usb.{Ret, ret, err, eio}
use fuzzusb.Usbtest.Io.{is_zero}
use fuzzusb.Usbtest.Ctrl.{decrement, waits}
use fuzzusb.Usbtest.Ctrl.Counts.{length-take_out, length_snoc}
use fuzzusb.Usbtest.Queue.{
  Context, Completion, faults, tally, give_up, resubmit, is_left, go_further, complicated_callback,
  run, submit_all, fresh, test_queue,
}

-- The counts after `done` completions with `f` faults, of `total`
record Inv (packets total done f : ℕ) (c : Context) : Type 0 where
  queued : c.pending ≡ length c.flight
  room : c.pending ≤ c.count
  small : total < 4294967296
  sum : done + c.count ≡ total
  errors : c.errors ≡ f
  packet_count : c.packet_count ≡ done * packets
  woken : 0 < c.signals → c.pending ≡ 0
  sleeps : c.pending ≡ 0 → 0 < c.signals

-- The same while a completion is on its way: its URB has left the queue and still counts as pending.
record Midway (packets total done f : ℕ) (c : Context) : Type 0 where
  queued : c.pending ≡ length c.flight + 1
  room : c.pending ≤ c.count + 1
  small : total < 4294967296
  sum : done + c.count ≡ total
  errors : c.errors ≡ f
  packet_count : c.packet_count ≡ done * packets
  quiet : c.signals ≡ 0
  fits : c.pending < 4294967296

tally-Midway :
    (is_iso : Bool) (packets len total done f : ℕ) (e : Completion) (c : Context)
    → Inv packets total done f c
    → waits e.place c.flight ≡ true
    → Midway packets total
        (done + 1)
        (f + faults is_iso packets len e)
        (tally is_iso packets len e c)
tally-Midway is_iso packets len total done f e c h w =
    let left = length-take_out e.place c.flight w in
    record {
      queued = omega (arith, h.queued, left);
      room = omega (arith, h.queued, h.room, h.sum, h.small, left);
      small = h.small;
      sum = omega (arith, h.queued, h.room, h.sum, h.small, left);
      errors = ap (λ n. n + faults is_iso packets len e) h.errors;
      packet_count = omega (arith, h.packet_count);
      quiet = ground (arith, h.woken, h.queued, left);
      fits = omega (arith, h.room, h.sum, h.small);
    }

module _ (is_iso : Bool) (packets len total done f : ℕ) where
  give_up-Inv :
      (c : Context)
      → Midway packets total done f c
      → Inv packets total done f (give_up is_iso packets len c)
  give_up-Inv c h = ground arith

  resubmit-Inv :
      (k : ℕ) (answer : Ret) (c : Context)
      → Midway packets total done f c
      → decrement c.pending < c.count
      → Inv packets total done f (resubmit is_iso packets len k answer c)
  resubmit-Inv k answer c h l =
      pick (Inv packets total done f) (is_zero answer) (record c { flight = c.flight ++ k ∷ [] })
        (give_up is_iso packets len (record c { submit_error = true }))
        (λ _. record {
          queued = omega (arith, h.queued, length_snoc c.flight k);
          room = omega (arith, h.queued, h.fits, l);
          small = h.small;
          sum = h.sum;
          errors = h.errors;
          packet_count = h.packet_count;
          woken = λ s. absurd (omega (arith, h.quiet));
          sleeps = λ z. absurd (omega (arith, h.queued));
        })
        (λ _.
          give_up-Inv (record c { submit_error = true })
            (record {
              queued = h.queued;
              room = h.room;
              small = h.small;
              sum = h.sum;
              errors = h.errors;
              packet_count = h.packet_count;
              quiet = h.quiet;
              fits = h.fits;
            }))

  go_further-Inv :
      (e : Completion) (c : Context)
      → Midway packets total done f c
      → Inv packets total done f (go_further is_iso packets len e c)
  go_further-Inv e c h =
      pick (Inv packets total done f) (is_left is_iso packets len e c)
        (resubmit is_iso packets len e.place e.answer c) (give_up is_iso packets len c)
        (λ l. resubmit-Inv e.place e.answer c h (ground arith)) (λ _. give_up-Inv c h)

-- How many faults the completions are
abbrev pub all_faults : Bool → ℕ → ℕ → List Completion → ℕ
all_faults is_iso packets len [] = 0
all_faults is_iso packets len (e ∷ es) =
    faults is_iso packets len e + all_faults is_iso packets len es

run-Inv :
    (is_iso : Bool) (packets len total done f : ℕ) (es : List Completion) (c c' : Context)
    → Inv packets total done f c
    → run is_iso packets len es c ≡ some c'
    → Inv packets total (done + length es) (f + all_faults is_iso packets len es) c'
unfolding run complicated_callback
run-Inv is_iso packets len total done f [] c c' h r =
    subst (Inv packets total (done + 0) (f + 0)) (some-injective c c' r) (rw (add-zero, add-zero) h)
run-Inv is_iso packets len total done f (e ∷ es) c c' h r =
    elim (Bool-cases (waits e.place c.flight)) [
      | inl w ↦
          let mid = tally-Midway is_iso packets len total done f e c h w in
          let next =
            go_further-Inv is_iso packets len total (done + 1) (f + faults is_iso packets len e) e
              (tally is_iso packets len e c) mid in
          let rest =
            run-Inv is_iso packets len total (done + 1) (f + faults is_iso packets len e) es _ c'
              next (rw w at r) in
          let here = faults is_iso packets len e in
          let later = all_faults is_iso packets len es in
          subst (λ n. Inv packets total n (f + (here + later)) c') {x = done + 1 + length es}
            (omega arith)
            (subst (λ m. Inv packets total (done + 1 + length es) m c') {x = f + here + later}
              (omega arith) rest)
      | inr w ↦ let never : none ≡ some c' = rw w at r in cc
    ]

-- All URBs are submitted.
submit_all-taken :
    (n i : ℕ) (c : Context)
    → let s = submit_all (λ _. ret 0) n i c in
      (s.0 ≡ ret 0)
      × (s.1.count ≡ c.count)
      × (s.1.pending ≡ c.pending + n)
      × (length s.1.flight ≡ length c.flight + n)
      × (s.1.submit_error ≡ c.submit_error)
      × (s.1.errors ≡ c.errors)
      × (s.1.packet_count ≡ c.packet_count)
      × (s.1.signals ≡ c.signals)
unfolding submit_all
submit_all-taken zero i c = (refl, refl, omega arith, omega arith, refl, refl, refl, refl)
submit_all-taken (suc n) i c =
    let next_c = record c { pending = c.pending + 1; flight = c.flight ++ i ∷ [] } in
    let r = submit_all-taken n (i + 1) next_c in
    (r.0, r.1, omega (arith, r.2), omega (arith, r.3, length_snoc c.flight i), r.4, r.5, r.6, r.7)

-- The state of the test when all URBs were taken
abbrev pub queued_state : ℕ → ℕ → Context
queued_state sglen iterations = (submit_all (λ _. ret 0) sglen 0 (fresh (iterations * sglen))).1

product_fits : (a b : ℕ) → 0 < a → b ≤ 4294967295 / a → b * a < 4294967296
product_fits a b pos h = grind (arith, le-div_iff_mul-le)

start-Inv :
    (packets sglen iterations : ℕ)
    → 0 < sglen
    → 0 < iterations
    → iterations ≤ 4294967295 / sglen
    → Inv packets (iterations * sglen) 0 0 (queued_state sglen iterations)
start-Inv packets sglen iterations pos rounds fits =
    let s = submit_all-taken sglen 0 (fresh (iterations * sglen)) in
    let enough : sglen ≤ iterations * sglen = grind arith in
    let small = product_fits sglen iterations pos fits in
    record {
      queued = omega (arith, s.2, s.3);
      room = omega (arith, s.1, s.2, enough);
      small = small;
      sum = omega (arith, s.1);
      errors = s.5;
      packet_count = omega (arith, s.6);
      woken = λ w. absurd (omega (arith, s.7));
      sleeps = λ z. absurd (omega (arith, s.2));
    }

-- Every resubmission is taken.
abbrev pub AllTaken : List Completion → Type 0
AllTaken [] = Unit {0}
AllTaken (e ∷ es) = (is_zero e.answer ≡ true) × AllTaken es

callback-submit_error :
    (is_iso : Bool) (packets len : ℕ) (e : Completion) (c : Context)
    → is_zero e.answer ≡ true
    → (complicated_callback is_iso packets len e c).submit_error ≡ c.submit_error
unfolding complicated_callback
callback-submit_error is_iso packets len e c t = ground arith

run-submit_error :
    (is_iso : Bool) (packets len : ℕ) (es : List Completion) (c c' : Context)
    → AllTaken es
    → run is_iso packets len es c ≡ some c'
    → c'.submit_error ≡ c.submit_error
unfolding run complicated_callback
run-submit_error is_iso packets len [] c c' t r =
    ap (λ (x : Context). x.submit_error) (sym (some-injective c c' r))
run-submit_error is_iso packets len (e ∷ es) c c' t r = elim (Bool-cases (waits e.place c.flight)) [
  | inl w ↦
      run-submit_error is_iso packets len es (complicated_callback is_iso packets len e c) c' t.1
        (rw w at r)
      ∙ callback-submit_error is_iso packets len e c t.0
  | inr w ↦ let never : none ≡ some c' = rw w at r in cc
]

-- Every transfer succeeds.
abbrev pub AllFine : List Completion → Type 0
AllFine [] = Unit {0}
AllFine (e ∷ es) = (is_zero e.status ≡ true) × AllFine es

-- As many URBs are pending as there is work for.
abbrev Full : ℕ → Context → Type 0
Full sglen c = (c.pending ≡ min sglen c.count) × (c.submit_error ≡ false)

callback-Full :
    (is_iso : Bool) (packets len sglen : ℕ) (e : Completion) (c : Context)
    → is_zero e.status ≡ true
    → is_zero e.answer ≡ true
    → 0 < c.pending
    → c.count < 4294967296
    → Full sglen c
    → Full sglen (complicated_callback is_iso packets len e c)
unfolding complicated_callback
callback-Full is_iso packets len sglen e c s t pos small h =
    elim (Bool-cases (ltb (decrement c.pending) (decrement c.count))) [
      | inl more ↦ rw (s, more, h.1, t) (ground arith, refl)
      | inr over ↦ rw (s, over) (ground arith)
    ]

run-Full :
    (is_iso : Bool) (packets len sglen total done f : ℕ) (es : List Completion) (c c' : Context)
    → Inv packets total done f c
    → AllFine es
    → AllTaken es
    → Full sglen c
    → run is_iso packets len es c ≡ some c'
    → Full sglen c'
unfolding run complicated_callback
run-Full is_iso packets len sglen total done f [] c c' h s t full r =
    subst (Full sglen) (some-injective c c' r) full
run-Full is_iso packets len sglen total done f (e ∷ es) c c' h s t full r =
    elim (Bool-cases (waits e.place c.flight)) [
      | inl w ↦
          let mid = tally-Midway is_iso packets len total done f e c h w in
          let g = f + faults is_iso packets len e in
          run-Full is_iso packets len sglen total (done + 1) g es
            (complicated_callback is_iso packets len e c) c'
            (go_further-Inv is_iso packets len total (done + 1) g e (tally is_iso packets len e c)
              mid)
            s.1 t.1
            (callback-Full is_iso packets len sglen e c s.0 t.0
              (omega (arith, h.queued, length-take_out e.place c.flight w))
              (omega (arith, h.sum, h.small)) full)
            (rw w at r)
      | inr w ↦ let never : none ≡ some c' = rw w at r in cc
    ]

module _ (is_iso : Bool) (packets len sglen iterations : ℕ) (es : List Completion) (c : Context)
    (some_urbs : 0 < sglen) (some_rounds : 0 < iterations) (fits : iterations ≤ 4294967295 / sglen)
    (ran : run is_iso packets len es (queued_state sglen iterations) ≡ some c) where
  ended : Inv packets (iterations * sglen) (length es) (all_faults is_iso packets len es) c
  ended =
      rw (zero-add, zero-add) at
        (run-Inv is_iso packets len (iterations * sglen) 0 0 es (queued_state sglen iterations) c
          (start-Inv packets sglen iterations some_urbs some_rounds fits) ran)

  -- Whatever transfers complete, in whatever order and however: the completions so far and those that
  -- are left add up to `iterations` times `sglen`, `pending` is the number of queued URBs and at most
  -- what is left, and the test is woken exactly when no URB is queued. All URBs were submitted, and the
  -- product is positive and fits an `unsigned`.
  pub queue_waits :
      (length es + c.count ≡ iterations * sglen)
      × (c.pending ≡ length c.flight)
      × (c.pending ≤ c.count)
      × (((c.signals ≡ 0) × (0 < c.pending)) ⊎ ((0 < c.signals) × (c.pending ≡ 0)))
  queue_waits =
      let woken : 0 < c.signals → c.pending ≡ 0 = ended.woken in
      let sleeps : c.pending ≡ 0 → 0 < c.signals = ended.sleeps in
      (ended.sum, ended.queued, ended.room, ground (arith, woken, sleeps))

  -- The verdict on the transfers, where every resubmission is taken: once the test was woken,
  -- `test_queue` fails with -EIO if, of isochronous transfers, there are more faults than a tenth of
  -- all packets, or, of bulk transfers, there is a fault at all, and else it returns 0. All URBs were
  -- allocated and submitted, at most 128, and the product is positive and fits an `unsigned`.
  pub test_queue-verdict :
      sglen ≤ 128
      → AllTaken es
      → 0 < c.signals
      → test_queue is_iso packets len sglen iterations true (λ _. ret 0) es
        ≡ some (
            if ltb
              (if is_iso then length es * packets / 10 else 0)
              (all_faults is_iso packets len es)
            then err eio
            else ret 0)
  unfolding test_queue
  test_queue-verdict few taken woken =
      let s = submit_all-taken sglen 0 (fresh (iterations * sglen)) in
      let legal : (sglen == 0 || ltb (4294967295 / sglen) iterations || ltb 128 sglen) ≡ false =
        ground arith in
      let begun : ((queued_state sglen iterations).pending == 0) ≡ false = ground (arith, s.2) in
      let awake : (c.signals == 0) ≡ false = ground arith in
      let sound : c.submit_error ≡ false =
        run-submit_error is_iso packets len es (queued_state sglen iterations) c taken ran ∙ s.4 in
      rw (legal, begun, s.0, ran, awake, sound, ended.packet_count, ended.errors) refl

  -- If every transfer succeeds and every resubmission is taken, then the test is woken only after
  -- `iterations` times `sglen` completions, as long as it began with all URBs submitted.
  pub queue_all : AllFine es → AllTaken es → 0 < c.signals → length es ≡ iterations * sglen
  queue_all fine taken woken =
      let s = submit_all-taken sglen 0 (fresh (iterations * sglen)) in
      let enough : sglen ≤ iterations * sglen = grind arith in
      let full =
        run-Full is_iso packets len sglen (iterations * sglen) 0 0 es
          (queued_state sglen iterations) c
          (start-Inv packets sglen iterations some_urbs some_rounds fits) fine taken
          (omega (arith, s.1, s.2), s.4) ran in
      let idle : 0 < c.signals → c.pending ≡ 0 = ended.woken in
      omega (arith, idle woken, full.0, ended.sum)
