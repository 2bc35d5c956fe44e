-- ===== src/Endpoint/Owned.antt =====
-- A request stands in one queue at most, at one place, and its list node says so.
use fuzzusb.Base.{
  ℕ, suc, ◌+◌, ◌-◌, true, false, Option, none, some, ◌≡◌, ◌≤◌, ◌<◌, arith, if◌then◌else◌, ◌==◌,
  List, [], ◌∷◌, ◌++◌, Bool-cases, inl, inr,
}
use fuzzusb.Dummy.{Dummy, Env, fifo_req}
use fuzzusb.Dummy.Access.{giveback, remove, call_complete, set_ep}
use fuzzusb.Base.{zero, length, List-cases}
use fuzzusb.Nuke.{fail_first, nuke_one, nuke_loop, nuke}
use fuzzusb.Nuke.Empty.{nuke_loop-cut, nuke_loop-nil, nuke_loop-cons}
use fuzzusb.Endpoint.Enable.{disable}
use fuzzusb.Endpoint.Queue.{
  takes_fifo, fill_fifo, finish_request, link_request, queue_locked, queue, found, unlink_request,
  dequeue, start_request,
}

abbrev pub count : ℕ → List ℕ → ℕ
count r [] = 0
count r (x ∷ xs) = (if r == x then 1 else 0) + count r xs

count-append :
    (r x : ℕ) (xs : List ℕ) → count r (xs ++ (x ∷ [])) ≡ count r xs + (if r == x then 1 else 0)
count-append r x [] = ground arith
count-append r x (y ∷ xs) = ground (arith, count-append r x xs)

count-remove :
    (r x : ℕ) (xs : List ℕ)
    → count r (remove x xs) ≡ (if r == x then count r xs - 1 else count r xs)
count-remove r x [] = ground arith
count-remove r x (y ∷ xs) = ground (arith, count-remove r x xs)

found-count : (r : ℕ) (xs : List ℕ) → found r xs ≡ true → 0 < count r xs
found-count r [] h = cc
found-count r (x ∷ xs) h = ground (arith, found-count r xs)

-- What holds between two calls of the driver: the request of a queue entry is marked as linked, and
-- is in no other queue and not a second time in its own.
pub record Owned (d : Dummy) : Type 0 where
  pub marked : (i r : ℕ) → 0 < count r (d.ep i).queue → (d.reqs r).linked ≡ true
  pub once : (i r : ℕ) → count r (d.ep i).queue ≤ 1
  pub alone : (i j r : ℕ) → 0 < count r (d.ep i).queue → 0 < count r (d.ep j).queue → i ≡ j

link_request-Owned :
    (i r : ℕ) (d : Dummy) → (d.reqs r).linked ≡ false → Owned d → Owned (link_request i r d)
unfolding link_request
link_request-Owned i r d free o = record {
  marked = λ j s h. ground (arith, o.marked j s, count-append s r (d.ep i).queue);
  once = λ j s. ground (arith, o.marked j s, o.once j s, count-append s r (d.ep i).queue);
  alone = λ j k s h h'.
      ground (arith, o.alone j k s, o.marked j s, o.marked k s, count-append s r (d.ep i).queue);
}

fill_fifo-Owned :
    (i r : ℕ) (d : Dummy) → (d.reqs fifo_req).linked ≡ false → Owned d → Owned (fill_fifo i r d)
unfolding fill_fifo
fill_fifo-Owned i r d free o = record {
  marked = λ j s h. ground (arith, o.marked j s, count-append s fifo_req (d.ep i).queue);
  once = λ j s. ground (arith, o.marked j s, o.once j s, count-append s fifo_req (d.ep i).queue);
  alone = λ j k s h h'.
      ground
        (arith, o.alone j k s, o.marked j s, o.marked k s, count-append s fifo_req (d.ep i).queue);
}

finish_request-Owned : (r : ℕ) (d : Dummy) → Owned d → Owned (finish_request r d)
unfolding finish_request
finish_request-Owned r d o = record {
  marked = λ j s h. ground (arith, o.marked j s);
  once = λ j s. o.once j s;
  alone = λ j k s h h'. o.alone j k s h h';
}

takes_fifo-free : (i r : ℕ) (d : Dummy) → takes_fifo i r d ≡ true → (d.reqs fifo_req).linked ≡ false
unfolding takes_fifo
takes_fifo-free i r d h = ground arith

start_request-linked :
    (r : ℕ) (d : Dummy) → (d.reqs r).linked ≡ false → ((start_request r d).reqs r).linked ≡ false
start_request-linked r d h = ground arith

start_request-Owned : (r : ℕ) (d : Dummy) → Owned d → Owned (start_request r d)
start_request-Owned r d o = record {
  marked = λ j s h. ground (arith, o.marked j s);
  once = λ j s. o.once j s;
  alone = λ j k s h h'. o.alone j k s h h';
}

unlink_request-Owned :
    (i r : ℕ) (d : Dummy) → 0 < count r (d.ep i).queue → Owned d → Owned (unlink_request i r d)
unfolding unlink_request
unlink_request-Owned i r d here o = record {
  marked = λ j s h.
      ground (arith, o.marked j s, o.once i r, o.alone i j r here, count-remove s r (d.ep i).queue);
  once = λ j s. ground (arith, o.once j s, count-remove s r (d.ep i).queue);
  alone = λ j k s h h'. ground (arith, o.alone j k s, count-remove s r (d.ep i).queue);
}

module _ (env : Env) (keeps : (i r : ℕ) (d : Dummy) → Owned d → Owned (env.complete i r d)) where
  pub giveback-Owned : (i r : ℕ) (d : Dummy) → Owned d → Owned (giveback env i r d)
  unfolding giveback call_complete
  giveback-Owned i r d o = elim (Bool-cases (r == fifo_req)) [
    | inl e ↦ rw e (record {
      marked = λ j s h. o.marked j s h;
      once = λ j s. o.once j s;
      alone = λ j k s h h'. o.alone j k s h h';
    })
    | inr e ↦ rw e (
        keeps i r _ (record {
          marked = λ j s h. o.marked j s h;
          once = λ j s. o.once j s;
          alone = λ j k s h h'. o.alone j k s h h';
        }))
  ]

  queue_locked-Owned :
      (i r : ℕ) (d : Dummy) → (d.reqs r).linked ≡ false → Owned d → Owned (queue_locked env i r d)
  unfolding queue_locked
  queue_locked-Owned i r d free o = elim (Bool-cases (takes_fifo i r d)) [
    | inl e ↦ rw e (
        giveback-Owned i r (finish_request r (fill_fifo i r d)) (
          finish_request-Owned r (fill_fifo i r d)
            (fill_fifo-Owned i r d (takes_fifo-free i r d e) o)))
    | inr e ↦ rw e (link_request-Owned i r d free o)
  ]

  -- `dummy_queue` keeps the ownership of requests, on every branch.
  pub queue-Owned : (ep req : Option ℕ) (d : Dummy) → Owned d → Owned (queue env ep req d).1
  unfolding queue
  queue-Owned ep none d o = o
  queue-Owned none (some r) d o = o
  queue-Owned (some i) (some r) d o = elim (Bool-cases (d.reqs r).linked) [
    | inl e ↦ rw e o
    | inr free ↦ ground (
      arith,
      queue_locked-Owned i r (start_request r d) (start_request-linked r d free)
          (start_request-Owned r d o),
    )
  ]

  -- `dummy_dequeue` keeps the ownership of requests, on every branch.
  pub dequeue-Owned : (ep req : Option ℕ) (d : Dummy) → Owned d → Owned (dequeue env ep req d).1
  unfolding dequeue
  dequeue-Owned none req d o = o
  dequeue-Owned (some i) none d o = o
  dequeue-Owned (some i) (some r) d o = elim (Bool-cases (found r (d.ep i).queue)) [
    | inl e ↦ ground (
      arith,
      giveback-Owned i r (unlink_request i r d)
          (unlink_request-Owned i r d (found-count r (d.ep i).queue e) o),
    )
    | inr e ↦ rw e (ground arith)
  ]

fail_first-Owned :
    (i r : ℕ) (rs : List ℕ) (d : Dummy)
    → (d.ep i).queue ≡ r ∷ rs
    → Owned d
    → Owned (fail_first i r rs d)
unfolding fail_first
fail_first-Owned i r rs d e o = record {
  marked = λ j s h. ground (
    arith,
    o.marked j s,
    o.once i r,
    o.alone i j r,
    count-cons i s r rs d e,
    count-cons i r r rs d e,
  );
  once = λ j s. ground (arith, o.once j s, count-cons i s r rs d e);
  alone = λ j k s h h'. ground (arith, o.alone j k s, count-cons i s r rs d e);
}
  where
    count-cons :
        (i s r : ℕ) (rs : List ℕ) (d : Dummy)
        → (d.ep i).queue ≡ r ∷ rs
        → count s (d.ep i).queue ≡ (if s == r then 1 else 0) + count s rs
    count-cons i s r rs d e = rw e

closed-Owned :
    (i : ℕ) (d : Dummy)
    → Owned d
    → Owned (set_ep i (record (d.ep i) { desc = none; stream_en = false }) d)
closed-Owned i d o = record {
  marked = λ j s h. ground (arith, o.marked j s);
  once = λ j s. ground (arith, o.once j s);
  alone = λ j k s h h'. ground (arith, o.alone j k s);
}

module _ (env : Env) (keeps : (i r : ℕ) (d : Dummy) → Owned d → Owned (env.complete i r d)) where
  nuke_loop-Owned : (fuel i : ℕ) (d : Dummy) → Owned d → Owned (nuke_loop env fuel i d)
  nuke_loop-Owned zero i d o = elim (List-cases (d.ep i).queue) [
    | inl e ↦ rw (nuke_loop-nil env zero i d e) o
    | inr (r, rs, e) ↦
        rw (nuke_loop-cut env i r rs d e)
          (record { marked = o.marked; once = o.once; alone = o.alone })
  ]
  nuke_loop-Owned (suc fuel) i d o = elim (List-cases (d.ep i).queue) [
    | inl e ↦ rw (nuke_loop-nil env (suc fuel) i d e) o
    | inr (r, rs, e) ↦ rw (nuke_loop-cons env fuel i r rs d e) (
        nuke_loop-Owned fuel i (nuke_one env i r rs d) (
          unfold nuke_one in
          giveback-Owned env keeps i r (fail_first i r rs d) (fail_first-Owned i r rs d e o)))
  ]

  pub nuke-Owned : (i : ℕ) (d : Dummy) → Owned d → Owned (nuke env i d)
  unfolding nuke
  nuke-Owned i d o = nuke_loop-Owned (length (d.ep i).queue + env.nuke_rounds) i d o

  -- `dummy_disable` keeps the ownership of requests, on every branch.
  pub disable-Owned : (ep : Option ℕ) (d : Dummy) → Owned d → Owned (disable env ep d).1
  unfolding disable
  disable-Owned none d o = o
  disable-Owned (some i) d o = ground (
    arith,
    nuke-Owned i (set_ep i (record (d.ep i) { desc = none; stream_en = false }) d)
        (closed-Owned i d o),
  )
