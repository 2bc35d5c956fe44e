-- ===== src/Endpoint/Cancel.antt =====
-- What a gadget driver gets from `dummy_queue` and `dummy_dequeue`.
use fuzzusb.Base.{
  ℕ, true, false, Option, none, some, ◌≡◌, ◌≢◌, refl, arith, List, [], ◌∷◌, ◌++◌, take, ◌∙◌,
}
use fuzzusb.Usb.{ret, err, econnreset, einprogress}
use fuzzusb.Dummy.{Dummy, Env, Event, fifo_req}
use fuzzusb.Dummy.Access.{giveback, remove, log, call_complete}
use fuzzusb.Nuke.Given.{IsQuiet}
use fuzzusb.Endpoint.Enable.{is_some}
use fuzzusb.Endpoint.Queue.{
  takes_fifo, fill_fifo, finish_request, link_request, queue_locked, queue, found, unlink_request,
  dequeue, start_request,
}
use fuzzusb.Endpoint.Owned.{Owned, count}

-- A request that `dummy_queue` or `dummy_dequeue` refuses leaves no trace: the state is unchanged.
pub refused_unchanged :
    (env : Env) (ep req : Option ℕ) (d : Dummy)
    → ((queue env ep req d).0 ≢ ret 0 → (queue env ep req d).1 ≡ d)
      × ((dequeue env ep req d).0 ≢ ret 0 → (dequeue env ep req d).1 ≡ d)
unfolding queue dequeue
refused_unchanged env none none d = (λ h. refl, λ h. refl)
refused_unchanged env none (some r) d = (λ h. refl, λ h. refl)
refused_unchanged env (some i) none d = (λ h. refl, λ h. refl)
refused_unchanged env (some i) (some r) d = (λ h. ground arith, λ h. ground arith)

-- A request that is accepted and does not go through the FIFO
link_request_state :
    (env : Env) (i r : ℕ) (d : Dummy)
    → (queue env (some i) (some r) d).0 ≡ ret 0
    → takes_fifo i r d ≡ false
    → r ≢ fifo_req
    → (queue env (some i) (some r) d).1 ≡ link_request i r (start_request r d)
unfolding queue queue_locked takes_fifo
link_request_state env i r d h t ne = ground arith

remove-append : (r : ℕ) (q : List ℕ) → count r q ≡ 0 → remove r (q ++ (r ∷ [])) ≡ q
remove-append r [] h = ground arith
remove-append r (x ∷ q) h = ground (arith, remove-append r q)

found-append : (r : ℕ) (q : List ℕ) → found r (q ++ (r ∷ [])) ≡ true
found-append r [] = ground arith
found-append r (x ∷ q) = ground (arith, found-append r q)

queue-free :
    (env : Env) (i r : ℕ) (d : Dummy)
    → (queue env (some i) (some r) d).0 ≡ ret 0
    → (d.reqs r).linked ≡ false
unfolding queue
queue-free env i r d h = ground arith

-- The state in which the completion routine of a request that went through the FIFO is called
fifo_done : ℕ → ℕ → Dummy → Dummy
unfolding fill_fifo finish_request
fifo_done i r d =
    log (Event.gave_request i r (ret 0) (d.reqs r).length)
      (finish_request r (fill_fifo i r (start_request r d)))

queue-fifo_done :
    (env : Env) (i r : ℕ) (d : Dummy)
    → (queue env (some i) (some r) d).0 ≡ ret 0
    → takes_fifo i r d ≡ true
    → r ≢ fifo_req
    → (queue env (some i) (some r) d).1 ≡ env.complete i r (fifo_done i r d)
unfolding queue queue_locked takes_fifo giveback call_complete fill_fifo finish_request fifo_done
queue-fifo_done env i r d h t ne = ground arith

-- The emulated FIFO: a request for a sending endpoint that is idle, of at most 64 bytes, is done at
-- once, with its whole length, and its first `length` bytes wait in the controller's own request,
-- which is alone in the endpoint's queue. (The completion routine is quiet.)
pub queue_fifo :
    (env : Env) (i r : ℕ) (d : Dummy)
    → IsQuiet env
    → (queue env (some i) (some r) d).0 ≡ ret 0
    → takes_fifo i r d ≡ true
    → r ≢ fifo_req
    → let d' = (queue env (some i) (some r) d).1 in
      ((d'.ep i).queue ≡ fifo_req ∷ [])
      × ((d'.reqs fifo_req).buf ≡ take (d.reqs r).length (d.reqs r).buf)
      × ((d'.reqs fifo_req).status ≡ err einprogress)
      × ((d'.reqs r).status ≡ ret 0)
      × ((d'.reqs r).actual ≡ (d.reqs r).length)
      × ((d'.reqs r).linked ≡ false)
      × (d'.trace ≡ Event.gave_request i r (ret 0) (d.reqs r).length ∷ d.trace)
unfolding takes_fifo fifo_done
queue_fifo env i r d quiet h t ne = rw (queue-fifo_done env i r d h t ne) (
  ground (arith, quiet.same_queue i r i (fifo_done i r d)),
  ground (arith, quiet.same_reqs i r fifo_req (fifo_done i r d)),
  ground (arith, quiet.same_reqs i r fifo_req (fifo_done i r d)),
  ground (arith, quiet.same_reqs i r r (fifo_done i r d)),
  ground (arith, quiet.same_reqs i r r (fifo_done i r d)),
  ground (arith, quiet.same_reqs i r r (fifo_done i r d), queue-free env i r d h),
  quiet.same_trace i r (fifo_done i r d),
)

-- The state in which the completion routine of a cancelled request is called
cancelled : ℕ → ℕ → Dummy → Dummy
unfolding unlink_request
cancelled i r d =
    log (Event.gave_request i r (err econnreset) (d.reqs r).actual) (unlink_request i r d)

dequeue-cancelled :
    (env : Env) (i r : ℕ) (d : Dummy)
    → is_some d.driver ≡ true
    → found r (d.ep i).queue ≡ true
    → r ≢ fifo_req
    → dequeue env (some i) (some r) d ≡ (ret 0, env.complete i r (cancelled i r d))
unfolding dequeue giveback call_complete cancelled unlink_request
dequeue-cancelled env i r d h f ne = ground arith

queue-driver :
    (env : Env) (i r : ℕ) (d : Dummy)
    → (queue env (some i) (some r) d).0 ≡ ret 0
    → is_some d.driver ≡ true
unfolding queue
queue-driver env i r d h = ground arith

abbrev queued : ℕ → ℕ → Dummy → Dummy
queued i r d = link_request i r (start_request r d)

-- A request that was queued can be cancelled: `dummy_dequeue` then succeeds, restores every queue,
-- and gives the request back with -ECONNRESET and no data. (The request did not go through the FIFO,
-- and the completion routine is quiet.)
pub queue-dequeue :
    (env : Env) (i r : ℕ) (d : Dummy)
    → IsQuiet env
    → Owned d
    → (queue env (some i) (some r) d).0 ≡ ret 0
    → takes_fifo i r d ≡ false
    → r ≢ fifo_req
    → let (result, d') = dequeue env (some i) (some r) (queue env (some i) (some r) d).1 in
      (result ≡ ret 0)
      × ((j : ℕ) → (d'.ep j).queue ≡ (d.ep j).queue)
      × ((d'.reqs r).status ≡ err econnreset)
      × ((d'.reqs r).linked ≡ false)
      × (d'.trace ≡ Event.gave_request i r (err econnreset) 0 ∷ d.trace)
unfolding cancelled unlink_request link_request
queue-dequeue env i r d quiet o h t ne =
    rw
      (
        link_request_state env i r d h t ne,
        dequeue-cancelled env i r (queued i r d) (queue-driver env i r d h) here ne,
      )
      (
        refl,
        λ j. ground (
          arith,
          quiet.same_queue i r j (cancelled i r (queued i r d)),
          remove-append r (d.ep i).queue,
          absent,
        ),
        ground (arith, quiet.same_reqs i r r (cancelled i r (queued i r d))),
        ground (arith, quiet.same_reqs i r r (cancelled i r (queued i r d))),
        quiet.same_trace i r (cancelled i r (queued i r d)) ∙ ground arith,
      )
  where
    here : found r ((queued i r d).ep i).queue ≡ true
    here = ground (arith, found-append r (d.ep i).queue)

    absent : count r (d.ep i).queue ≡ 0
    absent = ground (arith, o.marked i r, queue-free env i r d h)
