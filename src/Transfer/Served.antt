-- ===== src/Transfer/Served.antt =====
-- One request of a queue after a round of `transfer` to the host: it stays, or it is given back.
use fuzzusb.Base.{
  ℕ, ◌+◌, ◌-◌, ◌≤◌, ◌<◌, true, false, ◌≡◌, refl, ap, ◌∙◌, ◌⊎◌, inl, inr, List, [], ◌∷◌, ◌++◌,
  append_assoc, arith, ==_refl, update, update-update, take, drop,
}
use fuzzusb.Usb.{Ret, err, einprogress, is_inprogress}
use fuzzusb.Dummy.{Dummy, Env, Request}
use fuzzusb.Dummy.Access.{remove, giveback, call_complete}
use fuzzusb.Perform.{SgMiter}
use fuzzusb.Transfer.{Round, complete_req}
use fuzzusb.Transfer.Bounds.{Spares, logged, unlinked}
use fuzzusb.Transfer.Pending.{
  rest_of, pending, Waits, Distinct, Queued, rest_of-advance, rest_of-done, pending-kept,
  pending-removed, Queued-update, Queued-remove, found-middle,
}
use fuzzusb.Transfer.Send.{received, Receives, Sent}
use fuzzusb.Transfer.Finish.{Sent-at}

-- Completion routines that leave the URB, all requests and the endpoint's queue and packet size alone
pub record Silent (env : Env) (u i : ℕ) : Type 0 where
  pub spares : Spares env u i
  pub same_queue : (j r : ℕ) (d : Dummy) → ((env.complete j r d).ep i).queue ≡ (d.ep i).queue
  pub same_reqs : (j r : ℕ) (d : Dummy) → (env.complete j r d).reqs ≡ d.reqs

-- An URB for bytes to the host, and an endpoint whose requests wait for its stream
pub record Feeding (u i : ℕ) (d : Dummy) : Type 0 where
  pub receives : Receives (d.urbs u)
  pub packet : 0 < (d.ep i).maxpacket
  pub queued : Queued (d.urbs u).stream_id d.reqs (d.ep i).queue

-- What the host has, and what the queue still holds for it
abbrev pub flow : ℕ → ℕ → Dummy → List ℕ
flow u i d = received (d.urbs u) ++ pending d.reqs (d.ep i).queue

module _ (env : Env) (miter : SgMiter) (u i : ℕ) (silent : Silent env u i) where
  complete_req-kept :
      (r : ℕ) (p : Round)
      → is_inprogress (p.state.reqs r).status ≡ true
      → complete_req env i r p ≡ p
  unfolding complete_req
  complete_req-kept r p e = rw e refl

  giveback-silent :
      (r : ℕ) (d : Dummy)
      → let d' = giveback env i r d in
        (d'.urbs u ≡ d.urbs u)
        × ((d'.ep i).maxpacket ≡ (d.ep i).maxpacket)
        × ((d'.ep i).queue ≡ (d.ep i).queue)
        × (d'.reqs ≡ d.reqs)
  unfolding giveback call_complete
  giveback-silent r d =
      let l = logged i r d in
      (
        ground (arith, silent.spares.same_urb i r l),
        ground (arith, silent.spares.same_packet i r l),
        ground (arith, silent.same_queue i r l),
        ground (arith, silent.same_reqs i r l),
      )

  complete_req-gone :
      (r : ℕ) (p : Round)
      → is_inprogress (p.state.reqs r).status ≡ false
      → let p' = complete_req env i r p in
        (p'.state.urbs u ≡ p.state.urbs u)
        × ((p'.state.ep i).maxpacket ≡ (p.state.ep i).maxpacket)
        × ((p'.state.ep i).queue ≡ remove r (p.state.ep i).queue)
        × (p'.state.reqs ≡ update p.state.reqs r (record (p.state.reqs r) { linked = false }))
        × (p'.status ≡ p.status)
        × (p'.rescan ≡ true)
  unfolding complete_req
  complete_req-gone r p e =
      let g = giveback-silent r (unlinked i r p.state) in
      rw e (g.0, ground (arith, g.1), ground (arith, g.2), g.3, refl, refl)

  -- The bytes of request `r`, in the middle of the queue, that round `p` sent
  module _ (r n : ℕ) (pre rs : List ℕ) (st : Ret) (p pm : Round) (f : Feeding u i p.state)
      (where_r : (p.state.ep i).queue ≡ pre ++ r ∷ rs)
      (enough : n ≤ (p.state.reqs r).length - (p.state.reqs r).actual)
      (first : (pre ≡ []) ⊎ (n ≡ 0)) (s : Sent u i r n st p pm) where
    abbrev q : Request
    q = p.state.reqs r

    abbrev q' : Request
    q' = record q { actual = q.actual + n; status = st }

    abbrev bs : List ℕ
    bs = take n (drop q.actual q.buf)

    waits : Waits (p.state.urbs u).stream_id q
    waits = f.queued.each r (rw where_r (found-middle r pre rs))

    once : Distinct (pre ++ r ∷ rs)
    once = rw (← where_r) f.queued.once

    passed : rest_of q ≡ bs ++ rest_of q'
    passed = rest_of-advance q n enough

    none_before : (pre ≡ []) ⊎ (bs ≡ [])
    none_before = elim first [ inl e ↦ inl e | inr e ↦ inr (rw e refl) ]

    pub kept_lem :
        st ≡ err einprogress
        → (complete_req env i r pm ≡ pm)
          × Feeding u i pm.state
          × (flow u i pm.state ≡ flow u i p.state)
          × ((pm.state.ep i).queue ≡ (p.state.ep i).queue)
    kept_lem e = (
      complete_req-kept r pm (rw (Sent-at u i r n st p pm s, e) refl),
      record {
        receives = s.receives;
        packet = rw s.same_packet f.packet;
        queued =
            rw (s.same_stream, s.reqs, s.same_queue)
              (Queued-update _ p.state.reqs r q' (p.state.ep i).queue
                (record {
                  sent = omega (arith, enough, waits.sent);
                  memory = waits.memory;
                  word = waits.word;
                  in_progress = e;
                  same_stream = waits.same_stream;
                })
                f.queued);
      },
      rw (s.got, s.reqs, s.same_queue, where_r)
          (append_assoc (received (p.state.urbs u)) bs
              (pending (update p.state.reqs r q') (pre ++ r ∷ rs))
            ∙ ap (λ t. received (p.state.urbs u) ++ t)
                (pending-kept p.state.reqs q' pre r rs bs once passed none_before)),
      s.same_queue,
    )

    pub gone_lem :
        is_inprogress st ≡ false
        → let p' = complete_req env i r pm in
          (p'.status ≡ pm.status)
          × (p'.rescan ≡ true)
          × Feeding u i p'.state
          × (q.length ≡ q.actual + n → flow u i p'.state ≡ flow u i p.state)
    gone_lem e =
        let g = complete_req-gone r pm (rw (Sent-at u i r n st p pm s) e) in
        let reqs' : (complete_req env i r pm).state.reqs
            ≡ update p.state.reqs r (record q' { linked = false }) =
          g.3
          ∙ rw (s.reqs, ==_refl r)
              (update-update p.state.reqs r q' (record q' { linked = false })) in
        (
          g.4,
          g.5,
          record {
            receives = rw g.0 s.receives;
            packet = rw (g.1, s.same_packet) f.packet;
            queued =
                rw (g.0, s.same_stream, reqs', g.2, s.same_queue)
                  (Queued-remove _ p.state.reqs r (record q' { linked = false })
                    (p.state.ep i).queue f.queued);
          },
          λ all.
              rw (g.0, s.got, reqs', g.2, s.same_queue, where_r)
                (append_assoc (received (p.state.urbs u)) bs (
                    pending (update p.state.reqs r (record q' { linked = false }))
                      (remove r (pre ++ r ∷ rs)))
                  ∙ ap (λ t. received (p.state.urbs u) ++ t)
                      (pending-removed p.state.reqs (record q' { linked = false }) pre r rs bs once
                        passed none_before (rest_of-done q' (omega arith)))),
        )
