-- ===== src/Transfer/Finish.antt =====
-- What the end of a round of `transfer` to the host does to the request and the statuses.
use fuzzusb.Base.{
  ℕ, ◌+◌, true, false, not, ◌&&◌, ◌≡◌, refl, inl, inr, arith, ◌==◌, ==_refl, update-update, ◌≢◌,
  ◌⊎◌, Bool-cases, if◌then◌else◌,
}
use fuzzusb.Usb.{Ret, ret, err, einprogress, is_inprogress}
use fuzzusb.Dummy.{Request}
use fuzzusb.Transfer.{Round, finish_short, short_results, finish_req, finish_urb, set_req_status}
use fuzzusb.Transfer.Send.{Sent}

-- What the status of the request becomes where a full packet has passed
abbrev pub full_status : Request → ℕ → Ret
full_status q n = if q.length == q.actual + n && not q.zero then ret 0 else err einprogress

module _ (u i r n : ℕ) where
  pub Sent-at :
      (status : Ret) (p p' : Round)
      → Sent u i r n status p p'
      → p'.state.reqs r
        ≡ record (p.state.reqs r) { actual = (p.state.reqs r).actual + n; status = status }
  Sent-at status p p' s = rw (s.reqs, ==_refl r) refl

  Sent-set_req_status :
      (status status' : Ret) (p p' : Round)
      → Sent u i r n status p p'
      → Sent u i r n status' p (record p' { state = set_req_status r status' p'.state })
  Sent-set_req_status status status' p p' s = record {
    reqs = rw (s.reqs, ==_refl r) (update-update p.state.reqs r _ _);
    got = s.got;
    receives = s.receives;
    advanced = s.advanced;
    same_size = s.same_size;
    same_stream = s.same_stream;
    same_queue = s.same_queue;
    same_packet = s.same_packet;
    limit = s.limit;
  }

  Sent-same :
      (status : Ret) (p p' p'' : Round)
      → p''.state ≡ p'.state
      → p''.limit ≡ p'.limit
      → Sent u i r n status p p'
      → Sent u i r n status p p''
  Sent-same status p p' p'' e l s = record {
    reqs = rw e s.reqs;
    got = rw e s.got;
    receives = rw e s.receives;
    advanced = rw e s.advanced;
    same_size = rw e s.same_size;
    same_stream = rw e s.same_stream;
    same_queue = rw e s.same_queue;
    same_packet = rw e s.same_packet;
    limit = rw l s.limit;
  }

  pub finish_short-Sent :
      (status : Ret) (h d : ℕ) (p p' : Round)
      → Sent u i r n status p p'
      → Sent u i r n (short_results h d true).1 p (finish_short r h d true p')
        × ((finish_short r h d true p').status ≡ (short_results h d true).0)
  unfolding finish_short
  finish_short-Sent status h d p p' s = (
    Sent-same _ p _ _ refl refl (Sent-set_req_status status (short_results h d true).1 p p' s),
    refl,
  )

  -- The three ways of `finish_req`
  finish_req-cases :
      (p : Round)
      → let q = p.state.reqs r in
        ((q.length == q.actual) ≡ true)
          × (q.zero ≡ true)
          × (finish_req r true p ≡ record p { rescan = true })
        ⊎ ((q.length == q.actual) ≡ true)
          × (q.zero ≡ false)
          × (finish_req r true p ≡ record p { state = set_req_status r (ret 0) p.state })
        ⊎ ((q.length == q.actual) ≡ false) × (finish_req r true p ≡ p)
  unfolding finish_req
  finish_req-cases p = elim (Bool-cases ((p.state.reqs r).length == (p.state.reqs r).actual)) [
    | inr e ↦ inr (inr (e, rw e refl))
    | inl e ↦ elim (Bool-cases (p.state.reqs r).zero) [
      | inl z ↦ inl (e, z, rw (e, z) refl)
      | inr z ↦ inr (inl (e, z, rw (e, z) refl))
    ]
  ]

  pub finish_req-Sent :
      (p p' : Round)
      → Sent u i r n (err einprogress) p p'
      → Sent u i r n (full_status (p.state.reqs r) n) p (finish_req r true p')
        × ((finish_req r true p').status ≡ p'.status)
        × (p'.rescan ≡ true → (finish_req r true p').rescan ≡ true)
        × (is_inprogress (full_status (p.state.reqs r) n) ≡ true
            → (finish_req r true p').rescan ≡ false
            → (p.state.reqs r).length ≢ (p.state.reqs r).actual + n)
  finish_req-Sent p p' s = elim (finish_req-cases p') [
    | inl (e, z, f) ↦
        (let k : full_status (p.state.reqs r) n ≡ err einprogress =
            ground (arith, Sent-at _ p p' s) in
          rw (f, k) (Sent-same _ p p' _ refl refl s, refl, λ _. refl, λ _ h. cc))
    | inr (inl (e, z, f)) ↦
        (let k : full_status (p.state.reqs r) n ≡ ret 0 = ground (arith, Sent-at _ p p' s) in
          rw (f, k) (Sent-set_req_status _ (ret 0) p p' s, refl, λ h. h, λ h. cc))
    | inr (inr (e, f)) ↦
        (let k : full_status (p.state.reqs r) n ≡ err einprogress =
            ground (arith, Sent-at _ p p' s) in
          rw (f, k) (s, refl, λ h. h, λ _ _. ground (arith, Sent-at _ p p' s)))
  ]

  pub finish_urb-Sent :
      (status : Ret) (p p' : Round)
      → Sent u i r n status p p'
      → Sent u i r n status p (finish_urb u true p')
        × ((p'.rescan ≡ true → (finish_urb u true p').rescan ≡ true))
        × (((finish_urb u true p').status ≡ p'.status)
              × ((p.state.urbs u).transfer_buffer_length ≢ (p.state.urbs u).actual_length + n)
            ⊎ ((finish_urb u true p').status ≡ ret 0))
  unfolding finish_urb
  finish_urb-Sent status p p' s = (
    Sent-same _ p p' _ (ground arith) (ground arith) s,
    ground arith,
    elim (Bool-cases
        ((p'.state.urbs u).transfer_buffer_length == (p'.state.urbs u).actual_length)) [
          | inl e ↦ inr (rw e (ground arith))
          | inr e ↦ inl (ground arith, ground (arith, s.advanced, s.same_size))
        ],
  )
