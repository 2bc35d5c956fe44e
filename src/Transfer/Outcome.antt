-- ===== src/Transfer/Outcome.antt =====
-- How the body of the loop of `transfer` ends for one request, when it sends to the host.
use fuzzusb.Base.{
  ℕ, ◌+◌, ◌-◌, ◌≤◌, ◌<◌, Bool, true, false, ◌≡◌, ◌≢◌, refl, sym, ap, ◌∙◌, ◌⊎◌, inl, inr, List, [],
  ◌∷◌, ◌++◌, arith, Bool-cases, min,
}
use fuzzusb.Usb.{Ret, ret, err, einprogress, eoverflow, is_inprogress}
use fuzzusb.Dummy.{Dummy, Env, Request}
use fuzzusb.Perform.{SgMiter}
use fuzzusb.Transfer.{
  Round, Turn, stop, next, top, fault, carry, finish_short, finish_req, finish_urb, complete_req,
  send_packets, serve, act, left, cut, turn, Packets, wait, trap, send, short_results, sub32,
}
use fuzzusb.Transfer.Cut.{sub32_lem, cut_lem}
use fuzzusb.Transfer.Served.{Silent, Feeding, flow, kept_lem, gone_lem}
use fuzzusb.Transfer.Pending.{Waits, found-middle}
use fuzzusb.Transfer.Send.{carry-Sent}
use fuzzusb.Transfer.Finish.{full_status, finish_short-Sent, finish_req-Sent, finish_urb-Sent}

short_results-done : (h d : ℕ) → is_inprogress (short_results h d true).1 ≡ false
unfolding short_results
short_results-done h d = ground arith

short_results-fit : (h d : ℕ) → (short_results h d true).0 ≢ err eoverflow → d ≤ h
unfolding short_results
short_results-fit h d fine = ground arith

module _ (env : Env) (miter : SgMiter) (u i r n : ℕ) (p : Round)
    (inwards : (p.state.urbs u).dir_in ≡ true) where
  send_packets-short :
      send_packets env miter u i r n true p
      ≡ complete_req env i r (
          finish_short r
            (sub32 (p.state.urbs u).transfer_buffer_length (p.state.urbs u).actual_length)
            (sub32 (p.state.reqs r).length (p.state.reqs r).actual)
            true
            (carry miter u i r n p))
  unfolding send_packets
  send_packets-short =
      ap
        (λ dir. complete_req env i r (
          finish_short r
            (sub32 (p.state.urbs u).transfer_buffer_length (p.state.urbs u).actual_length)
            (sub32 (p.state.reqs r).length (p.state.reqs r).actual) dir (carry miter u i r n p)))
        inwards

  send_packets-full :
      send_packets env miter u i r n false p
      ≡ complete_req env i r (finish_urb u true (finish_req r true (carry miter u i r n p)))
  unfolding send_packets
  send_packets-full =
      ap (λ dir. complete_req env i r (finish_urb u dir (finish_req r dir (carry miter u i r n p))))
        inwards

false_of : (a b : Bool) → (a ≡ true → b ≡ true) → b ≡ false → a ≡ false
false_of a b h e = ground arith

full_status-kept :
    (q : Request) (n : ℕ)
    → is_inprogress (full_status q n) ≡ true
    → full_status q n ≡ err einprogress
full_status-kept q n e = ground arith

full_status-gone :
    (q : Request) (n : ℕ) → is_inprogress (full_status q n) ≡ false → q.length ≡ q.actual + n
full_status-gone q n e = ground arith

module _ (env : Env) (miter : SgMiter) (u i : ℕ) (silent : Silent env u i) where
  -- How a round may end: the flow is as before, unless the URB ends with -EOVERFLOW. It goes on to
  -- the next request only when the limit is used up.
  abbrev pub Outcome : Round → Turn → Type 0
  Outcome p (stop p') = p'.status ≢ err eoverflow → flow u i p'.state ≡ flow u i p.state
  Outcome p (next p') =
      Feeding u i p'.state
      × (flow u i p'.state ≡ flow u i p.state)
      × ((p'.state.ep i).queue ≡ (p.state.ep i).queue)
      × (p'.limit ≡ 0)
  Outcome p (top p') = Feeding u i p'.state × (flow u i p'.state ≡ flow u i p.state)
  Outcome p fault = Unit {0}

  in_progress_of : (st : Ret) → is_inprogress st ≡ true → st ≢ err eoverflow
  in_progress_of st e h = ground arith

  turn-Outcome :
      (p p' : Round)
      → Feeding u i p'.state
      → (p'.status ≢ err eoverflow → flow u i p'.state ≡ flow u i p.state)
      → (p'.rescan ≡ false
          → is_inprogress p'.status ≡ true
          → ((p'.state.ep i).queue ≡ (p.state.ep i).queue) × (p'.limit ≡ 0))
      → Outcome p (turn p')
  turn-Outcome p p' f same last = elim (Bool-cases (is_inprogress p'.status)) [
    | inr e ↦ rw (turn, e) same
    | inl e ↦ elim (Bool-cases p'.rescan) [
      | inl t ↦ rw (turn, e, t) (f, same (in_progress_of p'.status e))
      | inr t ↦ rw (turn, e, t) (f, same (in_progress_of p'.status e), (last t e).0, (last t e).1)
    ]
  ]

  abbrev host_left : Dummy → ℕ
  host_left d = (d.urbs u).transfer_buffer_length - (d.urbs u).actual_length

  abbrev dev_left : ℕ → Dummy → ℕ
  dev_left r d = (d.reqs r).length - (d.reqs r).actual

  -- A request in the middle of the queue, first if there is bandwidth left
  module _ (r : ℕ) (pre rs : List ℕ) (p : Round) (f : Feeding u i p.state)
      (where_r : (p.state.ep i).queue ≡ pre ++ r ∷ rs) (first : (pre ≡ []) ⊎ (p.limit ≡ 0)) where
    pub waits : Waits (p.state.urbs u).stream_id (p.state.reqs r)
    waits = f.queued.each r (rw where_r (found-middle r pre rs))

    left_lem : left u r p ≡ min (host_left p.state) (dev_left r p.state)
    unfolding left
    left_lem =
        rw (sub32_lem _ _ f.receives.fits f.receives.word, sub32_lem _ _ waits.sent waits.word) refl

    first_of : (n : ℕ) → n ≤ p.limit → (pre ≡ []) ⊎ (n ≡ 0)
    first_of n lim = elim first [ inl e ↦ inl e | inr e ↦ inr (omega arith) ]

    -- All that was left has passed, and the URB had room for it.
    whole :
        (n : ℕ)
        → n ≡ left u r p
        → sub32 (p.state.reqs r).length (p.state.reqs r).actual
          ≤ sub32 (p.state.urbs u).transfer_buffer_length (p.state.urbs u).actual_length
        → (p.state.reqs r).length ≡ (p.state.reqs r).actual + n
    whole n all room = omega (
      arith,
      all,
      left_lem,
      room,
      waits.sent,
      sub32_lem _ _ waits.sent waits.word,
      sub32_lem _ _ f.receives.fits f.receives.word,
    )

    send_short :
        (n : ℕ)
        → n ≡ left u r p
        → n ≤ p.limit
        → Outcome p (turn (send_packets env miter u i r n true (record p { rescan = false })))
    send_short n all lim =
        let p0 : Round = record p { rescan = false } in
        let x = p.state.urbs u in
        let q = p.state.reqs r in
        let h = sub32 x.transfer_buffer_length x.actual_length in
        let d = sub32 q.length q.actual in
        let c =
          carry-Sent miter u i r n p0 f.receives waits (omega (arith, all, left_lem))
            (omega (arith, all, left_lem)) in
        let t = finish_short-Sent u i r n (err einprogress) h d p0 (carry miter u i r n p0) c.0 in
        let pm = finish_short r h d true (carry miter u i r n p0) in
        let g =
          gone_lem env miter u i silent r n pre rs (short_results h d true).1 p0 pm f where_r
            (omega (arith, all, left_lem)) (first_of n lim) t.0 (short_results-done h d) in
        rw (send_packets-short env miter u i r n p0 f.receives.inwards) (
          turn-Outcome p (complete_req env i r pm) g.2
            (λ fine. g.3 (whole n all (short_results-fit h d (λ e. fine (g.0 ∙ t.1 ∙ e)))))
            (λ calm. absurd (ground (arith, g.1))))

    -- A full round that asks for no other has used the limit up, unless the URB or the request ends.
    used_up :
        (n : ℕ) (rescan : Bool) (p1 p2 pm : Round)
        → (rescan ≡ false → n ≡ min (left u r p) p.limit)
        → p1.rescan ≡ rescan
        → (p1.rescan ≡ true → p2.rescan ≡ true)
        → (p2.rescan ≡ false → (p.state.reqs r).length ≢ (p.state.reqs r).actual + n)
        → (p2.rescan ≡ true → pm.rescan ≡ true)
        → (pm.status ≡ p2.status)
            × ((p.state.urbs u).transfer_buffer_length ≢ (p.state.urbs u).actual_length + n)
          ⊎ (pm.status ≡ ret 0)
        → pm.rescan ≡ false
        → is_inprogress pm.status ≡ true
        → pm.limit ≡ p.limit - n
        → pm.limit ≡ 0
    used_up n rescan p1 p2 pm all same up1 open_req up2 open_urb calm going lim =
        let no2 = false_of p2.rescan pm.rescan up2 calm in
        let no1 = false_of p1.rescan p2.rescan up1 no2 in
        let some_req = open_req no2 in
        let cut_off = all (sym same ∙ no1) in
        elim open_urb [
          | inl (_, some_urb) ↦
              omega (arith, cut_off, left_lem, waits.sent, f.receives.fits, lim, some_req, some_urb)
          | inr ended ↦ absurd (ground arith)
        ]

    send_full :
        (n : ℕ) (rescan : Bool)
        → 0 < n
        → n ≤ left u r p
        → n ≤ p.limit
        → (rescan ≡ false → n ≡ min (left u r p) p.limit)
        → Outcome p (turn (send_packets env miter u i r n false (record p { rescan = rescan })))
    send_full n rescan pos le lim all =
        let p0 : Round = record p { rescan = rescan } in
        let c =
          carry-Sent miter u i r n p0 f.receives waits (omega (arith, le, left_lem))
            (omega (arith, le, left_lem)) in
        let p1 = carry miter u i r n p0 in
        let a = finish_req-Sent u i r n p0 p1 c.0 in
        let b =
          finish_urb-Sent u i r n (full_status (p.state.reqs r) n) p0 (finish_req r true p1) a.0 in
        let pm = finish_urb u true (finish_req r true p1) in
        rw (send_packets-full env miter u i r n p0 f.receives.inwards)
          (elim (Bool-cases (is_inprogress (full_status (p.state.reqs r) n))) [
            | inr e ↦
                (let g =
                    gone_lem env miter u i silent r n pre rs _ p0 pm f where_r
                      (omega (arith, le, left_lem)) (first_of n lim) b.0 e in
                  turn-Outcome p (complete_req env i r pm) g.2
                    (λ _. g.3 (full_status-gone (p.state.reqs r) n e))
                    (λ calm. absurd (ground (arith, g.1))))
            | inl e ↦
                (let k =
                    kept_lem env miter u i silent r n pre rs _ p0 pm f where_r
                      (omega (arith, le, left_lem)) (first_of n lim) b.0
                      (full_status-kept (p.state.reqs r) n e) in
                  rw k.0 (
                    turn-Outcome p pm k.1 (λ _. k.2)
                      (λ calm going. (
                        k.3,
                        used_up n rescan p1 (finish_req r true p1) pm all c.2 a.2 (a.3 e) b.1 b.2
                            calm going b.0.limit,
                      ))))
          ])

    act-Outcome :
        (c : Packets)
        → cut p.limit (p.state.ep i).maxpacket (left u r p) ≡ c
        → Outcome p (act env miter u i r p c)
    unfolding act
    act-Outcome wait e = λ _. refl
    act-Outcome trap e = tt
    act-Outcome (send n true rescan) e =
        let c = cut_lem p.limit (p.state.ep i).maxpacket (left u r p) n true rescan f.packet e in
        let s = c.2 refl in rw s.2 (send_short n s.0 c.1)
    act-Outcome (send n false rescan) e =
        let c = cut_lem p.limit (p.state.ep i).maxpacket (left u r p) n false rescan f.packet e in
        let s = c.3 refl in send_full n rescan s.0 c.0 c.1 s.2

    pub serve-Outcome : Outcome p (serve env miter u i r p)
    unfolding serve
    serve-Outcome = act-Outcome _ refl
