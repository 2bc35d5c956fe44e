-- ===== src/Transfer/Bounds.antt =====
-- The bounds of `transfer`, and that its loop ends.
use fuzzusb.Base.{
  ℕ, zero, suc, ◌+◌, ◌-◌, ◌≤◌, ◌<◌, Bool, true, false, ◌≡◌, refl, ◌⊎◌, inl, inr, List, [], ◌∷◌,
  arith, Bool-cases, ◌^◌,
}
use fuzzusb.Usb.{err, einprogress, is_inprogress}
use fuzzusb.Dummy.{Dummy, Env, Side, Event}
use fuzzusb.Dummy.Access.{giveback, call_complete, log, set_req, set_ep, remove}
use fuzzusb.Perform.{SgMiter}
use fuzzusb.Transfer.{
  Round, Turn, stop, next, top, fault, Transferred, done, carry, finish_short, finish_req,
  finish_urb, complete_req, send_packets, serve, act, left, scan, go_on, after_scan, go_on,
  after_scan, transfer_loop, transfer, sub32, cut, other_stream, turn, Packets, wait, trap, send,
}
use fuzzusb.Transfer.Cut.{sub32_lem, add32_lem, cut_lem, cut-trap}

-- Completion routines that leave an URB and the packet size of an endpoint alone
pub record Spares (env : Env) (u i : ℕ) : Type 0 where
  pub same_urb : (j r : ℕ) (d : Dummy) → (env.complete j r d).urbs u ≡ d.urbs u
  pub same_packet :
      (j r : ℕ) (d : Dummy) → ((env.complete j r d).ep i).maxpacket ≡ (d.ep i).maxpacket

-- A state of the loop of a transfer that began with `limit`, for an URB with `start` bytes of
-- `size` done
pub record Going (u i limit start size : ℕ) (p : Round) : Type 0 where
  pub budget : p.limit + p.sent ≡ limit
  pub progress : (p.state.urbs u).actual_length ≡ start + p.sent
  pub same_size : (p.state.urbs u).transfer_buffer_length ≡ size
  pub in_buffer : (p.state.urbs u).actual_length ≤ size
  pub linear : (p.state.urbs u).num_sgs ≡ 0
  pub packet : 0 < (p.state.ep i).maxpacket

-- The states in which `usb_gadget_giveback_request` and the completion routine are called
abbrev pub logged : ℕ → ℕ → Dummy → Dummy
logged i r d = log (Event.gave_request i r (d.reqs r).status (d.reqs r).actual) d

abbrev pub unlinked : ℕ → ℕ → Dummy → Dummy
unlinked i r d =
    set_req r (record (d.reqs r) { linked = false })
      (set_ep i (record (d.ep i) { queue = remove r (d.ep i).queue }) d)

abbrev pub host_len : ℕ → Round → ℕ
host_len u p = sub32 (p.state.urbs u).transfer_buffer_length (p.state.urbs u).actual_length

abbrev pub dev_len : ℕ → Round → ℕ
dev_len r p = sub32 (p.state.reqs r).length (p.state.reqs r).actual

abbrev pub to_host : ℕ → Round → Bool
to_host u p = (p.state.urbs u).dir_in

module _ (env : Env) (miter : SgMiter) (u i : ℕ) (spares : Spares env u i) (limit start size : ℕ)
    (word : size < 4294967296) where
  abbrev G : Round → Type 0
  G = Going u i limit start size

  carry-Going :
      (r n : ℕ) (p : Round)
      → G p
      → n ≤ p.limit
      → n ≤ size - (p.state.urbs u).actual_length
      → G (carry miter u i r n p) × ((carry miter u i r n p).sent ≡ p.sent + n)
  unfolding carry
  carry-Going r n p g a b = ground (arith, add32_lem (p.state.urbs u).actual_length n)

  finish_short-Going :
      (r h d : ℕ) (b : Bool) (p : Round)
      → G p
      → G (finish_short r h d b p) × (is_inprogress (finish_short r h d b p).status ≡ false)
  unfolding finish_short
  finish_short-Going r h d b p g = ground arith

  finish_req-Going :
      (r : ℕ) (b : Bool) (p : Round)
      → G p
      → G (finish_req r b p) × ((finish_req r b p).sent ≡ p.sent)
  unfolding finish_req
  finish_req-Going r b p g = ground arith

  finish_urb-Going :
      (b : Bool) (p : Round) → G p → G (finish_urb u b p) × ((finish_urb u b p).sent ≡ p.sent)
  unfolding finish_urb
  finish_urb-Going b p g = ground arith

  giveback-spares :
      (r : ℕ) (d : Dummy)
      → ((giveback env i r d).urbs u ≡ d.urbs u)
        × (((giveback env i r d).ep i).maxpacket ≡ (d.ep i).maxpacket)
  unfolding giveback call_complete
  giveback-spares r d =
      ground (arith, spares.same_urb i r (logged i r d), spares.same_packet i r (logged i r d))

  complete_req-Going :
      (r : ℕ) (p : Round)
      → G p
      → G (complete_req env i r p)
        × ((complete_req env i r p).sent ≡ p.sent)
        × ((complete_req env i r p).status ≡ p.status)
  unfolding complete_req
  complete_req-Going r p g = ground (arith, giveback-spares r (unlinked i r p.state))

  send_packets-Going :
      (r n : ℕ) (short : Bool) (p : Round)
      → G p
      → n ≤ p.limit
      → n ≤ size - (p.state.urbs u).actual_length
      → let p' = send_packets env miter u i r n short p in
        G p'
        × (short ≡ true → is_inprogress p'.status ≡ false)
        × (short ≡ false → p'.sent ≡ p.sent + n)
  unfolding send_packets
  send_packets-Going r n true p g a b =
      let c = carry-Going r n p g a b in
      let f =
        finish_short-Going r (host_len u p) (dev_len r p) (to_host u p) (carry miter u i r n p)
          c.0 in
      let k =
        complete_req-Going r
          (finish_short r (host_len u p) (dev_len r p) (to_host u p) (carry miter u i r n p)) f.0 in
      (k.0, λ _. rw k.2 f.1, λ e. cc)
  send_packets-Going r n false p g a b =
      let c = carry-Going r n p g a b in
      let f = finish_req-Going r (to_host u p) (carry miter u i r n p) c.0 in
      let h =
        finish_urb-Going (to_host u p) (finish_req r (to_host u p) (carry miter u i r n p)) f.0 in
      let k =
        complete_req-Going r
          (finish_urb u (to_host u p) (finish_req r (to_host u p) (carry miter u i r n p))) h.0 in
      (k.0, λ e. cc, λ _. omega arith)

  -- How a round may end: within the bounds, never by a division by zero, and `goto top` only after
  -- a byte passed.
  abbrev After : Round → Turn → Type 0
  After p (stop p') = G p'
  After p (next p') = G p' × (p.sent ≤ p'.sent)
  After p (top p') = G p' × (p.sent < p'.sent)
  After p fault = ⊥

  turn-After :
      (p p' : Round)
      → G p'
      → p.sent < p'.sent ⊎ (is_inprogress p'.status ≡ false)
      → After p (turn p')
  turn-After p p' g h = ground arith

  left-le : (r : ℕ) (p : Round) → G p → left u r p ≤ size - (p.state.urbs u).actual_length
  unfolding left
  left-le r p g =
      ground
        (arith, sub32_lem (p.state.urbs u).transfer_buffer_length (p.state.urbs u).actual_length)

  act-After :
      (r : ℕ) (p : Round) (c : Packets)
      → G p
      → cut p.limit (p.state.ep i).maxpacket (left u r p) ≡ c
      → After p (act env miter u i r p c)
  unfolding act
  act-After r p wait g e = g
  act-After r p trap g e = absurd (cut-trap _ _ _ g.packet e)
  act-After r p (send n short rescan) g e =
      let p' : Round = record p { rescan = rescan } in
      let c = cut_lem p.limit (p.state.ep i).maxpacket (left u r p) n short rescan g.packet e in
      let a =
        send_packets-Going r n short p' (ground arith) c.1 (omega (arith, c.0, left-le r p g)) in
      turn-After p (send_packets env miter u i r n short p') a.0 (ground arith)

  serve-After : (r : ℕ) (p : Round) → G p → After p (serve env miter u i r p)
  unfolding serve
  serve-After r p g = act-After r p _ g refl

  After-le : (p p' : Round) (t : Turn) → p.sent ≤ p'.sent → After p' t → After p t
  After-le p p' (stop q) h a = a
  After-le p p' (next q) h a = (a.0, omega arith)
  After-le p p' (top q) h a = (a.0, omega arith)
  After-le p p' fault h a = a

  go_on-After :
      (rest : Round → Turn) (p : Round) (t : Turn)
      → ((p' : Round) → G p' → After p' (rest p'))
      → After p t
      → After p (go_on rest t)
  go_on-After rest p (stop q) f a = a
  go_on-After rest p (next q) f a = After-le p q (rest q) a.1 (f q a.0)
  go_on-After rest p (top q) f a = a
  go_on-After rest p fault f a = a

  scan-After : (s : Side) (rs : List ℕ) (p : Round) → G p → After p (scan env miter s u i rs p)
  unfolding scan
  scan-After s [] p g = g
  scan-After s (r ∷ rs) p g = elim (Bool-cases (other_stream s u r p.state)) [
    | inl e ↦ rw e (scan-After s rs p g)
    | inr e ↦ rw e (
        go_on-After (scan env miter s u i rs) p (serve env miter u i r p)
          (λ p' g'. scan-After s rs p' g') (serve-After r p g))
  ]

  abbrev Done : Transferred → Type 0
  Done t = (p : Round) × (t ≡ done p) × G p

  after_scan-Done :
      (again : Round → Transferred) (p : Round) (t : Turn)
      → ((p' : Round) → G p' → p.sent < p'.sent → Done (again p'))
      → After p t
      → Done (after_scan again t)
  after_scan-Done again p (stop q) f a = (q, refl, a)
  after_scan-Done again p (next q) f a = (q, refl, a.0)
  after_scan-Done again p (top q) f a = f q a.0 a.1
  after_scan-Done again p fault f a = absurd a

  transfer_loop-Done :
      (s : Side) (fuel : ℕ) (p : Round)
      → G p
      → size < start + p.sent + fuel
      → Done (transfer_loop env miter s u i fuel p)
  unfolding transfer_loop
  transfer_loop-Done s zero p g h = absurd (omega (arith, g.in_buffer, g.progress))
  transfer_loop-Done s (suc fuel) p g h =
      after_scan-Done (transfer_loop env miter s u i fuel) p _
        (λ p' g' lt. transfer_loop-Done s fuel p' g' (omega arith))
        (scan-After s (p.state.ep i).queue p g)

-- A transfer of an URB without a scatter list ends, if completion routines leave the URB and the
-- packet size alone, which is positive, and the URB's buffer is not overrun already: no more than
-- the limit is sent, the URB advances by what is sent, and stays within its buffer.
pub transfer-bounds :
    (env : Env) (miter : SgMiter) (s : Side) (u i limit : ℕ) (d : Dummy)
    → Spares env u i
    → (d.urbs u).num_sgs ≡ 0
    → (d.urbs u).actual_length ≤ (d.urbs u).transfer_buffer_length
    → (d.urbs u).transfer_buffer_length < 2 ^ 32
    → 0 < (d.ep i).maxpacket
    → (p : Round) × (transfer env miter s u i limit d ≡ done p)
      × (p.sent ≤ limit)
      × ((p.state.urbs u).actual_length ≡ (d.urbs u).actual_length + p.sent)
      × ((p.state.urbs u).transfer_buffer_length ≡ (d.urbs u).transfer_buffer_length)
      × ((p.state.urbs u).actual_length ≤ (d.urbs u).transfer_buffer_length)
unfolding transfer
transfer-bounds env miter s u i limit d spares linear fits word packet =
    let x = d.urbs u in
    let p : Round = record {
      limit = limit;
      sent = 0;
      status = err einprogress;
      rescan = false;
      state = d;
    } in
    let e = sub32_lem x.transfer_buffer_length x.actual_length fits word in
    let (q, same, g) =
      transfer_loop-Done env miter u i spares limit x.actual_length x.transfer_buffer_length word s
        (sub32 x.transfer_buffer_length x.actual_length + 1) p
        (record {
          budget = omega arith;
          progress = omega arith;
          same_size = refl;
          in_buffer = fits;
          linear = linear;
          packet = packet;
        })
        (omega arith) in
    (q, same, omega (arith, g.budget), g.progress, g.same_size, g.in_buffer)
