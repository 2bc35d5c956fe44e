-- ===== src/Transfer/Send.antt =====
-- One round of `transfer` that sends to the host: what it does to the URB and to the request.
use fuzzusb.Base.{
  ℕ, ◌+◌, ◌-◌, ◌≤◌, ◌<◌, true, ◌≡◌, refl, sym, ap, ◌∙◌, fun_ext, inl, inr, List, ◌++◌, append-nil,
  arith, ◌==◌, ==_refl, ==_iff, ==-false, update, Bool-cases, length, take, drop, splice,
  take-splice, length-splice, length-take, length-drop, ◌^◌,
}
use fuzzusb.Usb.{Ret, ret, err, einprogress}
use fuzzusb.Dummy.{Dummy, Urb, Request}
use fuzzusb.Dummy.Access.{set_urb}
use fuzzusb.Perform.{SgMiter, perform_transfer, memcpy}
use fuzzusb.Transfer.{Round, carry, book}
use fuzzusb.Transfer.Cut.{add32_lem}
use fuzzusb.Transfer.Pending.{Waits}

-- The bytes that the host has
abbrev pub received : Urb → List ℕ
received x = take x.actual_length x.transfer_buffer

-- An URB for bytes to the host, in one buffer with room
pub record Receives (x : Urb) : Type 0 where
  pub inwards : x.dir_in ≡ true
  pub linear : x.num_sgs ≡ 0
  pub fits : x.actual_length ≤ x.transfer_buffer_length
  pub memory : x.transfer_buffer_length ≤ length x.transfer_buffer
  pub word : x.transfer_buffer_length < 2 ^ 32

-- Round `p` has become `p'` when `n` bytes of request `r` have passed.
pub record Sent (u i r n : ℕ) (status : Ret) (p p' : Round) : Type 0 where
  pub reqs :
      p'.state.reqs
      ≡ update p.state.reqs r
          (record (p.state.reqs r) { actual = (p.state.reqs r).actual + n; status = status })
  pub got :
      received (p'.state.urbs u)
      ≡ received (p.state.urbs u) ++ take n (drop (p.state.reqs r).actual (p.state.reqs r).buf)
  pub receives : Receives (p'.state.urbs u)
  pub advanced : (p'.state.urbs u).actual_length ≡ (p.state.urbs u).actual_length + n
  pub same_size : (p'.state.urbs u).transfer_buffer_length ≡ (p.state.urbs u).transfer_buffer_length
  pub same_stream : (p'.state.urbs u).stream_id ≡ (p.state.urbs u).stream_id
  pub same_queue : (p'.state.ep i).queue ≡ (p.state.ep i).queue
  pub same_packet : (p'.state.ep i).maxpacket ≡ (p.state.ep i).maxpacket
  pub limit : p'.limit ≡ p.limit - n

-- The buffer of the URB after `n` bytes of a request
receive-memcpy :
    (x : Urb) (q : Request) (n : ℕ)
    → x.actual_length + n ≤ length x.transfer_buffer
    → q.actual + n ≤ length q.buf
    → take (x.actual_length + n) (memcpy x.transfer_buffer x.actual_length q.buf q.actual n)
      ≡ received x ++ take n (drop q.actual q.buf)
unfolding memcpy
receive-memcpy x q n room source =
    let l : length (take n (drop q.actual q.buf)) ≡ n =
      omega (arith, length-take n (drop q.actual q.buf), length-drop q.actual q.buf) in
    ap
      (λ k.
        take (x.actual_length + k)
          (splice x.transfer_buffer x.actual_length (take n (drop q.actual q.buf))))
      (sym l)
    ∙ take-splice x.transfer_buffer x.actual_length (take n (drop q.actual q.buf)) (omega arith)

length-memcpy :
    (dst : List ℕ) (at : ℕ) (src : List ℕ) (from n : ℕ)
    → length (memcpy dst at src from n) ≡ length dst
unfolding memcpy
length-memcpy dst at src from n = length-splice dst at (take n (drop from src))

-- The state after the bytes were copied
abbrev copied : ℕ → ℕ → ℕ → Dummy → Dummy
copied u r n d =
    let x = d.urbs u in
    let q = d.reqs r in
    set_urb u
      (record x { transfer_buffer = memcpy x.transfer_buffer x.actual_length q.buf q.actual n }) d

perform_transfer-in :
    (miter : SgMiter) (u r n : ℕ) (d : Dummy)
    → Receives (d.urbs u)
    → perform_transfer miter u r n d ≡ (ret n, copied u r n d)
unfolding perform_transfer
perform_transfer-in miter u r n d x = rw (x.linear, x.inwards) refl

module _ (miter : SgMiter) (u i r n : ℕ) where
  carry-Sent_zero :
      (p : Round)
      → n ≡ 0
      → Receives (p.state.urbs u)
      → Sent u i r n (p.state.reqs r).status p (carry miter u i r n p)
  unfolding carry
  carry-Sent_zero p e x = rw e (record {
    reqs = fun_ext (λ y. ground arith);
    got = sym (append-nil _);
    receives = x;
    advanced = omega arith;
    same_size = refl;
    same_stream = refl;
    same_queue = refl;
    same_packet = refl;
    limit = omega arith;
  })

  carry-book :
      (p : Round)
      → 0 < n
      → Receives (p.state.urbs u)
      → carry miter u i r n p ≡ book u i r (ret n) (copied u r n p.state) p
  unfolding carry
  carry-book p pos x =
      rw (==-false n 0 (omega arith), perform_transfer-in miter u r n p.state x) refl

  carry-status : (p : Round) → Receives (p.state.urbs u) → (carry miter u i r n p).status ≡ p.status
  unfolding carry book
  carry-status p x = rw (perform_transfer-in miter u r n p.state x) (ground arith)

  carry-rescan : (p : Round) → Receives (p.state.urbs u) → (carry miter u i r n p).rescan ≡ p.rescan
  unfolding carry book
  carry-rescan p x = rw (perform_transfer-in miter u r n p.state x) (ground arith)

  carry-Sent_suc :
      (p : Round)
      → 0 < n
      → Receives (p.state.urbs u)
      → Waits (p.state.urbs u).stream_id (p.state.reqs r)
      → n ≤ (p.state.urbs u).transfer_buffer_length - (p.state.urbs u).actual_length
      → n ≤ (p.state.reqs r).length - (p.state.reqs r).actual
      → Sent u i r n (p.state.reqs r).status p (carry miter u i r n p)
  unfolding book
  carry-Sent_suc p pos x q a b = rw (carry-book p pos x) (record {
    reqs = fun_ext (λ y. ground (arith, add32_lem (p.state.reqs r).actual n));
    got =
        rw (==_refl u, add32_lem (p.state.urbs u).actual_length n (omega arith))
          (receive-memcpy (p.state.urbs u) (p.state.reqs r) n (omega arith) (omega arith));
    receives =
        rw (==_refl u, add32_lem (p.state.urbs u).actual_length n (omega arith))
          (record {
            inwards = x.inwards;
            linear = x.linear;
            fits = omega arith;
            memory = omega (
              arith,
              length-memcpy (p.state.urbs u).transfer_buffer (p.state.urbs u).actual_length
                  (p.state.reqs r).buf (p.state.reqs r).actual n,
              x.memory,
            );
            word = x.word;
          });
    advanced = ground (arith, add32_lem (p.state.urbs u).actual_length n);
    same_size = ground arith;
    same_stream = ground arith;
    same_queue = ground arith;
    same_packet = ground arith;
    limit = refl;
  })

  pub carry-Sent :
      (p : Round)
      → Receives (p.state.urbs u)
      → Waits (p.state.urbs u).stream_id (p.state.reqs r)
      → n ≤ (p.state.urbs u).transfer_buffer_length - (p.state.urbs u).actual_length
      → n ≤ (p.state.reqs r).length - (p.state.reqs r).actual
      → Sent u i r n (err einprogress) p (carry miter u i r n p)
        × ((carry miter u i r n p).status ≡ p.status)
        × ((carry miter u i r n p).rescan ≡ p.rescan)
  carry-Sent p x q a b = (
    rw (← q.in_progress) (elim (Bool-cases (n == 0)) [
      | inl e ↦ carry-Sent_zero p ((==_iff n 0).0 e) x
      | inr e ↦ carry-Sent_suc p (ground arith) x q a b
    ]),
    carry-status p x,
    carry-rescan p x,
  )
