-- ===== src/Transfer/Flow.antt =====
-- `transfer` against a stream of bytes: no byte is lost, doubled or moved before another.
use mathlib.Core.Path.{subst}
use fuzzusb.Base.{
  ℕ, zero, suc, ◌+◌, false, ◌≡◌, ◌≢◌, refl, sym, ◌∙◌, ◌⊎◌, inl, inr, List, [], ◌∷◌, ◌++◌,
  append_assoc, arith, ==_refl,
}
use fuzzusb.Usb.{err, einprogress, eoverflow}
use fuzzusb.Dummy.{Dummy, Env, Side}
use fuzzusb.Perform.{SgMiter}
use fuzzusb.Transfer.{
  Round, Turn, stop, next, top, fault, Transferred, done, trapped, out_of_fuel, serve, scan, go_on,
  after_scan, transfer_loop, transfer, other_stream, sub32,
}
use fuzzusb.Transfer.Bounds.{transfer-bounds}
use fuzzusb.Transfer.Served.{Silent, Feeding, flow}
use fuzzusb.Transfer.Outcome.{Outcome, serve-Outcome, waits}
use fuzzusb.Transfer.Pending.{Waits}

module _ (env : Env) (miter : SgMiter) (u i : ℕ) (silent : Silent env u i) where
  -- How a pass over the queue may end
  abbrev Ends : Round → Turn → Type 0
  Ends p (stop p') = p'.status ≢ err eoverflow → flow u i p'.state ≡ flow u i p.state
  Ends p (next p') = p'.status ≢ err eoverflow → flow u i p'.state ≡ flow u i p.state
  Ends p (top p') = Feeding u i p'.state × (flow u i p'.state ≡ flow u i p.state)
  Ends p fault = Unit {0}

  Ends-trans :
      (p p' : Round) (t : Turn) → flow u i p'.state ≡ flow u i p.state → Ends p' t → Ends p t
  Ends-trans p p' (stop p'') same e = λ fine. e fine ∙ same
  Ends-trans p p' (next p'') same e = λ fine. e fine ∙ same
  Ends-trans p p' (top p'') same e = (e.0, e.1 ∙ same)
  Ends-trans p p' fault same e = tt

  go_on-Ends :
      (rest : Round → Turn) (p : Round) (t : Turn)
      → Outcome env miter u i silent p t
      → ((p' : Round)
          → Feeding u i p'.state
          → (p'.state.ep i).queue ≡ (p.state.ep i).queue
          → p'.limit ≡ 0
          → Ends p' (rest p'))
      → Ends p (go_on rest t)
  go_on-Ends rest p (stop p') o k = o
  go_on-Ends rest p (next p') o k = Ends-trans p p' (rest p') o.1 (k p' o.0 o.2 o.3)
  go_on-Ends rest p (top p') o k = o
  go_on-Ends rest p fault o k = tt

  -- No request that waits for the URB's stream is for another one.
  same_stream_lem :
      (s : Side) (r : ℕ) (d : Dummy)
      → Waits (d.urbs u).stream_id (d.reqs r)
      → other_stream s u r d ≡ false
  same_stream_lem s r d w = ground (arith, ==_refl (d.urbs u).stream_id)

  scan-Ends :
      (s : Side) (pre rs : List ℕ) (p : Round)
      → Feeding u i p.state
      → (p.state.ep i).queue ≡ pre ++ rs
      → (pre ≡ []) ⊎ (p.limit ≡ 0)
      → Ends p (scan env miter s u i rs p)
  unfolding scan
  scan-Ends s pre [] p f e first = λ _. refl
  scan-Ends s pre (r ∷ rs) p f e first =
      rw (same_stream_lem s r p.state (waits env miter u i silent r pre rs p f e first)) (
        go_on-Ends (scan env miter s u i rs) p (serve env miter u i r p)
          (serve-Outcome env miter u i silent r pre rs p f e first)
          (λ p' f' same used.
            scan-Ends s (pre ++ (r ∷ [])) rs p' f' (same ∙ e ∙ sym (append_assoc pre (r ∷ []) rs))
              (inr used)))

  abbrev EndsAll : Round → Transferred → Type 0
  EndsAll p (done p') = p'.status ≢ err eoverflow → flow u i p'.state ≡ flow u i p.state
  EndsAll p trapped = Unit {0}
  EndsAll p out_of_fuel = Unit {0}

  EndsAll-trans :
      (p p' : Round) (t : Transferred)
      → flow u i p'.state ≡ flow u i p.state
      → EndsAll p' t
      → EndsAll p t
  EndsAll-trans p p' (done p'') same e = λ fine. e fine ∙ same
  EndsAll-trans p p' trapped same e = tt
  EndsAll-trans p p' out_of_fuel same e = tt

  after_scan-EndsAll :
      (again : Round → Transferred) (p : Round) (t : Turn)
      → Ends p t
      → ((p' : Round) → Feeding u i p'.state → EndsAll p' (again p'))
      → EndsAll p (after_scan again t)
  after_scan-EndsAll again p (stop p') e k = e
  after_scan-EndsAll again p (next p') e k = e
  after_scan-EndsAll again p (top p') e k = EndsAll-trans p p' (again p') e.1 (k p' e.0)
  after_scan-EndsAll again p fault e k = tt

  transfer_loop-EndsAll :
      (s : Side) (fuel : ℕ) (p : Round)
      → Feeding u i p.state
      → EndsAll p (transfer_loop env miter s u i fuel p)
  unfolding transfer_loop
  transfer_loop-EndsAll s zero p f = tt
  transfer_loop-EndsAll s (suc fuel) p f =
      after_scan-EndsAll (transfer_loop env miter s u i fuel) p _
        (scan-Ends s [] (p.state.ep i).queue p f refl (inl refl))
        (λ p' f'. transfer_loop-EndsAll s fuel p' f')

-- A transfer to the host returns, and unless the URB ends with -EOVERFLOW, the bytes that the host
-- has, followed by those that the queue still holds, are the same as before, in the same order:
-- no byte is lost, doubled or passed by another. The URB has one buffer with room, each request of
-- the queue waits for the URB's stream and stands in the queue once, and completion routines leave
-- the URB, the requests and the endpoint's queue and packet size alone.
pub transfer-flow :
    (env : Env) (miter : SgMiter) (s : Side) (u i limit : ℕ) (d : Dummy)
    → Silent env u i
    → Feeding u i d
    → (p : Round) × (transfer env miter s u i limit d ≡ done p)
      × (p.status ≢ err eoverflow → flow u i p.state ≡ flow u i d)
unfolding transfer
transfer-flow env miter s u i limit d silent f =
    let x = d.urbs u in
    let b =
      transfer-bounds env miter s u i limit d silent.spares f.receives.linear f.receives.fits
        f.receives.word f.packet in
    let e =
      transfer_loop-EndsAll env miter u i silent s
        (sub32 x.transfer_buffer_length x.actual_length + 1)
        (record { limit = limit; sent = 0; status = err einprogress; rescan = false; state = d })
        f in
    (
      b.0,
      b.1,
      subst
          (EndsAll env miter u i silent (record {
            limit = limit;
            sent = 0;
            status = err einprogress;
            rescan = false;
            state = d;
          }))
          b.1 e,
    )
