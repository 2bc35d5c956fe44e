-- ===== src/Endpoint/Stall.antt =====
-- Halting and wedging an endpoint.
use fuzzusb.Base.{ℕ, true, false, some, ◌≡◌, ◌≢◌, ◌↔◌, arith}
use fuzzusb.Usb.{ret, err, eagain}
use fuzzusb.Dummy.{Dummy}
use fuzzusb.Dummy.Access.{is_empty}
use fuzzusb.Endpoint.Enable.{is_some}
use fuzzusb.Endpoint.Queue.{sends}
use fuzzusb.Endpoint.Halt.{set_halt, set_wedge}

-- `dummy_set_halt` answers -EAGAIN exactly if it is asked to halt a bound sending endpoint with data
-- queued; the state is then unchanged.
pub set_halt-busy :
    (i value : ℕ) (d : Dummy)
    → (((set_halt (some i) value d).0 ≡ err eagain)
        ↔ (is_some d.driver ≡ true)
          × (value ≢ 0)
          × (sends (d.ep i).desc ≡ true)
          × (is_empty (d.ep i).queue ≡ false))
      × ((set_halt (some i) value d).0 ≡ err eagain → (set_halt (some i) value d).1 ≡ d)
unfolding set_halt
set_halt-busy i value d = ((λ h. ground arith, λ h. ground arith), λ h. ground arith)

-- A wedged endpoint is halted, and `dummy_set_halt` with value 0 ends both; no other endpoint, and
-- no queue, is touched on the way.
pub set_wedge-set_halt :
    (i j : ℕ) (d : Dummy)
    → (set_wedge (some i) d).0 ≡ ret 0
    → let w = (set_wedge (some i) d).1 in
      let (r, c) = set_halt (some i) 0 w in
      ((w.ep i).halted ≡ true)
      × ((w.ep i).wedged ≡ true)
      × (r ≡ ret 0)
      × ((c.ep i).halted ≡ false)
      × ((c.ep i).wedged ≡ false)
      × ((c.ep j).queue ≡ (d.ep j).queue)
      × (i ≢ j → c.ep j ≡ d.ep j)
unfolding set_wedge set_halt
set_wedge-set_halt i j d h = ground arith
