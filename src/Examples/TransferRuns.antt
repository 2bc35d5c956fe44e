-- ===== src/Examples/TransferRuns.antt =====
-- Transfers to the host: an endpoint with packets of 8 bytes and requests of 20 bytes.
use fuzzusb.Base.{
  ℕ, zero, suc, ◌+◌, ◌-◌, ◌≤◌, true, some, ◌≡◌, ◌≢◌, refl, arith, List, [], ◌∷◌, ◌≢◌,
}
use fuzzusb.Usb.{Ret, ret, err, einprogress, eoverflow}
use fuzzusb.Usbtest.{zeros}
use fuzzusb.Dummy.{Dummy, Request, Urb, hs, suspended, Event}
use fuzzusb.Dummy.Access.{call_complete}
use fuzzusb.Stream.{ep_stream_en}
use fuzzusb.Perform.{SgMiter, perform_transfer}
use fuzzusb.Transfer.{Round, Transferred, done, transfer, transfer_loop, scan, serve}
use fuzzusb.Transfer.Bounds.{Spares, transfer-bounds}
use fuzzusb.Perform.Flat.{flat, perform_transfer-flat}
use fuzzusb.Transfer.Served.{Silent, Feeding, flow}
use fuzzusb.Transfer.Flow.{transfer-flow}
use fuzzusb.Timer.{run_timer, returned}
use fuzzusb.Timer.Cancel.{TakesNote, run_timer-suspended}
use fuzzusb.Examples.Data.{env, dummy, enabled_ep, request, urb, hs_port}

-- A scatter list of 4 and 36 bytes
abbrev miter : SgMiter
miter u pos = (4 - pos) ∷ (36 - (pos - 4)) ∷ []

abbrev waiting : Request
waiting = record request {
  linked = true;
  length = 20;
  status = err einprogress;
  buf =
      1 ∷ 2 ∷ 3 ∷ 4 ∷ 5 ∷ 6 ∷ 7 ∷ 8 ∷ 9 ∷ 10 ∷ 11 ∷ 12 ∷ 13 ∷ 14 ∷ 15 ∷ 16 ∷ 17 ∷ 18 ∷ 19 ∷ 20 ∷ [];
}

abbrev receiver : Urb
receiver = record urb { transfer_buffer = zeros 40; transfer_buffer_length = 40 }

abbrev feeder : Dummy
feeder = record dummy {
  ep = λ i. record enabled_ep { maxpacket = 8; queue = 1 ∷ 2 ∷ [] };
  reqs = λ r. waiting;
  urbs = λ u. receiver;
}

env-Spares : Spares env 7 3
env-Spares = record { same_urb = λ j r d. refl; same_packet = λ j r d. refl }

env-Silent : Silent env 7 3
env-Silent = record { spares = env-Spares; same_queue = λ j r d. refl; same_reqs = λ j r d. refl }

feeder-Feeding : Feeding 7 3 feeder
feeder-Feeding = record {
  receives = record {
    inwards = refl;
    linear = refl;
    fits = omega arith;
    memory = omega arith;
    word = omega arith;
  };
  packet = omega arith;
  queued = record {
    each = λ r h. record {
      sent = omega arith;
      memory = omega arith;
      word = omega arith;
      in_progress = refl;
      same_stream = refl;
    };
    once = (refl, (refl, tt));
  };
}

transfer-bounds_example :
    (p : Round) × (transfer env miter hs 7 3 12 feeder ≡ done p)
    × (p.sent ≤ 12)
    × ((p.state.urbs 7).actual_length ≡ 0 + p.sent)
    × ((p.state.urbs 7).transfer_buffer_length ≡ 40)
    × ((p.state.urbs 7).actual_length ≤ 40)
transfer-bounds_example =
    transfer-bounds env miter hs 7 3 12 feeder env-Spares refl (omega arith) (omega arith)
      (omega arith)

transfer-flow_example :
    (p : Round) × (transfer env miter hs 7 3 12 feeder ≡ done p)
    × (p.status ≢ err eoverflow → flow 7 3 p.state ≡ flow 7 3 feeder)
transfer-flow_example = transfer-flow env miter hs 7 3 12 feeder env-Silent feeder-Feeding

abbrev scattered : Dummy
scattered = record feeder { urbs = λ u. record receiver { num_sgs = 2 } }

perform_transfer-flat_example :
    let (result, d') = perform_transfer miter 7 1 20 scattered in
    let (result', e) = perform_transfer miter 7 1 20 (flat 7 scattered) in
    (result ≡ ret 20)
    × (result' ≡ ret 20)
    × ((d'.urbs 7).transfer_buffer ≡ (e.urbs 7).transfer_buffer)
    × ((d'.reqs 1).buf ≡ (e.reqs 1).buf)
    × ((d'.urbs 7).sg_pos ≡ 0 + 20)
perform_transfer-flat_example =
    perform_transfer-flat miter 7 1 20 scattered (λ pos. omega arith) (omega arith) (omega arith)
      (omega arith) (omega arith) (omega arith) refl

-- The second request is empty. The first one has more than a packet left when the limit of 8 bytes is
-- used up; then the empty packet of the second request goes first, and ends the URB.
abbrev with_empty : Dummy
with_empty = record feeder {
  reqs = λ r. elim r [ suc (suc zero) ↦ record waiting { length = 0 } | _ ↦ waiting ];
}

abbrev what_ends : Round → Ret × ℕ × ℕ × List ℕ
what_ends p = (p.status, p.sent, (p.state.reqs 1).actual, (p.state.ep 3).queue)

abbrev outcome : (t : Transferred) → Ret × ℕ × ℕ × List ℕ
outcome (done p) = what_ends p
outcome _ = (ret 1, 0, 0, [])

empty_overtakes : outcome (transfer env miter hs 7 3 8 with_empty) ≡ (ret 0, 8, 8, 1 ∷ [])
unfolding transfer transfer_loop scan serve ep_stream_en call_complete
empty_overtakes = refl

-- URBs 1, 2 and 3 wait on a suspended bus, and 2 was unlinked.
abbrev idle : Dummy
idle = record feeder {
  hs_hcd = record hs_port { rh_state = suspended; udev = some 0; urbp_list = 1 ∷ 2 ∷ 3 ∷ [] };
  urbs = λ u. elim u [ suc (suc zero) ↦ record receiver { unlinked = true } | _ ↦ receiver ];
}

env-TakesNote : TakesNote env
env-TakesNote = record {
  same_hcd = λ s u st d. refl;
  same_urbs = λ s u st d. refl;
  same_trace = λ s u st d. refl;
}

run_timer-suspended_example :
    (e : Dummy) × (run_timer env miter hs idle ≡ returned e)
    × (e.hs_hcd.urbp_list ≡ 1 ∷ 3 ∷ [])
    × (e.trace ≡ Event.gave_urb hs 2 (err einprogress) ∷ [])
    × (e.hs_hcd.udev ≡ some 0)
run_timer-suspended_example = run_timer-suspended env miter hs env-TakesNote idle refl refl
