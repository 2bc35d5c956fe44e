-- ===== src/Dummy/Access.antt =====
-- Reading and writing the parts of the controller's state.
use fuzzusb.Base.{ℕ, ◌+◌, ◌-◌, Bool, true, false, List, [], ◌∷◌, update, ◌==◌, if◌then◌else◌}
use fuzzusb.Usb.{is_super}
use fuzzusb.Dummy.{
  Dummy, Ep, Request, Urb, Hcd, HcdSpeed, usb3, Side, hs, ss, Env, Event, RhState, running,
  suspended, fifo_req,
}

-- `dum->hs_hcd` or `dum->ss_hcd`
abbrev pub hcd : Dummy → Side → Hcd
hcd d hs = d.hs_hcd
hcd d ss = d.ss_hcd

abbrev pub set_hcd : Side → Hcd → Dummy → Dummy
set_hcd hs h d = record d { hs_hcd = h }
set_hcd ss h d = record d { ss_hcd = h }

-- `gadget_to_dummy_hcd`
abbrev pub gadget_hcd : Dummy → Side
gadget_hcd d = elim (is_super d.speed) [ true ↦ ss | false ↦ hs ]

-- `hcd->speed == HCD_USB3`
abbrev pub is_usb3 : HcdSpeed → Bool
is_usb3 usb3 = true
is_usb3 _ = false

abbrev pub is_running : RhState → Bool
is_running running = true
is_running _ = false

abbrev pub is_suspended : RhState → Bool
is_suspended suspended = true
is_suspended _ = false

abbrev pub set_ep : ℕ → Ep → Dummy → Dummy
set_ep i e d = record d { ep = update d.ep i e }

abbrev pub set_req : ℕ → Request → Dummy → Dummy
set_req r q d = record d { reqs = update d.reqs r q }

abbrev pub set_urb : ℕ → Urb → Dummy → Dummy
set_urb u x d = record d { urbs = update d.urbs u x }

abbrev pub log : Event → Dummy → Dummy
log e d = record d { trace = e ∷ d.trace }

-- `list_empty`
abbrev pub is_empty : List ℕ → Bool
is_empty [] = true
is_empty (x ∷ xs) = false

-- `list_del_init(&req->queue)` takes the request from the endpoint's queue.
abbrev pub remove : ℕ → List ℕ → List ℕ
remove r [] = []
remove r (x ∷ xs) = elim (r == x) [ true ↦ xs | false ↦ x ∷ remove r xs ]

-- The completion routine of a request: `fifo_complete`, which is empty, for the controller's own
unfoldable pub call_complete : Env → ℕ → ℕ → Dummy → Dummy
call_complete env i r d = if r == fifo_req then d else env.complete i r d

-- `usb_gadget_giveback_request(&ep->ep, &req->req)`, the lock dropped round it
unfoldable pub giveback : Env → ℕ → ℕ → Dummy → Dummy
giveback env i r d =
    call_complete env i r (log (Event.gave_request i r (d.reqs r).status (d.reqs r).actual) d)

-- A callback of the gadget driver, counted by `callback_usage` while it runs
unfoldable pub with_usage : (Dummy → Dummy) → Dummy → Dummy
with_usage call d =
    let d' = call (record d { callback_usage = d.callback_usage + 1 }) in
    record d' { callback_usage = d'.callback_usage - 1 }
