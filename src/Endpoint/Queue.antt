-- ===== src/Endpoint/Queue.antt =====
-- `dummy_alloc_request`, `dummy_queue` and `dummy_dequeue` of patch/kernel/dummy_hcd.c.
use fuzzusb.Base.{
  ℕ, Bool, true, false, not, ◌&&◌, ◌||◌, Option, none, some, if◌then◌else◌, leb, ◌==◌, List, [],
  ◌∷◌, ◌++◌, take,
}
use fuzzusb.Usb.{Ret, ret, err, einval, eshutdown, einprogress, econnreset, Descriptor, is_dir_in}
use fuzzusb.Dummy.{Dummy, Request, Env, fifo_req, fifo_size}
use fuzzusb.Dummy.Access.{set_ep, set_req, is_empty, remove, giveback}
use fuzzusb.Endpoint.Enable.{is_some, is_ep0, port_enabled}

-- `kzalloc` and `INIT_LIST_HEAD`: a request of zeros, on no list
abbrev pub fresh_request : Request
fresh_request = record {
  linked = false;
  length = 0;
  actual = 0;
  status = ret 0;
  zero = false;
  stream_id = 0;
  has_complete = false;
  buf = [];
}

-- `memory` is what `kzalloc` returns.
unfoldable pub alloc_request : Option ℕ → Option ℕ → Dummy → Option ℕ × Dummy
alloc_request none memory d = (none, d)
alloc_request (some i) none d = (none, d)
alloc_request (some i) (some r) d = (some r, set_req r fresh_request d)

-- `ep->desc && (ep->desc->bEndpointAddress & USB_DIR_IN)`
abbrev pub sends : Option Descriptor → Bool
sends none = false
sends (some desc) = is_dir_in desc.endpoint_address

abbrev pub enqueue : ℕ → ℕ → Dummy → Dummy
enqueue i r d = set_ep i (record (d.ep i) { queue = (d.ep i).queue ++ (r ∷ []) }) d

-- `_req->status = -EINPROGRESS; _req->actual = 0;`
abbrev pub start_request : ℕ → Dummy → Dummy
start_request r d = set_req r (record (d.reqs r) { status = err einprogress; actual = 0 }) d

-- Does the request go through the emulated single-request FIFO?
unfoldable pub takes_fifo : ℕ → ℕ → Dummy → Bool
takes_fifo i r d =
    sends (d.ep i).desc
    && not (d.reqs fifo_req).linked
    && is_empty (d.ep i).queue
    && leb (d.reqs r).length fifo_size

-- The controller's own request takes the data over ...
unfoldable pub fill_fifo : ℕ → ℕ → Dummy → Dummy
fill_fifo i r d =
    let q = d.reqs r in
    enqueue i fifo_req (
      set_req fifo_req (record q { linked = true; buf = take q.length q.buf; has_complete = true })
        d)

-- ... and the gadget driver's request is done.
unfoldable pub finish_request : ℕ → Dummy → Dummy
finish_request r d = set_req r (record (d.reqs r) { actual = (d.reqs r).length; status = ret 0 }) d

-- `list_add_tail(&req->queue, &ep->queue)`
unfoldable pub link_request : ℕ → ℕ → Dummy → Dummy
link_request i r d = enqueue i r (set_req r (record (d.reqs r) { linked = true }) d)

-- The part under the lock
unfoldable pub queue_locked : Env → ℕ → ℕ → Dummy → Dummy
queue_locked env i r d =
    if takes_fifo i r d
    then giveback env i r (finish_request r (fill_fifo i r d))
    else link_request i r d

unfoldable pub queue : Env → Option ℕ → Option ℕ → Dummy → Ret × Dummy
unfolding queue_locked
queue env ep none d = (err einval, d)
queue env none (some r) d = (err einval, d)
queue env (some i) (some r) d =
    if (d.reqs r).linked || not (d.reqs r).has_complete
    then (err einval, d)
    else if not (is_some (d.ep i).desc) && not (is_ep0 (d.ep i))
    then (err einval, d)
    else if not (is_some d.driver) || not (port_enabled d)
    then (err eshutdown, d)
    else (ret 0, queue_locked env i r (start_request r d))

-- Is the request on the list?
abbrev pub found : ℕ → List ℕ → Bool
found r [] = false
found r (x ∷ xs) = r == x || found r xs

-- The loop of `dummy_dequeue` where it finds the request
unfoldable pub unlink_request : ℕ → ℕ → Dummy → Dummy
unlink_request i r d =
    set_req r (record (d.reqs r) { linked = false; status = err econnreset })
      (set_ep i (record (d.ep i) { queue = remove r (d.ep i).queue }) d)

unfoldable pub dequeue : Env → Option ℕ → Option ℕ → Dummy → Ret × Dummy
dequeue env none req d = (err einval, d)
dequeue env (some i) none d = (err einval, d)
dequeue env (some i) (some r) d =
    if not (is_some d.driver)
    then (err eshutdown, d)
    else if found r (d.ep i).queue
    then (ret 0, giveback env i r (unlink_request i r d))
    else (err einval, d)
