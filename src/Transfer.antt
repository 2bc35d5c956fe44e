-- ===== src/Transfer.antt =====
-- The bytes that pass between an URB and the requests of an endpoint: `transfer` and
-- `periodic_bytes` of patch/kernel/dummy_hcd.c.
pub mod Cut
pub mod Bounds
pub mod Pending
pub mod Send
pub mod Finish
pub mod Served
pub mod Outcome
pub mod Flow
use fuzzusb.Base.{
  ℕ, zero, suc, ◌+◌, ◌-◌, ◌*◌, ◌%◌, ◌^◌, Bool, true, false, not, ◌&&◌, if◌then◌else◌, ltb, leb,
  ◌==◌, List, [], ◌∷◌, min, take, drop, splice, Option, none, some,
}
use mathlib.Core.Option
use fuzzusb.Usb.{
  Ret, ret, err, einval, eoverflow, einprogress, is_inprogress, Speed, high, super, TransferType,
  isoc, interrupt, bulk, Descriptor,
}
use fuzzusb.Dummy.{Dummy, Ep, Env, Side}
use fuzzusb.Dummy.Access.{hcd, set_ep, set_req, set_urb, remove, giveback}
use fuzzusb.Stream.{ep_stream_en}
use fuzzusb.Perform.{SgMiter, perform_transfer}

-- `a - b` and `a + b` on `u32`
unfoldable pub sub32 : ℕ → ℕ → ℕ
sub32 a b = (a + 2 ^ 32 - b) % 2 ^ 32

unfoldable pub add32 : ℕ → ℕ → ℕ
add32 a b = (a + b) % 2 ^ 32

-- How much of `len` bytes goes now: nothing (`break`), a division by a packet size of 0, or some
-- bytes, with `is_short` and `rescan`. 0 bytes are sent only where `len` is 0.
pub data Packets : Type 0 where
  wait trap : Packets
  send : ℕ → Bool → Bool → Packets

unfoldable pub cut : ℕ → ℕ → ℕ → Packets
cut limit maxpacket len =
    if len == 0
    then send 0 true false
    else if ltb limit maxpacket && ltb limit len
    then wait
    else (let n = min len limit in
        if n == 0
        then wait
        else if leb maxpacket n
        then (if maxpacket == 0
            then trap
            else send (n - n % maxpacket) false (not (n % maxpacket == 0)))
        else send n true false)

-- The variables of `transfer` that a round of its loop changes, and the state
pub record Round : Type 0 where
  pub limit : ℕ
  pub sent : ℕ
  pub status : Ret
  pub rescan : Bool
  pub state : Dummy

-- What is noted of the bytes that passed, or of an error
unfoldable pub book : ℕ → ℕ → ℕ → Ret → Dummy → Round → Round
unfolding add32
book u i r (err e) d p =
    let d' = set_ep i (record (d.ep i) { last_io = d.jiffies }) d in
    record p { state = set_req r (record (d'.reqs r) { status = err e }) d' }
book u i r (ret len) d p =
    let d' = set_ep i (record (d.ep i) { last_io = d.jiffies }) d in
    record p {
      limit = p.limit - len;
      sent = p.sent + len;
      state =
          set_urb u (record (d'.urbs u) { actual_length = add32 (d'.urbs u).actual_length len })
            (set_req r (record (d'.reqs r) { actual = add32 (d'.reqs r).actual len }) d');
    }

-- From the call of `dummy_perform_transfer` to the end of its branch, which `n = 0` does not enter
unfoldable pub carry : SgMiter → ℕ → ℕ → ℕ → ℕ → Round → Round
unfolding perform_transfer book
carry miter u i r n p =
    if n == 0
    then p
    else (let (result, d) = perform_transfer miter u r n p.state in book u i r result d p)

abbrev pub set_req_status : ℕ → Ret → Dummy → Dummy
set_req_status r status d = set_req r (record (d.reqs r) { status = status }) d

-- The results that a short packet leaves: `*status`, and the status of the request
unfoldable pub short_results : ℕ → ℕ → Bool → Ret × Ret
short_results host_len dev_len to_host =
    if host_len == dev_len
    then (ret 0, ret 0)
    else if to_host
    then ((if ltb host_len dev_len then err eoverflow else ret 0), ret 0)
    else (ret 0, (if ltb dev_len host_len then err eoverflow else ret 0))

unfoldable pub finish_short : ℕ → ℕ → ℕ → Bool → Round → Round
unfolding short_results
finish_short r host_len dev_len to_host p =
    let (status, req_status) = short_results host_len dev_len to_host in
    record p { status = status; state = set_req_status r req_status p.state }

-- A full packet that ends the request, unless it asks for a packet of length zero
unfoldable pub finish_req : ℕ → Bool → Round → Round
finish_req r to_host p =
    let q = p.state.reqs r in
    if q.length == q.actual
    then (if q.zero && to_host
        then record p { rescan = true }
        else record p { state = set_req_status r (ret 0) p.state })
    else p

-- A full packet that ends the URB, unless it asks for a packet of length zero
unfoldable pub finish_urb : ℕ → Bool → Round → Round
finish_urb u to_host p =
    let x = p.state.urbs u in
    if x.transfer_buffer_length == x.actual_length
    then (if x.zero_packet && not to_host
        then record p { rescan = true }
        else record p { status = ret 0 })
    else p

-- Completion on the device's side
unfoldable pub complete_req : Env → ℕ → ℕ → Round → Round
unfolding giveback
complete_req env i r p =
    let d = p.state in
    if is_inprogress (d.reqs r).status then p else record p {
      rescan = true;
      state = giveback env i r (
          set_req r (record (d.reqs r) { linked = false })
            (set_ep i (record (d.ep i) { queue = remove r (d.ep i).queue }) d));
    }

-- How the body of the loop over the requests ends: `break`, the next request, `goto top`, or a
-- division by zero
pub data Turn : Type 0 where
  stop next top : Round → Turn
  fault : Turn

abbrev pub turn : Round → Turn
turn p = if not (is_inprogress p.status) then stop p else if p.rescan then top p else next p

unfoldable pub send_packets : Env → SgMiter → ℕ → ℕ → ℕ → ℕ → Bool → Round → Round
unfolding carry finish_short finish_req finish_urb complete_req
send_packets env miter u i r n short p =
    let x = p.state.urbs u in
    let q = p.state.reqs r in
    let host_len = sub32 x.transfer_buffer_length x.actual_length in
    let dev_len = sub32 q.length q.actual in
    let p' = carry miter u i r n p in
    complete_req env i r (
      if short
      then finish_short r host_len dev_len x.dir_in p'
      else finish_urb u x.dir_in (finish_req r x.dir_in p'))

-- What is done about the packets that were chosen
unfoldable pub act : Env → SgMiter → ℕ → ℕ → ℕ → Round → Packets → Turn
unfolding send_packets
act env miter u i r p wait = stop p
act env miter u i r p trap = fault
act env miter u i r p (send n short rescan) =
    turn (send_packets env miter u i r n short (record p { rescan = rescan }))

-- `len = min(host_len, dev_len)`
unfoldable pub left : ℕ → ℕ → Round → ℕ
unfolding sub32
left u r p =
    let x = p.state.urbs u in
    let q = p.state.reqs r in
    min (sub32 x.transfer_buffer_length x.actual_length) (sub32 q.length q.actual)

-- The body of the loop, for request `r`
unfoldable pub serve : Env → SgMiter → ℕ → ℕ → ℕ → Round → Turn
unfolding left cut act
serve env miter u i r p = act env miter u i r p (cut p.limit (p.state.ep i).maxpacket (left u r p))

-- Is the request for another stream?
abbrev pub other_stream : Side → ℕ → ℕ → Dummy → Bool
other_stream s u r d =
    ep_stream_en (hcd d s) (d.urbs u) && not ((d.urbs u).stream_id == (d.reqs r).stream_id)

abbrev pub go_on : (Round → Turn) → Turn → Turn
go_on rest (next p) = rest p
go_on rest (stop p) = stop p
go_on rest (top p) = top p
go_on rest fault = fault

-- `list_for_each_entry`: the queue does not change while the loop goes on to the next request.
unfoldable pub scan : Env → SgMiter → Side → ℕ → ℕ → List ℕ → Round → Turn
scan env miter s u i [] p = stop p
scan env miter s u i (r ∷ rs) p =
    let rest = scan env miter s u i rs in
    if other_stream s u r p.state then rest p else go_on rest (serve env miter u i r p)

-- What `transfer` comes to: it returns, it divides by zero, or the fuel is used up.
pub data Transferred : Type 0 where
  done : Round → Transferred
  trapped out_of_fuel : Transferred

-- After `goto top` the transfer is done again.
abbrev pub after_scan : (Round → Transferred) → Turn → Transferred
after_scan again (stop p) = done p
after_scan again (next p) = done p
after_scan again (top p) = again p
after_scan again fault = trapped

unfoldable pub transfer_loop : Env → SgMiter → Side → ℕ → ℕ → ℕ → Round → Transferred
transfer_loop env miter s u i zero p = out_of_fuel
transfer_loop env miter s u i (suc fuel) p =
    after_scan (transfer_loop env miter s u i fuel) (scan env miter s u i (p.state.ep i).queue p)

-- A `goto top` follows a byte that passed, so the bytes that are left, and one more, are fuel enough.
unfoldable pub transfer : Env → SgMiter → Side → ℕ → ℕ → ℕ → Dummy → Transferred
unfolding sub32
transfer env miter s u i limit d =
    let x = d.urbs u in
    transfer_loop env miter s u i (sub32 x.transfer_buffer_length x.actual_length + 1)
      (record { limit = limit; sent = 0; status = err einprogress; rescan = false; state = d })

-- The bytes that a periodic endpoint may pass in a frame. `none` is a NULL descriptor that is read;
-- `usb_endpoint_type` and `usb_endpoint_maxp_mult` are fields of the descriptor.
abbrev super_bytes : TransferType → ℕ → ℕ
super_bytes isoc limit = 3 * 16 * 1024 * 8
super_bytes interrupt limit = 3 * 1024 * 8
super_bytes _ limit = limit

unfoldable pub periodic_bytes : Speed → Ep → Option ℕ
periodic_bytes high e =
    Option.map (λ (desc : Descriptor). e.maxpacket + e.maxpacket * (desc.maxp_mult * 8)) e.desc
periodic_bytes super e =
    Option.map (λ (desc : Descriptor). super_bytes desc.transfer_type e.maxpacket) e.desc
periodic_bytes _ e = some e.maxpacket
