-- ===== src/Perform.antt =====
-- The copy of bytes between an URB and a request: `dummy_perform_transfer` of
-- patch/kernel/dummy_hcd.c.
pub mod Pieces
pub mod Flat
use fuzzusb.Base.{
  ℕ, zero, suc, ◌+◌, ◌-◌, ◌*◌, ◌%◌, ◌^◌, Bool, true, false, not, ◌&&◌, if◌then◌else◌, ltb, leb,
  ◌==◌, List, [], ◌∷◌, min, take, drop, splice, Option, none, some,
}
use mathlib.Core.Option
use fuzzusb.Usb.{
  Ret, ret, err, einval, eoverflow, einprogress, is_inprogress, Speed, high, super, TransferType,
  isoc, interrupt, bulk, Descriptor,
}
use fuzzusb.Dummy.{Dummy, Ep, Env, Side}
use fuzzusb.Dummy.Access.{hcd, set_ep, set_req, set_urb, remove, giveback}
use fuzzusb.Stream.{ep_stream_en}

-- `memcpy(dst + at, src + from, n)`. It writes no further than the buffer in the states that the
-- theorems are about.
unfoldable pub memcpy : List ℕ → ℕ → List ℕ → ℕ → ℕ → List ℕ
memcpy dst at src from n = splice dst at (take n (drop from src))

-- `n` bytes pass between position `upos` of the URB's buffer and position `rpos` of the request's.
unfoldable pub move : ℕ → ℕ → ℕ → ℕ → ℕ → Dummy → Dummy
unfolding memcpy
move u upos r rpos n d =
    let x = d.urbs u in
    let q = d.reqs r in
    if x.dir_in
    then set_urb u (record x { transfer_buffer = memcpy x.transfer_buffer upos q.buf rpos n }) d
    else set_req r (record q { buf = memcpy q.buf rpos x.transfer_buffer upos n }) d

-- What the kernel's mapping iterator over the scatter list of an URB yields from a position on: the
-- lengths of the pieces that `sg_miter_next` maps one after the other, up to the end of the list.
abbrev pub SgMiter : Type 0
SgMiter = ℕ → ℕ → List ℕ

abbrev pub advance : ℕ → ℕ → Dummy → Dummy
advance u n d = set_urb u (record (d.urbs u) { sg_pos = (d.urbs u).sg_pos + n }) d

-- `n` bytes pass at the position of the iterator.
unfoldable pub pass : ℕ → ℕ → ℕ → ℕ → Dummy → Dummy
unfolding move
pass u r rpos n d = advance u n (move u (d.urbs u).sg_pos r rpos n d)

-- The loop over the pieces: `len` bytes are left, `trans` have passed. `sg_miter_next` that yields
-- nothing is an error.
unfoldable pub sg_loop : ℕ → ℕ → List ℕ → ℕ → ℕ → ℕ → Dummy → Ret × Dummy
sg_loop u r [] rpos len trans d = (err einval, d)
sg_loop u r (piece ∷ pieces) rpos len trans d =
    let this_sg = min len piece in
    let d' = pass u r rpos this_sg d in
    let rest = sg_loop u r pieces (rpos + this_sg) (len - this_sg) (trans + this_sg) d' in
    if len - this_sg == 0 then (ret (trans + this_sg), d') else rest

abbrev pub start_miter : ℕ → Dummy → Dummy
start_miter u d =
    let x = d.urbs u in
    if x.miter_started then d else set_urb u (record x { miter_started = true; sg_pos = 0 }) d

unfoldable pub perform_transfer : SgMiter → ℕ → ℕ → ℕ → Dummy → Ret × Dummy
unfolding move
perform_transfer miter u r len d =
    if (d.urbs u).num_sgs == 0
    then (ret len, move u (d.urbs u).actual_length r (d.reqs r).actual len d)
    else (let d' = start_miter u d in
        sg_loop u r (miter u (d'.urbs u).sg_pos) (d'.reqs r).actual len 0 d')
