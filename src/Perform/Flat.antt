-- ===== src/Perform/Flat.antt =====
-- The copy through a scatter list against the copy of one buffer.
use fuzzusb.Base.{
  ℕ, ◌+◌, ◌-◌, ◌≤◌, ◌<◌, ◌≡◌, refl, sym, ap, ◌∙◌, ◌≢◌, arith, ==_refl, ==-false, length,
  if◌then◌else◌,
}
use fuzzusb.Usb.{ret}
use fuzzusb.Dummy.{Dummy}
use fuzzusb.Dummy.Access.{set_urb}
use fuzzusb.Perform.{SgMiter, memcpy, move, pass, sg_loop, start_miter, perform_transfer}
use fuzzusb.Perform.Pieces.{pass_same, pass_bytes, sum, sg_loop_lem}

-- The kernel's iterator maps every byte of the scatter list of `u`, which has `size` bytes: the
-- pieces from a position on add up to what is left from there.
abbrev pub Covers : SgMiter → ℕ → ℕ → Type 0
Covers miter u size = (pos : ℕ) → sum (miter u pos) ≡ size - pos

-- The same URB with its buffer in one piece
abbrev pub flat : ℕ → Dummy → Dummy
flat u d = set_urb u (record (d.urbs u) { num_sgs = 0 }) d

start_same :
    (u r : ℕ) (d : Dummy)
    → let s = start_miter u d in
      ((s.urbs u).dir_in ≡ (d.urbs u).dir_in)
      × ((s.urbs u).transfer_buffer ≡ (d.urbs u).transfer_buffer)
      × (s.reqs r ≡ d.reqs r)
start_same u r d = (ground arith, ground arith, ground arith)

perform_transfer-scattered :
    (miter : SgMiter) (u r len : ℕ) (d : Dummy)
    → (d.urbs u).num_sgs ≢ 0
    → perform_transfer miter u r len d
      ≡ sg_loop u r
          (miter u ((start_miter u d).urbs u).sg_pos)
          ((start_miter u d).reqs r).actual
          len
          0
          (start_miter u d)
unfolding perform_transfer
perform_transfer-scattered miter u r len d h = rw (==-false (d.urbs u).num_sgs 0 h) refl

perform_transfer-flat_eq :
    (miter : SgMiter) (u r len : ℕ) (d : Dummy)
    → perform_transfer miter u r len (flat u d)
      ≡ (ret len, move u (d.urbs u).actual_length r (d.reqs r).actual len (flat u d))
unfolding perform_transfer
perform_transfer-flat_eq miter u r len d = rw (==_refl u) refl

move_bytes :
    (u upos r rpos n : ℕ) (d : Dummy)
    → let d' = move u upos r rpos n d in
      ((d'.urbs u).transfer_buffer ≡ (
        if (d.urbs u).dir_in
        then memcpy (d.urbs u).transfer_buffer upos (d.reqs r).buf rpos n
        else (d.urbs u).transfer_buffer))
      × ((d'.reqs r).buf ≡ (
          if (d.urbs u).dir_in
          then (d.reqs r).buf
          else memcpy (d.reqs r).buf rpos (d.urbs u).transfer_buffer upos n))
unfolding move
move_bytes u upos r rpos n d = (ground arith, ground arith)

bytes_agree :
    (u r upos n : ℕ) (s d : Dummy)
    → (s.urbs u).dir_in ≡ (d.urbs u).dir_in
    → (s.urbs u).transfer_buffer ≡ (d.urbs u).transfer_buffer
    → s.reqs r ≡ d.reqs r
    → (s.urbs u).sg_pos ≡ upos
    → let a = pass u r (s.reqs r).actual n s in
      let b = move u upos r (d.reqs r).actual n (flat u d) in
      ((a.urbs u).transfer_buffer ≡ (b.urbs u).transfer_buffer) × ((a.reqs r).buf ≡ (b.reqs r).buf)
bytes_agree u r upos n s d dir buffer reqs pos =
    let p = pass_bytes u r (s.reqs r).actual n s in
    let m = move_bytes u upos r (d.reqs r).actual n (flat u d) in
    (
      p.0 ∙ rw (dir, buffer, reqs, pos) (sym (m.0 ∙ rw (==_refl u) refl)),
      p.1 ∙ rw (dir, buffer, reqs, pos) (sym (m.1 ∙ rw (==_refl u) refl)),
    )

-- A transfer through a scatter list that has room, from where the URB stands, succeeds, leaves the
-- bytes of both buffers as the copy of an URB in one piece does, and leaves the iterator behind
-- the bytes that passed.
pub perform_transfer-flat :
    (miter : SgMiter) (u r len : ℕ) (d : Dummy)
    → Covers miter u (d.urbs u).transfer_buffer_length
    → (d.urbs u).num_sgs ≢ 0
    → 0 < len
    → (d.urbs u).actual_length + len ≤ (d.urbs u).transfer_buffer_length
    → (d.urbs u).transfer_buffer_length ≤ length (d.urbs u).transfer_buffer
    → (d.reqs r).actual + len ≤ length (d.reqs r).buf
    → ((start_miter u d).urbs u).sg_pos ≡ (d.urbs u).actual_length
    → let (result, d') = perform_transfer miter u r len d in
      let (result', e) = perform_transfer miter u r len (flat u d) in
      (result ≡ ret len)
      × (result' ≡ ret len)
      × ((d'.urbs u).transfer_buffer ≡ (e.urbs u).transfer_buffer)
      × ((d'.reqs r).buf ≡ (e.reqs r).buf)
      × ((d'.urbs u).sg_pos ≡ (d.urbs u).actual_length + len)
perform_transfer-flat miter u r len d covers scattered pos room memory source at =
    let s = start_miter u d in
    let same = start_same u r d in
    let all =
      sg_loop_lem u r (miter u (s.urbs u).sg_pos) (s.reqs r).actual len 0 s pos
        (ground (arith, covers (s.urbs u).sg_pos)) (ground arith) in
    rw
      (
        perform_transfer-scattered miter u r len d scattered,
        all,
        perform_transfer-flat_eq miter u r len d,
      )
      (let b = bytes_agree u r (d.urbs u).actual_length len s d same.0 same.1 same.2 at in
        (
          ap ret (omega arith),
          refl,
          b.0,
          b.1,
          (pass_same u r (s.reqs r).actual len s).2 ∙ rw at refl,
        ))
