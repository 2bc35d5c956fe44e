-- ===== src/Perform/Pieces.antt =====
-- The pieces of a scatter list, copied one behind the other.
use fuzzusb.Base.{
  ℕ, ◌+◌, ◌-◌, ◌≤◌, ◌<◌, ◌≡◌, refl, ap, inl, inr, List, [], ◌∷◌, arith, min, ==_refl, update,
  update-update, update_same, Bool-cases, length, take, drop, splice, splice-splice, take-add,
  drop-add, length-take, length-drop, if◌then◌else◌, leb,
}
use fuzzusb.Usb.{ret}
use fuzzusb.Dummy.{Dummy, Urb, Request}
use fuzzusb.Perform.{memcpy, move, advance, pass, sg_loop}

-- Two copies, one behind the other, are one copy.
memcpy-memcpy :
    (dst : List ℕ) (at : ℕ) (src : List ℕ) (from k m : ℕ)
    → from + k ≤ length src
    → memcpy (memcpy dst at src from k) (at + k) src (from + k) m ≡ memcpy dst at src from (k + m)
unfolding memcpy
memcpy-memcpy dst at src from k m h =
    rw (take-add k m (drop from src), drop-add from k src)
      (rw (← splice-splice dst at (take k (drop from src)) (take m (drop (from + k) src))) (
        ap
          (λ n.
            splice (splice dst at (take k (drop from src))) (at + n) (take m (drop (from + k) src)))
          (omega (arith, length-take k (drop from src), length-drop from src))))

-- An URB and a request are written.
abbrev pub put : ℕ → Urb → ℕ → Request → Dummy → Dummy
put u x r q d = record d { urbs = update d.urbs u x; reqs = update d.reqs r q }

put-put :
    (u r : ℕ) (x y : Urb) (q t : Request) (d : Dummy) → put u y r t (put u x r q d) ≡ put u y r t d
put-put u r x y q t d i = record d {
  urbs = update-update d.urbs u x y i;
  reqs = update-update d.reqs r q t i;
}

-- The bytes that `move` reads
abbrev pub source_length : ℕ → ℕ → Dummy → ℕ
source_length u r d =
    if (d.urbs u).dir_in then length (d.reqs r).buf else length (d.urbs u).transfer_buffer

abbrev pub source_pos : ℕ → ℕ → ℕ → Dummy → ℕ
source_pos u upos rpos d = if (d.urbs u).dir_in then rpos else upos

-- The URB and the request after `n` bytes
pub new_urb : ℕ → ℕ → ℕ → Urb → Request → Urb
new_urb upos rpos n x q = record x {
  transfer_buffer =
      if x.dir_in then memcpy x.transfer_buffer upos q.buf rpos n else x.transfer_buffer;
  sg_pos = x.sg_pos + n;
}

pub new_req : ℕ → ℕ → ℕ → Urb → Request → Request
new_req upos rpos n x q = record q {
  buf = if x.dir_in then q.buf else memcpy q.buf rpos x.transfer_buffer upos n;
}

advance-move-put :
    (u upos r rpos n : ℕ) (d : Dummy)
    → advance u n (move u upos r rpos n d)
      ≡ put u
          (new_urb upos rpos n (d.urbs u) (d.reqs r))
          r
          (new_req upos rpos n (d.urbs u) (d.reqs r))
          d
unfolding move new_urb new_req
advance-move-put u upos r rpos n d = elim (Bool-cases (d.urbs u).dir_in) [
  | inl e ↦ rw (e, ==_refl u, update_same d.reqs r, update-update) refl
  | inr e ↦ ground arith
]

sg_pos-new_urb :
    (upos rpos k : ℕ) (x : Urb) (q : Request) → (new_urb upos rpos k x q).sg_pos ≡ x.sg_pos + k
unfolding new_urb
sg_pos-new_urb upos rpos k x q = refl

-- A piece, and then the rest of the bytes
new_urb-new_urb :
    (upos rpos k m : ℕ) (x : Urb) (q : Request)
    → (if x.dir_in then rpos else upos) + k
      ≤ (if x.dir_in then length q.buf else length x.transfer_buffer)
    → (new_urb (upos + k) (rpos + k) m (new_urb upos rpos k x q) (new_req upos rpos k x q)
        ≡ new_urb upos rpos (k + m) x q)
      × (new_req (upos + k) (rpos + k) m (new_urb upos rpos k x q) (new_req upos rpos k x q)
          ≡ new_req upos rpos (k + m) x q)
unfolding new_urb new_req
new_urb-new_urb upos rpos k m x q h = elim (Bool-cases x.dir_in) [
  | inl e ↦ (ground (arith, memcpy-memcpy x.transfer_buffer upos q.buf rpos k m), ground arith)
  | inr e ↦ (ground arith, ground (arith, memcpy-memcpy q.buf rpos x.transfer_buffer upos k m))
]

pub pass-put :
    (u r rpos n : ℕ) (d : Dummy)
    → pass u r rpos n d
      ≡ put u
          (new_urb (d.urbs u).sg_pos rpos n (d.urbs u) (d.reqs r))
          r
          (new_req (d.urbs u).sg_pos rpos n (d.urbs u) (d.reqs r))
          d
unfolding pass
pass-put u r rpos n d = advance-move-put u (d.urbs u).sg_pos r rpos n d

pass-pass :
    (u r rpos k m : ℕ) (d : Dummy)
    → source_pos u (d.urbs u).sg_pos rpos d + k ≤ source_length u r d
    → pass u r (rpos + k) m (pass u r rpos k d) ≡ pass u r rpos (k + m) d
unfolding new_urb new_req
pass-pass u r rpos k m d h = rw (pass-put u r rpos k d) (
    rw
      (pass-put u r (rpos + k) m (
        put u (new_urb (d.urbs u).sg_pos rpos k (d.urbs u) (d.reqs r)) r
          (new_req (d.urbs u).sg_pos rpos k (d.urbs u) (d.reqs r)) d))
      (rw (pass-put u r rpos (k + m) d, ==_refl u, ==_refl r, put-put)
        (let n = new_urb-new_urb (d.urbs u).sg_pos rpos k m (d.urbs u) (d.reqs r) h in
          rw (sg_pos-new_urb (d.urbs u).sg_pos rpos k (d.urbs u) (d.reqs r), n.0, n.1) refl)))

-- What a piece leaves alone
pub pass_same :
    (u r rpos k : ℕ) (d : Dummy)
    → (((pass u r rpos k d).urbs u).dir_in ≡ (d.urbs u).dir_in)
      × (source_length u r (pass u r rpos k d) ≡ source_length u r d)
      × (((pass u r rpos k d).urbs u).sg_pos ≡ (d.urbs u).sg_pos + k)
unfolding new_urb new_req
pass_same u r rpos k d =
    rw (pass-put u r rpos k d) (rw (==_refl u, ==_refl r) (refl, ground arith, refl))

abbrev pub sum : List ℕ → ℕ
sum [] = 0
sum (x ∷ xs) = x + sum xs

-- The loop over the pieces copies what one copy would.
pub sg_loop_lem :
    (u r : ℕ) (pieces : List ℕ) (rpos len trans : ℕ) (d : Dummy)
    → 0 < len
    → len ≤ sum pieces
    → source_pos u (d.urbs u).sg_pos rpos d + len ≤ source_length u r d
    → sg_loop u r pieces rpos len trans d ≡ (ret (trans + len), pass u r rpos len d)
unfolding sg_loop
sg_loop_lem u r [] rpos len trans d pos enough fits = absurd (omega arith)
sg_loop_lem u r (c ∷ cs) rpos len trans d pos enough fits = elim (Bool-cases (leb len c)) [
  | inl e ↦ (let k : min len c ≡ len = ground arith in rw k (ground arith))
  | inr e ↦
      (let k : min len c ≡ c = ground arith in
        let same = pass_same u r rpos c d in
        let ih =
          sg_loop_lem u r cs (rpos + c) (len - c) (trans + c) (pass u r rpos c d) (ground arith)
            (ground arith) (ground arith) in
        rw k (ground (arith, ih, pass-pass u r rpos c (len - c) d (ground arith))))
]

-- The bytes that a piece leaves
pub pass_bytes :
    (u r rpos n : ℕ) (d : Dummy)
    → let d' = pass u r rpos n d in
      ((d'.urbs u).transfer_buffer ≡ (
        if (d.urbs u).dir_in
        then memcpy (d.urbs u).transfer_buffer (d.urbs u).sg_pos (d.reqs r).buf rpos n
        else (d.urbs u).transfer_buffer))
      × ((d'.reqs r).buf ≡ (
          if (d.urbs u).dir_in
          then (d.reqs r).buf
          else memcpy (d.reqs r).buf rpos (d.urbs u).transfer_buffer (d.urbs u).sg_pos n))
unfolding new_urb new_req
pass_bytes u r rpos n d = rw (pass-put u r rpos n d) (rw (==_refl u, ==_refl r) (refl, refl))
