-- ===== src/Usbtest/Halt/Cleared.antt =====
-- `test_halt` does not leave an endpoint halted.
use mathlib.Core.Path.{subst}
use fuzzusb.Base.{
  ℕ, ◌≡◌, refl, inl, sym, ◌∙◌, Bool, true, false, Option, List, pick, if◌then◌else◌, ◌==◌,
}
use fuzzusb.Usb.{Ret, ret, err, einval}
use fuzzusb.Usbtest.Io.{
  TestUrb, Answer, refused, completed, killed, Device, is_zero, Rounds, undefined, ended,
}
use fuzzusb.Usbtest.Io.Lengths.{Good, Answers, EndsWith, Enough, simple_io-EndsWith}
use fuzzusb.Usbtest.Halt.{
  is_epipe, expect, finished, if_ok, one, with_status, verify_not_halted, verify_halted, after_call,
  after_halted, test_halt,
}

-- Whether a call succeeded
abbrev succeeds : Ret → Bool
succeeds (ret n) = true
succeeds (err e) = false

-- The device with a note of whether the test has halted an endpoint and not yet asked to clear that
abbrev pub noting : {W : Type 0} → Device W → Device (W × Bool)
noting device = record {
  submit = λ u x. let (a, w) = device.submit u x.0 in (a, (w, x.1));
  get_std_status = λ ep x. let (s, w) = device.get_std_status ep x.0 in (s, (w, x.1));
  set_halt =
      λ ep x. let (r, w) = device.set_halt ep x.0 in (r, (w, if succeeds r then true else x.1));
  clear_halt = λ x. let (r, w) = device.clear_halt x.0 in (r, (w, false));
}

-- The host core transfers no more than was asked for.
abbrev pub Fair : {W : Type 0} → Device W → Type 0
Fair {W} device =
    (m : ℕ) (v : TestUrb) (w : W) → Good m v → Answers (λ x. Unit {0}) v (device.submit v w)

module _ {W : Type 0} (device : Device W) (fair : Fair device) (pattern : ℕ)
    (host_data : Option (List ℕ)) (max : ℕ) (enough : Enough max host_data) where
  abbrev D : Device (W × Bool)
  D = noting device

  abbrev Ready : TestUrb → Type 0
  Ready v = Good max v × (v.transfer_buffer_length ≡ max)

  abbrev K : Bool → Rounds (W × Bool) → Type 0
  K b = EndsWith (λ (x : W × Bool). x.1 ≡ b) Ready

  -- The same of what comes next
  abbrev Next : Bool → (TestUrb → W × Bool → Rounds (W × Bool)) → Bool → Type 0
  Next b next c = (u : TestUrb) (x : W × Bool) → Ready u → x.1 ≡ b → K c (next u x)

  noted :
      (b : Bool) (v : TestUrb) (a : Answer × W) (note : Bool)
      → Answers (λ x. Unit {0}) v a
      → note ≡ b
      → Answers (λ (x : W × Bool). x.1 ≡ b) v (a.0, (a.1, note))
  noted b v (refused e, w) note h p = p
  noted b v (completed s n bytes, w) note h p = (h.0, h.1, p)
  noted b v (killed s n bytes, w) note h p = (h.0, h.1, p)

  one-K : (b : Bool) → Next b (one D pattern host_data) b
  one-K b u x r p =
      let len = sym r.1 in
      subst
        (λ m.
          EndsWith (λ (y : W × Bool). y.1 ≡ b) (λ v. Good m v × (v.transfer_buffer_length ≡ m))
            (one D pattern host_data u x))
        r.1
        (simple_io-EndsWith D pattern host_data 1 0 u x (λ (y : W × Bool). y.1 ≡ b)
          (λ v y g q. noted b v (device.submit v y.0) y.1 (fair u.transfer_buffer_length v y.0 g) q)
          (subst (λ m. Enough m host_data) len enough) (inl refl) (subst (λ m. Good m u) len r.0) p)

  expect-K :
      (b : Bool) (ok : Ret → Bool) (next : TestUrb → W × Bool → Rounds (W × Bool))
      (r : Rounds (W × Bool))
      → Next b next b
      → K b r
      → K b (expect ok next r)
  expect-K b ok next undefined n k = k
  expect-K b ok next (ended r s) n k =
      pick (K b) (ok r) (next s.urb s.world) (ended (err einval) s) (λ _. n s.urb s.world k.1 k.0)
        (λ _. k)

  finished-K : (b : Bool) → Next b finished b
  finished-K b u x r p = (p, r)

  with_status-K :
      (b : Bool) (expected : ℕ) (next : TestUrb → W × Bool → Rounds (W × Bool)) (u : TestUrb)
      (a : (Ret × ℕ) × (W × Bool))
      → Next b next b
      → Ready u
      → a.1.1 ≡ b
      → K b (with_status D pattern host_data expected next u a)
  with_status-K b expected next u ((err e, status), x) n r p = (p, r)
  with_status-K b expected next u ((ret k, status), x) n r p =
      pick (K b) (status == expected) (next u x)
        (ended (err einval) (record { urb = u; world = x })) (λ _. n u x r p) (λ _. (p, r))

  verify_not_halted-K : (b : Bool) (ep : ℕ) → Next b (verify_not_halted D pattern host_data ep) b
  unfolding verify_not_halted
  verify_not_halted-K b ep u x r p =
      with_status-K b 0 (λ u' x'. expect is_zero finished (one D pattern host_data u' x')) u
        (D.get_std_status ep x)
        (λ u' x' r' p'.
          expect-K b is_zero finished (one D pattern host_data u' x') (finished-K b)
            (one-K b u' x' r' p'))
        r p

  verify_halted-K : (b : Bool) (ep : ℕ) → Next b (verify_halted D pattern host_data ep) b
  unfolding verify_halted
  verify_halted-K b ep u x r p =
      let again = λ (u' : TestUrb) (x' : W × Bool).
        expect is_epipe finished (one D pattern host_data u' x') in
      with_status-K b 1 (λ u' x'. expect is_epipe again (one D pattern host_data u' x')) u
        (D.get_std_status ep x)
        (λ u' x' r' p'.
          expect-K b is_epipe again (one D pattern host_data u' x')
            (λ u'' x'' r'' p''.
              expect-K b is_epipe finished (one D pattern host_data u'' x'') (finished-K b)
                (one-K b u'' x'' r'' p''))
            (one-K b u' x' r' p'))
        r p

  if_ok-K :
      (b : Bool) (next : TestUrb → W × Bool → Rounds (W × Bool)) (r : Rounds (W × Bool))
      → Next b next b
      → K b r
      → K b (if_ok next r)
  if_ok-K b next undefined n k = k
  if_ok-K b next (ended (ret m) s) n k = n s.urb s.world k.1 k.0
  if_ok-K b next (ended (err e) s) n k = k

  after_call-K :
      (b c : Bool) (next : TestUrb → W × Bool → Rounds (W × Bool)) (u : TestUrb)
      (a : Ret × (W × Bool))
      → Next b next c
      → Ready u
      → (a.1.1 ≡ b) × (b ≡ c)
      → K c (after_call next u a)
  after_call-K b c next u (err e, x) n r p = (p.0 ∙ p.1, r)
  after_call-K b c next u (ret m, x) n r p = n u x r p.0

  -- After a call that sets the halt
  after_set-K :
      (next : TestUrb → W × Bool → Rounds (W × Bool)) (u : TestUrb) (a : Ret × W) (note : Bool)
      → Next true next false
      → Ready u
      → note ≡ false
      → K false (after_call next u (a.0, (a.1, if succeeds a.0 then true else note)))
  after_set-K next u (err e, w) note n r p = (p, r)
  after_set-K next u (ret m, w) note n r p = n u (w, true) r refl

  after_halted-K :
      (next : TestUrb → W × Bool → Rounds (W × Bool)) (r : Rounds (W × Bool))
      → Next false next false
      → K true r
      → K false (after_halted D pattern host_data next r)
  after_halted-K next undefined n k = k
  after_halted-K next (ended (err e) s) n k = (refl, k.1)
  after_halted-K next (ended (ret m) s) n k =
      after_call-K false false next s.urb (D.clear_halt s.world) n k.1 (refl, refl)

  test_halt-K : (ep : ℕ) → Next false (test_halt D pattern host_data ep) false
  unfolding test_halt
  test_halt-K ep u x r p =
      let last = λ (u' : TestUrb) (x' : W × Bool).
        if_ok finished (verify_not_halted D pattern host_data ep u' x') in
      let halted = λ (u' : TestUrb) (x' : W × Bool).
        after_halted D pattern host_data last (verify_halted D pattern host_data ep u' x') in
      if_ok-K false (λ u' x'. after_call halted u' (D.set_halt ep x'))
        (verify_not_halted D pattern host_data ep u x)
        (λ u' x' r' p'.
          after_set-K halted u' (device.set_halt ep x'.0) x'.1
            (λ u2 x2 r2 p2.
              after_halted-K last (verify_halted D pattern host_data ep u2 x2)
                (λ u3 x3 r3 p3.
                  if_ok-K false finished (verify_not_halted D pattern host_data ep u3 x3)
                    (finished-K false) (verify_not_halted-K false ep u3 x3 r3 p3))
                (verify_halted-K true ep u2 x2 r2 p2))
            r' p')
        (verify_not_halted-K false ep u x r p)

-- The halt test of an endpoint is defined and returns, and when it returns, an endpoint that it has
-- halted with success has been asked to clear the halt again, on every branch; the URB has its
-- length as before. The URB has room for its bytes, at least one, its packet size is positive, the
-- data of the fuzzer is long enough, and the host core transfers no more than was asked for.
pub test_halt-cleared :
    {W : Type 0} (device : Device W) (pattern : ℕ) (host_data : Option (List ℕ)) (ep : ℕ)
    (u : TestUrb) (w : W)
    → Fair device
    → Enough u.transfer_buffer_length host_data
    → Good u.transfer_buffer_length u
    → EndsWith
        (λ (x : W × Bool). x.1 ≡ false)
        (λ v. v.transfer_buffer_length ≡ u.transfer_buffer_length)
        (test_halt (noting device) pattern host_data ep u (w, false))
test_halt-cleared {W} device pattern host_data ep u w fair enough g =
    ready (test_halt (noting device) pattern host_data ep u (w, false)) (
      test_halt-K device fair pattern host_data u.transfer_buffer_length enough ep u (w, false)
        (g, refl) refl)
  where
    ready :
        (r : Rounds (W × Bool))
        → EndsWith
            (λ (x : W × Bool). x.1 ≡ false)
            (λ v.
              Good u.transfer_buffer_length v
              × (v.transfer_buffer_length ≡ u.transfer_buffer_length))
            r
        → EndsWith
            (λ (x : W × Bool). x.1 ≡ false)
            (λ v. v.transfer_buffer_length ≡ u.transfer_buffer_length)
            r
    ready undefined h = h
    ready (ended r s) h = (h.0, h.1.1)
