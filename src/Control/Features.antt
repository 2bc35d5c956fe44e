-- ===== src/Control/Features.antt =====
-- Features and status of the device and its endpoints.
use fuzzusb.Base.{
  ℕ, Bool, true, false, ◌&&◌, ◌||◌, some, ◌≡◌, refl, arith, ◌%◌, if◌then◌else◌, ◌==◌, [], ◌∷◌,
  Option-cases, inl, inr, raise, clear, Flags,
}
use fuzzusb.Usb.{ret}
use fuzzusb.Dummy.{Dummy, Side, hs, ss, Setup}
use fuzzusb.Dummy.Access.{hcd, is_usb3}
use fuzzusb.Endpoint.Enable.{is_ep0}
use fuzzusb.Control.{
  set_feature, clear_feature, find_endpoint, ep_request, dev_request, set_feature_stat,
  clear_feature_stat, mark_hnp,
}

-- `SET_FEATURE(ENDPOINT_HALT)` halts the endpoint, and no `CLEAR_FEATURE(ENDPOINT_HALT)` of the host
-- ends the halt of a wedged one; of an endpoint that is not wedged it does.
pub halt_feature :
    (s : Side) (setup : Setup) (d : Dummy) (i : ℕ)
    → setup.request_type ≡ ep_request
    → find_endpoint d (setup.index % 256) ≡ some i
    → is_ep0 (d.ep i) ≡ false
    → (((set_feature s setup d).0 ≡ ret 0) × (((set_feature s setup d).2.ep i).halted ≡ true))
      × (((clear_feature s setup d).0 ≡ ret 0)
          × (((clear_feature s setup d).2.ep i).halted ≡ ((d.ep i).wedged && (d.ep i).halted)))
unfolding set_feature clear_feature
halt_feature s setup d i t f e = ground arith

set_feature-device :
    (s : Side) (setup : Setup) (d : Dummy)
    → setup.request_type ≡ dev_request
    → (set_feature s setup d).0 ≡ ret 0
    → (bit : ℕ) × (set_feature_stat (is_usb3 (hcd d s).speed) setup.value ≡ some bit)
      × ((set_feature s setup d).2
          ≡ mark_hnp setup.value (record d { devstatus = raise (bit ∷ []) d.devstatus }))
unfolding set_feature
set_feature-device s setup d t e =
    elim (Option-cases (set_feature_stat (is_usb3 (hcd d s).speed) setup.value)) [
      | inl z ↦ absurd (ground arith)
      | inr (bit, z) ↦ (bit, z, ground arith)
    ]

clear_feature-device :
    (s : Side) (setup : Setup) (d : Dummy)
    → setup.request_type ≡ dev_request
    → (clear_feature s setup d).0 ≡ ret 0
    → (bit : ℕ) × (clear_feature_stat (is_usb3 (hcd d s).speed) setup.value ≡ some bit)
      × ((clear_feature s setup d).2 ≡ record d { devstatus = clear (bit ∷ []) d.devstatus })
unfolding clear_feature
clear_feature-device s setup d t e =
    elim (Option-cases (clear_feature_stat (is_usb3 (hcd d s).speed) setup.value)) [
      | inl z ↦ absurd (ground arith)
      | inr (bit, z) ↦ (bit, z, ground arith)
    ]

same_stat :
    (usb3 : Bool) (value a b : ℕ)
    → set_feature_stat usb3 value ≡ some a
    → clear_feature_stat usb3 value ≡ some b
    → a ≡ b
unfolding set_feature_stat clear_feature_stat
same_stat usb3 value a b = ground arith

hcd-marked :
    (s : Side) (v : ℕ) (w : Flags) (d : Dummy)
    → hcd (mark_hnp v (record d { devstatus = w })) s ≡ hcd d s
hcd-marked hs v w d = refl
hcd-marked ss v w d = refl

-- A device feature that is set and then cleared: if both requests succeed, then exactly one bit of
-- the device status was concerned; it is set in between and clear at the end, and every other bit is
-- as before.
pub device_feature :
    (s : Side) (setup : Setup) (d : Dummy) (i : ℕ)
    → setup.request_type ≡ dev_request
    → (set_feature s setup d).0 ≡ ret 0
    → (clear_feature s setup (set_feature s setup d).2).0 ≡ ret 0
    → (bit : ℕ) × (set_feature_stat (is_usb3 (hcd d s).speed) setup.value ≡ some bit)
      × ((set_feature s setup d).2.devstatus i ≡ (i == bit || d.devstatus i))
      × ((clear_feature s setup (set_feature s setup d).2).2.devstatus i
          ≡ (if i == bit then false else d.devstatus i))
device_feature s setup d i t e f =
    let (bit, stat, after) = set_feature-device s setup d t e in
    let marked : Dummy =
      mark_hnp setup.value (record d { devstatus = raise (bit ∷ []) d.devstatus }) in
    let (bit', stat', after') = clear_feature-device s setup marked t (rw after at f) in
    let same : bit ≡ bit' =
      same_stat (is_usb3 (hcd d s).speed) setup.value bit bit' stat
        (rw (hcd-marked s setup.value (raise (bit ∷ []) d.devstatus) d) at stat') in
    (bit, stat, rw after (ground arith), rw (after, after') (ground (arith, same)))
