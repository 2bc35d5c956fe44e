-- ===== src/Vusb/Respond/Within.antt =====
-- The transfers on endpoint 0 stay within the response and the request.
use mathlib.Core.Path.{subst}
use fuzzusb.Base.{
  ℕ, zero, suc, ◌+◌, ◌≤◌, ◌<◌, min, ◌≡◌, refl, ◌⊎◌, inl, inr, not, ◌||◌, Option, none, some, List,
  [], ◌∷◌, length, arith, pick, Bool-cases, sym, ltb, ◌==◌, if◌then◌else◌, ◌%◌,
}
use fuzzusb.Dummy.{Setup}
use fuzzusb.Vusb.{EpDesc, IfaceIndex}
use fuzzusb.Vusb.Devices.{
  after_configure, after_vbus_draw, configure_in, configure_device, Source, Call, ep_disable,
  ep_enable, vbus_draw, configure, ep0_write, ep0_read, Rv, success, minus, Raw, Devices, call,
  lookup_usb_index, lookup_interface, iface_at, disable_eps, enable_eps, leave, current, enter,
  set_in, set_interface,
}
use fuzzusb.Vusb.Reply.{
  dir_in, type_of, ConnectDescs, Reply, absent, fails, wild, reply, Entries,
  lookup_control_response, lookup_connect_response,
}
use fuzzusb.Vusb.Respond.{
  control, Ended, returns, exits, corrupts, goes_on, cut_to, unless_failed, transfers,
  connect_reply, wants_data, control_reply, go_to, control_out, read_length, usb_control_io,
  connect_event, after_configure_device,
}

-- `n` bytes go out for a response of `m` bytes to a request of `w`: what both allow, or none at all
-- if the response does not fit the buffer.
abbrev pub Carries : ℕ → ℕ → ℕ → Type 0
Carries n m w = (m ≤ 1024) × (n ≡ min m w) ⊎ (1024 < m) × (n ≡ 0)

-- A call that carries the response to a request, or data from the host
abbrev pub Within : Setup → Reply → Call → Type 0
Within c r (ep0_write fd s n) = (n ≤ 1024) × ((m : ℕ) × (r ≡ reply s m) × Carries n m c.length)
Within c r (ep0_read fd n) = n ≤ 1024
Within c r (ep_disable fd n) = Unit {0}
Within c r (ep_enable fd n) = Unit {0}
Within c r (vbus_draw fd n) = Unit {0}
Within c r (configure fd) = Unit {0}

abbrev pub AllWithin : Setup → Reply → List Call → Type 0
AllWithin c r [] = Unit {0}
AllWithin c r (x ∷ xs) = Within c r x × AllWithin c r xs

abbrev pub calls_of : Ended → List Call
calls_of (returns v d) = d.calls
calls_of (exits d) = d.calls
calls_of (corrupts d) = d.calls
calls_of (goes_on d) = d.calls

cut_to-Carries : (w m : ℕ) → Carries (cut_to w m) m w
cut_to-Carries w m = elim (Bool-cases (ltb 1024 m)) [
  | inl e ↦ inr (ground arith, ground arith)
  | inr e ↦ inl (ground arith, ground arith)
]

cut_to-le : (w m : ℕ) → cut_to w m ≤ 1024
cut_to-le w m = ground arith

module _ (c : Setup) (r : Reply) where
  abbrev A : List Call → Type 0
  A = AllWithin c r

  disable_eps-Within : (n ep fd : ℕ) (d : Devices) → A d.calls → A (disable_eps n ep fd d).calls
  unfolding disable_eps
  disable_eps-Within zero ep fd d h = h
  disable_eps-Within (suc n) ep fd d h =
      disable_eps-Within n (ep + 1) fd (call (ep_disable fd ep) d) (tt, h)

  enable_eps-Within :
      (es : List EpDesc) (fd : ℕ) (d : Devices) → A d.calls → A (enable_eps es fd d).calls
  unfolding enable_eps
  enable_eps-Within [] fd d h = h
  enable_eps-Within (e ∷ es) fd d h = enable_eps-Within es fd (call (ep_enable fd e) d) (tt, h)

  leave-Within : (o : Option IfaceIndex) (fd : ℕ) (d : Devices) → A d.calls → A (leave o fd d).calls
  leave-Within none fd d h = h
  leave-Within (some f) fd d h = disable_eps-Within (length f.eps) 0 fd d h

  enter-Within :
      (o : Option IfaceIndex) (i n fd : ℕ) (d : Devices) → A d.calls → A (enter o i n fd d).calls
  enter-Within none i n fd d h = h
  enter-Within (some f) i n fd d h = enable_eps-Within f.eps fd d h

  set_in-Within : (o : Option ℕ) (fd n : ℕ) (d : Devices) → A d.calls → A (set_in o fd n d).calls
  set_in-Within none fd n d h = h
  set_in-Within (some i) fd n d h =
      enter-Within (iface_at (d.index i).ifaces n) i n fd (leave (current (d.index i)) fd d)
        (leave-Within (current (d.index i)) fd d h)

  go_to-Within : (o : Option ℕ) (fd : ℕ) (d : Devices) → A d.calls → A (go_to o fd d).calls
  unfolding set_interface
  go_to-Within none fd d h = h
  go_to-Within (some n) fd d h = set_in-Within (lookup_usb_index fd d) fd n d h

  control_out-Within : (fd : ℕ) (d : Devices) → A d.calls → A (control_out fd c d).calls
  control_out-Within fd d h =
      let o = lookup_interface fd (c.index % 256) (c.value % 256) d in
      pick (λ (d' : Devices). A d'.calls) (type_of c == 0 || c.request == 11) (go_to o fd d) d
        (λ _. go_to-Within o fd d h) (λ _. h)

  unless_failed-Within :
      (v : Rv) (next : Ended) (d : Devices)
      → A d.calls
      → A (calls_of next)
      → A (calls_of (unless_failed v next d))
  unless_failed-Within success next d h g = g
  unless_failed-Within (minus e) next d h g = h

  write-Within :
      (raw : Raw) (next : Devices → Ended) (fd : ℕ) (d : Devices) (s : Source) (m : ℕ)
      → ((d' : Devices) → calls_of (next d') ≡ d'.calls)
      → r ≡ reply s m
      → A d.calls
      → A (calls_of (transfers raw (ep0_write fd s (cut_to c.length m)) next d))
  write-Within raw next fd d s m same e h =
      let x = ep0_write fd s (cut_to c.length m) in
      let g : A (call x d).calls = ((cut_to-le c.length m, (m, e, cut_to-Carries c.length m)), h) in
      unless_failed-Within (raw x) (next (call x d)) (call x d) g
        (subst A (sym (same (call x d))) g)

  control_reply-Within :
      (raw : Raw) (fd : ℕ) (r' : Reply) (d : Devices)
      → r ≡ r'
      → A d.calls
      → A (calls_of (control_reply raw fd c r' d))
  control_reply-Within raw fd (reply s m) d e h =
      write-Within raw (returns success) fd d s m (λ d'. refl) e h
  control_reply-Within raw fd absent d e h = h
  control_reply-Within raw fd fails d e h = h
  control_reply-Within raw fd wild d e h = h

  after_configure-Within :
      (v : Rv) (fd : ℕ) (d : Devices) → A d.calls → A (after_configure v fd d).1.calls
  after_configure-Within (minus e) fd d h = h
  after_configure-Within success fd d h = go_to-Within (some 0) fd d h

  after_vbus_draw-Within :
      (raw : Raw) (v : Rv) (fd : ℕ) (d : Devices)
      → A d.calls
      → A (after_vbus_draw raw v fd d).1.calls
  after_vbus_draw-Within raw (minus e) fd d h = h
  after_vbus_draw-Within raw success fd d h =
      after_configure-Within (raw (configure fd)) fd (call (configure fd) d) (tt, h)

  configure_in-Within :
      (raw : Raw) (o : Option ℕ) (fd : ℕ) (d : Devices)
      → A d.calls
      → A (configure_in raw o fd d).1.calls
  configure_in-Within raw none fd d h = h
  configure_in-Within raw (some i) fd d h =
      let x = vbus_draw fd (d.index i).max_power in
      after_vbus_draw-Within raw (raw x) fd (call x d) (tt, h)

  after_configure_device-Within :
      (raw : Raw) (fd : ℕ) (v : Rv) (d : Devices)
      → A d.calls
      → A (calls_of (after_configure_device raw fd c (v, d)))
  after_configure_device-Within raw fd (minus e) d h = h
  after_configure_device-Within raw fd success d h =
      let x = ep0_read fd (cut_to c.length 0) in
      let g : A (call x d).calls = (cut_to-le c.length 0, h) in
      unless_failed-Within (raw x) (returns success (call x d)) (call x d) g g

  connect_reply-Within :
      (raw : Raw) (fd : ℕ) (r' : Reply) (d : Devices)
      → r ≡ r'
      → A d.calls
      → A (calls_of (connect_reply raw fd c r' d))
  connect_reply-Within raw fd (reply s m) d e h = write-Within raw goes_on fd d s m (λ d'. refl) e h
  connect_reply-Within raw fd absent d e h = h
  connect_reply-Within raw fd fails d e h = h
  connect_reply-Within raw fd wild d e h = h

read_length-le : (c : Setup) → read_length c ≤ 1024
read_length-le c = ground arith

-- For a control request, `syz_usb_control_io` writes at most 1024 bytes to endpoint 0, and only of
-- the response that it has found: as many as the response and the request have both, or none if
-- the response does not fit the buffer; and it reads at most 1024 bytes. Calls made before keep this.
pub usb_control_io-Within :
    (raw : Raw) (fd : ℕ) (descs resps : Option Entries) (c : Setup) (d : Devices)
    → AllWithin c (lookup_control_response descs resps c) d.calls
    → AllWithin c
        (lookup_control_response descs resps c)
        (calls_of (usb_control_io raw fd descs resps (control c) d))
unfolding usb_control_io
usb_control_io-Within raw fd descs resps c d h =
    let r = lookup_control_response descs resps c in
    let d' = control_out fd c d in
    let x = ep0_read fd (read_length c) in
    let g : AllWithin c r (call x d').calls = (read_length-le c, control_out-Within c r fd d h) in
    pick (λ (e : Ended). AllWithin c r (calls_of e)) (wants_data c) (control_reply raw fd c r d)
      (transfers raw x (returns success) d') (λ _. control_reply-Within c r raw fd r d refl h)
      (λ _. unless_failed-Within c r (raw x) (returns success (call x d')) (call x d') g g)

-- The same holds of each control request that `syz_usb_connect` takes.
pub connect_event-Within :
    (raw : Raw) (fd : ℕ) (descs : Option ConnectDescs) (c : Setup) (d : Devices)
    → AllWithin c (lookup_connect_response fd descs c d) d.calls
    → AllWithin c
        (lookup_connect_response fd descs c d)
        (calls_of (connect_event raw fd descs (control c) d))
unfolding connect_event configure_device
connect_event-Within raw fd descs c d h =
    let r = lookup_connect_response fd descs c d in
    let P = λ (e : Ended). AllWithin c r (calls_of e) in
    let (v, d') = configure_device raw fd d in
    let configured = after_configure_device raw fd c (configure_device raw fd d) in
    let out = if not (type_of c == 0) || not (c.request == 9) then exits d else configured in
    pick P (dir_in c) (connect_reply raw fd c r d) out
      (λ _. connect_reply-Within c r raw fd r d refl h)
      (λ _.
        pick P (not (type_of c == 0) || not (c.request == 9)) (exits d) configured (λ _. h)
          (λ _.
            after_configure_device-Within c r raw fd v d'
              (configure_in-Within c r raw (lookup_usb_index fd d) fd d h)))
