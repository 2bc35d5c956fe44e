-- ===== src/Link/Silent.antt =====
-- A settled port: a second `set_link_state` has nothing to report.
use fuzzusb.Base.{Bool-cases, inl, inr, sym, true, false, ◌&&◌, ◌≡◌, refl, ◌∙◌, arith, ap}
use fuzzusb.Usb.Port
use fuzzusb.Dummy.{Dummy, Hcd, Env, Side, hs, ss}
use fuzzusb.Dummy.Access.{hcd, set_hcd, is_usb3}
use fuzzusb.Link.{set_link_state, wrong_bus, refresh, report, power_bit, latch, attached}
use fuzzusb.Link.Active.{awake, refresh-active}

-- The port as `set_link_state` leaves it
abbrev pub latched : Hcd → Hcd
latched h = record h { old_status = h.port_status; old_active = h.active }

module _ (d : Dummy) (h : Hcd) where
  pub refresh-speed : (refresh d h).speed ≡ h.speed
  unfolding refresh
  refresh-speed = ground arith

  pub refresh-rh_state : (refresh d h).rh_state ≡ h.rh_state
  unfolding refresh
  refresh-rh_state = ground arith

  pub refresh-power : (refresh d h).port_status (power_bit h) ≡ h.port_status (power_bit h)
  unfolding refresh
  refresh-power = ground arith

  pub refresh-reset :
      (refresh d h).port_status Port.reset
      ≡ (h.port_status (power_bit h) && h.port_status Port.reset)
  unfolding refresh
  refresh-reset = ground arith

  pub refresh-enable :
      (refresh d h).port_status Port.enable
      ≡ (h.port_status (power_bit h) && attached d && h.port_status Port.enable)
  unfolding refresh
  refresh-enable = ground arith

  refresh-awake : (refresh d h).port_status Port.enable ≡ true → awake (refresh d h) ≡ awake h
  unfolding refresh
  refresh-awake = ground arith

  pub refresh-c_reset :
      (refresh d h).port_status Port.c_reset
      ≡ (h.port_status (power_bit h) && h.port_status Port.c_reset)
  unfolding refresh
  refresh-c_reset = ground arith

  pub refresh-suspend :
      is_usb3 h.speed ≡ false
      → (refresh d h).port_status Port.suspend ≡ (
          h.port_status (power_bit h)
          && attached d
          && h.port_status Port.enable
          && h.port_status Port.suspend)
  unfolding refresh
  refresh-suspend = ground arith

  pub refresh-high_speed :
      is_usb3 h.speed ≡ false
      → (refresh d h).port_status Port.high_speed
        ≡ (h.port_status (power_bit h) && attached d && h.port_status Port.high_speed)
  unfolding refresh
  refresh-high_speed = ground arith

  pub refresh-c_suspend :
      (refresh d h).port_status Port.c_suspend
      ≡ (h.port_status (power_bit h) && h.port_status Port.c_suspend)
  unfolding refresh
  refresh-c_suspend = ground arith

  pub refresh-re_timeout : (refresh d h).re_timeout ≡ h.re_timeout
  unfolding refresh
  refresh-re_timeout = ground arith

  refresh-old_status : (refresh d h).old_status ≡ h.old_status
  unfolding refresh
  refresh-old_status = ground arith

  refresh-old_active : (refresh d h).old_active ≡ h.old_active
  unfolding refresh
  refresh-old_active = ground arith

-- Nothing is reported of a port whose power, reset and activity are the latched ones.
report-calm :
    (env : Env) (s : Side) (d : Dummy) (h : Hcd)
    → hcd d s ≡ h
    → h.old_status (power_bit h) ≡ h.port_status (power_bit h)
    → h.old_status Port.reset ≡ h.port_status Port.reset
    → h.old_active ≡ h.active
    → report env s d ≡ d
unfolding report
report-calm env hs d h e p r a = ground arith
report-calm env ss d h e p r a = ground arith

hcd-set_hcd : (s : Side) (h : Hcd) (d : Dummy) → hcd (set_hcd s h d) s ≡ h
hcd-set_hcd hs h d = refl
hcd-set_hcd ss h d = refl

trace-set_hcd : (s : Side) (h : Hcd) (d : Dummy) → (set_hcd s h d).trace ≡ d.trace
trace-set_hcd hs h d = refl
trace-set_hcd ss h d = refl

trace-latch : (s : Side) (d : Dummy) → (latch s d).trace ≡ d.trace
unfolding latch
trace-latch hs d = refl
trace-latch ss d = refl

module _ (d : Dummy) (h : Hcd) where
  settled-active : (refresh d (latched (refresh d h))).active ≡ (refresh d h).active
  settled-active = ground (
    arith,
    (refresh-active d (latched (refresh d h))).0,
    (refresh-active d h).0,
    refresh-speed d h,
    refresh-power d h,
    refresh-enable d h,
    refresh-awake d h,
  )

  settled-reset :
      (refresh d (latched (refresh d h))).port_status Port.reset
      ≡ (refresh d h).port_status Port.reset
  settled-reset = ground (
    arith,
    refresh-reset d (latched (refresh d h)),
    refresh-reset d h,
    refresh-power d h,
    refresh-speed d h,
  )

-- What `refresh` makes of a latched port is latched, in the bits that are reported.
module _ (d : Dummy) (h : Hcd) where
  abbrev again : Hcd
  again = refresh d (latched (refresh d h))

  power_bit-refresh : power_bit (refresh d h) ≡ power_bit h
  power_bit-refresh = rw (refresh-speed d h)

  again-old_status : again.old_status ≡ (refresh d h).port_status
  again-old_status = refresh-old_status d (latched (refresh d h))

  again-old_active : again.old_active ≡ again.active
  again-old_active = refresh-old_active d (latched (refresh d h)) ∙ sym (settled-active d h)

  again-old_reset : again.old_status Port.reset ≡ again.port_status Port.reset
  again-old_reset = ap (λ w. w Port.reset) again-old_status ∙ sym (settled-reset d h)

  again-old_power : again.old_status (power_bit again) ≡ again.port_status (power_bit again)
  again-old_power =
      ap (λ w. w (power_bit again)) again-old_status
      ∙ ap (λ b. (refresh d h).port_status b) bit
      ∙ sym (refresh-power d (latched (refresh d h)))
      ∙ ap (λ b. again.port_status b) (sym bit)
    where
      bit : power_bit again ≡ power_bit (latched (refresh d h))
      bit = rw (refresh-speed d (latched (refresh d h)))

-- Nothing happens at a port with the latched state.
pub latched-silent :
    (env : Env) (s : Side) (d : Dummy) (h : Hcd)
    → hcd d s ≡ latched (refresh d h)
    → (set_link_state env s d).trace ≡ d.trace
unfolding set_link_state
latched-silent env s d h e = elim (Bool-cases (d.pullup && wrong_bus d (hcd d s))) [
  | inl w ↦ rw w (trace-set_hcd s (record (hcd d s) { active = false }) d)
  | inr r ↦ rw r (trace-latch s (report env s d') ∙ ap (λ c. c.trace) calm ∙ trace-set_hcd s k d)
]
  where
    k : Hcd
    k = refresh d (hcd d s)

    d' : Dummy
    d' = set_hcd s k d

    calm : report env s d' ≡ d'
    calm =
        report-calm env s d' k (hcd-set_hcd s k d) (rw e (again-old_power d h))
          (rw e (again-old_reset d h)) (rw e (again-old_active d h))
