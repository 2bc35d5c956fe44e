-- ===== src/Link/Passive.antt =====
-- The port after `set_link_state`, where the callbacks do not reach into the controller.
use fuzzusb.Base.{ℕ, Bool, false, ◌&&◌, ◌≡◌, refl, ◌∙◌, arith, ap, List, Option}
use fuzzusb.Usb.{Speed}
use fuzzusb.Dummy.{Dummy, Hcd, Env, Side, hs, ss, Event, Driver}
use fuzzusb.Dummy.Access.{hcd, set_hcd, with_usage, log}
use fuzzusb.Nuke.{stop_activity, fail_first}
use fuzzusb.Nuke.Empty.{failed}
use fuzzusb.Nuke.Keep.{stop_activity-keeps}
use fuzzusb.Link.{
  set_link_state, wrong_bus, refresh, report, latch, tell_reset, tell_disconnect, sleep_or_wake,
}
use fuzzusb.Link.Silent.{latched}

-- What the link depends on
abbrev pub View : Type 0
View = Hcd × Hcd × Bool × Bool × Speed × ℕ

abbrev pub view : Dummy → View
view d = (d.hs_hcd, d.ss_hcd, d.pullup, d.udc_suspended, d.speed, d.jiffies)

-- Callbacks that leave the port, the pull-up and the gadget's speed alone
pub record IsPassive (env : Env) : Type 0 where
  pub complete_view : (i r : ℕ) (d : Dummy) → view (env.complete i r d) ≡ view d
  pub udc_reset_view : (d : Dummy) → view (env.udc_reset d) ≡ view d
  pub disconnect_view : (d : Dummy) → view (env.disconnect d) ≡ view d
  pub suspend_view : (d : Dummy) → view (env.suspend d) ≡ view d
  pub resume_view : (d : Dummy) → view (env.resume d) ≡ view d

failed-view : (i r : ℕ) (rs : List ℕ) (d : Dummy) → view (failed i r rs d) ≡ view d
unfolding failed fail_first
failed-view i r rs d = refl

with_usage-view :
    (call : Dummy → Dummy) (d : Dummy)
    → ((c : Dummy) → view (call c) ≡ view c)
    → view (with_usage call d) ≡ view d
unfolding with_usage
with_usage-view call d h = h _

module _ (env : Env) (passive : IsPassive env) where
  stopped-view : (d : Dummy) → view (stop_activity env d) ≡ view d
  stopped-view d =
      stop_activity-keeps env view failed-view passive.complete_view (λ i c. refl) d refl

  tell_reset-view : (d : Dummy) → view (tell_reset env d) ≡ view d
  unfolding tell_reset
  tell_reset-view d =
      with_usage-view (λ c. env.udc_reset (log Event.udc_reset c)) (stop_activity env d)
        (λ c. passive.udc_reset_view (log Event.udc_reset c))
      ∙ stopped-view d

  tell_disconnect-view : (d : Dummy) → view (tell_disconnect env d) ≡ view d
  unfolding tell_disconnect
  tell_disconnect-view d =
      with_usage-view (λ c. env.disconnect (log Event.disconnected c)) (stop_activity env d)
        (λ c. passive.disconnect_view (log Event.disconnected c))
      ∙ stopped-view d

  sleep_or_wake-view :
      (was : Bool) (g : Option Driver) (c : Dummy) → view (sleep_or_wake env was g c) ≡ view c
  unfolding sleep_or_wake
  sleep_or_wake-view was g c = ground (
    arith,
    passive.suspend_view (log Event.driver_suspended c),
    passive.resume_view (log Event.driver_resumed c),
  )

  report-view : (s : Side) (d : Dummy) → view (report env s d) ≡ view d
  unfolding report
  report-view s d = ground (
    arith,
    tell_reset-view d,
    tell_disconnect-view d,
    with_usage-view (sleep_or_wake env (hcd d s).old_active d.driver) d
        (sleep_or_wake-view (hcd d s).old_active d.driver),
  )

latch-view : (s : Side) (c d : Dummy) → view c ≡ view d → view (latch s c) ≡ view (latch s d)
unfolding latch
latch-view hs c d e = ground arith
latch-view ss c d e = ground arith

latch-set_hcd : (s : Side) (h : Hcd) (d : Dummy) → latch s (set_hcd s h d) ≡ set_hcd s (latched h) d
unfolding latch
latch-set_hcd hs h d = refl
latch-set_hcd ss h d = refl

module _ (env : Env) (passive : IsPassive env) where
  -- On the right bus, with passive callbacks, `set_link_state` makes of the port exactly what the
  -- link's rules say, latched, and touches nothing else that the link depends on.
  pub set_link_state-view :
      (s : Side) (d : Dummy)
      → (d.pullup && wrong_bus d (hcd d s)) ≡ false
      → view (set_link_state env s d) ≡ view (set_hcd s (latched (refresh d (hcd d s))) d)
  unfolding set_link_state
  set_link_state-view s d e = rw e (
      latch-view s (report env s (set_hcd s k d)) (set_hcd s k d)
        (report-view env passive s (set_hcd s k d))
      ∙ ap view (latch-set_hcd s k d))
    where
      k : Hcd
      k = refresh d (hcd d s)
