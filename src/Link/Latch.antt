-- ===== src/Link/Latch.antt =====
-- Which calls of the gadget driver `set_link_state` makes, and what it leaves behind.
use fuzzusb.Base.{
  Option, ℕ, Bool, false, ◌&&◌, ◌≡◌, refl, ◌∙◌, arith, ◌+◌, List, Bool-cases, inl, inr,
}
use fuzzusb.Dummy.{Event, Driver, Dummy, Hcd, Env, Side, hs, ss}
use fuzzusb.Dummy.Access.{hcd, set_hcd, with_usage, log}
use fuzzusb.Nuke.{stop_activity, fail_first}
use fuzzusb.Nuke.Empty.{failed}
use fuzzusb.Nuke.Keep.{stop_activity-keeps}
use fuzzusb.Link.{
  set_link_state, wrong_bus, refresh, report, latch, tell_reset, tell_disconnect, sleep_or_wake,
}

-- Callbacks that count themselves in and out
pub record KeepsUsage (env : Env) : Type 0 where
  pub complete_keeps :
      (i r : ℕ) (d : Dummy) → (env.complete i r d).callback_usage ≡ d.callback_usage
  pub udc_reset_keeps : (d : Dummy) → (env.udc_reset d).callback_usage ≡ d.callback_usage
  pub disconnect_keeps : (d : Dummy) → (env.disconnect d).callback_usage ≡ d.callback_usage
  pub suspend_keeps : (d : Dummy) → (env.suspend d).callback_usage ≡ d.callback_usage
  pub resume_keeps : (d : Dummy) → (env.resume d).callback_usage ≡ d.callback_usage

failed-usage :
    (i r : ℕ) (rs : List ℕ) (d : Dummy) → (failed i r rs d).callback_usage ≡ d.callback_usage
unfolding failed fail_first
failed-usage i r rs d = refl

with_usage-keeps :
    (call : Dummy → Dummy) (d : Dummy)
    → ((c : Dummy) → (call c).callback_usage ≡ c.callback_usage)
    → (with_usage call d).callback_usage ≡ d.callback_usage
unfolding with_usage
with_usage-keeps call d h = omega (arith, h (record d { callback_usage = d.callback_usage + 1 }))

module _ (env : Env) (keeps : KeepsUsage env) where
  stopped-usage : (d : Dummy) → (stop_activity env d).callback_usage ≡ d.callback_usage
  stopped-usage d =
      stop_activity-keeps env (λ c. c.callback_usage) failed-usage keeps.complete_keeps
        (λ i c. refl) d refl

  tell_reset-usage : (d : Dummy) → (tell_reset env d).callback_usage ≡ d.callback_usage
  unfolding tell_reset
  tell_reset-usage d =
      with_usage-keeps (λ c. env.udc_reset (log Event.udc_reset c)) (stop_activity env d)
        (λ c. keeps.udc_reset_keeps (log Event.udc_reset c))
      ∙ stopped-usage d

  tell_disconnect-usage : (d : Dummy) → (tell_disconnect env d).callback_usage ≡ d.callback_usage
  unfolding tell_disconnect
  tell_disconnect-usage d =
      with_usage-keeps (λ c. env.disconnect (log Event.disconnected c)) (stop_activity env d)
        (λ c. keeps.disconnect_keeps (log Event.disconnected c))
      ∙ stopped-usage d

  sleep_or_wake-usage :
      (was : Bool) (g : Option Driver) (c : Dummy)
      → (sleep_or_wake env was g c).callback_usage ≡ c.callback_usage
  unfolding sleep_or_wake
  sleep_or_wake-usage was g c = ground (
    arith,
    keeps.suspend_keeps (log Event.driver_suspended c),
    keeps.resume_keeps (log Event.driver_resumed c),
  )

  report-usage : (s : Side) (d : Dummy) → (report env s d).callback_usage ≡ d.callback_usage
  unfolding report
  report-usage s d = ground (
    arith,
    tell_reset-usage d,
    tell_disconnect-usage d,
    with_usage-keeps (sleep_or_wake env (hcd d s).old_active d.driver) d
        (sleep_or_wake-usage (hcd d s).old_active d.driver),
  )

  latch-usage : (s : Side) (d : Dummy) → (latch s d).callback_usage ≡ d.callback_usage
  unfolding latch
  latch-usage hs d = refl
  latch-usage ss d = refl

  set_hcd-usage :
      (s : Side) (h : Hcd) (d : Dummy) → (set_hcd s h d).callback_usage ≡ d.callback_usage
  set_hcd-usage hs h d = refl
  set_hcd-usage ss h d = refl

  -- `callback_usage`, which `dummy_udc_stop` waits for, is balanced: on every branch
  -- `set_link_state` leaves it as it was, if the callbacks do.
  pub set_link_state-usage :
      (s : Side) (d : Dummy) → (set_link_state env s d).callback_usage ≡ d.callback_usage
  unfolding set_link_state
  set_link_state-usage s d =
      let h = hcd d s in
      let d' = set_hcd s (refresh d h) d in
      elim (Bool-cases (d.pullup && wrong_bus d h)) [
        | inl e ↦ rw e (set_hcd-usage s (record h { active = false }) d)
        | inr e ↦
            rw e (
              latch-usage s (report env s d') ∙ report-usage s d' ∙ set_hcd-usage s (refresh d h) d)
      ]
