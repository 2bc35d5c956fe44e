-- ===== src/Udc/Stop.antt =====
-- The end of `dummy_udc_stop`.
use fuzzusb.Base.{
  ℕ, zero, suc, ◌≤◌, ◌<◌, false, none, some, ◌≡◌, ◌≢◌, arith, List, [], ◌∷◌, length, Option-cases,
  inl, inr,
}
use fuzzusb.Usb.{Ret, ret}
use fuzzusb.Dummy.{Dummy, Env, dummy_endpoints}
use fuzzusb.Nuke.{stop_activity}
use fuzzusb.Nuke.Empty.{NoRequeue, queue_length, stop_activity-empty}
use fuzzusb.Udc.{udc_stop, wait_callbacks}

-- The state after `k` sleeps
abbrev pub after : ℕ → List (Dummy → Dummy) → Dummy → Dummy
after zero sleeps d = d
after (suc k) [] d = d
after (suc k) (sleep ∷ rest) d = after k rest (sleep d)

wait_callbacks-usage :
    (sleeps : List (Dummy → Dummy)) (d e : Dummy)
    → wait_callbacks sleeps d ≡ some e
    → e.callback_usage ≡ 0
unfolding wait_callbacks
wait_callbacks-usage [] d e h = ground arith
wait_callbacks-usage (sleep ∷ rest) d e h = ground (arith, wait_callbacks-usage rest (sleep d) e)

wait_callbacks-ends :
    (k : ℕ) (sleeps : List (Dummy → Dummy)) (d : Dummy)
    → k ≤ length sleeps
    → (after k sleeps d).callback_usage ≡ 0
    → wait_callbacks sleeps d ≢ none
unfolding wait_callbacks
wait_callbacks-ends zero [] d l z = ground arith
wait_callbacks-ends zero (sleep ∷ rest) d l z = ground arith
wait_callbacks-ends (suc k) [] d l z = absurd (omega arith)
wait_callbacks-ends (suc k) (sleep ∷ rest) d l z =
    ground (arith, wait_callbacks-ends k rest (sleep d) (omega arith) z)

-- The state in which `dummy_udc_stop` begins to wait
abbrev pub stopping : Env → Dummy → Dummy
stopping env d = stop_activity env (record d { ints_enabled = false })

-- If completion routines queue no request again, `dummy_udc_stop` comes to its wait with all queues empty,
-- and returns as soon as no callback is running: if that is so after one of the sleeps, it returns;
-- and when it returns, it returns 0, the gadget driver is gone, and no callback runs.
pub udc_stop_lem :
    (env : Env) (sleeps : List (Dummy → Dummy)) (d : Dummy)
    → NoRequeue env
    → ((j : ℕ) → j < dummy_endpoints → queue_length (stopping env d) j ≡ 0)
      × ((k : ℕ)
          → k ≤ length sleeps
          → (after k sleeps (stopping env d)).callback_usage ≡ 0
          → udc_stop env sleeps d ≢ none)
      × ((r : Ret) (e : Dummy)
          → udc_stop env sleeps d ≡ some (r, e)
          → (r ≡ ret 0) × (e.driver ≡ none) × (e.callback_usage ≡ 0))
unfolding udc_stop
udc_stop_lem env sleeps d rule =
    (λ j l. stop_activity-empty env rule j (record d { ints_enabled = false }) l, ends, returns)
  where
    ends :
        (k : ℕ)
        → k ≤ length sleeps
        → (after k sleeps (stopping env d)).callback_usage ≡ 0
        → udc_stop env sleeps d ≢ none
    ends k l z = ground (arith, wait_callbacks-ends k sleeps (stopping env d) l z)

    returns :
        (r : Ret) (e : Dummy)
        → udc_stop env sleeps d ≡ some (r, e)
        → (r ≡ ret 0) × (e.driver ≡ none) × (e.callback_usage ≡ 0)
    returns r e h = elim (Option-cases (wait_callbacks sleeps (stopping env d))) [
      | inl n ↦ absurd (ground arith)
      | inr (c, n) ↦ (
        ground arith,
        ground arith,
        ground (arith, wait_callbacks-usage sleeps (stopping env d) c n),
      )
    ]
