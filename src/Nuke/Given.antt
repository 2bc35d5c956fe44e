-- ===== src/Nuke/Given.antt =====
-- In which order `nuke` gives the requests back.
use fuzzusb.Base.{ℕ, zero, suc, ◌+◌, ◌≤◌, ◌≡◌, refl, ◌∙◌, List, [], ◌∷◌, length, arith, ap}
use fuzzusb.Usb.{err, eshutdown}
use fuzzusb.Dummy.{Dummy, Env, Event}
use fuzzusb.Dummy.Access.{call_complete}
use fuzzusb.Nuke.{fail_first, nuke_one, nuke_loop, nuke}
use fuzzusb.Nuke.Empty.{failed, nuke_one-eq, nuke_loop-nil, nuke_loop-cons}

-- Completion routines that only take note: they leave the queues, the requests and the trace alone.
pub record IsQuiet (env : Env) : Type 0 where
  pub same_queue : (i r j : ℕ) (d : Dummy) → ((env.complete i r d).ep j).queue ≡ (d.ep j).queue
  pub same_reqs : (i r x : ℕ) (d : Dummy) → (env.complete i r d).reqs x ≡ d.reqs x
  pub same_trace : (i r : ℕ) (d : Dummy) → (env.complete i r d).trace ≡ d.trace

-- Each request of the list in turn, from the oldest on, is given back with -ESHUTDOWN.
abbrev pub give_all : ℕ → (ℕ → ℕ) → List ℕ → List Event → List Event
give_all i actual [] t = t
give_all i actual (r ∷ rs) t =
    give_all i actual rs (Event.gave_request i r (err eshutdown) (actual r) ∷ t)

module _ (env : Env) (quiet : IsQuiet env) where
  nuke_one-queue : (i r : ℕ) (rs : List ℕ) (d : Dummy) → ((nuke_one env i r rs d).ep i).queue ≡ rs
  unfolding failed fail_first call_complete
  nuke_one-queue i r rs d =
      rw (nuke_one-eq env i r rs d) (ground (arith, quiet.same_queue i r i (failed i r rs d)))

  nuke_one-actual :
      (i r x : ℕ) (rs : List ℕ) (d : Dummy)
      → ((nuke_one env i r rs d).reqs x).actual ≡ (d.reqs x).actual
  unfolding failed fail_first call_complete
  nuke_one-actual i r x rs d =
      rw (nuke_one-eq env i r rs d) (ground (arith, quiet.same_reqs i r x (failed i r rs d)))

  nuke_one-trace :
      (i r : ℕ) (rs : List ℕ) (d : Dummy)
      → (nuke_one env i r rs d).trace
        ≡ Event.gave_request i r (err eshutdown) (d.reqs r).actual ∷ d.trace
  unfolding failed fail_first call_complete
  nuke_one-trace i r rs d =
      rw (nuke_one-eq env i r rs d) (ground (arith, quiet.same_trace i r (failed i r rs d)))

  nuke_loop-trace :
      (q : List ℕ) (fuel i : ℕ) (d : Dummy) (actual : ℕ → ℕ)
      → length q ≤ fuel
      → (d.ep i).queue ≡ q
      → ((x : ℕ) → (d.reqs x).actual ≡ actual x)
      → (nuke_loop env fuel i d).trace ≡ give_all i actual q d.trace
  nuke_loop-trace [] fuel i d actual l e h = ap (λ c. c.trace) (nuke_loop-nil env fuel i d e)
  nuke_loop-trace (r ∷ rs) zero i d actual l e h = absurd (omega arith)
  nuke_loop-trace (r ∷ rs) (suc fuel) i d actual l e h =
      ap (λ c. c.trace) (nuke_loop-cons env fuel i r rs d e)
      ∙ nuke_loop-trace rs fuel i (nuke_one env i r rs d) actual (omega arith)
          (nuke_one-queue i r rs d) (λ x. nuke_one-actual i r x rs d ∙ h x)
      ∙ ap (give_all i actual rs) (
          nuke_one-trace i r rs d
          ∙ ap (λ a. Event.gave_request i r (err eshutdown) a ∷ d.trace) (h r))

  -- With quiet completion routines, `nuke` gives back exactly the requests of the endpoint's queue,
  -- the oldest first, each once, with -ESHUTDOWN and the length transferred so far.
  pub nuke-trace :
      (i : ℕ) (d : Dummy)
      → (nuke env i d).trace ≡ give_all i (λ r. (d.reqs r).actual) (d.ep i).queue d.trace
  unfolding nuke
  nuke-trace i d =
      nuke_loop-trace (d.ep i).queue (length (d.ep i).queue + env.nuke_rounds) i d
        (λ r. (d.reqs r).actual) (omega arith) refl (λ x. refl)
