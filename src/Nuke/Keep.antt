-- ===== src/Nuke/Keep.antt =====
-- `nuke` and `stop_activity` keep what the completion routines keep.
use fuzzusb.Base.{ℕ, zero, suc, ◌+◌, ◌≡◌, refl, ◌∙◌, List, length, ap, List-cases}
use fuzzusb.Base.{inl, inr, arith}
use fuzzusb.Dummy.{Dummy, Env, Event, dummy_endpoints}
use fuzzusb.Dummy.Access.{call_complete, log}
use fuzzusb.Nuke.{nuke_one, nuke_loop, nuke, nuke_all, stop_activity}
use fuzzusb.Nuke.Empty.{failed, nuke_one-eq, nuke_loop-cut, nuke_loop-nil, nuke_loop-cons}

-- `f` is a part of the state that failing a request, and the completion routines, leave alone.
module _ {A : Type 0} (env : Env) (f : Dummy → A)
    (fails : (i r : ℕ) (rs : List ℕ) (d : Dummy) → f (failed i r rs d) ≡ f d)
    (completes : (i r : ℕ) (d : Dummy) → f (env.complete i r d) ≡ f d)
    (cuts : (i : ℕ) (d : Dummy) → f (log (Event.nuke_cut i) d) ≡ f d) where
  call_complete-keeps : (i r : ℕ) (d : Dummy) → f (call_complete env i r d) ≡ f d
  unfolding call_complete
  call_complete-keeps i r d = ground (arith, completes i r d)

  nuke_loop-keeps : (fuel i : ℕ) (d : Dummy) → f (nuke_loop env fuel i d) ≡ f d
  nuke_loop-keeps zero i d = elim (List-cases (d.ep i).queue) [
    | inl e ↦ ap f (nuke_loop-nil env zero i d e)
    | inr (r, rs, e) ↦ ap f (nuke_loop-cut env i r rs d e) ∙ cuts i d
  ]
  nuke_loop-keeps (suc fuel) i d = elim (List-cases (d.ep i).queue) [
    | inl e ↦ ap f (nuke_loop-nil env (suc fuel) i d e)
    | inr (r, rs, e) ↦
        ap f (nuke_loop-cons env fuel i r rs d e)
        ∙ nuke_loop-keeps fuel i (nuke_one env i r rs d)
        ∙ ap f (nuke_one-eq env i r rs d)
        ∙ call_complete-keeps i r (failed i r rs d)
        ∙ fails i r rs d
  ]

  pub nuke-keeps : (i : ℕ) (d : Dummy) → f (nuke env i d) ≡ f d
  unfolding nuke
  nuke-keeps i d = nuke_loop-keeps (length (d.ep i).queue + env.nuke_rounds) i d

  pub nuke_all-keeps : (n i : ℕ) (d : Dummy) → f (nuke_all env n i d) ≡ f d
  unfolding nuke_all
  nuke_all-keeps zero i d = refl
  nuke_all-keeps (suc n) i d = nuke_all-keeps n (i + 1) (nuke env i d) ∙ nuke-keeps i d

  pub stop_activity-keeps :
      (d : Dummy) → f (record d { address = 0 }) ≡ f d → f (stop_activity env d) ≡ f d
  unfolding stop_activity
  stop_activity-keeps d e = nuke_all-keeps dummy_endpoints 0 (record d { address = 0 }) ∙ e
