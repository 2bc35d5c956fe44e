-- ===== src/Link/Settled.antt =====
-- A port that `set_link_state` has left behind is settled: the next call has nothing to report.
use fuzzusb.Base.{true, false, ◌&&◌, ◌≡◌, refl, sym, ap, ◌∙◌, Bool-cases, inl, inr}
use fuzzusb.Dummy.{Dummy, Hcd, Env, Side, hs, ss}
use fuzzusb.Dummy.Access.{hcd, set_hcd}
use fuzzusb.Link.{set_link_state, wrong_bus, refresh}
use fuzzusb.Link.Silent.{latched, latched-silent}
use fuzzusb.Link.Passive.{IsPassive, view, set_link_state-view}

-- The link's rules read no more of the gadget than whether it is there.
refresh-same :
    (d e : Dummy) (h : Hcd)
    → e.pullup ≡ d.pullup
    → e.udc_suspended ≡ d.udc_suspended
    → refresh e h ≡ refresh d h
unfolding refresh
refresh-same d e h p a = rw (p, a) refl

-- What a view says of the state after `set_hcd`
seen-hcd : (s : Side) (h : Hcd) (d e : Dummy) → view e ≡ view (set_hcd s h d) → hcd e s ≡ h
seen-hcd hs h d e v = ap (λ w. w.0) v
seen-hcd ss h d e v = ap (λ w. w.1) v

seen-pullup :
    (s : Side) (h : Hcd) (d e : Dummy) → view e ≡ view (set_hcd s h d) → e.pullup ≡ d.pullup
seen-pullup hs h d e v = ap (λ w. w.2) v
seen-pullup ss h d e v = ap (λ w. w.2) v

seen-udc_suspended :
    (s : Side) (h : Hcd) (d e : Dummy)
    → view e ≡ view (set_hcd s h d)
    → e.udc_suspended ≡ d.udc_suspended
seen-udc_suspended hs h d e v = ap (λ w. w.3) v
seen-udc_suspended ss h d e v = ap (λ w. w.3) v

-- On the wrong bus, `set_link_state` only clears `active`, and does so again.
set_link_state-wrong :
    (env : Env) (s : Side) (d : Dummy)
    → (d.pullup && wrong_bus d (hcd d s)) ≡ true
    → set_link_state env s d ≡ set_hcd s (record (hcd d s) { active = false }) d
unfolding set_link_state
set_link_state-wrong env s d w = rw w refl

still-wrong :
    (s : Side) (d : Dummy)
    → (d.pullup && wrong_bus d (hcd d s)) ≡ true
    → let e = set_hcd s (record (hcd d s) { active = false }) d in
      (e.pullup && wrong_bus e (hcd e s)) ≡ true
still-wrong hs d w = w
still-wrong ss d w = w

trace-set_hcd : (s : Side) (h : Hcd) (d : Dummy) → (set_hcd s h d).trace ≡ d.trace
trace-set_hcd hs h d = refl
trace-set_hcd ss h d = refl

-- A second `set_link_state` calls no callback and gives no request back, whatever the state was before
-- the first, and on either bus. (The callbacks do not reach into the controller.)
pub set_link_state-silent :
    (env : Env) (s : Side) (d : Dummy)
    → IsPassive env
    → (set_link_state env s (set_link_state env s d)).trace ≡ (set_link_state env s d).trace
set_link_state-silent env s d passive = elim (Bool-cases (d.pullup && wrong_bus d (hcd d s))) [
  | inl w ↦
      let e = set_hcd s (record (hcd d s) { active = false }) d in
      rw (set_link_state-wrong env s d w) (
        ap (λ c. c.trace) (set_link_state-wrong env s e (still-wrong s d w))
        ∙ trace-set_hcd s (record (hcd e s) { active = false }) e)
  | inr r ↦
      let e = set_link_state env s d in
      let h = latched (refresh d (hcd d s)) in
      let v = set_link_state-view env passive s d r in
      latched-silent env s e (hcd d s) (
        seen-hcd s h d e v
        ∙ ap latched (
            sym
              (refresh-same d e (hcd d s) (seen-pullup s h d e v) (seen-udc_suspended s h d e v))))
]
