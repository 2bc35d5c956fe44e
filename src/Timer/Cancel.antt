-- ===== src/Timer/Cancel.antt =====
-- Which URBs `dummy_timer` gives back while the root hub is not running.
use fuzzusb.Base.{
  ℕ, zero, suc, ◌+◌, ◌<◌, true, false, ◌≡◌, refl, sym, ap, ◌∙◌, none, inl, inr, ◌⊎◌, List, [], ◌∷◌,
  ◌++◌, arith, ==_iff, Bool-cases, length, length-append, if◌then◌else◌,
}
use fuzzusb.Usb.{Ret, err, einprogress}
use fuzzusb.Dummy.{Dummy, Env, Side, hs, ss, Event, Hcd, Urb}
use fuzzusb.Dummy.Access.{hcd, set_hcd, is_running, is_empty, remove, log}
use fuzzusb.Perform.{SgMiter}
use fuzzusb.Timer.{
  visit, give_urb_back, ended, again, pass_urbs, returned, next_frame, timer_loop, run_timer,
  begin_frame, has_device, frame_bytes,
}

-- A host core that only takes note of an URB that comes back
pub record TakesNote (env : Env) : Type 0 where
  pub same_hcd :
      (s : Side) (u : ℕ) (st : Ret) (d : Dummy) → hcd (env.giveback_urb s u st d) s ≡ hcd d s
  pub same_urbs :
      (s : Side) (u : ℕ) (st : Ret) (d : Dummy) → (env.giveback_urb s u st d).urbs ≡ d.urbs
  pub same_trace :
      (s : Side) (u : ℕ) (st : Ret) (d : Dummy) → (env.giveback_urb s u st d).trace ≡ d.trace

-- The URBs that stay, in order
abbrev pub kept : (ℕ → Urb) → List ℕ → List ℕ
kept urbs [] = []
kept urbs (u ∷ us) = if (urbs u).unlinked then kept urbs us else u ∷ kept urbs us

-- The URBs that were unlinked come back, the oldest first; `trace` has the newest event first.
abbrev pub gone : Side → (ℕ → Urb) → List ℕ → List Event → List Event
gone s urbs [] t = t
gone s urbs (u ∷ us) t =
    gone s urbs us (if (urbs u).unlinked then Event.gave_urb s u (err einprogress) ∷ t else t)

-- None of these is unlinked.
abbrev AllKept : (ℕ → Urb) → List ℕ → Type 0
AllKept urbs [] = Unit {0}
AllKept urbs (u ∷ us) = ((urbs u).unlinked ≡ false) × AllKept urbs us

remove-behind :
    (urbs : ℕ → Urb) (u : ℕ) (pre us : List ℕ)
    → (urbs u).unlinked ≡ true
    → AllKept urbs pre
    → remove u (pre ++ u ∷ us) ≡ pre ++ us
remove-behind urbs u [] us e k = ground (arith, ==_iff u u)
remove-behind urbs u (x ∷ pre) us e k =
    ground (arith, ==_iff u x, remove-behind urbs u pre us e k.1)

kept-append :
    (urbs : ℕ → Urb) (pre us : List ℕ)
    → AllKept urbs pre
    → kept urbs (pre ++ us) ≡ pre ++ kept urbs us
kept-append urbs [] us k = refl
kept-append urbs (x ∷ pre) us k = ground (arith, kept-append urbs pre us k.1)

kept_all : (urbs : ℕ → Urb) (us : List ℕ) → AllKept urbs us → (kept urbs us ≡ us)
kept_all urbs [] k = refl
kept_all urbs (u ∷ us) k = ground (arith, kept_all urbs us k.1)

kept-drop :
    (urbs : ℕ → Urb) (u : ℕ) (pre us : List ℕ)
    → (urbs u).unlinked ≡ true
    → kept urbs (pre ++ u ∷ us) ≡ kept urbs (pre ++ us)
kept-drop urbs u [] us e = rw e refl
kept-drop urbs u (x ∷ pre) us e = ground (arith, kept-drop urbs u pre us e)

gone_none :
    (s : Side) (urbs : ℕ → Urb) (us : List ℕ) (t : List Event)
    → AllKept urbs us
    → gone s urbs us t ≡ t
gone_none s urbs [] t k = refl
gone_none s urbs (u ∷ us) t k = rw k.0 (gone_none s urbs us t k.1)

gone-drop :
    (s : Side) (urbs : ℕ → Urb) (u : ℕ) (pre us : List ℕ) (t : List Event)
    → (urbs u).unlinked ≡ true
    → AllKept urbs pre
    → gone s urbs (pre ++ u ∷ us) t
      ≡ gone s urbs (pre ++ us) (Event.gave_urb s u (err einprogress) ∷ t)
gone-drop s urbs u [] us t e k = rw (e, gone) refl
gone-drop s urbs u (x ∷ pre) us t e k = rw (k.0, gone) (gone-drop s urbs u pre us t e k.1)

-- The first URB that was unlinked, if there is one
first_unlinked :
    (urbs : ℕ → Urb) (us : List ℕ)
    → AllKept urbs us
      ⊎ ((pre : List ℕ) × (u : ℕ) × (rest : List ℕ) × (us ≡ pre ++ u ∷ rest)
          × ((urbs u).unlinked ≡ true)
          × AllKept urbs pre)
first_unlinked urbs [] = inl tt
first_unlinked urbs (u ∷ us) = elim (Bool-cases (urbs u).unlinked) [
  | inl e ↦ inr ([], u, us, refl, e, tt)
  | inr e ↦ elim (first_unlinked urbs us) [
    | inl k ↦ inl (e, k)
    | inr (pre, v, rest, same, f, k) ↦ inr (u ∷ pre, v, rest, ap (λ t. u ∷ t) same, f, (e, k))
  ]
]

set_hcd_lem :
    (s : Side) (h : Hcd) (d : Dummy)
    → (hcd (set_hcd s h d) s ≡ h)
      × ((set_hcd s h d).urbs ≡ d.urbs)
      × ((set_hcd s h d).trace ≡ d.trace)
set_hcd_lem hs h d = (refl, refl, refl)
set_hcd_lem ss h d = (refl, refl, refl)

with_list : (h : Hcd) (l : List ℕ) → h.urbp_list ≡ l → h ≡ record h { urbp_list = l }
with_list h l e i = record h { urbp_list = e i }

hcd-log : (s : Side) (e : Event) (d : Dummy) → hcd (log e d) s ≡ hcd d s
hcd-log hs e d = refl
hcd-log ss e d = refl

begin_frame_lem :
    (s : Side) (d : Dummy)
    → let b = begin_frame s d in
      (hcd b s ≡ record (hcd d s) { next_frame_urbp = none })
      × (b.urbs ≡ d.urbs)
      × (b.trace ≡ d.trace)
begin_frame_lem hs d = (refl, refl, refl)
begin_frame_lem ss d = (refl, refl, refl)

next_frame_lem :
    (env : Env) (s : Side) (e : Dummy)
    → is_running (hcd e s).rh_state ≡ false
    → let e' = next_frame env s e in
      ((hcd e' s).urbp_list ≡ (hcd e s).urbp_list)
      × (e'.trace ≡ e.trace)
      × ((hcd e' s).udev ≡ (if is_empty (hcd e s).urbp_list then none else (hcd e s).udev))
unfolding next_frame
next_frame_lem env s e stopped = elim (Bool-cases (is_empty (hcd e s).urbp_list)) [
  | inl none_left ↦ rw none_left (ground arith)
  | inr some_left ↦ rw (some_left, stopped) (refl, refl, refl)
]

module _ (env : Env) (miter : SgMiter) (s : Side) (notes : TakesNote env) where
  -- A bus whose root hub is not running, with no mark in its list
  record IsIdle (d : Dummy) : Type 0 where
    pub idle : is_running (hcd d s).rh_state ≡ false
    pub no_mark : (hcd d s).next_frame_urbp ≡ none

  pass-kept :
      (us : List ℕ) (total : ℕ) (d : Dummy)
      → IsIdle d
      → AllKept d.urbs us
      → pass_urbs env miter s us total d ≡ ended total d
  unfolding pass_urbs visit
  pass-kept [] total d i k = refl
  pass-kept (u ∷ us) total d i k = rw (i.no_mark, k.0, i.idle) (pass-kept us total d i k.1)

  pass-first :
      (pre : List ℕ) (u : ℕ) (us : List ℕ) (total : ℕ) (d : Dummy)
      → IsIdle d
      → AllKept d.urbs pre
      → (d.urbs u).unlinked ≡ true
      → pass_urbs env miter s (pre ++ u ∷ us) total d
        ≡ again total (give_urb_back env s u (err einprogress) none d)
  unfolding pass_urbs visit
  pass-first [] u us total d i k e = rw (i.no_mark, e) refl
  pass-first (x ∷ pre) u us total d i k e =
      rw (i.no_mark, k.0, i.idle) (pass-first pre u us total d i k.1 e)

  give_urb_back_lem :
      (u : ℕ) (st : Ret) (d : Dummy)
      → let d' = give_urb_back env s u st none d in
        (hcd d' s ≡ record (hcd d s) { urbp_list = remove u (hcd d s).urbp_list })
        × (d'.urbs ≡ d.urbs)
        × (d'.trace ≡ Event.gave_urb s u st ∷ d.trace)
  unfolding give_urb_back
  give_urb_back_lem u st d =
      let h = record (hcd d s) { urbp_list = remove u (hcd d s).urbp_list } in
      let e = log (Event.gave_urb s u st) (set_hcd s h d) in
      let f = set_hcd_lem s h d in
      (
        notes.same_hcd s u st e ∙ hcd-log s (Event.gave_urb s u st) (set_hcd s h d) ∙ f.0,
        notes.same_urbs s u st e ∙ f.1,
        notes.same_trace s u st e ∙ ap (λ t. Event.gave_urb s u st ∷ t) f.2,
      )

  -- What the loop leaves: the URBs that stay, and the others given back
  record Swept (us : List ℕ) (d e : Dummy) : Type 0 where
    pub port : hcd e s ≡ record (hcd d s) { urbp_list = kept d.urbs us }
    pub urbs : e.urbs ≡ d.urbs
    pub trace : e.trace ≡ gone s d.urbs us d.trace

  timer_loop_lem :
      (fuel : ℕ) (us : List ℕ) (total : ℕ) (d : Dummy)
      → IsIdle d
      → (hcd d s).urbp_list ≡ us
      → length us < fuel
      → (e : Dummy) × (timer_loop env miter s fuel total d ≡ returned (next_frame env s e))
        × Swept us d e
  unfolding timer_loop
  timer_loop_lem zero us total d i same enough = absurd (omega arith)
  timer_loop_lem (suc fuel) us total d i same enough = elim (first_unlinked d.urbs us) [
    | inl k ↦ (
      d,
      rw (same, pass-kept us total d i k) refl,
      record {
        port = with_list (hcd d s) _ (same ∙ sym (kept_all d.urbs us k));
        urbs = refl;
        trace = sym (gone_none s d.urbs us d.trace k);
      },
    )
    | inr (pre, u, rest, split, e, k) ↦
        (let d' = give_urb_back env s u (err einprogress) none d in
          let f = give_urb_back_lem u (err einprogress) d in
          let next =
            timer_loop_lem fuel (pre ++ rest) total d'
              (record { idle = rw f.0 i.idle; no_mark = rw f.0 i.no_mark })
              (ap (λ h. h.urbp_list) f.0 ∙ rw (same, split) (remove-behind d.urbs u pre rest e k))
              (omega
                (arith, length-append pre (u ∷ rest), length-append pre rest, ap length split)) in
          (
            next.0,
            rw (same, split, pass-first pre u rest total d i k e) next.1,
            record {
              port = next.2.port ∙ rw (f.0, f.1, split, kept-drop d.urbs u pre rest e) refl;
              urbs = next.2.urbs ∙ f.1;
              trace =
                  next.2.trace
                  ∙ rw (f.1, f.2, split) (sym (gone-drop s d.urbs u pre rest d.trace e k));
            },
          ))
  ]

  -- While the root hub is not running, the timer gives back exactly the URBs that were unlinked, the
  -- oldest first, each once, with -EINPROGRESS for the host core to replace; the others stay in
  -- their order, and the device is let go once none is left. A device holds the bus, and the host
  -- core only takes note.
  pub run_timer-suspended :
      (d : Dummy)
      → is_running (hcd d s).rh_state ≡ false
      → has_device (hcd d s).udev ≡ true
      → (e : Dummy) × (run_timer env miter s d ≡ returned e)
        × ((hcd e s).urbp_list ≡ kept d.urbs (hcd d s).urbp_list)
        × (e.trace ≡ gone s d.urbs (hcd d s).urbp_list d.trace)
        × ((hcd e s).udev
            ≡ (if is_empty (kept d.urbs (hcd d s).urbp_list) then none else (hcd d s).udev))
  unfolding run_timer
  run_timer-suspended d stopped device =
      let b = begin_frame s d in
      let f = begin_frame_lem s d in
      let l =
        timer_loop_lem (length (hcd d s).urbp_list + length (d.ep 0).queue + 1) (hcd d s).urbp_list
          (frame_bytes d.speed) b (record { idle = rw f.0 stopped; no_mark = rw f.0 refl })
          (ap (λ h. h.urbp_list) f.0) (omega arith) in
      let port : hcd l.0 s ≡ record (hcd d s) {
        next_frame_urbp = none;
        urbp_list = kept d.urbs (hcd d s).urbp_list;
      } =
        l.2.port ∙ rw (f.0, f.1) refl in
      let n = next_frame_lem env s l.0 (rw port stopped) in
      (
        next_frame env s l.0,
        rw device l.1,
        n.0 ∙ ap (λ h. h.urbp_list) port,
        n.1 ∙ l.2.trace ∙ rw (f.1, f.2) refl,
        n.2 ∙ rw port refl,
      )
