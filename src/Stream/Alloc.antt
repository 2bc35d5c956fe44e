-- ===== src/Stream/Alloc.antt =====
-- What allocating and freeing streams promises.
use fuzzusb.Base.{
  ℕ, ◌≤◌, ◌<◌, Bool, true, false, ◌||◌, some, ◌≡◌, refl, ◌∙◌, arith, if◌then◌else◌, ltb, ◌==◌, List,
  [], ◌∷◌, Flags,
}
use fuzzusb.Usb.{ret, err, einval}
use fuzzusb.Dummy.{Hcd}
use fuzzusb.Stream.{
  Pipe, HostEp, get_ep_idx, agree, enable_all, alloc_streams, all_enabled, disable_all,
  free_streams, set_max_streams_for_pipe,
}

-- Is the bit one of the group's?
abbrev pub in_group : ℕ → List HostEp → Bool
in_group i [] = false
in_group i (e ∷ es) = i == get_ep_idx e.desc || in_group i es

-- Every endpoint of the group was disabled and supports as many streams.
abbrev pub Supports : Flags → ℕ → List HostEp → Type 0
Supports enabled streams [] = Unit {0}
Supports enabled streams (e ∷ es) =
    (enabled (get_ep_idx e.desc) ≡ false)
    × (streams ≤ e.max_streams)
    × (0 < e.max_streams)
    × Supports enabled streams es

agree-le :
    (enabled : Flags) (es : List HostEp) (n : ℕ) {k : ℕ} → agree enabled es n ≡ some k → k ≤ n
unfolding agree
agree-le enabled [] n h = ground arith
agree-le enabled (e ∷ es) n {k} h =
    ground (arith, agree-le enabled es (if ltb e.max_streams n then e.max_streams else n) {k = k})

agree-Supports :
    (enabled : Flags) (es : List HostEp) (n : ℕ) {k : ℕ}
    → agree enabled es n ≡ some k
    → Supports enabled k es
unfolding agree
agree-Supports enabled [] n h = tt
agree-Supports enabled (e ∷ es) n {k} h = (
  ground arith,
  ground (arith, agree-le enabled es m {k = k}),
  ground arith,
  agree-Supports enabled es m rest,
)
  where
    m : ℕ
    m = if ltb e.max_streams n then e.max_streams else n

    rest : agree enabled es m ≡ some k
    rest = ground arith

module _ (p : Pipe) where
  stream_en-set :
      (h : Hcd) (n s : ℕ) → (set_max_streams_for_pipe p h n s).stream_en_ep ≡ h.stream_en_ep
  unfolding set_max_streams_for_pipe
  stream_en-set h n s = refl

  stream_en-enable_all :
      (es : List HostEp) (s : ℕ) (h : Hcd) (i : ℕ)
      → (enable_all p es s h).stream_en_ep i ≡ (in_group i es || h.stream_en_ep i)
  unfolding enable_all set_max_streams_for_pipe
  stream_en-enable_all [] s h i = refl
  stream_en-enable_all (e ∷ es) s h i = stream_en-enable_all es s _ i ∙ ground arith

  stream_en-disable_all :
      (es : List HostEp) (h : Hcd) (i : ℕ)
      → (disable_all p es h).stream_en_ep i ≡ (if in_group i es then false else h.stream_en_ep i)
  unfolding disable_all set_max_streams_for_pipe
  stream_en-disable_all [] h i = refl
  stream_en-disable_all (e ∷ es) h i = stream_en-disable_all es _ i ∙ ground arith

all_enabled-of :
    (w : Flags) (es : List HostEp)
    → ((i : ℕ) → in_group i es ≡ true → w i ≡ true)
    → all_enabled w es ≡ true
unfolding all_enabled
all_enabled-of w [] h = refl
all_enabled-of w (e ∷ es) h =
    ground (arith, h (get_ep_idx e.desc), all_enabled-of w es (λ i m. h i (ground arith)))

Supports-absent :
    (w : Flags) (k : ℕ) (es : List HostEp) (i : ℕ)
    → Supports w k es
    → in_group i es ≡ true
    → w i ≡ false
Supports-absent w k [] i s m = cc
Supports-absent w k (e ∷ es) i s m = ground (arith, Supports-absent w k es i s.3)

module _ (p : Pipe) where
  alloc_streams-parts :
      (es : List HostEp) (n : ℕ) (h : Hcd) {k : ℕ}
      → (alloc_streams p es n h).0 ≡ ret k
      → (agree h.stream_en_ep es n ≡ some k) × ((alloc_streams p es n h).1 ≡ enable_all p es k h)
  unfolding alloc_streams
  alloc_streams-parts [] n h e = cc
  alloc_streams-parts (x ∷ es) n h e = (ground arith, ground arith)

  -- Streams that were allocated: at most as many as asked for, and each endpoint of the group was
  -- free and supports them; then exactly the group's enable bits are added. Freeing the group
  -- afterwards succeeds and restores every enable bit.
  pub alloc_streams-free_streams :
      (es : List HostEp) (n : ℕ) (h : Hcd) {k : ℕ}
      → (alloc_streams p es n h).0 ≡ ret k
      → let h' = (alloc_streams p es n h).1 in
        (k ≤ n)
        × Supports h.stream_en_ep k es
        × ((i : ℕ) → h'.stream_en_ep i ≡ (in_group i es || h.stream_en_ep i))
        × ((free_streams p es h').0 ≡ ret 0)
        × ((i : ℕ) → (free_streams p es h').1.stream_en_ep i ≡ h.stream_en_ep i)
  unfolding free_streams
  alloc_streams-free_streams es n h {k} e = rw parts.1 (
    agree-le h.stream_en_ep es n parts.0,
    agreed,
    added,
    rw on,
    λ i. rw on (
        stream_en-disable_all p es (enable_all p es k h) i
        ∙ ground (arith, added i, Supports-absent h.stream_en_ep k es i agreed)),
  )
    where
      parts :
          (agree h.stream_en_ep es n ≡ some k) × ((alloc_streams p es n h).1 ≡ enable_all p es k h)
      parts = alloc_streams-parts es n h e

      agreed : Supports h.stream_en_ep k es
      agreed = agree-Supports h.stream_en_ep es n parts.0

      added : (i : ℕ) → (enable_all p es k h).stream_en_ep i ≡ (in_group i es || h.stream_en_ep i)
      added i = stream_en-enable_all p es k h i

      on : all_enabled (enable_all p es k h).stream_en_ep es ≡ true
      on = all_enabled-of (enable_all p es k h).stream_en_ep es (λ i m. ground (arith, added i))

  -- A refusal of `dummy_alloc_streams` or `dummy_free_streams` leaves the controller unchanged.
  pub streams_refused :
      (es : List HostEp) (n : ℕ) (h : Hcd)
      → ((alloc_streams p es n h).0 ≡ err einval → (alloc_streams p es n h).1 ≡ h)
        × ((free_streams p es h).0 ≡ err einval → (free_streams p es h).1 ≡ h)
  unfolding alloc_streams free_streams
  streams_refused [] n h = (λ e. refl, λ e. ground arith)
  streams_refused (x ∷ es) n h = (λ e. ground arith, λ e. ground arith)
