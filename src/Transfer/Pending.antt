-- ===== src/Transfer/Pending.antt =====
-- The bytes that the requests of a queue still hold for the host.
use fuzzusb.Base.{
  ℕ, ◌+◌, ◌-◌, ◌≤◌, ◌<◌, true, false, ◌≡◌, refl, sym, ap, ◌∙◌, inl, inr, List, [], ◌∷◌, ◌++◌,
  append_assoc, arith, ◌==◌, ==_iff, ==_refl, ◌||◌, update_other, update_at, ◌⊎◌, update,
  Bool-cases, length, take, drop, take-add, drop-add, ◌^◌,
}
use fuzzusb.Usb.{err, einprogress}
use fuzzusb.Dummy.{Request}
use fuzzusb.Dummy.Access.{remove}
use fuzzusb.Endpoint.Queue.{found}

abbrev pub rest_of : Request → List ℕ
rest_of q = take (q.length - q.actual) (drop q.actual q.buf)

abbrev pub pending : (ℕ → Request) → List ℕ → List ℕ
pending reqs [] = []
pending reqs (r ∷ rs) = rest_of (reqs r) ++ pending reqs rs

-- A request that waits in a queue for stream `stream`
pub record Waits (stream : ℕ) (q : Request) : Type 0 where
  pub sent : q.actual ≤ q.length
  pub memory : q.length ≤ length q.buf
  pub word : q.length < 2 ^ 32
  pub in_progress : q.status ≡ err einprogress
  pub same_stream : q.stream_id ≡ stream

abbrev pub Distinct : List ℕ → Type 0
Distinct [] = Unit {0}
Distinct (r ∷ rs) = (found r rs ≡ false) × Distinct rs

-- Each request of the queue waits, and none stands in it twice.
pub record Queued (stream : ℕ) (reqs : ℕ → Request) (q : List ℕ) : Type 0 where
  pub each : (r : ℕ) → found r q ≡ true → Waits stream (reqs r)
  pub once : Distinct q

-- `n` bytes of a request have passed.
pub rest_of-advance :
    (q : Request) (n : ℕ)
    → n ≤ q.length - q.actual
    → rest_of q ≡ take n (drop q.actual q.buf) ++ rest_of (record q { actual = q.actual + n })
rest_of-advance q n h =
    ap (λ k. take k (drop q.actual q.buf)) (omega arith)
    ∙ take-add n (q.length - (q.actual + n)) (drop q.actual q.buf)
    ∙ ap (λ t. take n (drop q.actual q.buf) ++ take (q.length - (q.actual + n)) t)
        (drop-add q.actual n q.buf)

pub rest_of-done : (q : Request) → q.length ≤ q.actual → rest_of q ≡ []
rest_of-done q h = let e : q.length - q.actual ≡ 0 = omega arith in rw e refl

found-cons :
    (r x : ℕ) (rs : List ℕ) → found r (x ∷ rs) ≡ false → ((r == x) ≡ false) × (found r rs ≡ false)
found-cons r x rs h = ground arith

-- Only the requests of the queue matter.
pub pending-update :
    (reqs : ℕ → Request) (r : ℕ) (q : Request) (rs : List ℕ)
    → found r rs ≡ false
    → pending (update reqs r q) rs ≡ pending reqs rs
pending-update reqs r q [] h = refl
pending-update reqs r q (x ∷ rs) h =
    let f = found-cons r x rs h in
    rw (update_other reqs r x q f.0, pending-update reqs r q rs f.1) refl

pub pending-append :
    (reqs : ℕ → Request) (xs ys : List ℕ)
    → pending reqs (xs ++ ys) ≡ pending reqs xs ++ pending reqs ys
pending-append reqs [] ys = refl
pending-append reqs (x ∷ xs) ys =
    ap (λ t. rest_of (reqs x) ++ t) (pending-append reqs xs ys)
    ∙ sym (append_assoc (rest_of (reqs x)) (pending reqs xs) (pending reqs ys))

found-append : (r : ℕ) (xs ys : List ℕ) → found r (xs ++ ys) ≡ (found r xs || found r ys)
found-append r [] ys = refl
found-append r (x ∷ xs) ys = ground (arith, found-append r xs ys)

remove-same : (r x : ℕ) (xs : List ℕ) → (r == x) ≡ true → remove r (x ∷ xs) ≡ xs
remove-same r x xs e = ground arith

remove-other : (r x : ℕ) (xs : List ℕ) → (r == x) ≡ false → remove r (x ∷ xs) ≡ x ∷ remove r xs
remove-other r x xs e = ground arith

-- A request in the middle of a queue: what stands before and behind it is other requests.
pub Distinct-middle :
    (pre : List ℕ) (r : ℕ) (rs : List ℕ)
    → Distinct (pre ++ r ∷ rs)
    → (found r pre ≡ false) × (found r rs ≡ false) × (remove r (pre ++ r ∷ rs) ≡ pre ++ rs)
Distinct-middle [] r rs h = (refl, h.0, remove-same r r rs (==_refl r))
Distinct-middle (x ∷ pre) r rs h =
    let ih = Distinct-middle pre r rs h.1 in
    let f = found-append x pre (r ∷ rs) in
    let ne : (r == x) ≡ false = ground arith in
    (ground arith, ih.1, remove-other r x (pre ++ r ∷ rs) ne ∙ ap (λ t. x ∷ t) ih.2)

pub found-middle : (r : ℕ) (pre rs : List ℕ) → found r (pre ++ r ∷ rs) ≡ true
found-middle r pre rs = ground (arith, found-append r pre (r ∷ rs))

found-remove : (x r : ℕ) (q : List ℕ) → found x (remove r q) ≡ true → found x q ≡ true
found-remove x r [] h = h
found-remove x r (y ∷ q) h = ground (arith, found-remove x r q)

absent-remove : (x r : ℕ) (q : List ℕ) → found x q ≡ false → found x (remove r q) ≡ false
absent-remove x r q h = elim (Bool-cases (found x (remove r q))) [
  | inl e ↦ (let f = found-remove x r q e in cc)
  | inr e ↦ e
]

remove-Distinct :
    (r : ℕ) (q : List ℕ) → Distinct q → Distinct (remove r q) × (found r (remove r q) ≡ false)
remove-Distinct r [] h = (tt, refl)
remove-Distinct r (y ∷ q) h = elim (Bool-cases (r == y)) [
  | inl e ↦ rw (remove-same r y q e) (h.1, rw ((==_iff r y).0 e) h.0)
  | inr e ↦
      (let ih = remove-Distinct r q h.1 in
        rw (remove-other r y q e) ((absent-remove y r q h.0, ih.0), rw e ih.1))
]

-- A request of the queue that goes on waiting
pub Queued-update :
    (stream : ℕ) (reqs : ℕ → Request) (r : ℕ) (q : Request) (rs : List ℕ)
    → Waits stream q
    → Queued stream reqs rs
    → Queued stream (update reqs r q) rs
Queued-update stream reqs r q rs w h = record {
  each = λ x f. elim (Bool-cases (r == x)) [ inl e ↦ rw e w | inr e ↦ rw e (h.each x f) ];
  once = h.once;
}

-- A request that leaves the queue
pub Queued-remove :
    (stream : ℕ) (reqs : ℕ → Request) (r : ℕ) (q : Request) (rs : List ℕ)
    → Queued stream reqs rs
    → Queued stream (update reqs r q) (remove r rs)
Queued-remove stream reqs r q rs h = record {
  each = λ x f. elim (Bool-cases (r == x)) [
    | inl e ↦ (let g = (remove-Distinct r rs h.once).1 in let same = (==_iff r x).0 e in cc)
    | inr e ↦ rw e (h.each x (found-remove x r rs f))
  ];
  once = (remove-Distinct r rs h.once).0;
}

-- Of request `r`, in the middle of a queue, the bytes `bs` have passed. They are the first bytes of
-- the queue if no request stands before it.
module _ (reqs : ℕ → Request) (q : Request) (pre : List ℕ) (r : ℕ) (rs bs : List ℕ)
    (once : Distinct (pre ++ r ∷ rs)) (passed : rest_of (reqs r) ≡ bs ++ rest_of q)
    (first : (pre ≡ []) ⊎ (bs ≡ [])) where
  middle : (found r pre ≡ false) × (found r rs ≡ false) × (remove r (pre ++ r ∷ rs) ≡ pre ++ rs)
  middle = Distinct-middle pre r rs once

  before : pending reqs (pre ++ r ∷ rs) ≡ pending reqs pre ++ (bs ++ (rest_of q ++ pending reqs rs))
  before = pending-append reqs pre (r ∷ rs) ∙ rw passed (simp append_assoc)

  swap :
      bs ++ (pending reqs pre ++ (rest_of q ++ pending reqs rs))
      ≡ pending reqs pre ++ (bs ++ (rest_of q ++ pending reqs rs))
  swap = elim first [ inl e ↦ rw (e, pending) refl | inr e ↦ rw e refl ]

  pub pending-kept : bs ++ pending (update reqs r q) (pre ++ r ∷ rs) ≡ pending reqs (pre ++ r ∷ rs)
  pending-kept =
      ap (λ t. bs ++ t)
        (pending-append (update reqs r q) pre (r ∷ rs)
          ∙ rw
              (
                pending-update reqs r q pre middle.0,
                pending-update reqs r q rs middle.1,
                update_at reqs r q,
              )
              refl)
      ∙ swap
      ∙ sym before

  pub pending-removed :
      rest_of q ≡ []
      → bs ++ pending (update reqs r q) (remove r (pre ++ r ∷ rs)) ≡ pending reqs (pre ++ r ∷ rs)
  pending-removed e =
      ap (λ t. bs ++ t)
        (ap (pending (update reqs r q)) middle.2
          ∙ pending-append (update reqs r q) pre rs
          ∙ rw (pending-update reqs r q pre middle.0, pending-update reqs r q rs middle.1, e) refl)
      ∙ swap
      ∙ sym before
