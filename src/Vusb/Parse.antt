-- ===== src/Vusb/Parse.antt =====
-- `parse_usb_descriptor` ends, and its index stays within its arrays, whatever the memory holds.
use fuzzusb.Base.{
  pick, ℕ, zero, suc, ◌+◌, ◌-◌, ◌%◌, ◌^◌, ◌≤◌, ◌<◌, ◌≡◌, refl, Option, none, some, List, [], ◌∷◌,
  ◌++◌, length, length-append, arith, ap, ltb, leb, ◌==◌, if◌then◌else◌,
}
use fuzzusb.Vusb.{
  Memory, EpDesc, IfaceIndex, read_ep, new_iface, add_iface, push_ep, add_ep, note, walk, Parsed,
  out_of_fuel, rejected, parsed, index_of, parse_usb_descriptor,
}

-- No interface has more endpoints than its array.
abbrev pub EpsFit : List IfaceIndex → Type 0
EpsFit [] = Unit {0}
EpsFit (f ∷ fs) = (length f.eps ≤ 32) × EpsFit fs

-- The index stays within its arrays.
abbrev pub Fits : List IfaceIndex → Type 0
Fits fs = (length fs ≤ 4) × EpsFit fs

EpsFit-append :
    (fs : List IfaceIndex) (f : IfaceIndex) → EpsFit fs → length f.eps ≤ 32 → EpsFit (fs ++ f ∷ [])
EpsFit-append [] f h l = (l, tt)
EpsFit-append (g ∷ fs) f h l = (h.0, EpsFit-append fs f h.1 l)

push_ep-fits : (e : EpDesc) (f : IfaceIndex) → length f.eps ≤ 32 → length (push_ep e f).eps ≤ 32
push_ep-fits e f l = ground (arith, length-append f.eps (e ∷ []))

add_ep-length : (e : EpDesc) (fs : List IfaceIndex) → length (add_ep e fs) ≡ length fs
unfolding add_ep
add_ep-length e [] = refl
add_ep-length e (f ∷ []) = refl
add_ep-length e (f ∷ g ∷ fs) = ap suc (add_ep-length e (g ∷ fs))

add_ep-EpsFit : (e : EpDesc) (fs : List IfaceIndex) → EpsFit fs → EpsFit (add_ep e fs)
unfolding add_ep
add_ep-EpsFit e [] h = tt
add_ep-EpsFit e (f ∷ []) h = (push_ep-fits e f h.0, tt)
add_ep-EpsFit e (f ∷ g ∷ fs) h = (h.0, add_ep-EpsFit e (g ∷ fs) h.1)

note-Fits : (mem : Memory) (a : ℕ) (fs : List IfaceIndex) → Fits fs → Fits (note mem a fs)
note-Fits mem a fs h =
    let f = new_iface mem a in
    let e = read_ep mem a in
    pick Fits (mem (a + 1) == 4) (add_iface f fs) (if mem (a + 1) == 5 then add_ep e fs else fs)
      (λ _.
        pick Fits (ltb (length fs) 4) (fs ++ f ∷ []) fs
          (λ l. (ground (arith, length-append fs (f ∷ [])), EpsFit-append fs f h.1 (omega arith)))
          (λ _. h))
      (λ _.
        pick Fits (mem (a + 1) == 5) (add_ep e fs) fs
          (λ _. (rw (add_ep-length e fs) h.0, add_ep-EpsFit e fs h.1)) (λ _. h))

-- The loop ends with `gs`, given enough fuel.
abbrev pub Ends : Memory → ℕ → ℕ → ℕ → List IfaceIndex → List IfaceIndex → Type 0
Ends mem buffer len offset fs gs =
    (fuel : ℕ) → 0 < fuel → len ≤ offset + fuel → walk fuel mem buffer len offset fs ≡ some gs

module _ (mem : Memory) (buffer len : ℕ) where
  pub Ends-behind : (o : ℕ) (fs : List IfaceIndex) → len ≤ o + 1 → Ends mem buffer len o fs fs
  unfolding walk
  Ends-behind o fs h zero p l = absurd (omega arith)
  Ends-behind o fs h (suc n) p l = ground arith

  pub Ends-step :
      (o n : ℕ) (fs gs : List IfaceIndex)
      → mem (buffer + o) ≡ n
      → 3 ≤ n
      → o + n ≤ len
      → Ends mem buffer len (o + n) (note mem (buffer + o) fs) gs
      → Ends mem buffer len o fs gs
  unfolding walk
  Ends-step o n fs gs e t h k zero p l = absurd (omega arith)
  Ends-step o n fs gs e t h k (suc f) p l =
      rw e (ground (arith, rw e at (k f (omega arith) (omega arith))))

  abbrev Held : Option (List IfaceIndex) → Type 0
  Held none = ⊥
  Held (some gs) = Fits gs

  walk-Fits :
      (fuel o : ℕ) (fs : List IfaceIndex)
      → o ≤ len
      → len < o + fuel
      → Fits fs
      → Held (walk fuel mem buffer len o fs)
  unfolding walk
  walk-Fits zero o fs b l h = absurd (omega arith)
  walk-Fits (suc f) o fs b l h =
      let a = buffer + o in
      let rest = walk f mem buffer len (o + mem a) (note mem a fs) in
      let long = if ltb len (o + mem a) then some fs else rest in
      let sized = if leb (mem a) 2 then some fs else long in
      pick Held (leb len (o + 1)) (some fs) sized (λ _. h)
        (λ _.
          pick Held (leb (mem a) 2) (some fs) long (λ _. h)
            (λ n.
              pick Held (ltb len (o + mem a)) (some fs) rest (λ _. h)
                (λ m.
                  walk-Fits f (o + mem a) (note mem a fs) (ground arith) (ground arith)
                    (note-Fits mem a fs h))))

-- What a parse of `len` bytes comes to
abbrev pub Sound : ℕ → Parsed → Type 0
Sound len out_of_fuel = ⊥
Sound len rejected = len < 27
Sound len (parsed x) =
    (27 ≤ len) × Fits x.ifaces × (x.config_length ≡ (len - 18) % 2 ^ 32) × (x.iface_cur ≡ none)

index_of-Sound :
    (mem : Memory) (buffer len : ℕ) (o : Option (List IfaceIndex))
    → 27 ≤ len
    → Held mem buffer len o
    → Sound len (index_of mem buffer len o)
index_of-Sound mem buffer len none l h = h
index_of-Sound mem buffer len (some fs) l h = (l, h, refl, refl)

-- The parse of a buffer ends, rejects it exactly if it is shorter than the device and configuration
-- descriptors, and else gives an index with at most 4 interfaces of at most 32 endpoints each, no
-- current interface, and the low 32 bits of the length behind the device descriptor, whatever the
-- bytes are. (A buffer ends so far below 2 ^ 64 that no offset wraps around.)
pub parse-Sound : (mem : Memory) (buffer len : ℕ) → Sound len (parse_usb_descriptor mem buffer len)
unfolding parse_usb_descriptor
parse-Sound mem buffer len =
    let fs = walk (len + 1) mem buffer len 0 [] in
    pick (Sound len) (ltb len 27) rejected (index_of mem buffer len fs) (λ e. ground arith)
      (λ e.
        index_of-Sound mem buffer len fs (ground arith)
          (walk-Fits mem buffer len (len + 1) 0 [] (omega arith) (omega arith) (omega arith, tt)))
