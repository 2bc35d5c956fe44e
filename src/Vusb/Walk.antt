-- ===== src/Vusb/Walk.antt =====
-- The loop of `parse_usb_descriptor` over the descriptors of a device.
use mathlib.Core.Path.{subst}
use fuzzusb.Base.{
  ℕ, ◌+◌, ◌≤◌, ◌<◌, ◌≡◌, ◌≢◌, refl, sym, ap, ◌∙◌, List, [], ◌∷◌, ◌++◌, length, length-append,
  append-nil, append_assoc, arith, true, ltb, ◌==◌, ==_iff, if◌then◌else◌,
}
use fuzzusb.Vusb.{Memory, EpDesc, IfaceIndex, read_ep, new_iface, add_iface, push_ep, add_ep, note}
use fuzzusb.Vusb.Parse.{Ends, Ends-step}
use fuzzusb.Vusb.Config.{
  Endpoint, Other, Interface, encode_ep, encode_eps, encode_other, encode_others, head_of,
  encode_interface, encode_interfaces, OthersOk, InterfacesOk, Holds,
}

abbrev pub read_eps : Memory → ℕ → List Endpoint → List EpDesc
read_eps mem a [] = []
read_eps mem a (e ∷ es) = read_ep mem a ∷ read_eps mem (a + 7) es

add_ep-append :
    (e : EpDesc) (fs : List IfaceIndex) (f : IfaceIndex)
    → add_ep e (fs ++ f ∷ []) ≡ fs ++ push_ep e f ∷ []
unfolding add_ep
add_ep-append e [] f = refl
add_ep-append e (g ∷ []) f = refl
add_ep-append e (g ∷ h ∷ fs) f = ap (λ t. g ∷ t) (add_ep-append e (h ∷ fs) f)

-- `note` by the type of the descriptor
module _ (mem : Memory) (a : ℕ) (fs : List IfaceIndex) where
  abbrev by_type : ℕ → List IfaceIndex
  by_type t =
      if t == 4
      then add_iface (new_iface mem a) fs
      else if t == 5
      then add_ep (read_ep mem a) fs
      else fs

  note_ep : mem (a + 1) ≡ 5 → note mem a fs ≡ add_ep (read_ep mem a) fs
  note_ep h = ap by_type h

  note_iface : mem (a + 1) ≡ 4 → length fs < 4 → note mem a fs ≡ fs ++ new_iface mem a ∷ []
  note_iface h l = ap by_type h ∙ ground arith

  pub note_other : mem (a + 1) ≢ 4 → mem (a + 1) ≢ 5 → note mem a fs ≡ fs
  note_other h g = ground (arith, ==_iff (mem (a + 1)) 4, ==_iff (mem (a + 1)) 5)

pub Holds-append : (mem : Memory) (a : ℕ) (xs ys : List ℕ) → Holds mem a (xs ++ ys) → Holds mem a xs
Holds-append mem a [] ys h = tt
Holds-append mem a (x ∷ xs) ys h = (h.0, Holds-append mem (a + 1) xs ys h.1)

pub Holds-behind :
    (mem : Memory) (a : ℕ) (xs ys : List ℕ) → Holds mem a (xs ++ ys) → Holds mem (a + length xs) ys
Holds-behind mem a [] ys h = subst (λ b. Holds mem b ys) (omega arith) h
Holds-behind mem a (x ∷ xs) ys h =
    subst (λ b. Holds mem b ys) (omega arith) (Holds-behind mem (a + 1) xs ys h.1)

module _ (mem : Memory) (buffer len : ℕ) where
  abbrev pub Here : ℕ → List ℕ → Type 0
  Here o xs = Holds mem (buffer + o) xs

  pub Here-behind : (o n : ℕ) (xs ys : List ℕ) → length xs ≡ n → Here o (xs ++ ys) → Here (o + n) ys
  Here-behind o n xs ys e h =
      subst (λ b. Holds mem b ys) (omega arith) (Holds-behind mem (buffer + o) xs ys h)

  pub Ends-cast :
      (o o' : ℕ) (fs fs' gs : List IfaceIndex)
      → o ≡ o'
      → fs ≡ fs'
      → Ends mem buffer len o fs gs
      → Ends mem buffer len o' fs' gs
  Ends-cast o o' fs fs' gs p q h =
      subst (λ f. Ends mem buffer len o' f gs) q (subst (λ k. Ends mem buffer len k fs gs) p h)

  unfoldable pub with_eps : IfaceIndex → List EpDesc → IfaceIndex
  with_eps f es = record f { eps = f.eps ++ es }

  eps_Ends :
      (es : List Endpoint) (o : ℕ) (done : List IfaceIndex) (f : IfaceIndex) (gs : List IfaceIndex)
      → Here o (encode_eps es)
      → o + length (encode_eps es) ≤ len
      → length f.eps + length es ≤ 32
      → Ends mem buffer len
          (o + length (encode_eps es))
          (done ++ with_eps f (read_eps mem (buffer + o) es) ∷ [])
          gs
      → Ends mem buffer len o (done ++ f ∷ []) gs
  unfolding with_eps
  eps_Ends [] o done f gs h l n k =
      Ends-cast (o + 0) o (done ++ with_eps f [] ∷ []) (done ++ f ∷ []) gs (omega arith)
        (ap (λ es. done ++ record f { eps = es } ∷ []) (append-nil f.eps)) k
  eps_Ends (e ∷ es) o done f gs h l n k =
      let a = buffer + o in
      let g = with_eps f (read_ep mem a ∷ []) in
      let room : ltb (length f.eps) 32 ≡ true = ground arith in
      let next : a + 7 ≡ buffer + (o + 7) = omega arith in
      let noted : note mem a (done ++ f ∷ []) ≡ done ++ g ∷ [] =
        note_ep mem a (done ++ f ∷ []) h.1.0
        ∙ add_ep-append (read_ep mem a) done f
        ∙ rw room refl in
      Ends-step mem buffer len o 7 (done ++ f ∷ []) gs h.0 (omega arith) (omega arith) (
        Ends-cast (o + 7) (o + 7) (done ++ g ∷ []) (note mem a (done ++ f ∷ [])) gs refl (sym noted)
          (eps_Ends es (o + 7) done g gs (Here-behind o 7 (encode_ep e) (encode_eps es) refl h)
            (omega arith) (omega (arith, length-append f.eps (read_ep mem a ∷ [])))
            (Ends-cast (o + length (encode_ep e ++ encode_eps es)) (o + 7 + length (encode_eps es))
              (done ++ with_eps f (read_eps mem a (e ∷ es)) ∷ [])
              (done ++ with_eps g (read_eps mem (buffer + (o + 7)) es) ∷ []) gs (omega arith)
              (ap (λ t. done ++ record f { eps = t } ∷ [])
                (sym (append_assoc f.eps (read_ep mem a ∷ []) (read_eps mem (a + 7) es))
                  ∙ ap (λ b. (f.eps ++ read_ep mem a ∷ []) ++ read_eps mem b es) next))
              k)))

  others_Ends :
      (os : List Other) (o : ℕ) (fs gs : List IfaceIndex)
      → Here o (encode_others os)
      → o + length (encode_others os) ≤ len
      → OthersOk os
      → Ends mem buffer len (o + length (encode_others os)) fs gs
      → Ends mem buffer len o fs gs
  others_Ends [] o fs gs h l k e = Ends-cast (o + 0) o fs fs gs (omega arith) refl e
  others_Ends (x ∷ os) o fs gs h l k e =
      let a = buffer + o in
      let n = length x.body + 2 in
      let size = length-append (encode_other x) (encode_others os) in
      Ends-step mem buffer len o n fs gs h.0 (omega (arith, k.0.0)) (omega (arith, size)) (
        Ends-cast (o + n) (o + n) fs (note mem a fs) gs refl
          (sym (note_other mem a fs (λ t. k.0.1 (sym h.1.0 ∙ t)) (λ t. k.0.2 (sym h.1.0 ∙ t))))
          (others_Ends os (o + n) fs gs
            (Here-behind o n (encode_other x) (encode_others os) (omega arith) h)
            (omega (arith, size)) k.1
            (Ends-cast (o + length (encode_other x ++ encode_others os))
              (o + n + length (encode_others os)) fs fs gs (omega (arith, size)) refl e)))

  -- What the index has for an interface, and for all of them
  unfoldable pub read_iface : ℕ → Interface → IfaceIndex
  read_iface a f =
      with_eps (new_iface mem a) (read_eps mem (a + 9 + length (encode_others f.others)) f.eps)

  unfoldable pub read_ifaces : ℕ → List Interface → List IfaceIndex
  read_ifaces a [] = []
  read_ifaces a (f ∷ fs) = read_iface a f ∷ read_ifaces (a + length (encode_interface f)) fs

  pub interface_Ends :
      (f : Interface) (o : ℕ) (done gs : List IfaceIndex)
      → Here o (encode_interface f)
      → o + length (encode_interface f) ≤ len
      → length f.class ≡ 5
      → OthersOk f.others
      → length f.eps ≤ 32
      → length done < 4
      → Ends mem buffer len
          (o + length (encode_interface f))
          (done ++ read_iface (buffer + o) f ∷ [])
          gs
      → Ends mem buffer len o done gs
  unfolding read_iface with_eps
  interface_Ends f o done gs h l c k n room e =
      let a = buffer + o in
      let m = length (encode_others f.others) in
      let rest = encode_others f.others ++ encode_eps f.eps in
      let size = length-append (head_of f) rest in
      let size' = length-append (encode_others f.others) (encode_eps f.eps) in
      let behind = Here-behind o 9 (head_of f) rest (omega arith) h in
      let fs = done ++ new_iface mem a ∷ [] in
      Ends-step mem buffer len o 9 done gs h.0 (omega arith) (omega (arith, size)) (
        Ends-cast (o + 9) (o + 9) fs (note mem a done) gs refl
          (sym (note_iface mem a done h.1.0 room))
          (others_Ends f.others (o + 9) fs gs
            (Holds-append mem (buffer + (o + 9)) (encode_others f.others) (encode_eps f.eps) behind)
            (omega (arith, size, size')) k
            (eps_Ends f.eps (o + 9 + m) done (new_iface mem a) gs
              (Here-behind (o + 9) m (encode_others f.others) (encode_eps f.eps) refl behind)
              (omega (arith, size, size')) (omega arith)
              (Ends-cast (o + length (encode_interface f)) (o + 9 + m + length (encode_eps f.eps))
                (done ++ read_iface a f ∷ [])
                (done
                  ++ with_eps (new_iface mem a) (read_eps mem (buffer + (o + 9 + m)) f.eps) ∷ [])
                gs (omega (arith, size, size'))
                (ap (λ b. done ++ with_eps (new_iface mem a) (read_eps mem b f.eps) ∷ [])
                  (omega arith))
                e))))

  pub interfaces_Ends :
      (fs : List Interface) (o : ℕ) (done gs : List IfaceIndex)
      → Here o (encode_interfaces fs)
      → o + length (encode_interfaces fs) ≤ len
      → InterfacesOk fs
      → length done + length fs ≤ 4
      → Ends mem buffer len
          (o + length (encode_interfaces fs))
          (done ++ read_ifaces (buffer + o) fs)
          gs
      → Ends mem buffer len o done gs
  unfolding read_ifaces
  interfaces_Ends [] o done gs h l k n e =
      Ends-cast (o + 0) o (done ++ []) done gs (omega arith) (append-nil done) e
  interfaces_Ends (f ∷ fs) o done gs h l k n e =
      let m = length (encode_interface f) in
      let g = read_iface (buffer + o) f in
      let size = length-append (encode_interface f) (encode_interfaces fs) in
      interface_Ends f o done gs
        (Holds-append mem (buffer + o) (encode_interface f) (encode_interfaces fs) h)
        (omega (arith, size)) k.0.0 k.0.1 k.0.2 (omega arith)
        (interfaces_Ends fs (o + m) (done ++ g ∷ []) gs
          (Here-behind o m (encode_interface f) (encode_interfaces fs) refl h) (omega (arith, size))
          k.1 (omega (arith, length-append done (g ∷ [])))
          (Ends-cast (o + length (encode_interface f ++ encode_interfaces fs))
            (o + m + length (encode_interfaces fs)) (done ++ read_ifaces (buffer + o) (f ∷ fs))
            ((done ++ g ∷ []) ++ read_ifaces (buffer + (o + m)) fs) gs (omega (arith, size))
            (sym (append_assoc done (g ∷ []) (read_ifaces (buffer + o + m) fs))
              ∙ ap (λ b. (done ++ g ∷ []) ++ read_ifaces b fs) (omega arith))
            e))
