-- ===== src/Usbtest/Select/First.antt =====
-- The selection against an independent description: the first endpoint of each kind.
use fuzzusb.Base.{
  ℕ, zero, suc, ◌+◌, ◌<◌, Bool, true, false, not, ◌&&◌, ◌≡◌, refl, ap, ◌∙◌, Option, none, some,
  List, [], ◌∷◌, arith, if◌then◌else◌, ◌==◌,
}
use fuzzusb.Usb.{Ret, Descriptor, TransferType, control, isoc, bulk, interrupt, is_dir_in}
use fuzzusb.Usbtest.Select.{
  AltSetting, TestInfo, TestDev, Found, nothing_found, is_set, consider_as, consider, suffices,
  overrides, search_alts, fz_search_alts, or_old, at_found, get_endpoints, fz_at_found,
  fz_get_endpoints,
}

abbrev pub same_type : TransferType → TransferType → Bool
same_type bulk bulk = true
same_type interrupt interrupt = true
same_type isoc isoc = true
same_type control control = true
same_type _ _ = false

-- The first endpoint of a type to the host (`true`) or to the device, where the type is wanted
abbrev pub first_ep : Bool → TransferType → Bool → List Descriptor → Option Descriptor
first_ep wanted t dir [] = none
first_ep wanted t dir (e ∷ es) =
    if wanted
      && same_type t e.transfer_type
      && (if dir then is_dir_in e.endpoint_address else not (is_dir_in e.endpoint_address))
    then some e
    else first_ep wanted t dir es

abbrev pub firsts : TestInfo → List Descriptor → Found
firsts info es = record {
  bulk_in = first_ep true bulk true es;
  bulk_out = first_ep true bulk false es;
  iso_in = first_ep info.iso isoc true es;
  iso_out = first_ep info.iso isoc false es;
  int_in = first_ep info.intr interrupt true es;
  int_out = first_ep info.intr interrupt false es;
}

abbrev or_found : Found → Found → Found
or_found f g = record {
  bulk_in = or_old f.bulk_in g.bulk_in;
  bulk_out = or_old f.bulk_out g.bulk_out;
  iso_in = or_old f.iso_in g.iso_in;
  iso_out = or_old f.iso_out g.iso_out;
  int_in = or_old f.int_in g.int_in;
  int_out = or_old f.int_out g.int_out;
}

consider_as_lem :
    (t : TransferType) (info : TestInfo) (e : Descriptor) (es : List Descriptor) (f : Found)
    → e.transfer_type ≡ t
    → or_found (consider_as t info e f) (firsts info es) ≡ or_found f (firsts info (e ∷ es))
consider_as_lem bulk info e es f h = ground arith
consider_as_lem interrupt info e es f h = ground arith
consider_as_lem isoc info e es f h = ground arith
consider_as_lem control info e es f h = ground arith

consider_lem :
    (info : TestInfo) (es : List Descriptor) (f : Found)
    → consider info es f ≡ or_found f (firsts info es)
unfolding consider
consider_lem info [] f = ground arith
consider_lem info (e ∷ es) f =
    consider_lem info es (consider_as e.transfer_type info e f)
    ∙ consider_as_lem e.transfer_type info e es f refl

fresh_lem :
    (info : TestInfo) (es : List Descriptor) → consider info es nothing_found ≡ firsts info es
fresh_lem info es = consider_lem info es nothing_found

-- A setting with its first endpoints, if they suffice
abbrev pub offer : TestInfo → AltSetting → Option (AltSetting × Found)
offer info a = if suffices (firsts info a.eps) then some (a, firsts info a.eps) else none

-- The first setting that may be used and has what is needed
abbrev pub first_alt : (ℕ → Bool) → TestInfo → List AltSetting → Option (AltSetting × Found)
first_alt may info [] = none
first_alt may info (a ∷ as') =
    if may a.alternate_setting && is_set (offer info a)
    then offer info a
    else first_alt may info as'

abbrev pub setting_at : List AltSetting → ℕ → Option AltSetting
setting_at [] n = none
setting_at (a ∷ as') zero = some a
setting_at (a ∷ as') (suc n) = setting_at as' n

abbrev pub only_alt : TestInfo → Option AltSetting → Option (AltSetting × Found)
only_alt info none = none
only_alt info (some a) = offer info a

choose {ℓ} :
    {A : Type ℓ} (b s : Bool) (x : A) (rest other : Option A)
    → rest ≡ other
    → (if b then rest else if s then some x else rest) ≡ (
        if not b && is_set (if s then some x else none)
        then (if s then some x else none)
        else other)
choose true s x rest other e = e
choose false true x rest other e = refl
choose false false x rest other e = e

search_alts_lem :
    (o : Option ℕ) (info : TestInfo) (alts : List AltSetting)
    → search_alts o info alts ≡ first_alt (λ n. not (overrides o n)) info alts
unfolding search_alts
search_alts_lem o info [] = refl
search_alts_lem o info (a ∷ as') = rw (fresh_lem info a.eps) (
    choose (overrides o a.alternate_setting) (suffices (firsts info a.eps)) (a, firsts info a.eps)
      (search_alts o info as') (first_alt (λ n. not (overrides o n)) info as')
      (search_alts_lem o info as'))

fz_search_alts_behind :
    (k tmp : ℕ) (info : TestInfo) (alts : List AltSetting)
    → k < tmp
    → fz_search_alts k tmp info alts ≡ none
unfolding fz_search_alts
fz_search_alts_behind k tmp info [] l = refl
fz_search_alts_behind k tmp info (a ∷ as') l =
    ground (arith, fz_search_alts_behind k (tmp + 1) info as')

fz_search_alts_lem :
    (n k tmp : ℕ) (info : TestInfo) (alts : List AltSetting)
    → tmp + n ≡ k
    → fz_search_alts k tmp info alts ≡ only_alt info (setting_at alts n)
unfolding fz_search_alts
fz_search_alts_lem n k tmp info [] l = refl
fz_search_alts_lem zero k tmp info (a ∷ as') l =
    let here : (tmp == k) ≡ true = ground arith in
    rw (fresh_lem info a.eps, here, fz_search_alts_behind k (tmp + 1) info as' (omega arith)) refl
fz_search_alts_lem (suc n) k tmp info (a ∷ as') l =
    let there : (tmp == k) ≡ false = ground arith in
    rw there (fz_search_alts_lem n k (tmp + 1) info as' (omega arith))

-- `get_endpoints` takes the first alternate setting that the module parameter allows and that has a
-- bulk endpoint in each direction or a wanted interrupt or isochronous endpoint, with its first
-- endpoint of each kind in each direction; without such a setting it changes nothing.
pub get_endpoints_lem :
    (set_interface : ℕ → ℕ → Ret) (override_alt : Option ℕ) (alts : List AltSetting) (d : TestDev)
    → get_endpoints set_interface override_alt alts d
      ≡ at_found set_interface (first_alt (λ n. not (overrides override_alt n)) d.info alts) d
unfolding get_endpoints
get_endpoints_lem set_interface override_alt alts d =
    ap (λ o. at_found set_interface o d) (search_alts_lem override_alt d.info alts)

-- `fz_get_endpoints` takes the alternate setting at the given place and no other, if it has a bulk
-- endpoint in each direction or a wanted interrupt or isochronous endpoint, with its first endpoint
-- of each kind in each direction; else it changes nothing.
pub fz_get_endpoints_lem :
    (set_interface : ℕ → ℕ → Ret) (fix_alt : ℕ) (alts : List AltSetting) (d : TestDev)
    → fz_get_endpoints set_interface fix_alt alts d
      ≡ fz_at_found set_interface (only_alt d.info (setting_at alts fix_alt)) d
unfolding fz_get_endpoints
fz_get_endpoints_lem set_interface fix_alt alts d =
    ap (λ o. fz_at_found set_interface o d)
      (fz_search_alts_lem fix_alt fix_alt 0 d.info alts (omega arith))
