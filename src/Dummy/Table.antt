-- ===== src/Dummy/Table.antt =====
-- The endpoints that the controller offers (`ep_info` of patch/kernel/dummy_hcd.c): their names, and
-- their capabilities, a function of the direction.
use fuzzusb.Base.{List, [], ◌∷◌, Bool, true, false}
use fuzzusb.Usb.{Caps}
use Prim.Native.String.{String}

pub record Info : Type 0 where
  pub name : String
  pub caps : Caps

-- `EP_INFO(name, USB_EP_CAPS(types, direction))`: control, iso, bulk, interrupt, in, out
abbrev info : String → (Bool → Bool → Caps) → Bool → Bool → Info
info n types to_host to_device = record { name = n; caps = types to_host to_device }

abbrev control_caps : Bool → Bool → Caps
control_caps to_host to_device = record {
  type_control = true;
  type_iso = false;
  type_bulk = false;
  type_int = false;
  dir_in = to_host;
  dir_out = to_device;
}

abbrev iso_caps : Bool → Bool → Caps
iso_caps to_host to_device = record {
  type_control = false;
  type_iso = true;
  type_bulk = false;
  type_int = false;
  dir_in = to_host;
  dir_out = to_device;
}

abbrev bulk_caps : Bool → Bool → Caps
bulk_caps to_host to_device = record {
  type_control = false;
  type_iso = false;
  type_bulk = true;
  type_int = false;
  dir_in = to_host;
  dir_out = to_device;
}

abbrev int_caps : Bool → Bool → Caps
int_caps to_host to_device = record {
  type_control = false;
  type_iso = false;
  type_bulk = false;
  type_int = true;
  dir_in = to_host;
  dir_out = to_device;
}

-- `TYPE_BULK_OR_INT`
abbrev bulk_or_int_caps : Bool → Bool → Caps
bulk_or_int_caps to_host to_device = record {
  type_control = false;
  type_iso = false;
  type_bulk = true;
  type_int = true;
  dir_in = to_host;
  dir_out = to_device;
}

abbrev pub ep_info : List Info
ep_info =
    info "ep0" control_caps true true
    ∷ info "ep1in-bulk" bulk_caps true false
    ∷ info "ep2out-bulk" bulk_caps false true
    ∷ info "ep3in-iso" iso_caps true false
    ∷ info "ep4out-iso" iso_caps false true
    ∷ info "ep5in-int" int_caps true false
    ∷ info "ep6in-bulk" bulk_caps true false
    ∷ info "ep7out-bulk" bulk_caps false true
    ∷ info "ep8in-iso" iso_caps true false
    ∷ info "ep9out-iso" iso_caps false true
    ∷ info "ep10in-int" int_caps true false
    ∷ info "ep11in-bulk" bulk_caps true false
    ∷ info "ep12out-bulk" bulk_caps false true
    ∷ info "ep13in-iso" iso_caps true false
    ∷ info "ep14out-iso" iso_caps false true
    ∷ info "ep15in-int" int_caps true false
    ∷ info "ep1out-bulk" bulk_caps false true
    ∷ info "ep2in-bulk" bulk_caps true false
    ∷ info "ep3out" bulk_or_int_caps false true
    ∷ info "ep4in" bulk_or_int_caps true false
    ∷ info "ep5out" bulk_or_int_caps false true
    ∷ info "ep6out" bulk_or_int_caps false true
    ∷ info "ep7in" bulk_or_int_caps true false
    ∷ info "ep8out" bulk_or_int_caps false true
    ∷ info "ep9in" bulk_or_int_caps true false
    ∷ info "ep10out" bulk_or_int_caps false true
    ∷ info "ep11out" bulk_or_int_caps false true
    ∷ info "ep12in" bulk_or_int_caps true false
    ∷ info "ep13out" bulk_or_int_caps false true
    ∷ info "ep14in" bulk_or_int_caps true false
    ∷ info "ep15out" bulk_or_int_caps false true
    ∷ []
