-- ===== src/Endpoint/Enable.antt =====
-- `dummy_enable` and `dummy_disable` of patch/kernel/dummy_hcd.c.
use fuzzusb.Base.{
  ℕ, Bool, true, false, not, ◌&&◌, ◌||◌, Option, none, some, if◌then◌else◌, ltb, leb, ◌==◌,
}
use fuzzusb.Usb.{
  Speed, full, high, super, TransferType, isoc, bulk, interrupt, Ret, ret, err, einval, eshutdown,
  Descriptor, dt_endpoint, is_bulk,
}
use fuzzusb.Usb.Port
use fuzzusb.Dummy.{Dummy, Ep, Env}
use fuzzusb.Dummy.Access.{hcd, gadget_hcd, set_ep}
use fuzzusb.Nuke.{nuke}
use Prim.Native.String.{String}
use text.Mathlib.Text.{◌==◌ as str_eq, find?}

abbrev pub is_some {ℓ} : {A : Type ℓ} → Option A → Bool
is_some none = false
is_some (some a) = true

-- `strstr(name, part) != NULL`
abbrev pub has_part : String → String → Bool
has_part name part = is_some (find? name part)

-- `_ep->name == ep0name`: the table gives that name to no other endpoint
abbrev pub is_ep0 : Ep → Bool
is_ep0 e = str_eq e.name "ep0"

-- `is_enabled(gadget_to_dummy_hcd(&dum->gadget))`
abbrev pub port_enabled : Dummy → Bool
port_enabled d = (hcd d (gadget_hcd d)).port_status Port.enable

-- The inner `switch` for bulk endpoints
unfoldable pub bulk_size : Speed → ℕ → Bool
bulk_size super max = max == 1024
bulk_size high max = max == 512
bulk_size full max = max == 8 || max == 16 || max == 32 || max == 64
bulk_size _ max = false

-- The inner `switch` for interrupt endpoints: each case falls through to the next
unfoldable pub interrupt_size : Speed → ℕ → Bool
interrupt_size super max = leb max 1024 || leb max 64 || leb max 8
interrupt_size high max = leb max 1024 || leb max 64 || leb max 8
interrupt_size full max = leb max 64 || leb max 8
interrupt_size _ max = leb max 8

-- The inner `switch` for isochronous endpoints
unfoldable pub isoc_size : Speed → ℕ → Bool
isoc_size super max = leb max 1024 || leb max 1023
isoc_size high max = leb max 1024 || leb max 1023
isoc_size full max = leb max 1023
isoc_size _ max = false

-- `switch (usb_endpoint_type(desc))`: does it reach its end without `goto done`?
unfoldable pub accepts : String → Speed → TransferType → ℕ → Bool
unfolding bulk_size interrupt_size isoc_size
accepts name speed bulk max =
    not (has_part name "-iso" || has_part name "-int") && bulk_size speed max
accepts name speed interrupt max = not (has_part name "-iso") && interrupt_size speed max
accepts name speed isoc max =
    not (has_part name "-bulk" || has_part name "-int") && isoc_size speed max
accepts name speed _ max = false

-- From `_ep->maxpacket = max` on
unfoldable pub finish_enable : ℕ → Descriptor → Dummy → Ret × Dummy
finish_enable i desc d =
    let e = record (d.ep i) { maxpacket = desc.maxp } in
    if ltb 0 e.comp_streams && not (is_bulk desc.transfer_type)
    then (err einval, set_ep i e d)
    else (
      ret 0,
      set_ep i
          (record e {
            stream_en = ltb 0 e.comp_streams || e.stream_en;
            desc = some desc;
            halted = false;
            wedged = false;
          })
          d,
    )

unfoldable pub enable : Option ℕ → Option Descriptor → Dummy → Ret × Dummy
unfolding finish_enable
enable none _ d = (err einval, d)
enable (some i) none d = (err einval, d)
enable (some i) (some desc) d =
    if is_some (d.ep i).desc || is_ep0 (d.ep i) || not (desc.descriptor_type == dt_endpoint)
    then (err einval, d)
    else if not (is_some d.driver)
    then (err eshutdown, d)
    else if not (port_enabled d)
    then (err eshutdown, d)
    else if not (accepts (d.ep i).name d.speed desc.transfer_type desc.maxp)
    then (err einval, d)
    else finish_enable i desc d

unfoldable pub disable : Env → Option ℕ → Dummy → Ret × Dummy
disable env none d = (err einval, d)
disable env (some i) d =
    if not (is_some (d.ep i).desc) || is_ep0 (d.ep i)
    then (err einval, d)
    else (ret 0, nuke env i (set_ep i (record (d.ep i) { desc = none; stream_en = false }) d))
