-- ===== src/Usbtest/Select.antt =====
-- Which endpoints the test driver takes: `get_endpoints` and `fz_get_endpoints` of
-- patch/kernel/usbtest.c.
pub mod First
use fuzzusb.Base.{
  ℕ, zero, suc, ◌+◌, Bool, true, false, not, ◌&&◌, ◌||◌, Option, none, some, List, [], ◌∷◌,
  if◌then◌else◌, ◌==◌,
}
use fuzzusb.Usb.{
  Ret, ret, err, Errno, Descriptor, TransferType, control, isoc, bulk, interrupt, is_dir_in,
  endpoint_num,
}

-- `usb_rcvbulkpipe` and its like, with the number of the endpoint
pub data Pipe : Type 0 where
  rcv_bulk snd_bulk rcv_isoc snd_isoc rcv_int snd_int : ℕ → Pipe

-- `struct usb_host_interface`: its numbers and its endpoints
pub record AltSetting : Type 0 where
  pub interface_number : ℕ
  pub alternate_setting : ℕ
  pub eps : List Descriptor

-- The fields of `struct usbtest_info` that the selection reads and writes
pub record TestInfo : Type 0 where
  pub intr : Bool
  pub iso : Bool
  pub alt : Option ℕ
  pub in_bulk_pipe : Option Pipe
  pub out_bulk_pipe : Option Pipe
  pub in_iso_pipe : Option Pipe
  pub out_iso_pipe : Option Pipe
  pub in_int_pipe : Option Pipe
  pub out_int_pipe : Option Pipe
  pub iso_in : Option Descriptor
  pub iso_out : Option Descriptor
  pub int_in : Option Descriptor
  pub int_out : Option Descriptor

-- `struct usbtest_dev`, with the calls of `usb_set_interface`, the newest first
pub record TestDev : Type 0 where
  pub info : TestInfo
  pub in_pipe : Option Pipe
  pub out_pipe : Option Pipe
  pub in_iso_pipe : Option Pipe
  pub out_iso_pipe : Option Pipe
  pub in_int_pipe : Option Pipe
  pub out_int_pipe : Option Pipe
  pub iso_in : Option Descriptor
  pub iso_out : Option Descriptor
  pub int_in : Option Descriptor
  pub int_out : Option Descriptor
  pub settings : List (ℕ × ℕ)

-- The local variables of the selection
pub record Found : Type 0 where
  pub bulk_in : Option Descriptor
  pub bulk_out : Option Descriptor
  pub iso_in : Option Descriptor
  pub iso_out : Option Descriptor
  pub int_in : Option Descriptor
  pub int_out : Option Descriptor

abbrev pub nothing_found : Found
nothing_found = record {
  bulk_in = none;
  bulk_out = none;
  iso_in = none;
  iso_out = none;
  int_in = none;
  int_out = none;
}

abbrev pub is_set {ℓ} : {A : Type ℓ} → Option A → Bool
is_set none = false
is_set (some a) = true

-- `if (!*in) *in = e`
abbrev pub keep_first {ℓ} : {A : Type ℓ} → Option A → A → Option A
keep_first none e = some e
keep_first (some a) e = some a

abbrev pub endpoint_update :
    Bool
    → Option Descriptor
    → Option Descriptor
    → Descriptor
    → Option Descriptor × Option Descriptor
endpoint_update true in_ep out_ep e = (keep_first in_ep e, out_ep)
endpoint_update false in_ep out_ep e = (in_ep, keep_first out_ep e)

abbrev pub take_bulk : Option Descriptor × Option Descriptor → Found → Found
take_bulk (i, o) f = record f { bulk_in = i; bulk_out = o }

abbrev pub take_int : Option Descriptor × Option Descriptor → Found → Found
take_int (i, o) f = record f { int_in = i; int_out = o }

abbrev pub take_iso : Option Descriptor × Option Descriptor → Found → Found
take_iso (i, o) f = record f { iso_in = i; iso_out = o }

-- One round of the loop over the endpoints
abbrev pub consider_as : TransferType → TestInfo → Descriptor → Found → Found
consider_as bulk info e f =
    take_bulk (endpoint_update (is_dir_in e.endpoint_address) f.bulk_in f.bulk_out e) f
consider_as interrupt info e f =
    if info.intr
    then take_int (endpoint_update (is_dir_in e.endpoint_address) f.int_in f.int_out e) f
    else f
consider_as isoc info e f =
    if info.iso
    then take_iso (endpoint_update (is_dir_in e.endpoint_address) f.iso_in f.iso_out e) f
    else f
consider_as control info e f = f

unfoldable pub consider : TestInfo → List Descriptor → Found → Found
consider info [] f = f
consider info (e ∷ es) f = consider info es (consider_as e.transfer_type info e f)

abbrev pub suffices : Found → Bool
suffices f =
    (is_set f.bulk_in && is_set f.bulk_out)
    || is_set f.iso_in
    || is_set f.iso_out
    || is_set f.int_in
    || is_set f.int_out

-- The loop over the alternate settings of `get_endpoints`; `override_alt` is `none` below 0.
abbrev pub overrides : Option ℕ → ℕ → Bool
overrides none n = false
overrides (some k) n = not (k == n)

unfoldable pub search_alts : Option ℕ → TestInfo → List AltSetting → Option (AltSetting × Found)
unfolding consider
search_alts override_alt info [] = none
search_alts override_alt info (a ∷ as') =
    let f = consider info a.eps nothing_found in
    let rest = search_alts override_alt info as' in
    if overrides override_alt a.alternate_setting
    then rest
    else if suffices f
    then some (a, f)
    else rest

-- The loop of `fz_get_endpoints`, from number `tmp`
unfoldable pub fz_search_alts : ℕ → ℕ → TestInfo → List AltSetting → Option (AltSetting × Found)
unfolding consider
fz_search_alts fix_alt tmp info [] = none
fz_search_alts fix_alt tmp info (a ∷ as') =
    let f = consider info a.eps nothing_found in
    let rest = fz_search_alts fix_alt (tmp + 1) info as' in
    if not (tmp == fix_alt) then rest else if suffices f then some (a, f) else rest

abbrev pub pipe_or : (ℕ → Pipe) → Option Descriptor → Option Pipe → Option Pipe
pipe_or make none old = old
pipe_or make (some e) old = some (make (endpoint_num e))

abbrev pub or_old {ℓ} : {A : Type ℓ} → Option A → Option A → Option A
or_old none old = old
or_old (some a) old = some a

-- What follows the label `found` of `get_endpoints`
abbrev pub record_pipes : Found → TestDev → TestDev
record_pipes f d = record d {
  in_pipe = pipe_or rcv_bulk f.bulk_in d.in_pipe;
  out_pipe = pipe_or snd_bulk f.bulk_out d.out_pipe;
  in_iso_pipe = pipe_or rcv_isoc f.iso_in d.in_iso_pipe;
  out_iso_pipe = pipe_or snd_isoc f.iso_out d.out_iso_pipe;
  in_int_pipe = pipe_or rcv_int f.int_in d.in_int_pipe;
  out_int_pipe = pipe_or snd_int f.int_out d.out_int_pipe;
  iso_in = or_old f.iso_in d.iso_in;
  iso_out = or_old f.iso_out d.iso_out;
  int_in = or_old f.int_in d.int_in;
  int_out = or_old f.int_out d.int_out;
}

-- `fz_get_endpoints` writes the same to `dev->info`.
abbrev pub record_info : Found → TestInfo → TestInfo
record_info f info = record info {
  in_bulk_pipe = pipe_or rcv_bulk f.bulk_in info.in_bulk_pipe;
  out_bulk_pipe = pipe_or snd_bulk f.bulk_out info.out_bulk_pipe;
  in_iso_pipe = pipe_or rcv_isoc f.iso_in info.in_iso_pipe;
  out_iso_pipe = pipe_or snd_isoc f.iso_out info.out_iso_pipe;
  in_int_pipe = pipe_or rcv_int f.int_in info.in_int_pipe;
  out_int_pipe = pipe_or snd_int f.int_out info.out_int_pipe;
  iso_in = or_old f.iso_in info.iso_in;
  iso_out = or_old f.iso_out info.iso_out;
  int_in = or_old f.int_in info.int_in;
  int_out = or_old f.int_out info.int_out;
}

abbrev pub fz_record_pipes : Found → TestDev → TestDev
fz_record_pipes f d = record (record_pipes f d) { info = record_info f d.info }

-- `usb_set_interface`, by its answer, unless the setting is the default
abbrev pub after_setting : Ret → (TestDev → TestDev) → TestDev → Ret × TestDev
after_setting (err e) next d = (err e, d)
after_setting (ret n) next d = (ret 0, next d)

abbrev pub switch_to : (ℕ → ℕ → Ret) → AltSetting → (TestDev → TestDev) → TestDev → Ret × TestDev
switch_to set_interface a next d =
    let d' = record d { settings = (a.interface_number, a.alternate_setting) ∷ d.settings } in
    if a.alternate_setting == 0
    then (ret 0, next d)
    else after_setting (set_interface a.interface_number a.alternate_setting) next d'

abbrev pub at_found : (ℕ → ℕ → Ret) → Option (AltSetting × Found) → TestDev → Ret × TestDev
at_found set_interface none d = (ret 0, d)
at_found set_interface (some (a, f)) d =
    switch_to set_interface a (record_pipes f)
      (record d { info = record d.info { alt = some a.alternate_setting } })

unfoldable pub get_endpoints : (ℕ → ℕ → Ret) → Option ℕ → List AltSetting → TestDev → Ret × TestDev
unfolding search_alts
get_endpoints set_interface override_alt alts d =
    at_found set_interface (search_alts override_alt d.info alts) d

abbrev pub fz_at_found : (ℕ → ℕ → Ret) → Option (AltSetting × Found) → TestDev → Ret × TestDev
fz_at_found set_interface none d = (ret 0, d)
fz_at_found set_interface (some (a, f)) d = switch_to set_interface a (fz_record_pipes f) d

unfoldable pub fz_get_endpoints : (ℕ → ℕ → Ret) → ℕ → List AltSetting → TestDev → Ret × TestDev
unfolding fz_search_alts
fz_get_endpoints set_interface fix_alt alts d =
    fz_at_found set_interface (fz_search_alts fix_alt 0 d.info alts) d
