-- ===== src/Endpoint/Legal.antt =====
-- Which endpoints can be enabled, and what that changes.
use fuzzusb.Base.{ℕ, true, false, some, ◌≡◌, ◌≢◌, ◌≤◌, ◌⊎◌, ◌↔◌, arith}
use fuzzusb.Usb.{
  Speed, unknown, full, high, super, TransferType, control, isoc, bulk, interrupt, ret, Descriptor,
  dt_endpoint, is_bulk,
}
use fuzzusb.Dummy.{Dummy}
use fuzzusb.Endpoint.Enable.{has_part, is_some, is_ep0, port_enabled, accepts, enable}
use Prim.Native.String.{String}

-- The packet sizes that the emulator allows for each transfer type and speed
abbrev pub LegalSize : TransferType → Speed → ℕ → Type 0
LegalSize control speed m = ⊥
LegalSize bulk super m = m ≡ 1024
LegalSize bulk high m = m ≡ 512
LegalSize bulk full m = (m ≡ 8) ⊎ (m ≡ 16) ⊎ (m ≡ 32) ⊎ (m ≡ 64)
LegalSize bulk _ m = ⊥
LegalSize interrupt super m = m ≤ 1024
LegalSize interrupt high m = m ≤ 1024
LegalSize interrupt full m = m ≤ 64
LegalSize interrupt _ m = m ≤ 8
LegalSize isoc super m = m ≤ 1024
LegalSize isoc high m = m ≤ 1024
LegalSize isoc full m = m ≤ 1023
LegalSize isoc _ m = ⊥

-- A fixed-function endpoint's name rules out the other transfer types; an interrupt endpoint may
-- have a bulk name.
abbrev pub FitsName : TransferType → String → Type 0
FitsName control name = ⊥
FitsName bulk name = (has_part name "-iso" ≡ false) × (has_part name "-int" ≡ false)
FitsName interrupt name = has_part name "-iso" ≡ false
FitsName isoc name = (has_part name "-bulk" ≡ false) × (has_part name "-int" ≡ false)

accepts-LegalSize :
    (name : String) (speed : Speed) (t : TransferType) (m : ℕ)
    → accepts name speed t m ≡ true
    → LegalSize t speed m × FitsName t name
unfolding accepts
accepts-LegalSize name unknown bulk m h = ground arith
accepts-LegalSize name speed bulk m h = ground arith
accepts-LegalSize name unknown interrupt m h = ground arith
accepts-LegalSize name speed interrupt m h = ground arith
accepts-LegalSize name unknown isoc m h = ground arith
accepts-LegalSize name speed isoc m h = ground arith
accepts-LegalSize name unknown control m h = cc
accepts-LegalSize name speed control m h = cc

LegalSize-accepts :
    (name : String) (speed : Speed) (t : TransferType) (m : ℕ)
    → LegalSize t speed m
    → FitsName t name
    → accepts name speed t m ≡ true
unfolding accepts
LegalSize-accepts name unknown bulk m l f = ground arith
LegalSize-accepts name speed bulk m l f = ground arith
LegalSize-accepts name unknown interrupt m l f = ground arith
LegalSize-accepts name speed interrupt m l f = ground arith
LegalSize-accepts name unknown isoc m l f = ground arith
LegalSize-accepts name speed isoc m l f = ground arith
LegalSize-accepts name unknown control m l f = absurd l
LegalSize-accepts name speed control m l f = absurd l

-- What must hold for endpoint `i` to be enabled with the descriptor
pub record CanEnable (i : ℕ) (desc : Descriptor) (d : Dummy) : Type 0 where
  pub disabled : is_some (d.ep i).desc ≡ false
  pub not_ep0 : is_ep0 (d.ep i) ≡ false
  pub is_endpoint : desc.descriptor_type ≡ dt_endpoint
  pub bound : is_some d.driver ≡ true
  pub on_bus : port_enabled d ≡ true
  pub legal : LegalSize desc.transfer_type d.speed desc.maxp
  pub fits : FitsName desc.transfer_type (d.ep i).name
  pub streams : (d.ep i).comp_streams ≡ 0 ⊎ (is_bulk desc.transfer_type ≡ true)

enable-CanEnable :
    (i : ℕ) (desc : Descriptor) (d : Dummy)
    → (enable (some i) (some desc) d).0 ≡ ret 0
    → CanEnable i desc d
unfolding enable
enable-CanEnable i desc d h = record {
  disabled = ground arith;
  not_ep0 = ground arith;
  is_endpoint = ground arith;
  bound = ground arith;
  on_bus = ground arith;
  legal = (accepts-LegalSize _ _ _ _ ok).0;
  fits = (accepts-LegalSize _ _ _ _ ok).1;
  streams = ground arith;
}
  where
    ok : accepts (d.ep i).name d.speed desc.transfer_type desc.maxp ≡ true
    ok = ground arith

CanEnable-enable :
    (i : ℕ) (desc : Descriptor) (d : Dummy)
    → CanEnable i desc d
    → (enable (some i) (some desc) d).0 ≡ ret 0
unfolding enable
CanEnable-enable i desc d c =
    ground
      (arith, LegalSize-accepts (d.ep i).name d.speed desc.transfer_type desc.maxp c.legal c.fits)

-- `dummy_enable` succeeds exactly if the endpoint is not `ep0` and not enabled yet, the descriptor
-- is an endpoint's, a gadget driver is bound, its port is enabled, the packet size is legal for the
-- transfer type and the speed, the name fits the type, and streams are asked of bulk endpoints only.
pub enable_iff :
    (i : ℕ) (desc : Descriptor) (d : Dummy)
    → ((enable (some i) (some desc) d).0 ≡ ret 0) ↔ CanEnable i desc d
enable_iff i desc d = (enable-CanEnable i desc d, CanEnable-enable i desc d)

-- What `dummy_enable` does to the state: on success the endpoint has the descriptor and its packet
-- size and is neither halted nor wedged; on failure no endpoint's descriptor or halt changes. Both
-- ways the queues and the other endpoints stay as they are.
pub enable_effect :
    (i j : ℕ) (desc : Descriptor) (d : Dummy)
    → let (r, d') = enable (some i) (some desc) d in
      ((r ≡ ret 0)
          × ((d'.ep i).desc ≡ some desc)
          × ((d'.ep i).maxpacket ≡ desc.maxp)
          × ((d'.ep i).halted ≡ false)
          × ((d'.ep i).wedged ≡ false)
        ⊎ (r ≢ ret 0) × ((d'.ep j).desc ≡ (d.ep j).desc) × ((d'.ep j).halted ≡ (d.ep j).halted))
      × ((d'.ep j).queue ≡ (d.ep j).queue)
      × (i ≢ j → d'.ep j ≡ d.ep j)
unfolding enable
enable_effect i j desc d = ground arith
