-- ===== src/Vusb/Config.antt =====
-- The descriptors of a device in the order in which they stand in a buffer, as USB has them: an
-- independent description of what `parse_usb_descriptor` reads.
use fuzzusb.Base.{ℕ, ◌+◌, ◌/◌, ◌%◌, ◌≤◌, ◌≡◌, ◌≢◌, List, [], ◌∷◌, ◌++◌, length}
use fuzzusb.Vusb.{Memory}

pub record Endpoint : Type 0 where
  pub address : ℕ
  pub attributes : ℕ
  pub max_packet : ℕ
  pub interval : ℕ

-- A descriptor of another type, such as one of a class
pub record Other : Type 0 where
  pub descriptor_type : ℕ
  pub body : List ℕ

-- An interface, the other descriptors that follow it, and its endpoints
pub record Interface : Type 0 where
  pub number : ℕ
  pub alternate : ℕ
  pub class : List ℕ
  pub others : List Other
  pub eps : List Endpoint

pub record Config : Type 0 where
  pub device : List ℕ
  pub total_length : ℕ
  pub num_interfaces : ℕ
  pub value : ℕ
  pub string : ℕ
  pub attributes : ℕ
  pub max_power : ℕ
  pub interfaces : List Interface

abbrev pub encode_ep : Endpoint → List ℕ
encode_ep e =
    7 ∷ 5 ∷ e.address ∷ e.attributes ∷ (e.max_packet % 256) ∷ (e.max_packet / 256) ∷ e.interval ∷ []

abbrev pub encode_eps : List Endpoint → List ℕ
encode_eps [] = []
encode_eps (e ∷ es) = encode_ep e ++ encode_eps es

abbrev pub encode_other : Other → List ℕ
encode_other o = (length o.body + 2) ∷ o.descriptor_type ∷ o.body

abbrev pub encode_others : List Other → List ℕ
encode_others [] = []
encode_others (o ∷ os) = encode_other o ++ encode_others os

abbrev pub head_of : Interface → List ℕ
head_of f = 9 ∷ 4 ∷ f.number ∷ f.alternate ∷ f.class

abbrev pub encode_interface : Interface → List ℕ
encode_interface f = head_of f ++ (encode_others f.others ++ encode_eps f.eps)

abbrev pub encode_interfaces : List Interface → List ℕ
encode_interfaces [] = []
encode_interfaces (f ∷ fs) = encode_interface f ++ encode_interfaces fs

abbrev pub encode_config : Config → List ℕ
encode_config c =
    9
    ∷ 2
    ∷ (c.total_length % 256)
    ∷ (c.total_length / 256)
    ∷ c.num_interfaces
    ∷ c.value
    ∷ c.string
    ∷ c.attributes
    ∷ c.max_power
    ∷ []

abbrev pub encode : Config → List ℕ
encode c = (18 ∷ 1 ∷ c.device) ++ (encode_config c ++ encode_interfaces c.interfaces)

abbrev pub OthersOk : List Other → Type 0
OthersOk [] = Unit {0}
OthersOk (o ∷ os) =
    ((1 ≤ length o.body) × (o.descriptor_type ≢ 4) × (o.descriptor_type ≢ 5)) × OthersOk os

abbrev pub InterfacesOk : List Interface → Type 0
InterfacesOk [] = Unit {0}
InterfacesOk (f ∷ fs) =
    ((length f.class ≡ 5) × OthersOk f.others × (length f.eps ≤ 32)) × InterfacesOk fs

-- The sizes that USB prescribes, and no more interfaces and endpoints than the index has room for
abbrev pub IsConfig : Config → Type 0
IsConfig c = (length c.device ≡ 16) × (length c.interfaces ≤ 4) × InterfacesOk c.interfaces

-- The bytes at an address
abbrev pub Holds : Memory → ℕ → List ℕ → Type 0
Holds mem a [] = Unit {0}
Holds mem a (x ∷ xs) = (mem a ≡ x) × Holds mem (a + 1) xs
