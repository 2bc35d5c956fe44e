-- ===== src/Vusb/RoundTrip.antt =====
-- `parse_usb_descriptor` reads back the interfaces and endpoints of a device.
use mathlib.Core.Path.{subst}
use fuzzusb.Base.{
  ℕ, ◌+◌, ◌%◌, ◌^◌, ◌-◌, ◌*◌, ◌≡◌, refl, sym, ap, ◌∙◌, List, [], ◌∷◌, ◌++◌, map, length,
  length-append, arith, none, ltb, false,
}
use fuzzusb.Vusb.{
  Memory, EpDesc, IfaceIndex, DeviceIndex, read_ep, note, parsed, index_of, parse_usb_descriptor,
}
use fuzzusb.Vusb.Parse.{Ends, Ends-behind, Ends-step}
use fuzzusb.Vusb.Config.{
  Endpoint, Interface, Config, encode_ep, encode_eps, encode_others, head_of, encode_interface,
  encode_interfaces, encode_config, encode, InterfacesOk, IsConfig, Holds,
}
use fuzzusb.Vusb.Walk.{
  read_eps, Here-behind, Holds-append, Holds-behind, Ends-cast, with_eps, read_iface, read_ifaces,
  interfaces_Ends, note_other,
}

-- An interface without its other descriptors
pub record Seen : Type 0 where
  pub number : ℕ
  pub alternate : ℕ
  pub eps : List Endpoint

abbrev pub seen_ep : EpDesc → Endpoint
seen_ep e = record {
  address = e.address;
  attributes = e.attributes;
  max_packet = e.max_packet;
  interval = e.interval;
}

-- What the index says of an interface, and what the descriptors say
abbrev pub indexed : IfaceIndex → Seen
indexed f = record {
  number = f.interface_number;
  alternate = f.alternate_setting;
  eps = map seen_ep f.eps;
}

abbrev pub described : Interface → Seen
described f = record { number = f.number; alternate = f.alternate; eps = f.eps }

read_ep_lem :
    (mem : Memory) (a : ℕ) (e : Endpoint) → Holds mem a (encode_ep e) → seen_ep (read_ep mem a) ≡ e
read_ep_lem mem a e h =
    let at = λ (b c : ℕ) (p : b ≡ c). ap mem p in
    let p : mem (a + 2) ≡ e.address = at (a + 2) (a + 1 + 1) (omega arith) ∙ h.1.1.0 in
    let q : mem (a + 3) ≡ e.attributes = at (a + 3) (a + 1 + 1 + 1) (omega arith) ∙ h.1.1.1.0 in
    let lo = at (a + 4) (a + 1 + 1 + 1 + 1) (omega arith) ∙ h.1.1.1.1.0 in
    let hi = at (a + 5) (a + 1 + 1 + 1 + 1 + 1) (omega arith) ∙ h.1.1.1.1.1.0 in
    let r : mem (a + 4) + 256 * mem (a + 5) ≡ e.max_packet = omega (arith, lo, hi) in
    let s : mem (a + 6) ≡ e.interval =
      at (a + 6) (a + 1 + 1 + 1 + 1 + 1 + 1) (omega arith) ∙ h.1.1.1.1.1.1.0 in
    λ i. record { address = p i; attributes = q i; max_packet = r i; interval = s i }

read_eps_lem :
    (mem : Memory) (a : ℕ) (es : List Endpoint)
    → Holds mem a (encode_eps es)
    → map seen_ep (read_eps mem a es) ≡ es
read_eps_lem mem a [] h = refl
read_eps_lem mem a (e ∷ es) h = λ i.
    read_ep_lem mem a e (Holds-append mem a (encode_ep e) (encode_eps es) h) i
    ∷ read_eps_lem mem (a + 7) es (Holds-behind mem a (encode_ep e) (encode_eps es) h) i

module _ (mem : Memory) (buffer len : ℕ) where
  read_iface_lem :
      (a : ℕ) (f : Interface)
      → Holds mem a (encode_interface f)
      → length f.class ≡ 5
      → indexed (read_iface mem buffer len a f) ≡ described f
  unfolding read_iface with_eps
  read_iface_lem a f h c =
      let rest = encode_others f.others ++ encode_eps f.eps in
      let m = length (encode_others f.others) in
      let behind =
        Holds-behind mem (a + length (head_of f)) (encode_others f.others) (encode_eps f.eps)
          (Holds-behind mem a (head_of f) rest h) in
      let es =
        read_eps_lem mem (a + 9 + m) f.eps
          (subst (λ b. Holds mem b (encode_eps f.eps)) (omega arith) behind) in
      let p : mem (a + 2) ≡ f.number = ap mem (omega arith) ∙ h.1.1.0 in
      let q : mem (a + 3) ≡ f.alternate = ap mem (omega arith) ∙ h.1.1.1.0 in
      λ i. record { number = p i; alternate = q i; eps = es i }

  read_ifaces_lem :
      (a : ℕ) (fs : List Interface)
      → Holds mem a (encode_interfaces fs)
      → InterfacesOk fs
      → map indexed (read_ifaces mem buffer len a fs) ≡ map described fs
  unfolding read_ifaces
  read_ifaces_lem a [] h k = refl
  read_ifaces_lem a (f ∷ fs) h k = λ i.
      read_iface_lem a f (Holds-append mem a (encode_interface f) (encode_interfaces fs) h) k.0.0 i
      ∷ read_ifaces_lem (a + length (encode_interface f)) fs
          (Holds-behind mem a (encode_interface f) (encode_interfaces fs) h) k.1 i

-- The loop passes over the device and configuration descriptors and the interfaces.
config_Ends :
    (c : Config) (mem : Memory) (buffer : ℕ)
    → IsConfig c
    → Holds mem buffer (encode c)
    → Ends mem buffer
        (length (encode c))
        0
        []
        (read_ifaces mem buffer (length (encode c)) (buffer + 27) c.interfaces)
config_Ends c mem buffer k h =
    let len = length (encode c) in
    let gs = read_ifaces mem buffer len (buffer + 27) c.interfaces in
    let dev = 18 ∷ 1 ∷ c.device in
    let tail = encode_config c ++ encode_interfaces c.interfaces in
    let size = length-append c.device tail in
    let h0 : Holds mem (buffer + 0) (encode c) =
      subst (λ b. Holds mem b (encode c)) (omega arith) h in
    let h1 = Here-behind mem buffer len 0 18 dev tail (omega (arith, k.0)) h0 in
    let h2 =
      Here-behind mem buffer len (0 + 18) 9 (encode_config c) (encode_interfaces c.interfaces) refl
        h1 in
    let e3 =
      interfaces_Ends mem buffer len c.interfaces 27 [] gs h2 (omega (arith, size, k.0)) k.2
        (omega (arith, k.1))
        (Ends-behind mem buffer len (27 + length (encode_interfaces c.interfaces)) gs
          (omega (arith, size, k.0))) in
    let e2 = Ends-step mem buffer len 18 9 [] gs h1.0 (omega arith) (omega (arith, size, k.0)) (
      Ends-cast mem buffer len 27 (18 + 9) [] (note mem (buffer + 18) []) gs refl
        (sym (
          note_other mem (buffer + 18) [] (λ t. omega (arith, h1.1.0))
            (λ t. omega (arith, h1.1.0))))
        e3) in
    Ends-step mem buffer len 0 18 [] gs h0.0 (omega arith) (omega (arith, size, k.0)) (
      Ends-cast mem buffer len 18 (0 + 18) [] (note mem (buffer + 0) []) gs refl
        (sym (
          note_other mem (buffer + 0) [] (λ t. omega (arith, h0.1.0)) (λ t. omega (arith, h0.1.0))))
        e2)

-- The descriptors of a device with at most 4 interfaces of at most 32 endpoints each, laid out in
-- memory as USB has them, with descriptors of other types behind each interface: the parse
-- succeeds, and its index has these interfaces with their numbers, alternate settings and
-- endpoints, in order, and the power of the configuration.
pub parse-encode :
    (c : Config) (mem : Memory) (buffer : ℕ)
    → IsConfig c
    → Holds mem buffer (encode c)
    → (x : DeviceIndex) × (parse_usb_descriptor mem buffer (length (encode c)) ≡ parsed x)
      × (map indexed x.ifaces ≡ map described c.interfaces)
      × (x.max_power ≡ c.max_power)
unfolding parse_usb_descriptor
parse-encode c mem buffer k h =
    let len = length (encode c) in
    let tail = encode_config c ++ encode_interfaces c.interfaces in
    let size = length-append c.device tail in
    let long : ltb len 27 ≡ false = ground (arith, size, k.0) in
    let power = Holds-behind mem buffer (18 ∷ 1 ∷ c.device) tail h in
    (
      record {
        dev = buffer;
        config = buffer + 18;
        max_power = mem (buffer + 18 + 8);
        config_length = (len - 18) % 2 ^ 32;
        ifaces = read_ifaces mem buffer len (buffer + 27) c.interfaces;
        iface_cur = none;
      },
      rw long (
          ap (index_of mem buffer len)
            (config_Ends c mem buffer k h (len + 1) (omega arith) (omega arith))),
      read_ifaces_lem mem buffer len (buffer + 27) c.interfaces
          (subst (λ b. Holds mem b (encode_interfaces c.interfaces)) (omega (arith, k.0))
            (Holds-behind mem (buffer + length (18 ∷ 1 ∷ c.device)) (encode_config c)
              (encode_interfaces c.interfaces) power))
          k.2,
      ap mem (omega (arith, k.0)) ∙ power.1.1.1.1.1.1.1.1.0,
    )
