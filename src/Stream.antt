-- ===== src/Stream.antt =====
-- Bulk streams of the host side: `dummy_get_ep_idx` to `dummy_validate_stream`,
-- `dummy_alloc_streams` and `dummy_free_streams` of patch/kernel/dummy_hcd.c.
pub mod Alloc
pub mod Shared
use fuzzusb.Base.{
  ℕ, ◌+◌, ◌-◌, ◌*◌, ◌/◌, ◌%◌, ◌^◌, bit_and, bit_or, Bool, true, false, not, ◌&&◌, ◌||◌, Option,
  none, some, if◌then◌else◌, ltb, ◌==◌, List, [], ◌∷◌, update, Flags, raise, clear, ◌≡◌, leb,
}
use fuzzusb.Usb.{Ret, ret, err, einval, Descriptor, is_bulk, endpoint_num, is_dir_in}
use fuzzusb.Dummy.{Hcd, Urb}

-- `dummy_get_ep_idx`
abbrev pub get_ep_idx : Descriptor → ℕ
get_ep_idx desc = endpoint_num desc * 2 + (if is_dir_in desc.endpoint_address then 1 else 0)

-- `(1 << index) & stream_en_ep`, for a bulk endpoint
unfoldable pub ep_stream_en : Hcd → Urb → Bool
ep_stream_en h u = is_bulk u.desc.transfer_type && h.stream_en_ep (get_ep_idx u.desc)

-- `usb_pipeendpoint` and `usb_pipeout` of linux/usb.h. A pipe has the endpoint's number in bits
-- 15 to 18, and its direction in bit 7, set for a transfer to the host.
pub record Pipe : Type 0 where
  pub endpoint : ℕ → ℕ
  pub out : ℕ → Bool

pub record IsLayout (p : Pipe) : Type 0 where
  pub endpoint_bits : (n : ℕ) → p.endpoint n ≡ (n / 32768) % 16
  pub out_bit : (n : ℕ) → p.out n ≡ not ((n / 128) % 2 == 1)

module _ (p : Pipe) where
  unfoldable pub get_max_streams_for_pipe : Hcd → ℕ → ℕ
  get_max_streams_for_pipe h pipe =
      let both = h.num_stream (p.endpoint pipe) in (if p.out pipe then both / 16 else both % 16) + 1

  -- The `unsigned int` wraps at 0, and the array's elements are bytes. In the first branch the bits
  -- of the two operands of `|` are disjoint, so it is written as a sum.
  unfoldable pub set_max_streams_for_pipe : Hcd → ℕ → ℕ → Hcd
  set_max_streams_for_pipe h pipe streams =
      let less = (streams + 2 ^ 32 - 1) % 2 ^ 32 in
      let both = h.num_stream (p.endpoint pipe) in
      record h {
        num_stream = update h.num_stream (p.endpoint pipe) (
            if p.out pipe
            then (both % 16 + (less * 16) % 2 ^ 32) % 256
            else (bit_or (bit_and both 0xf0) less) % 256);
      }

  -- `none` is `BUG()`.
  unfoldable pub validate_stream : Hcd → Urb → Option Ret
  unfolding ep_stream_en get_max_streams_for_pipe
  validate_stream h u =
      if u.stream_id == 0
      then (if ep_stream_en h u then some (err einval) else some (ret 0))
      else if not (ep_stream_en h u)
      then some (err einval)
      else if ltb (get_max_streams_for_pipe h u.endpoint) u.stream_id
      then none
      else some (ret 0)

-- `struct usb_host_endpoint`: its descriptor and `usb_ss_max_streams(&ss_ep_comp)`
pub record HostEp : Type 0 where
  pub desc : Descriptor
  pub max_streams : ℕ

-- The first loop of `dummy_alloc_streams`: how many streams all endpoints support, if any
unfoldable pub agree : Flags → List HostEp → ℕ → Option ℕ
agree enabled [] streams = some streams
agree enabled (e ∷ es) streams =
    let rest = agree enabled es (if ltb e.max_streams streams then e.max_streams else streams) in
    if enabled (get_ep_idx e.desc) || e.max_streams == 0 then none else rest

-- The first loop of `dummy_free_streams`
unfoldable pub all_enabled : Flags → List HostEp → Bool
all_enabled enabled [] = true
all_enabled enabled (e ∷ es) = enabled (get_ep_idx e.desc) && all_enabled enabled es

module _ (p : Pipe) where
  -- The second loop
  unfoldable pub enable_all : List HostEp → ℕ → Hcd → Hcd
  enable_all [] streams h = h
  enable_all (e ∷ es) streams h = enable_all es streams (
      set_max_streams_for_pipe p
        (record h { stream_en_ep = raise (get_ep_idx e.desc ∷ []) h.stream_en_ep })
        (endpoint_num e.desc) streams)

  unfoldable pub alloc_streams : List HostEp → ℕ → Hcd → Ret × Hcd
  alloc_streams [] num_streams h = (err einval, h)
  alloc_streams (e ∷ es) num_streams h = elim (agree h.stream_en_ep (e ∷ es) num_streams) [
    | none ↦ (err einval, h)
    | some streams ↦ (ret streams, enable_all (e ∷ es) streams h)
  ]

  -- The second loop
  unfoldable pub disable_all : List HostEp → Hcd → Hcd
  disable_all [] h = h
  disable_all (e ∷ es) h = disable_all es (
      set_max_streams_for_pipe p
        (record h { stream_en_ep = clear (get_ep_idx e.desc ∷ []) h.stream_en_ep })
        (endpoint_num e.desc) 0)

  unfoldable pub free_streams : List HostEp → Hcd → Ret × Hcd
  free_streams es h =
      if all_enabled h.stream_en_ep es then (ret 0, disable_all es h) else (err einval, h)
