-- ===== src/Urbs.antt =====
-- The list of URBs of one bus: `dummy_urb_enqueue` and `dummy_urb_dequeue` of
-- patch/kernel/dummy_hcd.c. A `struct urbp` is named by its URB.
use fuzzusb.Base.{
  ℕ, ◌+◌, Bool, true, false, not, ◌&&◌, Option, none, some, if◌then◌else◌, [], ◌∷◌, ◌++◌, ◌==◌,
}
use fuzzusb.Usb.{Ret, ret, err, enomem, TransferType, control}
use fuzzusb.Dummy.{Dummy, Side}
use fuzzusb.Dummy.Access.{hcd, set_hcd, set_urb, is_running, is_empty}
use fuzzusb.Stream.{Pipe, validate_stream}

abbrev is_control : TransferType → Bool
is_control control = true
is_control _ = false

abbrev or_else {ℓ} : {A : Type ℓ} → Option A → A → Option A
or_else none a = some a
or_else (some b) a = some b

-- The URB joins the list, and the timer is started unless it is pending.
unfoldable pub list_urb : Side → ℕ → Dummy → Dummy
list_urb s u d =
    let h = hcd d s in
    let x = d.urbs u in
    set_hcd s
      (record h {
        udev = or_else h.udev x.dev;
        urbp_list = h.urbp_list ++ (u ∷ []);
        next_frame_urbp = or_else h.next_frame_urbp u;
        timer = or_else h.timer (d.jiffies + 1);
      })
      (set_urb u
        (record x {
          miter_started = false;
          error_count = if is_control x.pipe_type then 1 else x.error_count;
        })
        d)

abbrev pub is_ok : Ret → Bool
is_ok (ret n) = n == 0
is_ok (err e) = false

-- `memory` says whether `kmalloc` succeeds, `linked` is what `usb_hcd_link_urb_to_ep` returns.
-- `none` is `BUG()`.
unfoldable pub urb_enqueue : Pipe → Side → Bool → Ret → ℕ → Dummy → Option (Ret × Dummy)
unfolding validate_stream list_urb
urb_enqueue pipe s memory linked u d =
    if not memory then some (err enomem, d) else elim (validate_stream pipe (hcd d s) (d.urbs u)) [
      | none ↦ none
      | some rc ↦ some (
          if not (is_ok rc)
          then (rc, d)
          else if not (is_ok linked)
          then (linked, d)
          else (ret 0, list_urb s u d))
    ]

-- What `usb_hcd_check_unlink_urb` of the host core does: it may refuse, or mark the URB as unlinked.
abbrev pub CheckUnlink : Type 0
CheckUnlink = ℕ → Ret → Dummy → Ret × Dummy

unfoldable pub urb_dequeue : CheckUnlink → Side → ℕ → Ret → Dummy → Ret × Dummy
urb_dequeue check_unlink s u status d =
    let (rc, d') = check_unlink u status d in
    let h = hcd d' s in
    if is_ok rc && not (is_running h.rh_state) && not (is_empty h.urbp_list)
    then (rc, set_hcd s (record h { timer = some d'.jiffies }) d')
    else (rc, d')
