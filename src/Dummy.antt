-- ===== src/Dummy.antt =====
-- The data of patch/kernel/dummy_hcd.c: endpoints, requests, URBs, the two halves of the controller.
-- A pointer to a request or an URB is a number, and the objects stand in the stores `reqs` and
-- `urbs`; the embedded `struct list_head` of a request is its flag `linked`.
pub mod Table
pub mod Access
use fuzzusb.Base.{ℕ, Bool, Option, List, Flags, ◌≡◌}
use fuzzusb.Usb.{Caps, Speed, Ret, Descriptor, TransferType}
use Prim.Native.String.{String}

-- `struct dummy_ep` with its `struct usb_ep`. `comp_streams` is `usb_ss_max_streams(comp_desc)`.
pub record Ep : Type 0 where
  pub queue : List ℕ
  pub last_io : ℕ
  pub desc : Option Descriptor
  pub name : String
  pub caps : Caps
  pub maxpacket : ℕ
  pub maxpacket_limit : ℕ
  pub max_streams : ℕ
  pub comp_streams : ℕ
  pub halted : Bool
  pub wedged : Bool
  pub already_seen : Bool
  pub setup_stage : Bool
  pub stream_en : Bool

-- `struct dummy_request` with its `struct usb_request`. `buf` is what its buffer holds.
pub record Request : Type 0 where
  pub linked : Bool
  pub length : ℕ
  pub actual : ℕ
  pub status : Ret
  pub zero : Bool
  pub stream_id : ℕ
  pub has_complete : Bool
  pub buf : List ℕ

-- `struct usb_ctrlrequest`
pub record Setup : Type 0 where
  pub request_type : ℕ
  pub request : ℕ
  pub value : ℕ
  pub index : ℕ
  pub length : ℕ

-- `struct urb`: `desc` is `ep->desc`; `endpoint`, `pipe_type` and `dir_in` are what
-- `usb_pipeendpoint`, `usb_pipetype` and `usb_urb_dir_in` read; `zero_packet` is `URB_ZERO_PACKET`.
-- `transfer_buffer` holds the bytes of the buffer, or those of the scatter list `sg` in a row.
-- `miter_started` is the field of its `struct urbp`, and `sg_pos` says how far the mapping iterator
-- of that has come.
pub record Urb : Type 0 where
  pub desc : Descriptor
  pub endpoint : ℕ
  pub pipe_type : TransferType
  pub dir_in : Bool
  pub dev : ℕ
  pub stream_id : ℕ
  pub transfer_buffer : List ℕ
  pub transfer_buffer_length : ℕ
  pub actual_length : ℕ
  pub zero_packet : Bool
  pub num_sgs : ℕ
  pub miter_started : Bool
  pub sg_pos : ℕ
  pub unlinked : Bool
  pub error_count : ℕ
  pub setup_packet : Setup

pub data RhState : Type 0 where
  reset suspended running : RhState

-- `hcd->speed`
pub data HcdSpeed : Type 0 where
  usb11 usb2 usb3 : HcdSpeed

pub data HcState : Type 0 where
  halt hc_running hc_suspended : HcState

-- `struct dummy_hcd` and the fields of its `struct usb_hcd`. A timer is its expiry while pending.
pub record Hcd : Type 0 where
  pub speed : HcdSpeed
  pub hw_accessible : Bool
  pub state : HcState
  pub rh_state : RhState
  pub timer : Option ℕ
  pub rh_timer : Option ℕ
  pub port_status : Flags
  pub old_status : Flags
  pub re_timeout : ℕ
  pub udev : Option ℕ
  pub urbp_list : List ℕ
  pub next_frame_urbp : Option ℕ
  pub stream_en_ep : Flags
  pub num_stream : ℕ → ℕ
  pub active : Bool
  pub old_active : Bool
  pub resuming : Bool

-- `struct usb_gadget_driver`: which of the optional callbacks it has, and its function's name
pub record Driver : Type 0 where
  pub has_suspend : Bool
  pub has_resume : Bool
  pub function : Option String

-- `dum->hs_hcd` and `dum->ss_hcd`
pub data Side : Type 0 where
  hs ss : Side

-- The calls that leave the driver, newest first.
pub data Event : Type 0 where
  gave_request : ℕ → ℕ → Ret → ℕ → Event
  gave_urb : Side → ℕ → Ret → Event
  udc_reset disconnected driver_suspended driver_resumed : Event
  polled : Side → Event
  resumed_root_hub : Side → Event
  -- No call: the loop of `nuke` of this endpoint is not followed any further.
  nuke_cut : ℕ → Event

-- `struct dummy`, with the stores, the clock `jiffies`, and the calls that left the driver. The
-- buffer `fifo_buf` is the `buf` of the request `fifo_req`.
pub record Dummy : Type 0 where
  pub ep : ℕ → Ep
  pub reqs : ℕ → Request
  pub urbs : ℕ → Urb
  pub address : ℕ
  pub callback_usage : ℕ
  pub speed : Speed
  pub max_speed : Speed
  pub b_hnp_enable : Bool
  pub a_hnp_support : Bool
  pub a_alt_hnp_support : Bool
  pub is_selfpowered : Bool
  pub driver : Option Driver
  pub devstatus : Flags
  pub ints_enabled : Bool
  pub udc_suspended : Bool
  pub pullup : Bool
  pub hs_hcd : Hcd
  pub ss_hcd : Hcd
  pub jiffies : ℕ
  pub trace : List Event

-- The code that the driver calls and that is not part of it: the completion routine of a request
-- (endpoint, request), the gadget driver's callbacks, the host core's `usb_hcd_giveback_urb`, and
-- `msecs_to_jiffies`. Each may call the driver back, so it maps a state to a state.
pub record Env : Type 0 where
  pub complete : ℕ → ℕ → Dummy → Dummy
  pub udc_reset : Dummy → Dummy
  pub disconnect : Dummy → Dummy
  pub suspend : Dummy → Dummy
  pub resume : Dummy → Dummy
  pub setup : Setup → Dummy → Ret × Dummy
  pub giveback_urb : Side → ℕ → Ret → Dummy → Dummy
  pub msecs_to_jiffies : ℕ → ℕ
  -- How many rounds more than there are requests a `nuke` is followed, should callbacks queue others
  pub nuke_rounds : ℕ

-- `DUMMY_ENDPOINTS`
abbrev pub dummy_endpoints : ℕ
dummy_endpoints = 31

-- `FIFO_SIZE`
abbrev pub fifo_size : ℕ
fifo_size = 64

-- `&dum->fifo_req`
abbrev pub fifo_req : ℕ
fifo_req = 0
