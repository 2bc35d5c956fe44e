-- ===== src/Examples/Data.antt =====
-- A controller with a high-speed gadget on a USB 2.0 port, and callbacks that only return.
use fuzzusb.Base.{ℕ, suc, true, false, none, some, [], ◌∷◌, refl, raise, no_flags}
use fuzzusb.Base.{arith}
use fuzzusb.Usb.{high, bulk, ret, err, einprogress, Descriptor, Caps}
use fuzzusb.Usb.Port
use fuzzusb.Dummy.{
  Dummy, Ep, Request, Setup, Urb, Hcd, usb2, usb3, running, hc_running, Driver, Env,
}
use fuzzusb.Nuke.Empty.{NoRequeue}
use fuzzusb.Nuke.Given.{IsQuiet}
use fuzzusb.Link.Latch.{KeepsUsage}
use fuzzusb.Link.Passive.{IsPassive}

-- Callbacks that return at once; a jiffy is a millisecond.
abbrev pub env : Env
env = record {
  complete = λ i r d. d;
  udc_reset = λ d. d;
  disconnect = λ d. d;
  suspend = λ d. d;
  resume = λ d. d;
  setup = λ s d. (ret 0, d);
  giveback_urb = λ s u r d. d;
  msecs_to_jiffies = λ n. n;
  nuke_rounds = 0;
}

pub env-NoRequeue : NoRequeue env
env-NoRequeue i r j d h = omega arith

pub env-IsQuiet : IsQuiet env
env-IsQuiet = record {
  same_queue = λ i r j d. refl;
  same_reqs = λ i r x d. refl;
  same_trace = λ i r d. refl;
}

pub env-KeepsUsage : KeepsUsage env
env-KeepsUsage = record {
  complete_keeps = λ i r d. refl;
  udc_reset_keeps = λ d. refl;
  disconnect_keeps = λ d. refl;
  suspend_keeps = λ d. refl;
  resume_keeps = λ d. refl;
}

pub env-IsPassive : IsPassive env
env-IsPassive = record {
  complete_view = λ i r d. refl;
  udc_reset_view = λ d. refl;
  disconnect_view = λ d. refl;
  suspend_view = λ d. refl;
  resume_view = λ d. refl;
}

abbrev pub caps : Caps
caps = record {
  type_control = false;
  type_iso = false;
  type_bulk = true;
  type_int = false;
  dir_in = true;
  dir_out = false;
}

-- `ep1in-bulk`, at 512 bytes
abbrev pub bulk_in : Descriptor
bulk_in = record {
  descriptor_type = 5;
  endpoint_address = 129;
  transfer_type = bulk;
  maxp = 512;
  maxp_mult = 1;
}

abbrev pub idle_ep : Ep
idle_ep = record {
  queue = [];
  last_io = 0;
  desc = none;
  name = "ep1in-bulk";
  caps = caps;
  maxpacket = 512;
  maxpacket_limit = 512;
  max_streams = 16;
  comp_streams = 0;
  halted = false;
  wedged = false;
  already_seen = false;
  setup_stage = false;
  stream_en = false;
}

abbrev pub enabled_ep : Ep
enabled_ep = record idle_ep { desc = some bulk_in }

abbrev pub request : Request
request = record {
  linked = false;
  length = 3;
  actual = 0;
  status = ret 0;
  zero = false;
  stream_id = 0;
  has_complete = true;
  buf = 7 ∷ 8 ∷ 9 ∷ [];
}

abbrev pub no_setup : Setup
no_setup = record { request_type = 0; request = 0; value = 0; index = 0; length = 0 }

abbrev pub urb : Urb
urb = record {
  desc = bulk_in;
  endpoint = 1;
  pipe_type = bulk;
  dir_in = true;
  dev = 0;
  stream_id = 0;
  transfer_buffer = [];
  transfer_buffer_length = 0;
  actual_length = 0;
  zero_packet = false;
  num_sgs = 0;
  miter_started = false;
  sg_pos = 0;
  unlinked = false;
  error_count = 0;
  setup_packet = no_setup;
}

-- A port with power, connected, enabled and active
abbrev pub hs_port : Hcd
hs_port = record {
  speed = usb2;
  hw_accessible = true;
  state = hc_running;
  rh_state = running;
  timer = none;
  rh_timer = none;
  port_status = raise (Port.power ∷ Port.connection ∷ Port.enable ∷ []) no_flags;
  old_status = raise (Port.power ∷ Port.connection ∷ Port.enable ∷ []) no_flags;
  re_timeout = 0;
  udev = none;
  urbp_list = [];
  next_frame_urbp = none;
  stream_en_ep = no_flags;
  num_stream = λ n. 0;
  active = true;
  old_active = true;
  resuming = false;
}

abbrev pub ss_port : Hcd
ss_port = record hs_port { speed = usb3; port_status = no_flags; old_status = no_flags }

abbrev pub driver : Driver
driver = record { has_suspend = true; has_resume = true; function = none }

-- Endpoint 0 has its name; the others are all alike.
abbrev pub eps : ℕ → Ep
eps i = elim i [ ℕ.zero ↦ record idle_ep { name = "ep0" } | _ ↦ enabled_ep ]

abbrev pub dummy : Dummy
dummy = record {
  ep = eps;
  reqs = λ r. request;
  urbs = λ u. urb;
  address = 5;
  callback_usage = 0;
  speed = high;
  max_speed = high;
  b_hnp_enable = false;
  a_hnp_support = false;
  a_alt_hnp_support = false;
  is_selfpowered = false;
  driver = some driver;
  devstatus = no_flags;
  ints_enabled = true;
  udc_suspended = false;
  pullup = true;
  hs_hcd = hs_port;
  ss_hcd = ss_port;
  jiffies = 100;
  trace = [];
}

-- Requests 1 and 2 wait on endpoint 3.
abbrev pub busy : Dummy
busy = record dummy {
  ep = λ i. elim i [
    | suc (suc (suc ℕ.zero)) ↦ record enabled_ep { queue = 1 ∷ 2 ∷ [] }
    | _ ↦ enabled_ep
  ];
  reqs = λ r. elim r [
    | ℕ.zero ↦ request
    | suc (suc (suc n)) ↦ request
    | _ ↦ record request { linked = true; status = err einprogress }
  ];
}
