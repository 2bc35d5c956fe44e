-- ===== src/Examples/EndpointRuns.antt =====
-- Endpoints, requests and streams.
use fuzzusb.Base.{
  ℕ, ◌≡◌, ◌≢◌, ◌≤◌, true, false, List, [], ◌∷◌, none, some, refl, arith, ◌||◌, ◌/◌, ◌%◌, not, ◌==◌,
}
use fuzzusb.Usb.{ret, err, eagain, econnreset, einprogress}
use fuzzusb.Dummy.{Dummy, Event, Hcd, fifo_req}
use fuzzusb.Endpoint.Enable.{enable, disable, finish_enable, accepts}
use fuzzusb.Endpoint.Queue.{queue, dequeue, takes_fifo, link_request}
use fuzzusb.Endpoint.Halt.{set_halt, set_wedge}
use fuzzusb.Endpoint.Legal.{enable_iff, enable_effect, CanEnable}
use fuzzusb.Endpoint.Owned.{Owned, queue-Owned, dequeue-Owned, disable-Owned}
use fuzzusb.Endpoint.Cancel.{refused_unchanged, queue_fifo, queue-dequeue}
use fuzzusb.Endpoint.Stall.{set_halt-busy, set_wedge-set_halt}
use fuzzusb.Stream.{
  Pipe, IsLayout, HostEp, alloc_streams, free_streams, set_max_streams_for_pipe, agree,
  get_max_streams_for_pipe, validate_stream, ep_stream_en, all_enabled,
}
use fuzzusb.Stream.Alloc.{alloc_streams-free_streams, streams_refused, Supports, in_group}
use fuzzusb.Stream.Shared.{streams_shared, validate_stream-bug}
use fuzzusb.Examples.Data.{env, env-IsQuiet, dummy, hs_port, bulk_in, idle_ep, urb, enabled_ep}

-- Endpoint 4 is disabled.
abbrev closed : Dummy
closed = record dummy { ep = λ i. idle_ep }

enable_example : (enable (some 4) (some bulk_in) closed).0 ≡ ret 0
unfolding enable accepts finish_enable
enable_example = refl

enable_iff_example : CanEnable 4 bulk_in closed
enable_iff_example = (enable_iff 4 bulk_in closed).0 enable_example

enable_effect_run :
    let d' = (enable (some 4) (some bulk_in) closed).1 in
    ((d'.ep 5).queue ≡ []) × (◌≢◌ {A = ℕ} 4 5 → d'.ep 5 ≡ idle_ep)
enable_effect_run = ((enable_effect 4 5 bulk_in closed).1, (enable_effect 4 5 bulk_in closed).2)

-- All endpoints are enabled: for data to the host, or to the device.
abbrev sending : Dummy
sending = record dummy { ep = λ i. enabled_ep }

abbrev receiving : Dummy
receiving = record dummy {
  ep = λ i. record idle_ep { desc = some (record bulk_in { endpoint_address = 1 }) };
}

receiving-Owned : Owned receiving
receiving-Owned = record {
  marked = λ i r h. absurd (omega arith);
  once = λ i r. omega arith;
  alone = λ i j r h h'. absurd (omega arith);
}

env-keeps : (i r : ℕ) (d : Dummy) → Owned d → Owned (env.complete i r d)
env-keeps i r d o = o

-- Request 1 is queued on endpoint 4.
abbrev queued : Dummy
queued = (queue env (some 4) (some 1) receiving).1

queued_list : (queued.ep 4).queue ≡ 1 ∷ []
unfolding queue takes_fifo link_request
queued_list = refl

queue-Owned_example : Owned queued
queue-Owned_example = queue-Owned env env-keeps (some 4) (some 1) receiving receiving-Owned

dequeue-Owned_example : Owned (dequeue env (some 4) (some 1) queued).1
dequeue-Owned_example =
    dequeue-Owned env env-keeps (some 4) (some 1) queued
      (queue-Owned env env-keeps (some 4) (some 1) receiving receiving-Owned)

disable_run : Owned (disable env (some 4) queued).1
disable_run =
    disable-Owned env env-keeps (some 4) queued
      (queue-Owned env env-keeps (some 4) (some 1) receiving receiving-Owned)

queue-dequeue_example :
    let (result, d') = dequeue env (some 4) (some 1) queued in
    (result ≡ ret 0)
    × ((j : ℕ) → (d'.ep j).queue ≡ [])
    × ((d'.reqs 1).status ≡ err econnreset)
    × ((d'.reqs 1).linked ≡ false)
    × (d'.trace ≡ Event.gave_request 4 1 (err econnreset) 0 ∷ [])
unfolding queue takes_fifo
queue-dequeue_example =
    queue-dequeue env 4 1 receiving env-IsQuiet receiving-Owned refl refl (omega arith)

fifo_run :
    let d' = (queue env (some 4) (some 1) sending).1 in
    ((d'.ep 4).queue ≡ fifo_req ∷ [])
    × ((d'.reqs fifo_req).buf ≡ 7 ∷ 8 ∷ 9 ∷ [])
    × ((d'.reqs fifo_req).status ≡ err einprogress)
    × ((d'.reqs 1).status ≡ ret 0)
    × ((d'.reqs 1).actual ≡ 3)
    × ((d'.reqs 1).linked ≡ false)
    × (d'.trace ≡ Event.gave_request 4 1 (ret 0) 3 ∷ [])
unfolding queue takes_fifo
fifo_run = queue_fifo env 4 1 sending env-IsQuiet refl refl (omega arith)

abbrev unbound : Dummy
unbound = record receiving { driver = none }

refused_run : (queue env (some 4) (some 1) unbound).1 ≡ unbound
unfolding queue
refused_run = (refused_unchanged env (some 4) (some 1) unbound).0 (λ e. cc)

abbrev waiting : Dummy
waiting = record sending { ep = λ i. record enabled_ep { queue = 1 ∷ [] } }

halt_while_busy : (set_halt (some 4) 1 waiting).0 ≡ err eagain
halt_while_busy = (set_halt-busy 4 1 waiting).0.1 (refl, omega arith, refl, refl)

wedge_run :
    let w = (set_wedge (some 4) sending).1 in
    let (r, c) = set_halt (some 4) 0 w in
    ((w.ep 4).halted ≡ true)
    × ((w.ep 4).wedged ≡ true)
    × (r ≡ ret 0)
    × ((c.ep 4).halted ≡ false)
    × ((c.ep 4).wedged ≡ false)
    × ((c.ep 5).queue ≡ [])
    × (◌≢◌ {A = ℕ} 4 5 → c.ep 5 ≡ enabled_ep)
unfolding set_wedge
wedge_run = set_wedge-set_halt 4 5 sending refl

-- The pipes of linux/usb.h
abbrev pipe : Pipe
pipe = record { endpoint = λ n. (n / 32768) % 16; out = λ n. not ((n / 128) % 2 == 1) }

pipe-IsLayout : IsLayout pipe
pipe-IsLayout = record { endpoint_bits = λ n. refl; out_bit = λ n. refl }

-- Two endpoints, of 8 and 4 streams
abbrev group : List HostEp
group =
    record { desc = bulk_in; max_streams = 8 }
    ∷ record { desc = record bulk_in { endpoint_address = 2 }; max_streams = 4 }
    ∷ []

alloc_streams-free_streams_example :
    let h' = (alloc_streams pipe group 16 hs_port).1 in
    (4 ≤ 16)
    × Supports hs_port.stream_en_ep 4 group
    × ((i : ℕ) → h'.stream_en_ep i ≡ (in_group i group || hs_port.stream_en_ep i))
    × ((free_streams pipe group h').0 ≡ ret 0)
    × ((i : ℕ) → (free_streams pipe group h').1.stream_en_ep i ≡ hs_port.stream_en_ep i)
unfolding alloc_streams agree
alloc_streams-free_streams_example = alloc_streams-free_streams pipe group 16 hs_port refl

refused_group_unchanged : (free_streams pipe group hs_port).1 ≡ hs_port
unfolding free_streams all_enabled
refused_group_unchanged = (streams_refused pipe group 16 hs_port).1 refl

streams_shared_example :
    (get_max_streams_for_pipe pipe (set_max_streams_for_pipe pipe hs_port 1 4) 2 ≡ 4)
    × (get_max_streams_for_pipe pipe (set_max_streams_for_pipe pipe hs_port 1 0) 2 ≡ 16)
streams_shared_example =
    streams_shared pipe pipe-IsLayout hs_port 1 2 4 (omega arith) (omega arith) (omega arith)
      (omega arith)

-- Endpoint 1 has streams, and an URB for the sixth of them; then endpoint 2 gets 4 streams.
abbrev streaming : Hcd
streaming = record hs_port { stream_en_ep = λ i. i == 3 }

bug_run :
    validate_stream pipe
      (set_max_streams_for_pipe pipe streaming 2 4)
      (record urb { stream_id = 6 })
    ≡ none
unfolding ep_stream_en
bug_run =
    validate_stream-bug pipe pipe-IsLayout streaming (record urb { stream_id = 6 }) 2 4
      (omega arith) (omega arith) (omega arith) (omega arith) (omega arith) refl
