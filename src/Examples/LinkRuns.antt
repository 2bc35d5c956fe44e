-- ===== src/Examples/LinkRuns.antt =====
-- The link and the queues.
use fuzzusb.Base.{ℕ, ◌≡◌, ◌≤◌, ◌∙◌, true, false, [], ◌∷◌, refl, arith}
use fuzzusb.Usb.Port
use fuzzusb.Dummy.{Dummy, Event, hs}
use fuzzusb.Usb.{err, eshutdown}
use fuzzusb.Link.{set_link_state, refresh, tell_disconnect}
use fuzzusb.Dummy.Access.{with_usage}
use fuzzusb.Link.Active.{refresh-active, refresh-c_connection}
use fuzzusb.Link.Settled.{set_link_state-silent}
use fuzzusb.Link.Latch.{set_link_state-usage}
use fuzzusb.Nuke.{nuke, stop_activity}
use fuzzusb.Nuke.Empty.{nuke-empty, stop_activity-empty, queue_length}
use fuzzusb.Nuke.Given.{nuke-trace}
use fuzzusb.Examples.Data.{
  env, env-NoRequeue, env-IsQuiet, env-KeepsUsage, env-IsPassive, dummy, busy, hs_port,
}

refresh-active_example :
    ((refresh dummy hs_port).active ≡ true)
    × ((refresh dummy hs_port).port_status Port.connection ≡ true)
refresh-active_example = refresh-active dummy hs_port

-- The gadget has just gone: the port says so.
connection_run :
    (refresh (record dummy { pullup = false }) hs_port).port_status Port.c_connection ≡ true
connection_run =
    (refresh-c_connection (record dummy { pullup = false }) hs_port).0 refl
    ∙ ground (arith, (refresh-active (record dummy { pullup = false }) hs_port).1)

-- The port loses its power, and the gadget driver is told.
abbrev unpowered : Dummy
unpowered = record dummy { hs_hcd = record hs_port { port_status = λ i. false } }

unpowered_trace : (set_link_state env hs unpowered).trace ≡ Event.disconnected ∷ []
unfolding set_link_state stop_activity nuke tell_disconnect with_usage
unpowered_trace = refl

-- A second call does not tell it again.
set_link_state-silent_example :
    (set_link_state env hs (set_link_state env hs unpowered)).trace
    ≡ (set_link_state env hs unpowered).trace
set_link_state-silent_example = set_link_state-silent env hs unpowered env-IsPassive

usage_run : (set_link_state env hs unpowered).callback_usage ≡ 0
usage_run = set_link_state-usage env env-KeepsUsage hs unpowered

nuke_run :
    (((nuke env 3 busy).ep 3).queue ≡ [])
    × ((j : ℕ) → queue_length (nuke env 3 busy) j ≤ queue_length busy j)
nuke_run = nuke-empty env env-NoRequeue 3 busy

stop_activity-empty_example : queue_length (stop_activity env busy) 3 ≡ 0
stop_activity-empty_example = stop_activity-empty env env-NoRequeue 3 busy (omega arith)

nuke-trace_example :
    (nuke env 3 busy).trace
    ≡ Event.gave_request 3 2 (err eshutdown) 0 ∷ Event.gave_request 3 1 (err eshutdown) 0 ∷ []
nuke-trace_example = nuke-trace env env-IsQuiet 3 busy
