-- ===== src/Examples.antt =====
-- The theorems at concrete controllers.
mod Data
mod LinkRuns
mod EndpointRuns
mod HubRuns
mod UdcRuns
mod UsbtestRuns
mod HaltRuns
mod CtrlRuns
mod QueueRuns
mod Ch9Runs
mod DispatchRuns
mod CtrlOutRuns
mod TransferRuns
mod LoadRuns
mod ProbeRuns
mod VusbRuns
