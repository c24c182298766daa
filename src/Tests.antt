-- ===== src/Tests.antt =====
-- Runs of the models at concrete inputs, and the theorems at inputs that meet their conditions.
mod FrameRuns
mod QueueRuns
mod SessionRuns
mod InterleavingRuns
mod ReaderRuns
mod TransportRuns
mod ChildRuns
mod MainRuns
mod CmdlineRuns
mod WindowsRuns
mod BootRuns
mod ExampleRuns
mod ClockRuns
mod PrototypeRuns
mod DaemonRuns
mod NetworkRuns
mod HandshakeRuns
