-- ===== src/NodeAgent.antt =====
-- apps/node-agent: the observer that runs on each host.
pub mod Hysteresis
pub mod Sender
pub mod Detectors
