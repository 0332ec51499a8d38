-- ===== src/Agent.antt =====
-- apps/agent: the central service.
pub mod Policy
pub mod Jobs
pub mod Events
pub mod Memory
pub mod Polling
pub mod NotificationConfig
pub mod NotificationPayload
pub mod Notifications
pub mod Fingerprint
pub mod Reasoning
pub mod Incidents
