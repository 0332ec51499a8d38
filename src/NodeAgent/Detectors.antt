-- ===== src/NodeAgent/Detectors.antt =====
-- apps/node-agent/src/detectors: what the detectors share, and their arithmetic.
--
-- The source's numbers are doubles, which are a parameter here: a type with the operations that the
-- detectors use.
pub mod Disk
pub mod Memory
pub mod Health
pub mod Runs
pub mod Targets
mod Tests
use pi_ops.Base.{ℕ, String, Bool, Option, none, some, List, [], ◌∷◌}
use pi_ops.Protocol.{OpsEvent}
use pi_ops.NodeAgent.Hysteresis.{HysteresisState}
use pi_ops.NodeAgent.Sender.{Sender, enqueue}
pub use pi_ops.NodeAgent.Sender.{Config as SenderConfig}

pub record Arithmetic {ℓ} (F : Type ℓ) : Type ℓ where
  pub of_nat : ℕ → F
  pub times : F → F → F
  pub over : F → F → F
  pub minus : F → F → F
  -- `>=` and `>`
  pub at_least : F → F → Bool
  pub above : F → F → Bool
  -- Math.round, toFixed and the text that JSON gives a number
  pub round : F → F
  pub to_fixed : ℕ → F → String
  pub number_text : F → String

-- What `crypto.randomUUID()` and the clock return to one poll.
pub record Stamp : Type 0 where
  pub id : String
  pub time : String

-- A detector with the sender that it reports to.
pub record Detector : Type 0 where
  pub hysteresis : HysteresisState
  pub sender : Sender OpsEvent

-- `sender.enqueue`, if there is an event.
abbrev pub report : SenderConfig → Option OpsEvent → Sender OpsEvent → Sender OpsEvent
report config none s = s
report config (some event) s = (enqueue config s event).0
