-- ===== src/Protocol.antt =====
-- packages/protocol/src/index.ts: the events that the services exchange.
pub mod JsonValue
pub mod Investigation
use pi_ops.Base.{ℕ, String, Option, List}
use pi_ops.Protocol.JsonValue.{Json}

pub data OpsEventSource : Type 0 where
  jfr application docker host health middleware deployment : OpsEventSource

pub data OpsEventSeverity : Type 0 where
  info warning error critical : OpsEventSeverity

pub record OpsEvent : Type 0 where
  pub schema_version : ℕ
  pub id : String
  pub time : String
  pub source : OpsEventSource
  pub node_id : String
  pub service : String
  pub type : String
  pub severity : OpsEventSeverity
  pub fingerprint : Option String
  pub trace_id : Option String
  pub message : String
  pub attributes : Json

pub record Producer : Type 0 where
  pub id : String
  pub type : String
  pub version : String

pub record EventBatch : Type 0 where
  pub producer : Producer
  pub events : List OpsEvent
