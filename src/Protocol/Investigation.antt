-- ===== src/Protocol/Investigation.antt =====
-- packages/protocol/src/investigation-runtime.ts: the diagnosis that an investigation ends with. A
-- confidence is held as its JSON text.
use pi_ops.Base.{String, Bool, Option, List}

pub data ActionPurpose : Type 0 where
  mitigation repair verification evidence_collection : ActionPurpose

pub record InvestigationAction : Type 0 where
  pub purpose : ActionPurpose
  pub target : String
  pub preconditions : List String
  pub operation : String
  pub expected_result : String
  pub risk : String
  pub requires_approval : Bool
  pub evidence_ids : List String

pub data SeverityLevel : Type 0 where
  severe high ordinary : SeverityLevel

pub record SummarySeverity : Type 0 where
  pub level : SeverityLevel
  pub reason : String

pub record InvestigationSummary : Type 0 where
  pub scene : String
  pub what_happened : String
  pub severity : SummarySeverity
  pub recovery : List String

pub record DiagnosisObservation : Type 0 where
  pub statement : String
  pub evidence_ids : List String

pub record CandidateCause : Type 0 where
  pub cause : String
  pub supporting_evidence_ids : List String
  pub contradicting_evidence_ids : List String

pub record InvestigationDiagnosis : Type 0 where
  pub summary : Option InvestigationSummary
  pub observations : List DiagnosisObservation
  pub candidate_causes : List CandidateCause
  pub uncertainties : List String
  pub actions : List InvestigationAction
