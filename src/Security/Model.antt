-- ===== src/Security/Model.antt =====
-- The data of the container-security workflow (internal/model/security.go) and the tables that
-- hold it (migrations/0020_container_security.sql).
use touchgrass.Base.{ℕ, Bool, Text, Option, List}

-- The constructor `unknown` is Go's empty string; a value that names no constant is `other`.
pub data Severity : Type 0 where
  unknown low medium high critical : Severity
  other : Text → Severity

pub data Confidence : Type 0 where
  unknown low medium high : Confidence
  other : Text → Confidence

pub data Category : Type 0 where
  unknown posture process drift traffic : Category
  other : Text → Category

pub data Status : Type 0 where
  unknown open_status acknowledged resolved suppressed : Status

-- Evidence is a map of short texts.
abbrev pub Evidence : Type 0
Evidence = List (Text × Text)

pub record Observation : Type 0 where
  pub container_id : Text
  pub rule_id : Text
  pub category : Category
  pub severity : Severity
  pub confidence : Confidence
  pub detected : Bool
  pub coverage_complete : Bool
  pub evidence : Evidence
  pub observed_at : ℕ

pub record Evaluation : Type 0 where
  pub observation : Observation
  pub baseline_fingerprint : Text
  pub service_id : Text

pub record Finding : Type 0 where
  pub id : ℕ
  pub fingerprint : Text
  pub episode : ℕ
  pub container_id : Text
  pub rule_id : Text
  pub category : Category
  pub severity : Severity
  pub confidence : Confidence
  pub status : Status
  pub occurrence_count : ℕ
  pub opened_at : ℕ
  pub last_seen_at : ℕ
  pub evidence : Evidence
  pub acknowledged_at : Option ℕ
  pub acknowledged_by : Text
  pub resolved_at : Option ℕ
  pub resolved_by : Text
  pub suppressed_until : Option ℕ
  pub suppression_reason : Text
  pub suppression_actor : Text
  pub notification_status : Text

-- An operator's entry in the audit trail, written in the transaction of the change.
pub data Operation : Type 0 where
  acknowledge resolve suppress : Operation

pub record Entry : Type 0 where
  pub actor : Text
  pub action : Operation
  pub finding : ℕ

-- The tables `security_findings`, `security_observations` and `audit`.
pub record Store : Type 0 where
  pub findings : List Finding
  pub next_id : ℕ
  pub observations : List Observation
  pub trail : List Entry

-- `SecurityEvaluationResult`; `finding` is missing where Go leaves the zero value.
pub record EvaluationResult : Type 0 where
  pub finding : Option Finding
  pub opened : Bool
  pub recovered : Bool
