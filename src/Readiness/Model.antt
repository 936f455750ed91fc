-- ===== src/Readiness/Model.antt =====
-- The rows and values of app/modules/market_readiness/service.py: the gates of
-- app/modules/product_market_state/models.py, the snapshots of app/modules/state_snapshot/models.py,
-- and the arithmetic of Python's `float`.
use regnova.Prelude.{ℕ, String, Bool, Option, List}
use regnova.Finding.Model.{Severity, FindingStatus}
use regnova.Assessment.Model as Run
use regnova.Assessment.Model.{DimensionState}

-- ProductMarketStateGate.
pub data Gate : Type 0 where
  g0 g1 g2 g3 g4 g5 : Gate

-- RequirementDimension.
pub data Dimension : Type 0 where
  classification_eligibility ingredients claims label documents testing representation : Dimension
  registration_readiness : Dimension

pub data ReasonCode : Type 0 where
  dimension_unknown dimension_no_subjects_resolved critical_finding_open : ReasonCode
  hard_gate_finding_open non_compliant_dimension major_finding_open pending_input_ : ReasonCode
  human_review_required_ g4_unreachable_no_approval_model : ReasonCode

-- Python's `float`: `float(n)` of an integer, a decimal of so many hundredths, the operators that
-- are used and `round(x, 2)`.
pub record Floats (F : Type 0) : Type 0 where
  pub of_nat : ℕ → F
  pub of_hundredths : ℕ → F
  pub add : F → F → F
  pub mul : F → F → F
  pub div : F → F → F
  pub round2 : F → F
  pub eq : F → F → Bool
  pub lt : F → F → Bool

-- An entry of `dimension_summary_raw`.
pub record DimensionInfo (F : Type 0) : Type 0 where
  pub dimension_assessment_id : ℕ
  pub state : DimensionState
  pub score : Option F
  pub excluded : Bool
  pub reused : Bool

-- A dict with the dimensions as keys, in the order of insertion.
abbrev pub Summary : Type 0 → Type 0
Summary F = List (Dimension × DimensionInfo F)

-- An entry of `_open_findings`.
pub record OpenFinding : Type 0 where
  pub severity : Severity
  pub status : FindingStatus
  pub hard_gate_effect : Bool

-- ProductMarketState; the gate and the status are the texts of their columns.
pub record MarketState : Type 0 where
  pub id : ℕ
  pub organization_id : ℕ
  pub product_id : ℕ
  pub product_version_id : Option ℕ
  pub market : String
  pub jurisdiction : String
  pub regulatory_basis_release_id : Option ℕ
  pub gate : String
  pub status : String
  pub created_by_user_id : Option ℕ

-- ProductMarketStateGate's value.
abbrev pub gate_text : Gate → String
gate_text g0 = "G0"
gate_text g1 = "G1"
gate_text g2 = "G2"
gate_text g3 = "G3"
gate_text g4 = "G4"
gate_text g5 = "G5"

-- What a snapshot keeps of a dimension.
pub record SummaryEntry (F : Type 0) : Type 0 where
  pub dimension_assessment_id : ℕ
  pub state : DimensionState
  pub score : Option F
  pub reused : Bool

pub record StateSnapshot (F : Type 0) : Type 0 where
  pub id : ℕ
  pub organization_id : ℕ
  pub product_market_state_id : ℕ
  pub product_version_id : Option ℕ
  pub regulatory_basis_release_id : Option ℕ
  pub assessment_run_id : ℕ
  pub overall_gate : Gate
  pub raw_progress : F
  pub displayed_progress : F
  pub highest_open_severity : Option Severity
  pub readiness_reason_codes : List ReasonCode
  pub outstanding_action_count : ℕ
  pub dimension_summary : List (Dimension × SummaryEntry F)
  pub unresolved_severity_counts : List (Severity × ℕ)
  pub engine_build : String
  pub is_current : Bool
  pub stale_reason : Option String
  pub superseded_by_snapshot_id : Option ℕ

-- The payloads of AssessmentCompleted and StateCurrentChanged.
pub data Payload (F : Type 0) : Type 0 where
  assessment_completed : ℕ → ℕ → ℕ → Gate → F → F → Payload F
  state_current_changed : ℕ → Option ℕ → Option ℕ → Option String → Option Gate → Payload F

pub record OutboxEvent (F : Type 0) : Type 0 where
  pub organization_id : ℕ
  pub payload : Payload F
  pub actor_user_id : Option ℕ
  pub correlation_id : Option String

-- The tables, newest rows first.
pub record Db (N F : Type 0) : Type 0 where
  pub assessment : Run.Db N
  pub states : List MarketState
  pub snapshots : List (StateSnapshot F)
  pub outbox : List (OutboxEvent F)
