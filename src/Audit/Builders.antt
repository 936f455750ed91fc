-- ===== src/Audit/Builders.antt =====
-- The builders of app/modules/audit/service.py, by the type of the event.
use regnova.Prelude.{
  ℕ, String, Bool, true, false, Option, none, some, List, [], ◌∷◌, find, ◌==◌, ◌&&◌, if◌then◌else◌,
}
use regnova.Prelude.Results.{Result, ok, raise, ◌>>=◌}
use regnova.Prelude.Text.{str_eq}
use regnova.Audit.Model.{
  AuditVisibilityTier, customer_visible, internal_regulatory, technical_security, Value, null, text,
  other, Payload, OutboxEvent, ProductMarketState, Db, Error, bad_uuid, get, is_truthy,
}

pub record AuditEventDraft : Type 0 where
  pub visibility_tier : AuditVisibilityTier
  pub payload : Payload
  pub internal_payload : Option Payload
  pub product_id : Option ℕ
  pub product_market_state_id : Option ℕ

abbrev pub unscoped : AuditVisibilityTier → OutboxEvent → AuditEventDraft
unscoped tier event = record {
  visibility_tier = tier;
  payload = event.payload;
  internal_payload = none;
  product_id = none;
  product_market_state_id = none;
}

abbrev pub keep : String → Payload → String × Value
keep key payload = (key, get key payload)

abbrev pub product_of : Option ProductMarketState → Option ℕ
product_of none = none
product_of (some state) = some state.product_id

-- `uuid` is the identifier that a text spells.
module _ (uuid : String → Option ℕ) where
  abbrev pub parsed : Option ℕ → String → Result Error ℕ
  parsed none s = raise (bad_uuid s)
  parsed (some id) s = ok id

  -- `UUID(value)`.
  abbrev pub to_uuid : Value → Result Error ℕ
  to_uuid null = raise (bad_uuid "")
  to_uuid (text s) = parsed (uuid s) s
  to_uuid (other s truthy) = raise (bad_uuid s)

  abbrev pub scope_of : Db → ℕ → Value → Result Error (Option ℕ × Option ℕ)
  scope_of db organization_id null = ok (none, none)
  scope_of db organization_id value = do
    state_id ← to_uuid value
    ok (
      product_of (find (λ s. s.id == state_id && s.organization_id == organization_id) db.states),
      some state_id,
    )

  -- `_resolve_product_market_state_scope`.
  unfoldable pub resolve_product_market_state_scope :
      Db → ℕ → Payload → Result Error (Option ℕ × Option ℕ)
  resolve_product_market_state_scope db organization_id payload =
      scope_of db organization_id (get "product_market_state_id" payload)

  -- The whole payload in one tier, with the product of its market state.
  abbrev pub scoped : AuditVisibilityTier → Db → OutboxEvent → Result Error AuditEventDraft
  scoped tier db event = do
    scope ← resolve_product_market_state_scope db event.organization_id event.payload
    ok (record {
      visibility_tier = tier;
      payload = event.payload;
      internal_payload = none;
      product_id = scope.0;
      product_market_state_id = scope.1;
    })

  -- `_build_finding_proposed`.
  unfoldable pub build_finding_proposed : Db → OutboxEvent → Result Error AuditEventDraft
  unfolding resolve_product_market_state_scope
  build_finding_proposed db event = do
    scope ← resolve_product_market_state_scope db event.organization_id event.payload
    ok (record {
      visibility_tier = customer_visible;
      payload =
          keep "finding_id" event.payload
          ∷ keep "product_market_state_id" event.payload
          ∷ keep "dimension" event.payload
          ∷ keep "subject_key" event.payload
          ∷ keep "severity" event.payload
          ∷ keep "hard_gate_effect" event.payload
          ∷ ("status", text "PROPOSED")
          ∷ keep "assessment_run_id" event.payload
          ∷ keep "requirement_version_id" event.payload
          ∷ keep "rule_version_id" event.payload
          ∷ [];
      internal_payload = some (
          keep "issue_type" event.payload
          ∷ keep "observed_value" event.payload
          ∷ keep "observed_location" event.payload
          ∷ keep "rationale" event.payload
          ∷ keep "analysis_method" event.payload
          ∷ keep "ai_model_identifier" event.payload
          ∷ keep "ai_prompt_version" event.payload
          ∷ []);
      product_id = scope.0;
      product_market_state_id = scope.1;
    })

  abbrev pub evidence_product : Bool → Value → Result Error (Option ℕ)
  evidence_product false value = ok none
  evidence_product true value = to_uuid value >>= λ id. ok (some id)

  -- `_build_evidence_customer_visible`.
  unfoldable pub build_evidence_customer_visible : Db → OutboxEvent → Result Error AuditEventDraft
  build_evidence_customer_visible db event = do
    let value = get "product_id" event.payload
    product ← evidence_product (is_truthy value) value
    ok (record {
      visibility_tier = customer_visible;
      payload = event.payload;
      internal_payload = none;
      product_id = product;
      product_market_state_id = none;
    })

  abbrev pub is_text : String → Value → Bool
  is_text s null = false
  is_text s (text t) = str_eq t s
  is_text s (other t truthy) = false

  -- `_build_export_generated`.
  unfoldable pub build_export_generated : Db → OutboxEvent → Result Error AuditEventDraft
  unfolding resolve_product_market_state_scope
  build_export_generated db event =
      let tier =
        if is_text "FINDINGS_CSV" (get "export_type" event.payload)
        then customer_visible
        else internal_regulatory in
      scoped tier db event

  -- The builders without a case of their own: `_build_document_customer_visible`,
  -- `_build_regulatory_basis_activated`, `_build_internal_role_assignment_changed` and
  -- `_default_builder`, by their tier; `_build_finding_decision_changed`,
  -- `_build_assessment_completed` and `_build_state_current_changed`.
  abbrev pub build_unscoped : AuditVisibilityTier → Db → OutboxEvent → Result Error AuditEventDraft
  build_unscoped tier db event = ok (unscoped tier event)

  unfoldable pub build_scoped_customer_visible : Db → OutboxEvent → Result Error AuditEventDraft
  unfolding resolve_product_market_state_scope
  build_scoped_customer_visible db event = scoped customer_visible db event

  abbrev pub Builder : Type 0
  Builder = Db → OutboxEvent → Result Error AuditEventDraft

  -- AUDIT_BUILDERS.
  abbrev pub audit_builders : List (String × Builder)
  audit_builders =
      ("FindingProposed", build_finding_proposed)
      ∷ ("FindingDecisionChanged", build_scoped_customer_visible)
      ∷ ("DocumentVersionUploaded", build_unscoped customer_visible)
      ∷ ("DocumentVersionVerified", build_unscoped customer_visible)
      ∷ ("DocumentVersionRejected", build_unscoped customer_visible)
      ∷ ("DocumentVersionQuarantined", build_unscoped customer_visible)
      ∷ ("DocumentVersionScanFailed", build_unscoped customer_visible)
      ∷ ("DocumentFieldRevised", build_unscoped customer_visible)
      ∷ ("EvidenceLinked", build_evidence_customer_visible)
      ∷ ("EvidenceUnlinked", build_evidence_customer_visible)
      ∷ ("RegulatoryBasisActivated", build_unscoped internal_regulatory)
      ∷ ("AssessmentCompleted", build_scoped_customer_visible)
      ∷ ("StateCurrentChanged", build_scoped_customer_visible)
      ∷ ("InternalRoleAssignmentChanged", build_unscoped technical_security)
      ∷ ("ExportGenerated", build_export_generated)
      ∷ []

  abbrev pub or_default : Option (String × Builder) → Builder
  or_default none = build_unscoped internal_regulatory
  or_default (some entry) = entry.1

  -- `AUDIT_BUILDERS.get(event_type, _default_builder)`.
  unfoldable pub builder_of : String → Builder
  unfolding build_finding_proposed build_scoped_customer_visible build_evidence_customer_visible
      build_export_generated
  builder_of event_type = or_default (find (λ entry. str_eq entry.0 event_type) audit_builders)
