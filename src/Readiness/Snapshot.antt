-- ===== src/Readiness/Snapshot.antt =====
-- `_build_snapshot` of app/modules/market_readiness/service.py.
use regnova.Prelude.{
  ℕ, String, Bool, true, false, Option, none, some, List, [], ◌∷◌, map, find, length, ◌==◌, ◌&&◌,
  if◌then◌else◌,
}
use regnova.Prelude.Rows.{modify_first}
use regnova.Assessment.Model.{AssessmentRun}
use regnova.Readiness.Model.{
  Gate, g0, g2, g3, gate_text, Dimension, classification_eligibility, ingredients, claims, label,
  documents, testing, representation, registration_readiness, Floats, DimensionInfo, Summary,
  OpenFinding, MarketState, SummaryEntry, StateSnapshot, assessment_completed,
  state_current_changed, Db,
}
use regnova.Readiness.Gate.{compute_gate}
use regnova.Readiness.Open.{open_findings, count_severities, no_severities, highest_severity}

-- DIMENSION_WEIGHTS.
abbrev pub dimension_weight : Dimension → ℕ
dimension_weight classification_eligibility = 15
dimension_weight ingredients = 20
dimension_weight claims = 15
dimension_weight label = 15
dimension_weight documents = 15
dimension_weight testing = 5
dimension_weight representation = 5
dimension_weight registration_readiness = 10

-- _DISPLAY_CAPS.
abbrev pub display_cap : Gate → Option ℕ
display_cap g0 = some 49
display_cap g2 = some 89
display_cap g3 = some 79
display_cap _ = none

module _ {F : Type 0} (fl : Floats F) where
  -- `info["score"] or 0.0`.
  abbrev pub score_or_zero : Option F → F
  score_or_zero none = fl.of_nat 0
  score_or_zero (some score) = if fl.eq score (fl.of_nat 0) then fl.of_nat 0 else score

  -- The loop over the dimensions: the weighted sum and the total of the weights.
  unfoldable pub weigh : Summary F → F → F → F × F
  weigh [] weighted_sum weight_total = (weighted_sum, weight_total)
  weigh ((dimension, info) ∷ summary) weighted_sum weight_total =
      let weight = fl.of_nat (dimension_weight dimension) in
      let score = score_or_zero info.score in
      elim info.excluded [
        | true ↦ weigh summary weighted_sum weight_total
        | false ↦
            weigh summary (fl.add weighted_sum (fl.mul score weight)) (fl.add weight_total weight)
      ]

  unfoldable pub raw_progress_of : Summary F → F
  unfolding weigh
  raw_progress_of summary =
      let (weighted_sum, weight_total) = weigh summary (fl.of_nat 0) (fl.of_nat 0) in
      if fl.eq weight_total (fl.of_nat 0)
      then fl.of_nat 0
      else fl.round2 (fl.div weighted_sum weight_total)

  -- `min(raw_progress, cap)`: Python keeps the first unless the second is less.
  unfoldable pub displayed_of : Gate → F → F
  displayed_of gate raw_progress = elim (display_cap gate) [
    | none ↦ raw_progress
    | some cap ↦ if fl.lt (fl.of_nat cap) raw_progress then fl.of_nat cap else raw_progress
  ]

  abbrev pub entry_of : DimensionInfo F → SummaryEntry F
  entry_of info = record {
    dimension_assessment_id = info.dimension_assessment_id;
    state = info.state;
    score = info.score;
    reused = info.reused;
  }

  abbrev pub is_current_for : ℕ → StateSnapshot F → Bool
  is_current_for state_id s = (s.product_market_state_id == state_id) && s.is_current

  -- `StateSnapshotRepository.get_current`.
  unfoldable pub get_current : List (StateSnapshot F) → ℕ → Option (StateSnapshot F)
  get_current snapshots state_id = find (is_current_for state_id) snapshots

  abbrev pub superseded : ℕ → StateSnapshot F → StateSnapshot F
  superseded new_id s = record s {
    is_current = false;
    stale_reason = some "SUPERSEDED_BY_NEW_SNAPSHOT";
    superseded_by_snapshot_id = some new_id;
  }

  -- The row that `get_current` returned is updated in place.
  unfoldable pub supersede_current : ℕ → ℕ → List (StateSnapshot F) → List (StateSnapshot F)
  unfolding modify_first
  supersede_current state_id new_id snapshots =
      modify_first (is_current_for state_id) (superseded new_id) snapshots

  abbrev pub set_gate : ℕ → Gate → List MarketState → List MarketState
  set_gate id gate states =
      map (λ s. if s.id == id then record s { gate = gate_text gate } else s) states

  -- The snapshot that `_build_snapshot` creates.
  unfoldable pub snapshot_of :
      String → MarketState → AssessmentRun → Summary F → List OpenFinding → ℕ → StateSnapshot F
  snapshot_of engine_build state run summary findings id =
      let counts = count_severities no_severities findings in
      let (gate, reasons) = compute_gate summary findings in
      let raw_progress = raw_progress_of summary in
      record {
        id = id;
        organization_id = state.organization_id;
        product_market_state_id = state.id;
        product_version_id = state.product_version_id;
        regulatory_basis_release_id = state.regulatory_basis_release_id;
        assessment_run_id = run.id;
        overall_gate = gate;
        raw_progress = raw_progress;
        displayed_progress = displayed_of gate raw_progress;
        highest_open_severity = highest_severity counts;
        readiness_reason_codes = reasons;
        outstanding_action_count = length findings;
        dimension_summary = map (λ e. (e.0, entry_of e.1)) summary;
        unresolved_severity_counts = counts;
        engine_build = engine_build;
        is_current = true;
        stale_reason = none;
        superseded_by_snapshot_id = none;
      }

  -- `_build_snapshot`; the requesting user of the run is an argument.
  unfoldable pub build_snapshot :
      {N : Type 0}
      → String
      → MarketState
      → AssessmentRun
      → Option ℕ
      → Summary F
      → Option String
      → ℕ
      → Db N F
      → StateSnapshot F × Db N F
  build_snapshot engine_build state run requested_by_user_id summary correlation_id new_id db =
      let findings = open_findings db.assessment.review state.organization_id state.id in
      let previous = get_current db.snapshots state.id in
      let snapshot = snapshot_of engine_build state run summary findings new_id in
      (
        snapshot,
        record db {
          snapshots = snapshot ∷ supersede_current state.id new_id db.snapshots;
          states = set_gate state.id snapshot.overall_gate db.states;
          outbox =
              record {
                organization_id = state.organization_id;
                payload =
                    state_current_changed state.id (some snapshot.id)
                      (elim previous [ none ↦ none | some p ↦ some p.id ])
                      (elim previous [ none ↦ none | some p ↦ some "SUPERSEDED_BY_NEW_SNAPSHOT" ])
                      (some snapshot.overall_gate);
                actor_user_id = requested_by_user_id;
                correlation_id = correlation_id;
              }
              ∷ record {
                organization_id = state.organization_id;
                payload =
                    assessment_completed run.id snapshot.id state.id snapshot.overall_gate
                      snapshot.raw_progress snapshot.displayed_progress;
                actor_user_id = requested_by_user_id;
                correlation_id = correlation_id;
              }
              ∷ db.outbox;
        },
      )
