-- ===== src/Readiness/Open.antt =====
-- `_open_findings` of app/modules/market_readiness/service.py and the counts of their severities.
use regnova.Prelude.{
  ℕ, ◌+◌, Bool, true, false, Option, none, some, List, [], ◌∷◌, map, ltb, if◌then◌else◌,
}
use regnova.Finding.Model.{
  Severity, critical, major, moderate, minor, informational, Finding, is_terminal,
}
use regnova.Finding.Model as Review
use regnova.Finding.Repository.{get_all, get_latest}
use regnova.Readiness.Model.{OpenFinding}

-- _SEVERITY_ORDER.
abbrev pub severity_order : List Severity
severity_order = critical ∷ major ∷ moderate ∷ minor ∷ informational ∷ []

abbrev pub same_severity : Severity → Severity → Bool
same_severity critical critical = true
same_severity major major = true
same_severity moderate moderate = true
same_severity minor minor = true
same_severity informational informational = true
same_severity _ _ = false

-- The loop of `_open_findings`.
unfoldable pub open_of : Review.Db → List Finding → List OpenFinding
open_of db [] = []
open_of db (f ∷ fs) =
    let rest = open_of db fs in
    elim (get_latest db f.id) [
      | none ↦ rest
      | some latest ↦
          if is_terminal latest.status
          then rest
          else record {
            severity = latest.severity;
            status = latest.status;
            hard_gate_effect = latest.hard_gate_effect;
          }
            ∷ rest
    ]

-- `_open_findings`.
unfoldable pub open_findings : Review.Db → ℕ → ℕ → List OpenFinding
unfolding open_of
open_findings db organization_id product_market_state_id =
    open_of db (get_all db organization_id product_market_state_id)

-- One more of a severity, in a dict that has all of them.
abbrev pub add_one : Severity → List (Severity × ℕ) → List (Severity × ℕ)
add_one s [] = []
add_one s ((t, n) ∷ counts) =
    if same_severity s t then (t, n + 1) ∷ counts else (t, n) ∷ add_one s counts

unfoldable pub count_severities : List (Severity × ℕ) → List OpenFinding → List (Severity × ℕ)
count_severities counts [] = counts
count_severities counts (f ∷ fs) = count_severities (add_one f.severity counts) fs

abbrev pub no_severities : List (Severity × ℕ)
no_severities = map (λ s. (s, 0)) severity_order

-- The first severity of the order with a positive count.
unfoldable pub highest_severity : List (Severity × ℕ) → Option Severity
highest_severity [] = none
highest_severity ((s, n) ∷ counts) = if ltb 0 n then some s else highest_severity counts
