-- ===== src/Readiness/Severities.antt =====
-- The severities and the progress that a snapshot of app/modules/market_readiness/service.py shows.
use regnova.Prelude.{
  ◌≡◌, refl, ap, ◌∙◌, ℕ, ◌≤◌, ◌+◌, String, Option, none, some, List, [], ◌∷◌, filter, length,
  if◌then◌else◌, arith,
}
use regnova.Finding.Model.{Severity, critical, major, moderate, minor, informational}
use regnova.Assessment.Model.{AssessmentRun}
use regnova.Readiness.Model.{Floats, Summary, OpenFinding, MarketState}
use regnova.Readiness.Open.{
  same_severity, add_one, count_severities, no_severities, highest_severity,
}
use regnova.Readiness.Snapshot.{snapshot_of}
use regnova.Readiness.Worst.{rank, findings_allow, compute_gate-worst}

-- How many findings have a severity.
abbrev pub count : Severity → List OpenFinding → ℕ
count s findings = length (filter (λ f. same_severity s f.severity) findings)

abbrev table : ℕ → ℕ → ℕ → ℕ → ℕ → List (Severity × ℕ)
table a b c d e = (critical, a) ∷ (major, b) ∷ (moderate, c) ∷ (minor, d) ∷ (informational, e) ∷ []

table_congr :
    {a a' b b' c c' d d' e e' : ℕ}
    → a ≡ a'
    → b ≡ b'
    → c ≡ c'
    → d ≡ d'
    → e ≡ e'
    → table a b c d e ≡ table a' b' c' d' e'
table_congr p q r s t = cc

abbrev hit : Severity → Severity → ℕ
hit s t = if same_severity s t then 1 else 0

add_one-table :
    (s : Severity) (a b c d e : ℕ)
    → add_one s (table a b c d e)
      ≡ table
          (a + hit critical s)
          (b + hit major s)
          (c + hit moderate s)
          (d + hit minor s)
          (e + hit informational s)
add_one-table critical a b c d e =
    table_congr (omega arith) (omega arith) (omega arith) (omega arith) (omega arith)
add_one-table major a b c d e =
    table_congr (omega arith) (omega arith) (omega arith) (omega arith) (omega arith)
add_one-table moderate a b c d e =
    table_congr (omega arith) (omega arith) (omega arith) (omega arith) (omega arith)
add_one-table minor a b c d e =
    table_congr (omega arith) (omega arith) (omega arith) (omega arith) (omega arith)
add_one-table informational a b c d e =
    table_congr (omega arith) (omega arith) (omega arith) (omega arith) (omega arith)

count-cons :
    (s : Severity) (n : ℕ) (f : OpenFinding) (findings : List OpenFinding)
    → n + hit s f.severity + count s findings ≡ n + count s (f ∷ findings)
count-cons s n f findings = ground arith

count_severities-table :
    (a b c d e : ℕ) (findings : List OpenFinding)
    → count_severities (table a b c d e) findings
      ≡ table
          (a + count critical findings)
          (b + count major findings)
          (c + count moderate findings)
          (d + count minor findings)
          (e + count informational findings)
unfolding count_severities
count_severities-table a b c d e [] =
    table_congr (omega arith) (omega arith) (omega arith) (omega arith) (omega arith)
count_severities-table a b c d e (f ∷ findings) =
    ap (λ counts. count_severities counts findings) (add_one-table f.severity a b c d e)
    ∙ count_severities-table (a + hit critical f.severity) (b + hit major f.severity)
        (c + hit moderate f.severity) (d + hit minor f.severity) (e + hit informational f.severity)
        findings
    ∙ table_congr (count-cons critical a f findings) (count-cons major b f findings)
        (count-cons moderate c f findings) (count-cons minor d f findings)
        (count-cons informational e f findings)

-- The most severe of the findings.
abbrev pub more_severe : Severity → Option Severity → Option Severity
more_severe critical o = some critical
more_severe s none = some s
more_severe major (some critical) = some critical
more_severe major (some s) = some major
more_severe moderate (some critical) = some critical
more_severe moderate (some major) = some major
more_severe moderate (some s) = some moderate
more_severe minor (some informational) = some minor
more_severe minor (some s) = some s
more_severe informational (some s) = some s

abbrev pub most_severe : List OpenFinding → Option Severity
most_severe [] = none
most_severe (f ∷ findings) = more_severe f.severity (most_severe findings)

highest_severity-hit :
    (s : Severity) (a b c d e : ℕ)
    → highest_severity (
        table
          (a + hit critical s)
          (b + hit major s)
          (c + hit moderate s)
          (d + hit minor s)
          (e + hit informational s))
      ≡ more_severe s (highest_severity (table a b c d e))
unfolding highest_severity
highest_severity-hit critical a b c d e = ground arith
highest_severity-hit major a b c d e = ground arith
highest_severity-hit moderate a b c d e = ground arith
highest_severity-hit minor a b c d e = ground arith
highest_severity-hit informational a b c d e = ground arith

count-hit :
    (s : Severity) (f : OpenFinding) (findings : List OpenFinding)
    → count s (f ∷ findings) ≡ count s findings + hit s f.severity
count-hit s f findings = ground arith

highest_severity-table :
    (findings : List OpenFinding)
    → highest_severity (
        table
          (count critical findings)
          (count major findings)
          (count moderate findings)
          (count minor findings)
          (count informational findings))
      ≡ most_severe findings
unfolding highest_severity
highest_severity-table [] = refl
highest_severity-table (f ∷ findings) =
    ap highest_severity (
      table_congr (count-hit critical f findings) (count-hit major f findings)
        (count-hit moderate f findings) (count-hit minor f findings)
        (count-hit informational f findings))
    ∙ highest_severity-hit f.severity (count critical findings) (count major findings)
        (count moderate findings) (count minor findings) (count informational findings)
    ∙ ap (more_severe f.severity) (highest_severity-table findings)

-- The best gate that an open finding of that severity leaves.
abbrev pub severity_allows : Option Severity → ℕ
severity_allows (some critical) = 1
severity_allows (some major) = 2
severity_allows _ = 3

findings_allow-most_severe :
    (findings : List OpenFinding) → findings_allow findings ≤ severity_allows (most_severe findings)
findings_allow-most_severe [] = omega arith
findings_allow-most_severe (f ∷ findings) = ground (arith, findings_allow-most_severe findings)

module _ {F : Type 0} (fl : Floats F) (engine_build : String) (state : MarketState)
    (run : AssessmentRun) where
  -- A snapshot shows as the highest open severity that of its most severe open finding, its counts
  -- are those of the open findings by severity, and its gate is at most G1 where that severity is
  -- critical and at most G2 where it is major.
  pub snapshot_of-severity :
      (summary : Summary F) (findings : List OpenFinding) (id : ℕ)
      → let snapshot = snapshot_of fl engine_build state run summary findings id in
        (snapshot.highest_open_severity ≡ most_severe findings)
        × (snapshot.unresolved_severity_counts
            ≡ (critical, count critical findings)
              ∷ (major, count major findings)
              ∷ (moderate, count moderate findings)
              ∷ (minor, count minor findings)
              ∷ (informational, count informational findings)
              ∷ [])
        × (rank snapshot.overall_gate ≤ severity_allows snapshot.highest_open_severity)
  unfolding snapshot_of
  snapshot_of-severity summary findings id =
      let counts : count_severities no_severities findings
          ≡ table (count critical findings) (count major findings) (count moderate findings)
              (count minor findings) (count informational findings) =
        count_severities-table 0 0 0 0 0 findings
        ∙ table_congr (omega arith) (omega arith) (omega arith) (omega arith) (omega arith) in
      (
        ap highest_severity counts ∙ highest_severity-table findings,
        counts,
        ground (
          arith,
          compute_gate-worst summary findings,
          findings_allow-most_severe findings,
          counts,
          highest_severity-table findings,
        ),
      )
