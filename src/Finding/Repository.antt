-- ===== src/Finding/Repository.antt =====
-- The queries of app/modules/finding/repository.py.
use regnova.Prelude.{
  ℕ, String, Bool, true, false, Option, none, some, List, [], ◌∷◌, find, filter, any, ◌==◌, ◌&&◌,
  ltb, if◌then◌else◌, not,
}
use regnova.Prelude.Text.{str_eq}
use regnova.Finding.Model.{
  FindingStatus, rejected, superseded, is_terminal, Finding, FindingRevision, Db,
}

-- Equality of nullable columns: two nulls are matched by IS NULL.
abbrev pub same_id : Option ℕ → Option ℕ → Bool
same_id none none = true
same_id (some a) (some b) = a == b
same_id _ _ = false

abbrev pub same_key : Option String → Option String → Bool
same_key none none = true
same_key (some s) (some t) = str_eq s t
same_key _ _ = false

-- `FindingRepository.get_by_id`.
unfoldable pub get_finding : Db → ℕ → ℕ → ℕ → Option Finding
get_finding db organization_id product_market_state_id finding_id =
    find
      (λ f.
        (f.id == finding_id)
        && (f.organization_id == organization_id)
        && (f.product_market_state_id == product_market_state_id))
      db.findings

-- `FindingRepository.get_all`.
unfoldable pub get_all : Db → ℕ → ℕ → List Finding
get_all db organization_id product_market_state_id =
    filter
      (λ f.
        (f.organization_id == organization_id)
        && (f.product_market_state_id == product_market_state_id))
      db.findings

-- `FindingRepository.get_all_for_dimension`.
unfoldable pub get_all_for_dimension : Db → ℕ → ℕ → String → List Finding
get_all_for_dimension db organization_id product_market_state_id dimension =
    filter
      (λ f.
        (f.organization_id == organization_id)
        && (f.product_market_state_id == product_market_state_id)
        && str_eq f.dimension dimension)
      db.findings

abbrev pub later : FindingRevision → Option FindingRevision → Option FindingRevision
later r none = some r
later r (some s) = if ltb r.revision_number s.revision_number then some s else some r

-- The revision with the highest number, of those of one finding.
unfoldable pub latest_of : ℕ → List FindingRevision → Option FindingRevision
latest_of finding_id [] = none
latest_of finding_id (r ∷ rs) =
    let rest = latest_of finding_id rs in if r.finding_id == finding_id then later r rest else rest

-- `FindingRevisionRepository.get_latest`.
unfoldable pub get_latest : Db → ℕ → Option FindingRevision
get_latest db finding_id = latest_of finding_id db.revisions

abbrev pub is_discarded : FindingStatus → Bool
is_discarded superseded = true
is_discarded rejected = true
is_discarded _ = false

abbrev pub matches_key : ℕ → String → Option ℕ → Option String → Finding → Bool
matches_key product_market_state_id dimension requirement_version_id subject_key f =
    (f.product_market_state_id == product_market_state_id)
    && str_eq f.dimension dimension
    && same_id f.requirement_version_id requirement_version_id
    && same_key f.subject_key subject_key

abbrev pub is_live : Db → ℕ → Bool
is_live db finding_id = elim (get_latest db finding_id) [
  | none ↦ false
  | some latest ↦ elim (is_discarded latest.status) [ true ↦ false | false ↦ true ]
]

-- `FindingRepository.find_open_match`.
unfoldable pub find_open_match : Db → ℕ → String → Option ℕ → Option String → Option Finding
find_open_match db product_market_state_id dimension requirement_version_id subject_key =
    find
      (λ f.
        matches_key product_market_state_id dimension requirement_version_id subject_key f
        && is_live db f.id)
      db.findings

-- `FindingService.has_open_finding`.
unfoldable pub has_open_finding : Db → ℕ → ℕ → String → Bool
has_open_finding db organization_id product_market_state_id dimension =
    any
      (λ f. elim (get_latest db f.id) [
        | none ↦ false
        | some latest ↦ not (is_terminal latest.status)
      ])
      (get_all_for_dimension db organization_id product_market_state_id dimension)
