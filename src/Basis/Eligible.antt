-- ===== src/Basis/Eligible.antt =====
-- What app/modules/regulatory_basis_release/service.py lets into a release.
use regnova.Prelude.{◌≡◌, refl, ℕ, String, true, Option, List, [], ◌∷◌, find, any, not, All, ◌==◌}
use regnova.Prelude.Results.{require, or_raise, OnOk, OnOk_apply, OnOk-bind, require-ok}
use regnova.Prelude.Text.{str_eq}
use regnova.Basis.Model.{
  SourceVersion, RequirementVersion, RuleVersion, RegulatoryBasisRelease, Db,
  source_version_not_found, requirement_version_not_found, rule_version_not_found,
  ineligible_version, version_scope_mismatch, release_not_found, already_active, duplicate_content,
}
use regnova.Basis.Service.{
  RegulatoryBasisReleaseCreate, Request, is_eligible, resolve_eligible_source_versions, in_scope,
  resolve_eligible_requirement_versions, rule_in_scope, resolve_eligible_rule_versions, get_active,
  status_of, existing_if, may_activate, release_exists, new_release, create,
}

-- The versions of a release: active, verified and of its jurisdiction and category.
abbrev pub IsEligible : Db → RegulatoryBasisRelease → Type 0
IsEligible db r =
    All (λ v. is_eligible v.status v.verified_at ≡ true) r.source_versions
    × All
        (λ v.
          (is_eligible v.status v.verified_at ≡ true)
          × (in_scope r.jurisdiction r.category v ≡ true))
        r.requirement_versions
    × All
        (λ v.
          (is_eligible v.status v.verified_at ≡ true)
          × (rule_in_scope r.jurisdiction r.category db v.requirement_version_id ≡ true))
        r.rule_versions

sources_eligible :
    (ids : List ℕ) (db : Db)
    → OnOk
        (All (λ v. is_eligible v.status v.verified_at ≡ true))
        (resolve_eligible_source_versions ids db)
unfolding resolve_eligible_source_versions
sources_eligible [] db = tt
sources_eligible (id ∷ ids) db =
    let P : List SourceVersion → Type 0 = All (λ v. is_eligible v.status v.verified_at ≡ true) in
    OnOk-bind P (or_raise (find (λ v. v.id == id) db.source_versions) source_version_not_found) _
      (λ v e.
        OnOk-bind P (require (is_eligible v.status v.verified_at) ineligible_version) _ (λ u k.
          OnOk-bind P (resolve_eligible_source_versions ids db) _ (λ vs d.
            (require-ok _ ineligible_version u k, OnOk_apply P d (sources_eligible ids db)))))

requirements_eligible :
    (ids : List ℕ) (j c : String) (db : Db)
    → OnOk
        (All (λ v. (is_eligible v.status v.verified_at ≡ true) × (in_scope j c v ≡ true)))
        (resolve_eligible_requirement_versions ids j c db)
unfolding resolve_eligible_requirement_versions
requirements_eligible [] j c db = tt
requirements_eligible (id ∷ ids) j c db =
    let P : List RequirementVersion → Type 0 =
      All (λ v. (is_eligible v.status v.verified_at ≡ true) × (in_scope j c v ≡ true)) in
    OnOk-bind P
      (or_raise (find (λ v. v.id == id) db.requirement_versions) requirement_version_not_found) _
      (λ v e.
        OnOk-bind P (require (is_eligible v.status v.verified_at) ineligible_version) _ (λ u k.
          OnOk-bind P (require (in_scope j c v) version_scope_mismatch) _ (λ w l.
            OnOk-bind P (resolve_eligible_requirement_versions ids j c db) _ (λ vs d. (
              (require-ok _ ineligible_version u k, require-ok _ version_scope_mismatch w l),
              OnOk_apply P d (requirements_eligible ids j c db),
            )))))

rules_eligible :
    (ids : List ℕ) (j c : String) (db : Db)
    → OnOk
        (All (λ v.
          (is_eligible v.status v.verified_at ≡ true)
          × (rule_in_scope j c db v.requirement_version_id ≡ true)))
        (resolve_eligible_rule_versions ids j c db)
unfolding resolve_eligible_rule_versions
rules_eligible [] j c db = tt
rules_eligible (id ∷ ids) j c db =
    let P : List RuleVersion → Type 0 = All (λ v.
      (is_eligible v.status v.verified_at ≡ true)
      × (rule_in_scope j c db v.requirement_version_id ≡ true)) in
    OnOk-bind P (or_raise (find (λ v. v.id == id) db.rule_versions) rule_version_not_found) _
      (λ v e.
        OnOk-bind P (require (is_eligible v.status v.verified_at) ineligible_version) _ (λ u k.
          OnOk-bind P
            (require (rule_in_scope j c db v.requirement_version_id) version_scope_mismatch) _
            (λ w l. OnOk-bind P (resolve_eligible_rule_versions ids j c db) _ (λ vs d. (
              (require-ok _ ineligible_version u k, require-ok _ version_scope_mismatch w l),
              OnOk_apply P d (rules_eligible ids j c db),
            )))))

-- A release that is made has the jurisdiction and the category of the request; its source,
-- requirement and rule versions are active and verified, its requirement versions are of its
-- jurisdiction and category, and so is the requirement version of each of its rules that has one.
pub create-IsEligible :
    (content_hash : List ℕ → List ℕ → List ℕ → Option String → String) (q : Request)
    (payload : RegulatoryBasisReleaseCreate) (db : Db)
    → OnOk
        (λ r.
          (r.0.jurisdiction ≡ payload.jurisdiction)
          × (r.0.category ≡ payload.category)
          × IsEligible db r.0)
        (create content_hash q payload db)
unfolding create
create-IsEligible content_hash q payload db =
    let P : RegulatoryBasisRelease × Db → Type 0 = λ r.
      (r.0.jurisdiction ≡ payload.jurisdiction)
      × (r.0.category ≡ payload.category)
      × IsEligible db r.0 in
    let j = payload.jurisdiction in
    let c = payload.category in
    OnOk-bind P (resolve_eligible_source_versions payload.source_version_ids db) _ (λ s a.
      OnOk-bind P (resolve_eligible_requirement_versions payload.requirement_version_ids j c db) _
        (λ t b.
          OnOk-bind P (resolve_eligible_rule_versions payload.rule_version_ids j c db) _ (λ u d.
            OnOk-bind P (require (release_exists payload.supersedes_id db) release_not_found) _
              (λ e f.
                OnOk-bind P
                  (require
                    (may_activate payload.supersedes_id (
                      existing_if (str_eq (status_of payload.status) "ACTIVE") (get_active j c db)))
                    already_active)
                  _
                  (λ g h.
                    let release = new_release content_hash payload s t u db in
                    OnOk-bind P
                      (require
                        (not (any (λ r. str_eq r.content_hash release.content_hash) db.releases))
                        duplicate_content)
                      _
                      (λ i k. (
                        refl,
                        refl,
                        (
                          OnOk_apply _ a (sources_eligible payload.source_version_ids db),
                          OnOk_apply _ b
                              (requirements_eligible payload.requirement_version_ids j c db),
                          OnOk_apply _ d (rules_eligible payload.rule_version_ids j c db),
                        ),
                      )))))))
