-- ===== src/Basis/Tests.antt =====
-- Runs of app/modules/regulatory_basis_release on small tables.
use regnova.Prelude.{◌≡◌, refl, ℕ, String, Option, none, some, List, [], ◌∷◌, map, arith}
use regnova.Prelude.Results.{OnOk}
use regnova.Basis.Model.{RequirementVersion, Db}
use regnova.Basis.Service.{
  RegulatoryBasisReleaseCreate, RegulatoryBasisReleaseUpdate, Request, create,
}
use regnova.Basis.Active.{IsSingle}
use regnova.Basis.Calls.{Call, create_, update_, run, run-IsSingle}
use regnova.Basis.Eligible.{IsEligible, create-IsEligible}

abbrev digits : List ℕ → String
digits [] = ""
digits (i ∷ is) = elim is [ [] ↦ "one" | ◌∷◌ j js ↦ "more" ]

abbrev content_hash : List ℕ → List ℕ → List ℕ → Option String → String
content_hash sources requirements rules configuration = digits requirements

abbrev request : Request
request = record { actor_user_id = some 7; correlation_id = none; now = 50 }

abbrev requirement_of : ℕ → RequirementVersion
requirement_of id = record {
  id = id;
  status = "ACTIVE";
  verified_at = some 5;
  jurisdiction = "TESTLAND";
  category = "BEAUTY";
}

abbrev start : Db
start = record {
  tenant_zero = some 1;
  source_versions = [];
  requirement_versions = requirement_of 10 ∷ requirement_of 11 ∷ [];
  rule_versions =
      record { id = 20; status = "ACTIVE"; verified_at = some 5; requirement_version_id = some 10 }
      ∷ [];
  releases = [];
  outbox = [];
  next_id = 100;
}

abbrev release_of : List ℕ → Option ℕ → RegulatoryBasisReleaseCreate
release_of requirements supersedes_id = record {
  jurisdiction = "TESTLAND";
  market = "TESTLAND";
  category = "BEAUTY";
  status = none;
  configuration = none;
  configuration_schema_name = none;
  configuration_schema_version = none;
  effective_from = none;
  effective_to = none;
  supersedes_id = supersedes_id;
  source_version_ids = [];
  requirement_version_ids = requirements;
  rule_version_ids = 20 ∷ [];
  notes = none;
}

abbrev set_status : String → RegulatoryBasisReleaseUpdate
set_status s = record {
  status = some s;
  notes = none;
  reviewer_user_id = none;
  verified_at = none;
  retired_at = none;
  superseded_by_id = none;
  effective_to = none;
}

-- A release, one that does not say what it supersedes and is refused, one that does, and a change of
-- the first release.
abbrev calls : List Call
calls =
    create_ request (release_of (10 ∷ []) none)
    ∷ create_ request (release_of (10 ∷ 11 ∷ []) none)
    ∷ create_ request (release_of (10 ∷ 11 ∷ []) (some 100))
    ∷ update_ request 100 (set_status "ARCHIVED")
    ∷ []

abbrev statuses : Db → List (ℕ × String)
statuses db = map (λ r. (r.id, r.status)) db.releases

after_calls : statuses (run content_hash calls start) ≡ (101, "ACTIVE") ∷ (100, "ARCHIVED") ∷ []
unfolding run
after_calls = refl

-- An update can make a second release of a scope active.
two_active :
    statuses (
      run content_hash
        (update_ request 100 (set_status "ACTIVE") ∷ [])
        (run content_hash calls start))
    ≡ (101, "ACTIVE") ∷ (100, "ACTIVE") ∷ []
unfolding run
two_active = refl

start-IsSingle : IsSingle start
start-IsSingle = record { falling = tt; single = λ j k. omega arith }

run-IsSingle_example : IsSingle (run content_hash calls start)
run-IsSingle_example =
    run-IsSingle content_hash calls start (refl, (refl, (refl, (refl, tt)))) start-IsSingle

create-IsEligible_example :
    OnOk
      (λ r. (r.0.jurisdiction ≡ "TESTLAND") × (r.0.category ≡ "BEAUTY") × IsEligible start r.0)
      (create content_hash request (release_of (10 ∷ []) none) start)
create-IsEligible_example = create-IsEligible content_hash request (release_of (10 ∷ []) none) start
