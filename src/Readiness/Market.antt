-- ===== src/Readiness/Market.antt =====
-- `create` of app/modules/product_market_state/service.py and the requests. What the service reads of other
-- tables (products, product versions, releases) is an argument. The request's checks by FastAPI and
-- the lengths of the columns are left out, and so is the race that `create` catches.
use regnova.Prelude.{
  ℕ, String, Bool, Option, none, some, List, ◌∷◌, find, any, ◌==◌, ◌&&◌, if◌then◌else◌,
}
use regnova.Prelude.Text.{str_eq}
use regnova.Basis.Model.{RegulatoryBasisRelease, is_active_of}
use regnova.Readiness.Model.{g0, gate_text, Floats, MarketState, Db}

pub record Product : Type 0 where
  pub id : ℕ
  pub organization_id : ℕ

pub record ProductVersion : Type 0 where
  pub id : ℕ
  pub organization_id : ℕ
  pub product_id : ℕ
  pub category : String
  pub is_active : Bool

-- The tables that the service reads.
pub record Catalog : Type 0 where
  pub products : List Product
  pub product_versions : List ProductVersion
  pub releases : List RegulatoryBasisRelease

-- The body of a PATCH: a field is none if it was not sent, and `some none` if null was sent.
pub record ProductMarketStateUpdate : Type 0 where
  pub product_version_id : Option (Option ℕ)
  pub regulatory_basis_release_id : Option (Option ℕ)
  pub gate : Option (Option String)
  pub status : Option (Option String)

pub record CreateRequest : Type 0 where
  pub organization_id : ℕ
  pub product_id : ℕ
  pub product_version_id : ℕ
  pub market : String
  pub jurisdiction : String
  pub actor_user_id : Option ℕ

pub record UpdateRequest : Type 0 where
  pub organization_id : ℕ
  pub product_id : ℕ
  pub state_id : ℕ
  pub payload : ProductMarketStateUpdate
  pub actor_user_id : Option ℕ
  pub correlation_id : Option String

-- The exceptions; `integrity_error` is one of the database that no handler catches.
pub data MarketError : Type 0 where
  product_not_found state_not_found product_version_not_found : MarketError
  ineligible_product_version release_not_found already_active integrity_error : MarketError

pub data Answer (A : Type 0) : Type 0 where
  ok : A → Answer A
  raise : MarketError → Answer A

-- `_get_product_or_404`, as a test.
unfoldable pub has_product : Catalog → ℕ → ℕ → Bool
has_product catalog organization_id product_id =
    any (λ (p : Product). (p.id == product_id) && (p.organization_id == organization_id))
      catalog.products

unfoldable pub validate_product_version : Catalog → ℕ → ℕ → ℕ → Answer ProductVersion
validate_product_version catalog organization_id product_id product_version_id =
    elim (find
      (λ (v : ProductVersion).
        (v.id == product_version_id)
        && (v.organization_id == organization_id)
        && (v.product_id == product_id))
      catalog.product_versions) [
        | none ↦ raise product_version_not_found
        | some version ↦ if version.is_active then ok version else raise ineligible_product_version
      ]

abbrev pub is_of : ℕ → ℕ → MarketState → Bool
is_of organization_id product_id s =
    (s.organization_id == organization_id) && (s.product_id == product_id)

abbrev pub is_active_in : ℕ → ℕ → String → MarketState → Bool
is_active_in organization_id product_id jurisdiction s =
    is_of organization_id product_id s
    && str_eq s.jurisdiction jurisdiction
    && str_eq s.status "ACTIVE"

unfoldable pub get_active_for_product_jurisdiction :
    List MarketState → ℕ → ℕ → String → Option MarketState
get_active_for_product_jurisdiction states organization_id product_id jurisdiction =
    find (is_active_in organization_id product_id jurisdiction) states

-- The row that `create` adds.
abbrev pub new_state : Catalog → CreateRequest → ProductVersion → ℕ → MarketState
new_state catalog q version new_id = record {
  id = new_id;
  organization_id = q.organization_id;
  product_id = q.product_id;
  product_version_id = some version.id;
  market = q.market;
  jurisdiction = q.jurisdiction;
  regulatory_basis_release_id =
      elim (find (is_active_of q.jurisdiction version.category) catalog.releases) [
        | none ↦ none
        | some release ↦ some release.id
      ];
  gate = gate_text g0;
  status = "ACTIVE";
  created_by_user_id = q.actor_user_id;
}

module _ {N F : Type 0} (fl : Floats F) where
  -- `create`: an active state of the product and the jurisdiction is returned as it is.
  unfoldable pub create : Catalog → CreateRequest → ℕ → Db N F → Answer (MarketState × Db N F)
  create catalog q new_id db =
      if has_product catalog q.organization_id q.product_id
      then elim (get_active_for_product_jurisdiction db.states q.organization_id q.product_id
          q.jurisdiction) [
            | some existing ↦ ok (existing, db)
            | none ↦
                elim (validate_product_version catalog q.organization_id q.product_id
                  q.product_version_id) [
                    | raise e ↦ raise e
                    | ok version ↦
                        let state = new_state catalog q version new_id in
                        ok (state, record db { states = state ∷ db.states })
                  ]
          ]
      else raise product_not_found
