-- ===== src/Readiness/MarketTests.antt =====
-- Market states that are created, changed and assessed, and the theorems about their histories.
use regnova.Prelude.{◌≡◌, refl, ℕ, true, false, none, some, [], ◌∷◌, All, Bool, map, Option}
use regnova.Finding.Repository.{get_all}
use regnova.Assessment.Tests.{run}
use regnova.Readiness.Model.{MarketState, StateSnapshot, Db}
use regnova.Readiness.Snapshot.{get_current, build_snapshot}
use regnova.Readiness.Market.{
  Catalog, ProductMarketStateUpdate, CreateRequest, UpdateRequest, ok, raise, already_active,
  integrity_error, has_product, validate_product_version, get_active_for_product_jurisdiction,
  new_state, create,
}
use regnova.Readiness.Update.{
  release_refused, refused, pin_changed, changed_by, violates, set_state, stale, write_update,
  update,
}
use regnova.Readiness.Links.{Chain}
use regnova.Readiness.Writers.{Reach, here, built, created, updated}
use regnova.Readiness.Currency.{Reach-Chain}
use regnova.Readiness.Carried.{HasGate, sends_no_gate, Reach-HasGate}
use regnova.Readiness.Tests.{hundredths, summary, product, tables, samples}

-- Two versions of product 6.
abbrev catalog : Catalog
catalog = record {
  products = record { id = 6; organization_id = 7 } ∷ [];
  product_versions =
      record { id = 50; organization_id = 7; product_id = 6; category = "CREAM"; is_active = true }
      ∷ record {
        id = 53;
        organization_id = 7;
        product_id = 6;
        category = "CREAM";
        is_active = true;
      }
      ∷ [];
  releases = [];
}

abbrev unsent : ProductMarketStateUpdate
unsent = record {
  product_version_id = none;
  regulatory_basis_release_id = none;
  gate = none;
  status = none;
}

abbrev patch : ProductMarketStateUpdate → UpdateRequest
patch payload = record {
  organization_id = 7;
  product_id = 6;
  state_id = 5;
  payload = payload;
  actor_user_id = some 9;
  correlation_id = none;
}

-- A new version is pinned; the state's release is cleared by null; the gate is sent.
abbrev other_version : UpdateRequest
other_version = patch (record unsent { product_version_id = some (some 53) })

abbrev no_release : UpdateRequest
no_release = patch (record unsent { regulatory_basis_release_id = some none })

abbrev sent_gate : UpdateRequest
sent_gate = patch (record unsent { gate = some (some "G5") })

abbrev no_gate : UpdateRequest
no_gate = patch (record unsent { product_version_id = some (some 53); gate = some none })

abbrev american : CreateRequest
american = record {
  organization_id = 7;
  product_id = 6;
  product_version_id = 50;
  market = "US";
  jurisdiction = "US";
  actor_user_id = none;
}

american_state : MarketState
american_state =
    new_state catalog american
      (record {
        id = 50;
        organization_id = 7;
        product_id = 6;
        category = "CREAM";
        is_active = true;
      })
      8

with_american : Db ℕ ℕ
with_american = record tables { states = american_state ∷ tables.states }

-- A snapshot of `product`, by its row of the tables.
abbrev snapshot_at : ℕ → MarketState → Db ℕ ℕ → Db ℕ ℕ
snapshot_at id state db = (build_snapshot hundredths "1.0" state run (some 9) summary none id db).1

moved : MarketState
moved = changed_by other_version.payload product

first : Db ℕ ℕ
first = snapshot_at 80 product with_american

pinned : Db ℕ ℕ
pinned =
    record (stale hundredths other_version product (get_current hundredths first.snapshots 5)
      first) { states = set_state 5 other_version.payload first.states }

last : Db ℕ ℕ
last = snapshot_at 82 moved (snapshot_at 81 moved pinned)

markets : Unit {0}
unfolding samples american_state with_american moved first pinned last has_product
    validate_product_version get_active_for_product_jurisdiction release_refused refused pin_changed
    violates create stale write_update update get_all
markets = tt

american_created : create hundredths catalog american 8 tables ≡ ok (american_state, with_american)
unfolding markets
american_created = refl

first_state : MarketState
first_state = record moved { gate = "G1" }

version_changed : update hundredths catalog other_version first ≡ ok (first_state, pinned)
unfolding markets first_state
version_changed = refl

-- The first snapshot went stale, the second is superseded by the third, which is current.
last_rows :
    map {B = ℕ × Bool × Option ℕ}
      (λ (s : StateSnapshot ℕ). (s.id, s.is_current, s.superseded_by_snapshot_id))
      last.snapshots
    ≡ (82, true, none) ∷ (81, false, some 82) ∷ (80, false, none) ∷ []
unfolding markets
last_rows = refl

no_snapshot_yet : get_current hundredths tables.snapshots 8 ≡ none
unfolding markets
no_snapshot_yet = refl

reached :
    (allows : ProductMarketStateUpdate → Bool)
    → allows other_version.payload ≡ true
    → Reach hundredths allows tables last
unfolding last first
reached allows e = built "1.0" moved run (some 9) summary none 82 (
    built "1.0" moved run (some 9) summary none 81 (
      updated catalog other_version first_state pinned
        (built "1.0" product run (some 9) summary none 80 (
          created catalog american 8 american_state with_american (here tables) no_snapshot_yet
            american_created))
        e version_changed))

abbrev allows_all : ProductMarketStateUpdate → Bool
allows_all payload = true

no_snapshots : (id : ℕ) → Chain id none tables.snapshots
no_snapshots id = tt

Reach-Chain_example : Chain 5 none last.snapshots
Reach-Chain_example = Reach-Chain hundredths (reached allows_all refl) no_snapshots 5

no_gates : All (HasGate hundredths tables.snapshots) tables.states
unfolding get_current
no_gates = (tt, tt)

Reach-HasGate_example : All (HasGate hundredths last.snapshots) last.states
Reach-HasGate_example =
    Reach-HasGate hundredths (reached (sends_no_gate hundredths) refl) no_snapshots no_gates

-- The gate that an update sends is written as it is, beside the current snapshot's.
gate_is_sent :
    update hundredths catalog sent_gate first
    ≡ ok (
      record first_state { product_version_id = some 50; gate = "G5" },
      record first { states = set_state 5 sent_gate.payload first.states },
    )
unfolding markets first_state
gate_is_sent = refl

-- A pin that is cleared by null leaves the snapshot current.
cleared_pin_is_current :
    update hundredths catalog no_release first
    ≡ ok (
      record first_state { product_version_id = some 50; regulatory_basis_release_id = none },
      record first { states = set_state 5 no_release.payload first.states },
    )
unfolding markets first_state
cleared_pin_is_current = refl

-- With a snapshot to mark, a refusal of the database is not the exception that `update` means.
null_gate_is_an_integrity_error :
    (update hundredths catalog no_gate first ≡ raise integrity_error)
    × (update hundredths catalog no_gate tables ≡ raise already_active)
unfolding markets
null_gate_is_an_integrity_error = (refl, refl)
