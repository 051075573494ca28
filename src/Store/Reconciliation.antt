-- ===== src/Store/Reconciliation.antt =====
-- internal/store/store.go: `getLocation` and `InsertReconciliation`.
use reporting_and_mapping.Prelude.{
  ◌⊎◌, ℕ, Bool, ◌≡◌, ◌≢◌, refl, true, false, String, none, some, [], ◌∷◌, eqb, any, find,
  rows_where, arith, Bool-cases, inl, inr, if◌then◌else◌, ap, ◌∙◌,
}
use reporting_and_mapping.Prelude.Int.{ℤ, pos, negsuc}
use reporting_and_mapping.Platform.{Sqlite}
use reporting_and_mapping.Db.{Stamp, LocationRow, SightingRow, Database}
use reporting_and_mapping.Db.Columns.{table, column, prepare}
use reporting_and_mapping.Db.Monad.{Action, StoreError, ok, err, not_found, failure, pure, ◌>>◌}
use reporting_and_mapping.Db.Invariant.Rules.{>>=-ok, >>=-err, Result-cases}
use reporting_and_mapping.Store.Mapping.{latest}

-- The columns that getLocation scans into a Sighting: those of the embedded Location, and those of
-- the latest sighting there.
pub record LocationSummary (F : Type 0) : Type 0 where
  pub id : ℕ
  pub lat : F
  pub lon : F
  pub created_at : Stamp
  pub observed_at : Stamp
  pub message : String
  pub medium : String
  pub height : String

abbrev summary : {F : Type 0} → LocationRow F → SightingRow → LocationSummary F
summary l s = record {
  id = l.id;
  lat = l.lat;
  lon = l.lon;
  created_at = l.created_at;
  observed_at = s.observed_at;
  message = s.message;
  medium = s.medium;
  height = s.height;
}

-- An aggregate without GROUP BY answers one row always. With no sighting joined to the location it
-- is a row of NULLs, which Scan refuses, so sql.ErrNoRows never comes.
unfoldable pub get_location : {F : Type 0} ⦃sq : Sqlite F⦄ → ℕ → Action F (LocationSummary F)
get_location {F} i db = elim (find (λ (l : LocationRow F). eqb l.id i) db.locations) [
  | none ↦ (err (failure "converting NULL to int64 is unsupported"), db)
  | some l ↦ elim (latest F (rows_where (λ s. eqb s.location_id i) db.sightings)) [
    | none ↦ (err (failure "converting NULL to int64 is unsupported"), db)
    | some s ↦ (ok (summary l s), db)
  ]
]

-- An id as it is sent; a negative one is the id of no row.
unfoldable pub get_location_of : {F : Type 0} ⦃sq : Sqlite F⦄ → ℤ → Action F (LocationSummary F)
get_location_of (pos i) db = get_location i db
get_location_of (negsuc n) db = (err (failure "converting NULL to int64 is unsupported"), db)

abbrev pub has_sighting : {F : Type 0} → ℤ → Database F → Bool
has_sighting (pos i) db = any (λ s. eqb s.id i) db.sightings
has_sighting (negsuc n) db = false

-- SELECT 1 FROM sightings WHERE id = ?
unfoldable pub require_sighting : {F : Type 0} → ℤ → Action F (Unit {0})
require_sighting i db = (if has_sighting i db then ok tt else err not_found, db)

-- INSERT INTO reconciliations (…): the schema declares no such table, so the statement is not
-- prepared and nothing stands behind it.
unfoldable pub insert_reconciliation_row : {F : Type 0} → Action F ℕ
unfolding prepare
insert_reconciliation_row =
    prepare (
      table "reconciliations"
      ∷ column "reconciliations" "sighting_id"
      ∷ column "reconciliations" "canonical_location_id"
      ∷ column "reconciliations" "reconciled_by"
      ∷ column "reconciliations" "created_at"
      ∷ [])
    >> pure 0

unfoldable pub insert_reconciliation : {F : Type 0} ⦃sq : Sqlite F⦄ → ℤ → ℤ → Action F ℕ
insert_reconciliation sighting_id canonical_id =
    get_location_of canonical_id >> (require_sighting sighting_id >> insert_reconciliation_row)

insert_reconciliation_row_fails :
    {F : Type 0} (db : Database F)
    → insert_reconciliation_row db ≡ (err (failure "no such table"), db)
unfolding insert_reconciliation_row
insert_reconciliation_row_fails db = refl

pub get_location_unchanged :
    {F : Type 0} ⦃sq : Sqlite F⦄ (i : ℕ) (db : Database F)
    → ((get_location i db).1 ≡ db) × ((get_location i db).0 ≢ err not_found)
unfolding get_location
get_location_unchanged i db = ground arith

get_location_of_unchanged :
    {F : Type 0} ⦃sq : Sqlite F⦄ (i : ℤ) (db : Database F)
    → ((get_location_of i db).1 ≡ db) × ((get_location_of i db).0 ≢ err not_found)
unfolding get_location_of
get_location_of_unchanged (pos i) db = get_location_unchanged i db
get_location_of_unchanged (negsuc n) db = (refl, λ k. cc)

require_sighting_lem :
    {F : Type 0} (i : ℤ) (db : Database F)
    → has_sighting i db ≡ false
    → require_sighting i db ≡ (err not_found, db)
unfolding require_sighting
require_sighting_lem i db h = rw h refl

require_sighting_known :
    {F : Type 0} (i : ℤ) (db : Database F)
    → has_sighting i db ≡ true
    → require_sighting i db ≡ (ok tt, db)
unfolding require_sighting
require_sighting_known i db h = rw h refl

-- Linking a sighting to a location never succeeds and changes nothing, whatever the ids are; the
-- error is ErrNotFound only if the sighting is unknown.
pub insert_reconciliation_fails :
    {F : Type 0} ⦃sq : Sqlite F⦄ (sighting_id canonical_id : ℤ) (db : Database F)
    → (e : StoreError) × (insert_reconciliation sighting_id canonical_id db ≡ (err e, db))
      × ((e ≢ not_found) ⊎ (has_sighting sighting_id db ≡ false))
unfolding insert_reconciliation
insert_reconciliation_fails {F} sighting_id canonical_id db =
    let row = insert_reconciliation_row {F = F} in
    let rest = require_sighting sighting_id >> row in
    let (same, found) = get_location_of_unchanged canonical_id db in
    elim (Result-cases (get_location_of canonical_id db).0) [
      | inr (e, h) ↦ (
        e,
        >>=-err (get_location_of canonical_id) (λ _. rest) db (λ i. (h i, same i)),
        inl (λ k. found (h ∙ ap err k)),
      )
      | inl (l, h) ↦
          let step = >>=-ok (get_location_of canonical_id) (λ _. rest) db (λ i. (h i, same i)) in
          elim (Bool-cases (has_sighting sighting_id db)) [
            | inr no_such ↦ (
              not_found,
              step
                  ∙ >>=-err (require_sighting sighting_id) (λ _. row) db
                      (require_sighting_lem sighting_id db no_such),
              inr no_such,
            )
            | inl there_is ↦ (
              failure "no such table",
              step
                  ∙ >>=-ok (require_sighting sighting_id) (λ _. row) db
                      (require_sighting_known sighting_id db there_is)
                  ∙ insert_reconciliation_row_fails db,
              inl (λ k. cc),
            )
          ]
    ]
