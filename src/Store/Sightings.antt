-- ===== src/Store/Sightings.antt =====
-- internal/store/store.go: `InsertSighting`, `InsertCanonical`, `getLocation` and
-- `InsertReconciliation`.
pub mod Invariant
pub mod Recorded
pub mod Lost
use reporting_and_mapping.Prelude.Int.{ℤ}
use reporting_and_mapping.Prelude.{
  ℕ, Bool, true, false, String, Option, none, some, List, [], ◌∷◌, ◌&&◌, ◌==◌, eqb, any, find,
  rows_where, map, if◌then◌else◌,
}
use reporting_and_mapping.Platform.{Float64, Sqlite}
use reporting_and_mapping.Db.{Time, rfc3339, LocationRow, SightingRow, Database}
use reporting_and_mapping.Db.Monad.{
  Action, Result, ok, err, not_found, failure, pure, raise, gets, raise_unless, ◌>>=◌, ◌>>◌,
}
use reporting_and_mapping.Db.Tables.{insert_location, insert_sighting_row}
use reporting_and_mapping.Db.Columns.{prepare, Reference, table, column}

pub record SightingInput (F : Type 0) : Type 0 where
  pub user_id : ℕ
  pub lat : F
  pub lon : F
  pub observed_at : Time
  pub transpired : String
  pub to_exist : Bool
  pub medium : String
  pub message : String
  pub height : String
  pub description : String
  pub location_id : Option ℤ

-- The switch on what transpired; the id columns of rows that a table assigns are 0 here.
unfoldable pub existence : {F : Type 0} → String → Action F ℕ
existence transpired =
    if transpired == "sighted"
    then pure 1
    else if transpired == "missed"
    then pure 0
    else if transpired == "removed"
    then pure 0
    else raise (failure "Not sent what transpired at sighting")

abbrev pub new_sighting : {F : Type 0} → SightingInput F → ℕ → ℕ → SightingRow
new_sighting i to_exist l = record {
  id = 0;
  reporter_id = i.user_id;
  location_id = l;
  observed_at = rfc3339 i.observed_at;
  transpired = i.transpired;
  to_exist = if eqb to_exist 0 then 0 else 1;
  image_url = none;
  medium = i.medium;
  message = i.message;
  height = i.height;
  description = i.description;
  external_id = none;
}

module _ {F : Type 0} ⦃fl : Float64 F⦄ ⦃sq : Sqlite F⦄ where
  -- round(lat, 6) = round(?, 6) AND round(lon, 6) = round(?, 6)
  abbrev pub is_at : F → F → LocationRow F → Bool
  is_at lat lon l =
      fl.eq (sq.round l.lat 6) (sq.round lat 6) && fl.eq (sq.round l.lon 6) (sq.round lon 6)

  abbrev pub new_location : SightingInput F → LocationRow F
  new_location i = record {
    id = 0;
    lat = sq.round i.lat 7;
    lon = sq.round i.lon 7;
    created_by = i.user_id;
    created_at = rfc3339 i.observed_at;
  }

  -- INSERT INTO locations … SELECT … WHERE NOT EXISTS (…)
  unfoldable pub ensure_location : SightingInput F → Action F (Unit {0})
  ensure_location i = do
    known ← gets (λ db. any (is_at i.lat i.lon) db.locations)
    if known then pure tt else (insert_location (new_location i) >> pure tt)

  abbrev location_ids : List (LocationRow F) → List ℕ
  location_ids = map (λ (l : LocationRow F). l.id)

  -- INSERT INTO sightings … SELECT … FROM locations WHERE … LIMIT 1, then LastInsertId.
  unfoldable pub insert_at_location : SightingInput F → ℕ → Action F ℕ
  insert_at_location i to_exist = do
    picked ← gets (λ db. sq.any_of (location_ids (rows_where (is_at i.lat i.lon) db.locations)))
    elim picked [
      | none ↦ pure sq.stale_rowid
      | some l ↦ insert_sighting_row (new_sighting i to_exist l)
    ]

  unfoldable pub insert_sighting : SightingInput F → Action F ℕ
  insert_sighting i = do
    ensure_location i
    to_exist ← existence i.transpired
    insert_at_location i to_exist

  unfoldable pub insert_canonical : ℕ → F → F → Time → Action F ℕ
  insert_canonical user lat lon now =
      insert_location
        (record { id = 0; lat = lat; lon = lon; created_by = user; created_at = rfc3339 now })
