-- ===== src/Store/Lists.antt =====
-- internal/store/sightings.go: the lists of sightings that the audit reads.
pub mod Complete
use reporting_and_mapping.Prelude.{
  ℕ, zero, suc, Bool, true, false, String, Option, none, some, List, [], ◌∷◌, eqb, leb, find,
  rows_where,
}
use reporting_and_mapping.Prelude.Int.{pos}
use reporting_and_mapping.Prelude.Order.{order_by}
use reporting_and_mapping.Platform.{Float64}
use reporting_and_mapping.Geo.{PlusCodes, plus_code}
use reporting_and_mapping.Db.{Time, Stamp, rfc3339, UserRow, LocationRow, SightingRow, Database}
use reporting_and_mapping.Db.Monad.{Action, Result, ok, err, failure, ◌>>=◌}
use reporting_and_mapping.Store.Users.{user_by_opaque}
use reporting_and_mapping.Store.Reputation.{newest_first, user_with_id}

-- The columns that scanSightings reads into a Sighting.
pub record ListedSighting (F : Type 0) : Type 0 where
  pub sighting_id : ℕ
  pub author_opaque_id : String
  pub lat : F
  pub lon : F
  pub observed_at : Stamp
  pub to_exist : Bool
  pub description : String
  pub medium : String
  pub message : String
  pub height : String
  pub location_id : ℕ
  pub plus_code : String

-- database/sql scans 0 and 1 into a bool.
abbrev pub scan_bool : ℕ → Option Bool
scan_bool zero = some false
scan_bool (suc zero) = some true
scan_bool (suc (suc n)) = none

abbrev pub location_with_id : {F : Type 0} → List (LocationRow F) → ℕ → Option (LocationRow F)
location_with_id locations i = find (λ l. eqb l.id i) locations

module _ {F : Type 0} ⦃fl : Float64 F⦄ ⦃pc : PlusCodes F⦄ where
  -- The plus code is that of the embedded Location, whose coordinates stay zero.
  abbrev pub listed : SightingRow → UserRow → LocationRow F → Bool → ListedSighting F
  listed s u l exists = record {
    sighting_id = s.id;
    author_opaque_id = u.opaque_id;
    lat = l.lat;
    lon = l.lon;
    observed_at = s.observed_at;
    to_exist = exists;
    description = s.description;
    medium = s.medium;
    message = s.message;
    height = s.height;
    location_id = s.location_id;
    plus_code = plus_code (fl.decimal (pos 0) 0) (fl.decimal (pos 0) 0);
  }

  -- One row of the LEFT JOINs: a NULL for an unknown reporter or location is not scanned.
  unfoldable pub scan_row : Database F → SightingRow → Option (ListedSighting F)
  scan_row db s = elim (user_with_id db.users s.reporter_id) [
    | none ↦ none
    | some u ↦ elim (location_with_id db.locations s.location_id) [
      | none ↦ none
      | some l ↦ elim (scan_bool s.to_exist) [ none ↦ none | some b ↦ some (listed s u l b) ]
    ]
  ]

  unfoldable pub scan_sightings : Database F → List SightingRow → Result (List (ListedSighting F))
  unfolding scan_row
  scan_sightings db [] = ok []
  scan_sightings db (s ∷ ss) = elim (scan_row db s) [
    | none ↦ err (failure "Scan error")
    | some a ↦ elim (scan_sightings db ss) [ err e ↦ err e | ok ls ↦ ok (a ∷ ls) ]
  ]

-- ORDER BY s.observed_at DESC, s.id DESC
abbrev pub sightings_order : SightingRow → SightingRow → Bool
sightings_order = newest_first (λ (s : SightingRow). s.observed_at) (λ (s : SightingRow). s.id)

module _ {F : Type 0} ⦃fl : Float64 F⦄ ⦃pc : PlusCodes F⦄ where
  abbrev pub select_sightings : (SightingRow → Bool) → Action F (List (ListedSighting F))
  select_sightings test db =
      (scan_sightings db (order_by sightings_order (rows_where test db.sightings)), db)

  unfoldable pub sightings_by_opaque_user : String → Action F (List (ListedSighting F))
  unfolding scan_sightings
  sightings_by_opaque_user o = do
    uid ← user_by_opaque o
    select_sightings (λ s. eqb s.reporter_id uid)

  unfoldable pub sightings_since : Time → Action F (List (ListedSighting F))
  unfolding scan_sightings
  sightings_since since = select_sightings (λ s. leb (rfc3339 since) s.observed_at)
