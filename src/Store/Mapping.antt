-- ===== src/Store/Mapping.antt =====
-- internal/store/mapping.go: the markers of the map, each with the status that its latest sighting
-- gives. A nil bounding box is dereferenced there: `none` is that panic.
pub mod Latest
pub mod Markers
pub mod Visible
use reporting_and_mapping.Prelude.{
  ℕ, Bool, true, false, String, Option, none, some, List, [], ◌∷◌, ◌&&◌, ◌||◌, ◌==◌, eqb, leb, ltb,
  length, map, find, rows_where, if◌then◌else◌,
}
use reporting_and_mapping.Prelude.Int.{pos, leb_ℤ}
use reporting_and_mapping.Prelude.Order.{order_by}
use reporting_and_mapping.Platform.{Float64, Sqlite}
use reporting_and_mapping.Geo.{BBox, in_box, PlusCodes, plus_code}
use reporting_and_mapping.Db.{Time, Stamp, rfc3339, LocationRow, SightingRow, Database}
use reporting_and_mapping.Store.Queries.{title_from_sign_traits}
use reporting_and_mapping.Store.Reputation.{insincerity}

pub record MapMarker (F : Type 0) : Type 0 where
  pub sighting_id : ℕ
  pub exists : Bool
  pub latest_observed_at : Stamp
  pub image_url : Option String
  pub description : String
  pub sighting_count : ℕ
  pub medium : String
  pub message : String
  pub height : String
  pub location_id : ℕ
  pub lat : F
  pub lon : F
  pub title : String
  pub plus_code : String

-- (transpired = 'sighted' OR to_exist = 1)
abbrev pub does_exist : SightingRow → Bool
does_exist s = s.transpired == "sighted" || eqb s.to_exist 1

-- max(observed_at)
unfoldable pub latest_stamp : List SightingRow → Stamp
latest_stamp [] = 0
latest_stamp (s ∷ ss) =
    let rest = latest_stamp ss in if leb rest s.observed_at then s.observed_at else rest

abbrev pub sighting_ids : List SightingRow → List ℕ
sighting_ids = map (λ (s : SightingRow). s.id)

module _ {F : Type 0} where
  -- The WHERE clause of the query, for a sighting joined to a location.
  abbrev pub counts : Database F → Stamp → Bool → ℕ → SightingRow → Bool
  counts db since include_insincere l s =
      eqb s.location_id l
      && leb since s.observed_at
      && (include_insincere || leb_ℤ (insincerity db s.reporter_id) (pos 0))

  -- The rows that GROUP BY puts together for a location.
  abbrev pub group : Database F → Stamp → Bool → ℕ → List SightingRow
  group db since include_insincere l = rows_where (counts db since include_insincere l) db.sightings

-- Beside a lone max() the bare columns are those of a row with the greatest value.
unfoldable pub latest : (F : Type 0) ⦃sq : Sqlite F⦄ → List SightingRow → Option SightingRow
latest _ ⦃sq⦄ ss =
    let greatest = rows_where (λ s. eqb s.observed_at (latest_stamp ss)) ss in
    elim (sq.any_of (sighting_ids greatest)) [
      | none ↦ none
      | some i ↦ find (λ s. eqb s.id i) greatest
    ]

module _ {F : Type 0} ⦃sq : Sqlite F⦄ ⦃pc : PlusCodes F⦄ where
  abbrev pub marker : LocationRow F → ℕ → SightingRow → MapMarker F
  marker l count s = record {
    sighting_id = s.id;
    exists = does_exist s;
    latest_observed_at = s.observed_at;
    image_url = s.image_url;
    description = s.description;
    sighting_count = count;
    medium = s.medium;
    message = s.message;
    height = s.height;
    location_id = l.id;
    lat = l.lat;
    lon = l.lon;
    title = title_from_sign_traits s.message s.medium s.height;
    plus_code = plus_code l.lat l.lon;
  }

  -- One location's row of the result, if it has one: HAVING reads the bare columns.
  unfoldable pub marker_of : Database F → Stamp → Bool → Bool → LocationRow F → Option (MapMarker F)
  marker_of db since include_insincere include_missing l =
      let rows = group db since include_insincere l.id in
      elim (latest F rows) [
        | none ↦ none
        | some s ↦ if include_missing || does_exist s then some (marker l (length rows) s) else none
      ]

module _ {F : Type 0} where
  unfoldable pub markers_of :
      (LocationRow F → Option (MapMarker F)) → List (LocationRow F) → List (MapMarker F)
  markers_of make [] = []
  markers_of make (l ∷ ls) =
      let rest = markers_of make ls in elim (make l) [ none ↦ rest | some m ↦ m ∷ rest ]

-- ORDER BY observed_at DESC, loc.id
abbrev pub markers_order : {F : Type 0} → MapMarker F → MapMarker F → Bool
markers_order a b =
    ltb b.latest_observed_at a.latest_observed_at
    || eqb b.latest_observed_at a.latest_observed_at && leb a.location_id b.location_id

module _ {F : Type 0} ⦃fl : Float64 F⦄ ⦃sq : Sqlite F⦄ ⦃pc : PlusCodes F⦄ where
  unfoldable pub map_data :
      Time → Bool → Bool → Option (BBox F) → Database F → Option (List (MapMarker F))
  map_data since include_insincere include_missing none db = none
  map_data since include_insincere include_missing (some box) db = some (
      order_by markers_order (
        markers_of (marker_of db (rfc3339 since) include_insincere include_missing)
          (rows_where (λ l. in_box box l.lat l.lon) db.locations)))
