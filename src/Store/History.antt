-- ===== src/Store/History.antt =====
-- internal/store/locations.go: the history of a location.
pub mod Shown
use reporting_and_mapping.Prelude.{
  ℕ, Bool, true, false, String, Option, none, some, List, [], ◌∷◌, ◌&&◌, ◌||◌, not, eqb, leb, ltb,
  any, rows_where,
}
use reporting_and_mapping.Prelude.Int.{pos}
use reporting_and_mapping.Prelude.Order.{order_by}
use reporting_and_mapping.Platform.{Float64, Sqlite}
use reporting_and_mapping.Geo.{BBox, PlusCodes, in_box, bounding_box, distance_meters}
use reporting_and_mapping.Db.{Time, Stamp, rfc3339, LocationRow, SightingRow, Database}
use reporting_and_mapping.Db.Monad.{Action, Result, ok, err, pure, ◌>>=◌}
use reporting_and_mapping.Store.Lists.{
  ListedSighting, location_with_id, scan_sightings, sightings_order,
}
use reporting_and_mapping.Store.Reconciliation.{LocationSummary, get_location}
use reporting_and_mapping.Store.Reputation.{is_insincere_flag}

-- A nearby sighting has its DistanceM beside it.
pub record LocationHistory (F : Type 0) : Type 0 where
  pub location : LocationSummary F
  pub reconciled : List (ListedSighting F)
  pub nearby : List (ListedSighting F × F)

-- EXISTS (SELECT 1 FROM user_flags uf WHERE uf.target_user_id = ? AND uf.flag_type = 'insincere'),
-- a clearing being such a row too.
abbrev pub has_flag_row : {F : Type 0} → Database F → ℕ → Bool
has_flag_row db user = any (is_insincere_flag user) db.user_flags

-- WHERE s.location_id = ? AND s.observed_at >= ? AND ((NOT ?) OR NOT EXISTS (…))
abbrev pub is_in_history : {F : Type 0} → Database F → ℕ → Stamp → Bool → SightingRow → Bool
is_in_history db i since include_insincere s =
    eqb s.location_id i
    && leb since s.observed_at
    && (not include_insincere || not (has_flag_row db s.reporter_id))

-- ORDER BY s.observed_at ASC, s.id DESC
abbrev pub history_order : SightingRow → SightingRow → Bool
history_order a b =
    ltb a.observed_at b.observed_at || eqb a.observed_at b.observed_at && leb b.id a.id

-- s.location_id IS NULL: the column is NOT NULL.
abbrev pub has_no_location : SightingRow → Bool
has_no_location s = false

module _ {F : Type 0} ⦃fl : Float64 F⦄ where
  abbrev pub reconcile_radius : F
  reconcile_radius = fl.decimal (pos 100) 0

  abbrev is_placed_in : Database F → BBox F → SightingRow → Bool
  is_placed_in db box s = elim (location_with_id db.locations s.location_id) [
    | none ↦ false
    | some l ↦ in_box box l.lat l.lon
  ]

  -- The WHERE clause of the second query; (? = 1 OR s.reporter_id AND NOT EXISTS (…)) reads the
  -- reporter's id as a truth value.
  abbrev pub is_candidate : Database F → BBox F → Stamp → Bool → SightingRow → Bool
  is_candidate db box since include_insincere s =
      has_no_location s
      && is_placed_in db box s
      && leb since s.observed_at
      && (include_insincere || not (eqb s.reporter_id 0) && not (has_flag_row db s.reporter_id))

  -- The loop over the candidates: those within the radius, with their distances.
  unfoldable pub within_radius : F → F → List (ListedSighting F) → List (ListedSighting F × F)
  unfolding distance_meters
  within_radius lat lon [] = []
  within_radius lat lon (c ∷ cs) =
      let rest = within_radius lat lon cs in
      let d = distance_meters lat lon c.lat c.lon in
      elim (fl.le d reconcile_radius) [ true ↦ (c, d) ∷ rest | false ↦ rest ]

module _ {F : Type 0} ⦃fl : Float64 F⦄ ⦃sq : Sqlite F⦄ ⦃pc : PlusCodes F⦄ where
  abbrev pub reconciled_sightings : ℕ → Stamp → Bool → Action F (List (ListedSighting F))
  reconciled_sightings i since include_insincere db = (
    scan_sightings db (
        order_by history_order
          (rows_where (is_in_history db i since include_insincere) db.sightings)),
    db,
  )

  abbrev pub candidate_sightings : BBox F → Stamp → Bool → Action F (List (ListedSighting F))
  candidate_sightings box since include_insincere db = (
    scan_sightings db (
        order_by sightings_order
          (rows_where (is_candidate db box since include_insincere) db.sightings)),
    db,
  )

  -- loc.Lat and loc.Lon are the fields of Sighting that getLocation does not scan: zero.
  abbrev pub unscanned : F
  unscanned = fl.decimal (pos 0) 0

  unfoldable pub location_history : ℕ → Time → Bool → Action F (LocationHistory F)
  unfolding get_location scan_sightings bounding_box within_radius
  location_history i since include_insincere = do
    loc ← get_location i
    reconciled ← reconciled_sightings i (rfc3339 since) include_insincere
    candidates ←
        candidate_sightings (bounding_box unscanned unscanned reconcile_radius) (rfc3339 since)
          include_insincere
    pure (record {
      location = loc;
      reconciled = reconciled;
      nearby = within_radius unscanned unscanned candidates;
    })
