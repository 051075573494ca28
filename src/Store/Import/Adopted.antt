-- ===== src/Store/Import/Adopted.antt =====
-- internal/store/import.go: adoptCanonicalTx, insertCanonicalTx and insertSightingTx, which no other
-- code calls. Their statements name a table and columns that the schema does not have.
use reporting_and_mapping.Prelude.{
  ℕ, ◌≡◌, refl, Bool, true, false, String, List, [], ◌∷◌, if◌then◌else◌, ◌⊎◌, inl, inr, In, here,
  there, Bool-cases,
}
use reporting_and_mapping.Platform.{Float64}
use reporting_and_mapping.Geo.{BBox, distance_meters, bounding_box}
use reporting_and_mapping.Db.{Database}
use reporting_and_mapping.Db.Monad.{Action, StoreError, err, pure, ◌>>=◌, ◌>>◌}
use reporting_and_mapping.Db.Columns.{table, column, prepare}

-- A row of the query, scanned.
pub record Canonical (F : Type 0) : Type 0 where
  pub id : ℕ
  pub lat : F
  pub lon : F

-- bestID, bestDist and ok
pub record Best (F : Type 0) : Type 0 where
  pub id : ℕ
  pub dist : F
  pub ok : Bool

-- The query is not prepared, so it has no rows.
unfoldable pub canonicals_in : {F : Type 0} → BBox F → String → Action F (List (Canonical F))
unfolding prepare
canonicals_in box source_like =
    prepare (
      table "canonical_locations"
      ∷ column "canonical_locations" "id"
      ∷ column "canonical_locations" "lat"
      ∷ column "canonical_locations" "lon"
      ∷ table "sightings"
      ∷ column "sightings" "canonical_location_id"
      ∷ column "sightings" "external_id"
      ∷ [])
    >> pure []

module _ {F : Type 0} ⦃fl : Float64 F⦄ where
  -- The loop over the rows: the last of the nearest ones, within the distance so far.
  unfoldable pub nearest : F → F → Best F → List (Canonical F) → Best F
  unfolding distance_meters
  nearest lat lon best [] = best
  nearest lat lon best (c ∷ cs) =
      let d = distance_meters lat lon c.lat c.lon in
      nearest lat lon
        (if fl.le d best.dist then record { id = c.id; dist = d; ok = true } else best) cs

  unfoldable pub adopt_canonical_tx : F → F → F → String → Action F (ℕ × Bool)
  unfolding bounding_box canonicals_in nearest
  adopt_canonical_tx lat lon radius source_like = do
    rows ← canonicals_in (bounding_box lat lon radius) source_like
    let best = nearest lat lon (record { id = 0; dist = radius; ok = false }) rows in
        pure (best.id, best.ok)

unfoldable pub insert_canonical_tx : {F : Type 0} → ℕ → F → F → String → String → Action F ℕ
unfolding prepare
insert_canonical_tx user lat lon description now =
    prepare (
      table "canonical_locations"
      ∷ column "canonical_locations" "lat"
      ∷ column "canonical_locations" "lon"
      ∷ column "canonical_locations" "description"
      ∷ column "canonical_locations" "created_by"
      ∷ column "canonical_locations" "created_at"
      ∷ [])
    >> pure 0

unfoldable pub insert_sighting_tx :
    {F : Type 0} → ℕ → F → F → String → String → String → String → ℕ → String → Action F (Unit {0})
unfolding prepare
insert_sighting_tx user lat lon obs now report_type description canonical_id external_id = prepare (
    table "sightings"
    ∷ column "sightings" "reporter_id"
    ∷ column "sightings" "lat"
    ∷ column "sightings" "lon"
    ∷ column "sightings" "observed_at"
    ∷ column "sightings" "created_at"
    ∷ column "sightings" "report_type"
    ∷ column "sightings" "description"
    ∷ column "sightings" "canonical_location_id"
    ∷ column "sightings" "external_id"
    ∷ [])

module _ {F : Type 0} ⦃fl : Float64 F⦄ where
  -- What the loop finds, if it finds anything, is the distance of a row with the id found; else
  -- nothing has changed.
  nearest_lem :
      (lat lon : F) (best : Best F) (rows : List (Canonical F))
      → (nearest lat lon best rows ≡ best)
        ⊎ ((c : Canonical F) × In c rows
            × (nearest lat lon best rows
                ≡ record { id = c.id; dist = distance_meters lat lon c.lat c.lon; ok = true }))
  unfolding nearest
  nearest_lem lat lon best [] = inl refl
  nearest_lem lat lon best (c ∷ cs) =
      let d = distance_meters lat lon c.lat c.lon in
      elim (Bool-cases (fl.le d best.dist)) [
        | inr e ↦ rw e (later c (nearest_lem lat lon best cs))
        | inl e ↦
            let now : Best F = record { id = c.id; dist = d; ok = true } in
            elim (nearest_lem lat lon now cs) [
              | inl k ↦ inr (c, here refl, rw e k)
              | inr (x, m, k) ↦ inr (x, there m, rw e k)
            ]
      ]
    where
      later :
          (c : Canonical F)
          → (nearest lat lon best cs ≡ best)
            ⊎ ((x : Canonical F) × In x cs
                × (nearest lat lon best cs
                    ≡ record { id = x.id; dist = distance_meters lat lon x.lat x.lon; ok = true }))
          → (nearest lat lon best cs ≡ best)
            ⊎ ((x : Canonical F) × In x (c ∷ cs)
                × (nearest lat lon best cs
                    ≡ record { id = x.id; dist = distance_meters lat lon x.lat x.lon; ok = true }))
      later c (inl k) = inl k
      later c (inr (x, m, k)) = inr (x, there m, k)

  adopt_canonical_tx_fails :
      (lat lon radius : F) (source_like : String) (db : Database F)
      → (e : StoreError) × (adopt_canonical_tx lat lon radius source_like db ≡ (err e, db))
  unfolding adopt_canonical_tx canonicals_in
  adopt_canonical_tx_fails lat lon radius source_like db = (_, refl)

-- The inserts fail too, and leave the database as it was.
insert_canonical_tx_fails :
    {F : Type 0} (user : ℕ) (lat lon : F) (description now : String) (db : Database F)
    → (e : StoreError) × (insert_canonical_tx user lat lon description now db ≡ (err e, db))
unfolding insert_canonical_tx
insert_canonical_tx_fails user lat lon description now db = (_, refl)

insert_sighting_tx_fails :
    {F : Type 0} (user : ℕ) (lat lon : F) (obs now report_type description : String)
    (canonical_id : ℕ) (external_id : String) (db : Database F)
    → (e : StoreError) × (insert_sighting_tx user lat lon obs now report_type description
          canonical_id external_id db
        ≡ (err e, db))
unfolding insert_sighting_tx
insert_sighting_tx_fails user lat lon obs now report_type description canonical_id external_id db =
    (_, refl)
