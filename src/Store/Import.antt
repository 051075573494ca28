-- ===== src/Store/Import.antt =====
-- internal/store/import.go: records of an external source are written in one transaction.
pub mod Refused
pub mod Adopted
use reporting_and_mapping.Prelude.{
  ℕ, ◌+◌, Bool, true, false, String, Option, none, some, List, [], ◌∷◌, ◌&&◌, any, if◌then◌else◌,
}
use reporting_and_mapping.Prelude.Int.{pos}
use reporting_and_mapping.Platform.{Float64, Sqlite}
use reporting_and_mapping.Db.{Time, Stamp, rfc3339, LocationRow, Database}
use reporting_and_mapping.Db.Monad.{Action, ok, err, pure, modify, transaction, ◌>>=◌, ◌>>◌}
use reporting_and_mapping.Db.Tables.{insert_location}
use reporting_and_mapping.Db.Columns.{table, column, prepare}
use reporting_and_mapping.Importer.Text.{Text}

-- `when` of none is a nil pointer; a time of the model is never the zero time.Time.
pub record ImportRecord (F : Type 0) : Type 0 where
  pub when : Option Time
  pub external_id : Text
  pub lat : F
  pub lon : F
  pub name : Text
  pub description : Text
  pub exists : Bool
  pub message : String
  pub medium : String

-- The loop counts the records and nothing else.
pub record ImportStats : Type 0 where
  pub records : ℕ
  pub inserted : ℕ
  pub unchanged : ℕ
  pub created_canonical : ℕ
  pub adopted_canonical : ℕ
  pub unified : ℕ
  pub new_existence : ℕ
  pub continued_existence : ℕ
  pub non_existence : ℕ

-- Go's package regexp with the expressions of the file.
pub record Markup : Type 0 where
  -- titleDescription.ReplaceAllString(·, "$1")
  pub without_title : Text → Text
  -- the first group of imageMarkup.FindStringSubmatch
  pub image_source : Text → Option Text
  -- imageMarkup.ReplaceAllString(·, "$2")
  pub without_images : Text → Text

-- The arguments $1 to $10 of the INSERT of a sighting.
pub record SightingArguments (F : Type 0) : Type 0 where
  pub reporter_id : ℕ
  pub observed_at : Stamp
  pub transpired : String
  pub image_url : Option Text
  pub medium : String
  pub message : String
  pub description : Text
  pub external_id : Text
  pub lat : F
  pub lon : F

abbrev pub no_stats : ImportStats
no_stats = record {
  records = 0;
  inserted = 0;
  unchanged = 0;
  created_canonical = 0;
  adopted_canonical = 0;
  unified = 0;
  new_existence = 0;
  continued_existence = 0;
  non_existence = 0;
}

abbrev when_or : Option Time → Time → Time
when_or none observed_at = observed_at
when_or (some t) observed_at = t

-- The statement names the columns transpired and external_id of locations, which are not there.
-- It is not prepared, so nothing stands behind it.
unfoldable pub insert_imported_sighting : {F : Type 0} → SightingArguments F → Action F (Unit {0})
unfolding prepare
insert_imported_sighting arguments = prepare (
    table "sightings"
    ∷ column "sightings" "reporter_id"
    ∷ column "sightings" "location_id"
    ∷ column "sightings" "observed_at"
    ∷ column "sightings" "transpired"
    ∷ column "sightings" "to_exist"
    ∷ column "sightings" "image_url"
    ∷ column "sightings" "medium"
    ∷ column "sightings" "message"
    ∷ column "sightings" "description"
    ∷ column "sightings" "external_id"
    ∷ table "locations"
    ∷ column "locations" "id"
    ∷ column "locations" "lat"
    ∷ column "locations" "lon"
    ∷ column "locations" "transpired"
    ∷ column "locations" "external_id"
    ∷ [])

abbrev pub image_of : ⦃mk : Markup⦄ → Text → Option Text × Text
image_of ⦃mk⦄ description = elim (mk.image_source description) [
  | none ↦ (none, description)
  | some url ↦ (some url, mk.without_images description)
]

module _ {F : Type 0} ⦃fl : Float64 F⦄ ⦃sq : Sqlite F⦄ ⦃mk : Markup⦄ where
  -- lat BETWEEN $1-0.000045 AND $1+0.000045, and the same of lon
  abbrev pub is_near : F → F → LocationRow F → Bool
  is_near lat lon l =
      let d = fl.decimal (pos 45) 6 in
      fl.le (fl.sub lat d) l.lat
      && fl.le l.lat (fl.add lat d)
      && (fl.le (fl.sub lon d) l.lon && fl.le l.lon (fl.add lon d))

  -- INSERT INTO locations … SELECT … WHERE NOT EXISTS (…); a time.Time is an argument here, so its
  -- text is the driver's.
  unfoldable pub insert_near : ℕ → Time → ImportRecord F → Action F (Unit {0})
  insert_near importer observed_at r db =
      if any (is_near r.lat r.lon) db.locations
      then (ok tt, db)
      else (insert_location (record {
        id = 0;
        lat = r.lat;
        lon = r.lon;
        created_by = importer;
        created_at = rfc3339 observed_at;
      })
            >> pure tt)
          db

  abbrev pub sighting_arguments : ℕ → Time → ImportRecord F → SightingArguments F
  sighting_arguments importer observed_at r =
      let (image_url, description) = image_of (mk.without_title r.description) in
      record {
        reporter_id = importer;
        observed_at = rfc3339 (when_or r.when observed_at);
        transpired = if r.exists then "sighted" else "unknown";
        image_url = image_url;
        medium = r.medium;
        message = r.message;
        description = description;
        external_id = r.external_id;
        lat = r.lat;
        lon = r.lon;
      }

  unfoldable pub import_record : ℕ → Time → ImportRecord F → Action F (Unit {0})
  import_record importer observed_at r =
      insert_near importer observed_at r
      >> insert_imported_sighting (sighting_arguments importer observed_at r)

  -- The loop. With an error the statistics so far are returned too; the caller drops them.
  unfoldable pub import_records :
      ℕ → Time → List (ImportRecord F) → ImportStats → Action F ImportStats
  import_records importer observed_at [] stats = pure stats
  import_records importer observed_at (r ∷ rs) stats =
      let rest =
        import_records importer observed_at rs (record stats { records = stats.records + 1 }) in
      import_record importer observed_at r >> rest

  -- A dry run leaves the transaction to the deferred rollback. The code reads neither its context nor
  -- sourceLike.
  unfoldable pub import_source_records :
      ℕ → Time → List (ImportRecord F) → Bool → Action F ImportStats
  import_source_records importer observed_at recs dry_run db =
      let body = import_records importer observed_at recs no_stats in
      if dry_run then ((body db).0, db) else transaction body db
