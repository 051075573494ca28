-- ===== src/Importer/Records.antt =====
-- buildRecords of cmd/import-pirate-map/main.go: the retained placemarks become import records, and
-- a summary counts the others.
pub mod Placed
pub mod Built
pub mod Sound
use reporting_and_mapping.Prelude.{
  ℕ, ◌+◌, ◌/◌, Bool, true, false, Option, none, some, List, [], ◌∷◌, ◌++◌, ◌&&◌, ltb, length, take,
  if◌then◌else◌,
}
use Prim.Native.Nat.{◌%◌}
use reporting_and_mapping.Prelude.Int.{pos, negsuc}
use reporting_and_mapping.Platform.{Float64}
use reporting_and_mapping.Db.{Time}
use reporting_and_mapping.Store.Import.{ImportRecord}
use reporting_and_mapping.Importer.Text.{Text, Unicode, codes, fields, split}
use reporting_and_mapping.Importer.Folders.{
  Class, exists, gone, discard, unknown, classify, message_for_folder, medium_for_description,
}
use reporting_and_mapping.Importer.Dates.{observation_date_from_description}

pub record KmlPlace : Type 0 where
  pub name : Text
  pub description : Text
  pub coordinates : Text

pub record KmlFolder : Type 0 where
  pub name : Text
  pub placemarks : List KmlPlace

pub record KmlDoc : Type 0 where
  pub name : Text
  pub folders : List KmlFolder
  pub placemarks : List KmlPlace

pub record FolderStat : Type 0 where
  pub name : Text
  pub class : Class
  pub count : ℕ

pub record RunSummary : Type 0 where
  pub folders : List FolderStat
  pub discarded : ℕ
  pub bad_coords : ℕ

-- What the importer takes from Go's packages for its texts.
pub record Formats (F : Type 0) : Type 0 where
  -- strconv.ParseFloat(·, 64), `none` for its error
  pub parse_float : Text → Option F
  -- fmt's verb %.6f
  pub fixed_6 : F → Text
  -- SHA-256 of the UTF-8 of a text
  pub sha256 : Text → List ℕ

abbrev hex_digit : ℕ → ℕ
hex_digit n = if ltb n 10 then 48 + n else 87 + n

-- hex.EncodeToString
abbrev pub hex : List ℕ → Text
hex [] = []
hex (b ∷ bs) = hex_digit (b / 16) ∷ hex_digit (b % 16) ∷ hex bs

-- The variables recs and sum that add changes.
pub record Building (F : Type 0) : Type 0 where
  pub recs : List (ImportRecord F)
  pub sum : RunSummary

module _ {F : Type 0} ⦃fm : Formats F⦄ where
  unfoldable pub natural_id : Text → Text → F → F → Text
  natural_id source name lat lon =
      source ++ 58 ∷ hex (take 8 (fm.sha256 (name ++ 10 ∷ fm.fixed_6 lat ++ 44 ∷ fm.fixed_6 lon)))

  abbrev lat_lon_of : List Text → Option (F × F)
  lat_lon_of (lon ∷ lat ∷ more) = elim (fm.parse_float lon) [
    | none ↦ none
    | some x ↦ elim (fm.parse_float lat) [ none ↦ none | some y ↦ some (y, x) ]
  ]
  lat_lon_of _ = none

  abbrev first_tuple : List Text → Option (F × F)
  first_tuple [] = none
  first_tuple (tuple ∷ tuples) = lat_lon_of (split 44 tuple)

  -- `none` is any of the errors; the caller looks at none of them.
  unfoldable pub parse_lon_lat : Text → Option (F × F)
  parse_lon_lat s = first_tuple (fields s)

unfoldable pub valid_lat_lon : {F : Type 0} ⦃fl : Float64 F⦄ → F → F → Bool
valid_lat_lon ⦃fl⦄ lat lon =
    fl.le (fl.decimal (negsuc 89) 0) lat
    && fl.le lat (fl.decimal (pos 90) 0)
    && (fl.le (fl.decimal (negsuc 179) 0) lon && fl.le lon (fl.decimal (pos 180) 0))

abbrev pub is_exists : Class → Bool
is_exists exists = true
is_exists gone = false
is_exists discard = false
is_exists unknown = false

module _ {F : Type 0} ⦃fl : Float64 F⦄ ⦃un : Unicode⦄ ⦃fm : Formats F⦄ where
  abbrev pub record_at : Text → Time → Text → Class → KmlPlace → F → F → ImportRecord F
  record_at source default_when folder_name cls pm lat lon = record {
    when = some (observation_date_from_description default_when pm.description).0;
    external_id = natural_id source pm.name lat lon;
    lat = lat;
    lon = lon;
    name = pm.name;
    description = pm.description;
    exists = is_exists cls;
    message = message_for_folder folder_name pm.description;
    medium = medium_for_description pm.description;
  }

  abbrev pub skip_place : Building F → Building F
  skip_place b = record b { sum = record b.sum { bad_coords = b.sum.bad_coords + 1 } }

  abbrev pub place_at :
      Text → Time → Text → Class → KmlPlace → Option (F × F) → Building F → Building F
  place_at source default_when folder_name cls pm none b = skip_place b
  place_at source default_when folder_name cls pm (some p) b =
      if valid_lat_lon p.0 p.1
      then record b {
        recs = b.recs ++ record_at source default_when folder_name cls pm p.0 p.1 ∷ [];
      }
      else skip_place b

  -- One turn of the loop over the placemarks.
  abbrev pub add_place : Text → Time → Text → Class → KmlPlace → Building F → Building F
  add_place source default_when folder_name cls pm =
      place_at source default_when folder_name cls pm (parse_lon_lat pm.coordinates)

  unfoldable pub add_places : Text → Time → Text → Class → List KmlPlace → Building F → Building F
  add_places source default_when folder_name cls [] b = b
  add_places source default_when folder_name cls (pm ∷ pms) b =
      add_places source default_when folder_name cls pms
        (add_place source default_when folder_name cls pm b)

  abbrev pub discard_places : List KmlPlace → Building F → Building F
  discard_places pms b = record b {
    sum = record b.sum { discarded = b.sum.discarded + length pms };
  }

  -- The switch on the class.
  abbrev pub switch_class : Text → Time → Text → Class → List KmlPlace → Building F → Building F
  switch_class source default_when folder_name discard pms = discard_places pms
  switch_class source default_when folder_name unknown pms = discard_places pms
  switch_class source default_when folder_name exists pms =
      add_places source default_when folder_name exists pms
  switch_class source default_when folder_name gone pms =
      add_places source default_when folder_name gone pms

  -- The closure add.
  unfoldable pub add : Text → Time → Text → Class → List KmlPlace → Building F → Building F
  add source default_when folder_name cls pms b =
      let stat : FolderStat = record { name = folder_name; class = cls; count = length pms } in
      switch_class source default_when folder_name cls pms
        (record b { sum = record b.sum { folders = b.sum.folders ++ stat ∷ [] } })

  unfoldable pub add_folders : Text → Time → List KmlFolder → Building F → Building F
  add_folders source default_when [] b = b
  add_folders source default_when (f ∷ fs) b =
      add_folders source default_when fs
        (add source default_when f.name (classify f.name) f.placemarks b)

  abbrev pub add_loose : Text → Time → List KmlPlace → Building F → Building F
  add_loose source default_when [] b = b
  add_loose source default_when (pm ∷ pms) b =
      add source default_when (codes "(placemarks with no folder)") unknown (pm ∷ pms) b

  abbrev pub nothing_built : Building F
  nothing_built = record { recs = []; sum = record { folders = []; discarded = 0; bad_coords = 0 } }

  unfoldable pub build_records : KmlDoc → Text → Time → List (ImportRecord F) × RunSummary
  build_records doc source default_when =
      let b =
        add_loose source default_when doc.placemarks
          (add_folders source default_when doc.folders nothing_built) in
      (b.recs, b.sum)
