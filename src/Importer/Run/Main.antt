-- ===== src/Importer/Run/Main.antt =====
-- main of cmd/import-pirate-map/main.go, from its flags to its end.
use reporting_and_mapping.Prelude.{ℕ, ◌≢◌, inl, inr, Bool, String, Option, none, some, List}
use reporting_and_mapping.Platform.{Float64, Sqlite}
use reporting_and_mapping.Identity.{Crypto}
use reporting_and_mapping.Db.{Time, Database}
use reporting_and_mapping.Store.Import.{ImportStats, Markup}
use reporting_and_mapping.Importer.Text.{Text, Unicode}
use reporting_and_mapping.Importer.Records.{KmlDoc, RunSummary, Formats}
use reporting_and_mapping.Importer.Source.{Bytes, Outside, load_raw, unwrap_kmz}
use reporting_and_mapping.Importer.Run.{
  Outcome, unloadable, unreadable, unparsable, imported, import_map,
}
use reporting_and_mapping.Db.Spared.{HasReportsOf, HasReportsOf-refl}
use reporting_and_mapping.Importer.Run.Nothing.{import_map_fails}

-- The flags but for -db and -timeout.
pub record Flags : Type 0 where
  pub mid : Text
  pub url : Text
  pub file : Text
  pub source : Text
  pub importer : String
  pub dry_run : Bool

module _ {F : Type 0} ⦃fl : Float64 F⦄ ⦃sq : Sqlite F⦄ ⦃cr : Crypto⦄ ⦃mk : Markup⦄ ⦃un : Unicode⦄
    ⦃fm : Formats F⦄ ⦃out : Outside⦄ where
  abbrev pub run_doc :
      List (String × List String)
      → Flags
      → Option (List ℕ)
      → Time
      → Option KmlDoc
      → Database F
      → Outcome × Database F
  run_doc entries flags random now none db = (unparsable, db)
  run_doc entries flags random now (some doc) db =
      import_map entries flags.source flags.importer flags.dry_run random now doc db

  abbrev pub run_kml :
      List (String × List String)
      → Flags
      → Option (List ℕ)
      → Time
      → Option Bytes
      → Database F
      → Outcome × Database F
  run_kml entries flags random now none db = (unreadable, db)
  run_kml entries flags random now (some kml) db =
      run_doc entries flags random now (out.unmarshal kml) db

  abbrev pub run_raw :
      List (String × List String)
      → Flags
      → Option (List ℕ)
      → Time
      → Option Bytes
      → Database F
      → Outcome × Database F
  run_raw entries flags random now none db = (unloadable, db)
  run_raw entries flags random now (some raw) db =
      run_kml entries flags random now (unwrap_kmz raw) db

  unfoldable pub run_importer :
      List (String × List String)
      → Flags
      → Option (List ℕ)
      → Time
      → Database F
      → Outcome × Database F
  unfolding load_raw unwrap_kmz import_map
  run_importer entries flags random now db =
      run_raw entries flags random now (load_raw flags.file flags.url flags.mid).0 db

  -- What is true of every end of a run.
  abbrev Ended : Database F → RunSummary → ImportStats → Outcome × Database F → Type 0
  Ended db sum stats end = HasReportsOf db end.1 × (end.0 ≢ imported sum stats)

  run_doc_fails :
      (entries : List (String × List String)) (flags : Flags) (random : Option (List ℕ))
      (now : Time) (doc : Option KmlDoc) (db : Database F) (sum : RunSummary) (stats : ImportStats)
      → Ended db sum stats (run_doc entries flags random now doc db)
  run_doc_fails entries flags random now none db sum stats = (HasReportsOf-refl db, λ h. cc)
  run_doc_fails entries flags random now (some doc) db sum stats =
      let (spared, end) =
        import_map_fails entries flags.source flags.importer flags.dry_run random now doc db in
      elim end [ inl (_, o, _) ↦ (spared, λ h. cc) | inr (_, o) ↦ (spared, λ h. cc) ]

  run_kml_fails :
      (entries : List (String × List String)) (flags : Flags) (random : Option (List ℕ))
      (now : Time) (kml : Option Bytes) (db : Database F) (sum : RunSummary) (stats : ImportStats)
      → Ended db sum stats (run_kml entries flags random now kml db)
  run_kml_fails entries flags random now none db sum stats = (HasReportsOf-refl db, λ h. cc)
  run_kml_fails entries flags random now (some kml) db sum stats =
      run_doc_fails entries flags random now (out.unmarshal kml) db sum stats

  run_raw_fails :
      (entries : List (String × List String)) (flags : Flags) (random : Option (List ℕ))
      (now : Time) (raw : Option Bytes) (db : Database F) (sum : RunSummary) (stats : ImportStats)
      → Ended db sum stats (run_raw entries flags random now raw db)
  run_raw_fails entries flags random now none db sum stats = (HasReportsOf-refl db, λ h. cc)
  run_raw_fails entries flags random now (some raw) db sum stats =
      run_kml_fails entries flags random now (unwrap_kmz raw) db sum stats

  -- Whatever the flags, and whatever is read, a run of the importer never ends with the printed summary,
  -- and the locations, sightings, flags and notes are as they were before it.
  pub run_importer_fails :
      (entries : List (String × List String)) (flags : Flags) (random : Option (List ℕ))
      (now : Time) (db : Database F) (sum : RunSummary) (stats : ImportStats)
      → let (o, db') = run_importer entries flags random now db in
        HasReportsOf db db' × (o ≢ imported sum stats)
  unfolding run_importer
  run_importer_fails entries flags random now db sum stats =
      run_raw_fails entries flags random now (load_raw flags.file flags.url flags.mid).0 db sum
        stats
