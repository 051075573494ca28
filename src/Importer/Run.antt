-- ===== src/Importer/Run.antt =====
-- main of cmd/import-pirate-map/main.go, from the parsed document on: build the records, open the
-- datastore, resolve the importer, import.
pub mod Main
pub mod Nothing
use reporting_and_mapping.Prelude.{ℕ, Bool, String, Option, List, [], ◌∷◌, ◌++◌, none}
use reporting_and_mapping.Platform.{Float64, Sqlite}
use reporting_and_mapping.Identity.{Crypto}
use reporting_and_mapping.Db.{Time, UserRow, Database}
use reporting_and_mapping.Db.Monad.{StoreError, Result, ok, err, raise, Action, ◌>>=◌}
use reporting_and_mapping.Startup.{default_role_permissions}
use reporting_and_mapping.Startup.Restart.{open_database}
use reporting_and_mapping.Store.{Store}
use reporting_and_mapping.Store.Users.{resolve_user}
use reporting_and_mapping.Store.Import.{ImportRecord, ImportStats, Markup, import_source_records}
use reporting_and_mapping.Importer.Text.{Text, Unicode}
use reporting_and_mapping.Importer.Records.{KmlDoc, RunSummary, Formats, build_records}

-- What the program ends with: a log.Fatalf, or the printed summary.
pub data Outcome : Type 0 where
  unloadable : Outcome
  unreadable : Outcome
  unparsable : Outcome
  no_placemarks : Outcome
  fatal : StoreError → Outcome
  imported : RunSummary → ImportStats → Outcome

-- 2026-06-20 22:22 UTC
abbrev pub import_date : Time
import_date = 1_781_994_120_000_000_000

abbrev pub reported : RunSummary → Result ImportStats → Outcome
reported sum (ok stats) = imported sum stats
reported sum (err e) = fatal e

module _ {F : Type 0} ⦃fl : Float64 F⦄ ⦃sq : Sqlite F⦄ ⦃cr : Crypto⦄ ⦃mk : Markup⦄ where
  -- The import, once the importer's subject is resolved.
  abbrev pub import_by : Result UserRow → List (ImportRecord F) → Bool → Action F ImportStats
  import_by (err e) recs dry_run = raise e
  import_by (ok u) recs dry_run = import_source_records u.id import_date recs dry_run

  -- store.New starts with an empty cache.
  abbrev pub import_as : String → Time → List (ImportRecord F) → Bool → Action F ImportStats
  import_as importer now recs dry_run db =
      let (r, st, db') = resolve_user (record { seed = none }) importer now db in
      import_by r recs dry_run db'

  -- Steps 3 to 5, for records and a summary; the entries of the defaults come in the order of a map.
  unfoldable pub import_built :
      List (String × List String)
      → String
      → Bool
      → Option (List ℕ)
      → Time
      → List (ImportRecord F) × RunSummary
      → Database F
      → Outcome × Database F
  unfolding open_database resolve_user import_source_records
  import_built entries importer dry_run random now ([], sum) db = (no_placemarks, db)
  import_built entries importer dry_run random now (r ∷ rs, sum) db =
      let opened : Action F ImportStats =
        open_database random entries now >>= λ _. import_as importer now (r ∷ rs) dry_run in
      let (result, db') = opened db in (reported sum result, db')

module _ {F : Type 0} ⦃fl : Float64 F⦄ ⦃sq : Sqlite F⦄ ⦃cr : Crypto⦄ ⦃mk : Markup⦄ ⦃un : Unicode⦄
    ⦃fm : Formats F⦄ where
  unfoldable pub import_map :
      List (String × List String)
      → Text
      → String
      → Bool
      → Option (List ℕ)
      → Time
      → KmlDoc
      → Database F
      → Outcome × Database F
  unfolding build_records import_built
  import_map entries source importer dry_run random now doc =
      import_built entries importer dry_run random now (build_records doc source import_date)
