-- ===== src/Importer/Run/Nothing.antt =====
-- What a run of the importer writes.
use reporting_and_mapping.Prelude.{
  ℕ, ◌≡◌, refl, sym, ap, ◌∙◌, ◌⊎◌, inl, inr, Bool, String, Option, none, List, [], ◌∷◌,
}
use mathlib.Core.Path.{subst}
use reporting_and_mapping.Platform.{Float64, Sqlite}
use reporting_and_mapping.Identity.{Crypto}
use reporting_and_mapping.Db.{Time, UserRow, Database}
use reporting_and_mapping.Db.Monad.{StoreError, Result, ok, err, ◌>>=◌}
use reporting_and_mapping.Db.Invariant.Rules.{Result-cases}
use reporting_and_mapping.Startup.Restart.{open_database}
use reporting_and_mapping.Store.Users.{hash_seed, resolve_with, resolve_user}
use reporting_and_mapping.Store.Import.{ImportRecord, Markup}
use reporting_and_mapping.Store.Import.Refused.{import_source_records_fails}
use reporting_and_mapping.Importer.Text.{Text, Unicode}
use reporting_and_mapping.Importer.Records.{KmlDoc, RunSummary, Formats, build_records}
use reporting_and_mapping.Importer.Records.Placed.{records_of_all}
use reporting_and_mapping.Importer.Records.Built.{build_records_lem}
use reporting_and_mapping.Importer.Run.{
  reported, no_placemarks, fatal, import_date, import_by, import_as, import_built, import_map,
}
use reporting_and_mapping.Db.Spared.{HasReportsOf, HasReportsOf-refl}
use reporting_and_mapping.Startup.Spared.{open_database-Spares}
use reporting_and_mapping.Store.Users.Spared.{resolve_with-Spares}

module _ {F : Type 0} ⦃fl : Float64 F⦄ ⦃sq : Sqlite F⦄ ⦃cr : Crypto⦄ ⦃mk : Markup⦄ where
  import_by_fails :
      (resolved : Result UserRow) (r : ImportRecord F) (rs : List (ImportRecord F)) (dry_run : Bool)
      (db : Database F)
      → ((import_by resolved (r ∷ rs) dry_run db).1 ≡ db)
        × ((e : StoreError) × ((import_by resolved (r ∷ rs) dry_run db).0 ≡ err e))
  import_by_fails (err x) r rs dry_run db = (refl, (x, refl))
  import_by_fails (ok u) r rs dry_run db =
      let (same, end) = import_source_records_fails u.id import_date (r ∷ rs) dry_run db in
      elim end [ inl (k, _) ↦ cc | inr failed ↦ (same, failed) ]

  import_as_fails :
      (importer : String) (now : Time) (r : ImportRecord F) (rs : List (ImportRecord F))
      (dry_run : Bool) (old db : Database F)
      → HasReportsOf old db
      → HasReportsOf old (import_as importer now (r ∷ rs) dry_run db).1
        × ((e : StoreError) × ((import_as importer now (r ∷ rs) dry_run db).0 ≡ err e))
  unfolding resolve_user
  import_as_fails importer now r rs dry_run old db v =
      let seed = (hash_seed (record { seed = none }) db).0 in
      let resolved = resolve_with seed importer now db in
      let (same, failed) = import_by_fails resolved.0 r rs dry_run resolved.1 in
      (subst (HasReportsOf old) (sym same) (resolve_with-Spares seed importer now old db v), failed)

  import_built_fails :
      (entries : List (String × List String)) (importer : String) (dry_run : Bool)
      (random : Option (List ℕ)) (now : Time) (recs : List (ImportRecord F)) (sum : RunSummary)
      (db : Database F)
      → let (o, db') = import_built entries importer dry_run random now (recs, sum) db in
        HasReportsOf db db'
        × (((recs ≡ []) × (o ≡ no_placemarks) × (db' ≡ db)) ⊎ ((e : StoreError) × (o ≡ fatal e)))
  unfolding import_built
  import_built_fails entries importer dry_run random now [] sum db =
      (HasReportsOf-refl db, inl (refl, refl, refl))
  import_built_fails entries importer dry_run random now (r ∷ rs) sum db =
      let spared = open_database-Spares random entries now db db (HasReportsOf-refl db) in
      elim (Result-cases (open_database random entries now db).0) [
        | inr (x, e) ↦ rw (e, ◌>>=◌) (spared, inr (x, refl))
        | inl (u, e) ↦
            let (kept, (x, k)) =
              import_as_fails importer now r rs dry_run db (open_database random entries now db).1
                spared in
            rw (e, ◌>>=◌) (kept, inr (x, ap (reported sum) k))
      ]

module _ {F : Type 0} ⦃fl : Float64 F⦄ ⦃sq : Sqlite F⦄ ⦃cr : Crypto⦄ ⦃mk : Markup⦄ ⦃un : Unicode⦄
    ⦃fm : Formats F⦄ where
  -- Whatever the document and the flags, a run of the importer ends fatally, and the locations and
  -- sightings are as before. Without a record it is for that, and the database is untouched.
  pub import_map_fails :
      (entries : List (String × List String)) (source : Text) (importer : String) (dry_run : Bool)
      (random : Option (List ℕ)) (now : Time) (doc : KmlDoc) (db : Database F)
      → let (o, db') = import_map entries source importer dry_run random now doc db in
        HasReportsOf db db'
        × (((records_of_all {F = F} source import_date doc.folders ≡ [])
              × (o ≡ no_placemarks)
              × (db' ≡ db))
            ⊎ ((e : StoreError) × (o ≡ fatal e)))
  unfolding import_map
  import_map_fails entries source importer dry_run random now doc db =
      let (recs, sum) = build_records {F = F} doc source import_date in
      let (spared, end) = import_built_fails entries importer dry_run random now recs sum db in
      elim end [
        | inr failed ↦ (spared, inr failed)
        | inl (empty, o, same) ↦
            (spared, inl (sym (build_records_lem doc source import_date) ∙ empty, o, same))
      ]
