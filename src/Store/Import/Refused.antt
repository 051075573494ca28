-- ===== src/Store/Import/Refused.antt =====
-- What an import does to the database.
use reporting_and_mapping.Prelude.{
  ℕ, ◌≡◌, refl, ap, Bool, true, false, List, [], ◌∷◌, ◌⊎◌, inl, inr,
}
use reporting_and_mapping.Platform.{Float64, Sqlite}
use reporting_and_mapping.Db.{Time, Database}
use reporting_and_mapping.Db.Monad.{Action, StoreError, ok, err, ◌>>=◌, ◌>>◌, transaction}
use reporting_and_mapping.Db.Invariant.Rules.{Result-cases}
use reporting_and_mapping.Store.Import.{
  ImportRecord, Markup, SightingArguments, no_stats, sighting_arguments, insert_imported_sighting,
  insert_near, import_record, import_records, import_source_records,
}

module _ {F : Type 0} ⦃fl : Float64 F⦄ ⦃sq : Sqlite F⦄ ⦃mk : Markup⦄ where
  insert_imported_sighting_fails :
      (a : SightingArguments F) (db : Database F)
      → (e : StoreError) × (insert_imported_sighting a db ≡ (err e, db))
  unfolding insert_imported_sighting
  insert_imported_sighting_fails a db = (_, refl)

  -- A chain whose last call always fails, fails.
  >>-fails :
      {A B : Type 0} (m : Action F A) (k : Action F B) (db : Database F)
      → ((d : Database F) → (e : StoreError) × ((k d).0 ≡ err e))
      → (e : StoreError) × (((m >> k) db).0 ≡ err e)
  >>-fails m k db h = elim (Result-cases (m db).0) [
    | inl (a, e) ↦ rw (e, ◌>>=◌) (h (m db).1)
    | inr (x, e) ↦ rw (e, ◌>>=◌) (x, refl)
  ]

  import_record_fails :
      (importer : ℕ) (observed_at : Time) (r : ImportRecord F) (db : Database F)
      → (e : StoreError) × ((import_record importer observed_at r db).0 ≡ err e)
  unfolding import_record
  import_record_fails importer observed_at r db =
      >>-fails (insert_near importer observed_at r)
        (insert_imported_sighting (sighting_arguments importer observed_at r)) db
        λ d.
          let (e, h) =
            insert_imported_sighting_fails (sighting_arguments importer observed_at r) d in
          (e, ap (λ p. p.0) h)

  import_records_fails :
      (importer : ℕ) (observed_at : Time) (r : ImportRecord F) (rs : List (ImportRecord F))
      (db : Database F)
      → (e : StoreError) × ((import_records importer observed_at (r ∷ rs) no_stats db).0 ≡ err e)
  unfolding import_records
  import_records_fails importer observed_at r rs db =
      let (e, h) = import_record_fails importer observed_at r db in (e, rw (h, ◌>>=◌) refl)

  -- An import of at least one record fails, dry or not. An import of none succeeds with empty
  -- statistics. The database is left as it was in every case: no import ever writes anything.
  pub import_source_records_fails :
      (importer : ℕ) (observed_at : Time) (recs : List (ImportRecord F)) (dry_run : Bool)
      (db : Database F)
      → let (r, db') = import_source_records importer observed_at recs dry_run db in
        (db' ≡ db) × (((recs ≡ []) × (r ≡ ok no_stats)) ⊎ ((e : StoreError) × (r ≡ err e)))
  unfolding import_source_records import_records
  import_source_records_fails importer observed_at [] true db = (refl, inl (refl, refl))
  import_source_records_fails importer observed_at [] false db = (refl, inl (refl, refl))
  import_source_records_fails importer observed_at (r ∷ rs) true db =
      (refl, inr (import_records_fails importer observed_at r rs db))
  import_source_records_fails importer observed_at (r ∷ rs) false db =
      let (e, h) = import_records_fails importer observed_at r rs db in
      rw (h, transaction) (refl, inr (e, refl))
