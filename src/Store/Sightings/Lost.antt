-- ===== src/Store/Sightings/Lost.antt =====
-- Reports that do not go through as meant, and reports at a place that is known.
use reporting_and_mapping.Prelude.{
  ℕ, ◌≡◌, refl, ap, ◌∙◌, inl, inr, true, false, String, none, [], ◌∷◌, ◌++◌, map, any, any-append,
  rows_where, rows_where-none, Bool-cases, Option-cases, In, arith,
}
use reporting_and_mapping.Platform.{Float64, Sqlite}
use reporting_and_mapping.Db.{LocationRow, SightingRow, Database, has_user}
use reporting_and_mapping.Db.AppendOnly.{
  Appends, >>=-Appends, IsAppended-refl, insert_location-Appends, insert_sighting_row-Appends,
}
use reporting_and_mapping.Db.Invariant.Rules.{>>=-ok, >>=-after}
use reporting_and_mapping.Db.Monad.{ok, pure, ◌>>=◌}
use reporting_and_mapping.Db.Tables.{in_range, insert_location, insert_sighting_row}
use reporting_and_mapping.Store.Sightings.{
  SightingInput, existence, is_at, location_ids, new_location, new_sighting, ensure_location,
  insert_at_location, insert_sighting,
}
use reporting_and_mapping.Store.Sightings.Recorded.{
  IsReportable, existence_lem, insert_location_lem, insert_sighting_runs,
}

any_of_nothing : (F : Type 0) ⦃sq : Sqlite F⦄ → sq.any_of [] ≡ none
any_of_nothing F ⦃sq⦄ = elim (Option-cases (sq.any_of [])) [
  | inl e ↦ e
  | inr (l, e) ↦ absurd (nothing (sq.any_of-In [] e))
]
  where
    nothing : {l : ℕ} → In l [] → ⊥
    nothing h = elim h [ ]

module _ {F : Type 0} ⦃fl : Float64 F⦄ ⦃sq : Sqlite F⦄ where
  insert_at_location_nowhere :
      (i : SightingInput F) (n : ℕ) (db : Database F)
      → any (is_at i.lat i.lon) db.locations ≡ false
      → insert_at_location i n db ≡ (ok sq.stale_rowid, db)
  unfolding insert_at_location
  insert_at_location_nowhere i n db h =
      rw (insert_at_location, rows_where-none (is_at i.lat i.lon) db.locations h, any_of_nothing F)
        refl

  -- Where the coordinates, rounded to seven digits and then to six, differ from the coordinates
  -- rounded to six, and no location is known at the place, a report by a registered user succeeds
  -- and records no sighting: it leaves a new location behind and answers a stale row id.
  pub insert_sighting_lost :
      (i : SightingInput F) (db : Database F)
      → has_user db i.user_id ≡ true
      → IsReportable i.transpired
      → any (is_at i.lat i.lon) db.locations ≡ false
      → is_at i.lat i.lon (new_location i) ≡ false
      → in_range (sq.round i.lat 7) (sq.round i.lon 7) ≡ true
      → let (r, db') = insert_sighting i db in
        (r ≡ ok sq.stale_rowid)
        × (db'.sightings ≡ db.sightings)
        × (l : LocationRow F) × (db'.locations ≡ db.locations ++ l ∷ [])
  unfolding ensure_location
  insert_sighting_lost i db user reportable unknown away range =
      let id : ℕ = sq.fresh (map (λ (r : LocationRow F). r.id) db.locations) in
      let l : LocationRow F = record (new_location i) { id = id } in
      let mid : Database F = record db { locations = db.locations ++ l ∷ [] } in
      let (n, d, _) = existence_lem i.transpired mid reportable in
      let placed : ensure_location i db ≡ (ok tt, mid) = rw unknown (
        >>=-ok (insert_location (new_location i)) (λ _. pure (tt {0})) db
          (insert_location_lem (new_location i) db range user)) in
      let none_there : any (is_at i.lat i.lon) mid.locations ≡ false =
        rw (any-append (is_at i.lat i.lon) db.locations (l ∷ []), unknown, away) refl in
      rw (insert_sighting_runs i db mid n placed d, insert_at_location_nowhere i n mid none_there)
        (refl, refl, l, refl)

  ensure_location-Appends : (i : SightingInput F) → Appends (ensure_location i)
  unfolding ensure_location
  ensure_location-Appends i db = elim (Bool-cases (any (is_at i.lat i.lon) db.locations)) [
    | inl e ↦ rw e (IsAppended-refl db)
    | inr e ↦ rw e (
        >>=-Appends (insert_location (new_location i)) (λ _. pure (tt {0}))
          (insert_location-Appends (new_location i)) (λ a d. IsAppended-refl d) db)
  ]

  existence_unchanged : (t : String) (db : Database F) → (existence t db).1 ≡ db
  unfolding existence
  existence_unchanged t db = ground arith

  insert_at_location-Appends : (i : SightingInput F) (n : ℕ) → Appends (insert_at_location i n)
  unfolding insert_at_location
  insert_at_location-Appends i n db =
      elim (Option-cases (sq.any_of (location_ids (rows_where (is_at i.lat i.lon) db.locations)))) [
        | inl e ↦ rw (e, insert_at_location) (IsAppended-refl db)
        | inr (l, e) ↦
            rw (e, insert_at_location) (insert_sighting_row-Appends (new_sighting i n l) db)
      ]

  pub insert_sighting-Appends : (i : SightingInput F) → Appends (insert_sighting i)
  unfolding insert_sighting
  insert_sighting-Appends i =
      >>=-Appends (ensure_location i) (λ _. existence i.transpired >>= insert_at_location i)
        (ensure_location-Appends i)
        (λ u.
          >>=-Appends (existence i.transpired) (insert_at_location i)
            (λ d. rw (existence_unchanged i.transpired d) (IsAppended-refl d))
            (insert_at_location-Appends i))

  insert_sighting_row_locations :
      (s : SightingRow) (db : Database F) → (insert_sighting_row s db).1.locations ≡ db.locations
  unfolding insert_sighting_row
  insert_sighting_row_locations s db = ground arith

  insert_at_location_locations :
      (i : SightingInput F) (n : ℕ) (db : Database F)
      → (insert_at_location i n db).1.locations ≡ db.locations
  unfolding insert_at_location
  insert_at_location_locations i n db =
      elim (Option-cases (sq.any_of (location_ids (rows_where (is_at i.lat i.lon) db.locations)))) [
        | inl e ↦ rw (e, insert_at_location) refl
        | inr (l, e) ↦
            rw (e, insert_at_location) (insert_sighting_row_locations (new_sighting i n l) db)
      ]

  -- A report at a place where a location is known, rounded to six digits, adds no location, however
  -- it ends.
  pub insert_sighting_known_place :
      (i : SightingInput F) (db : Database F)
      → any (is_at i.lat i.lon) db.locations ≡ true
      → (insert_sighting i db).1.locations ≡ db.locations
  unfolding insert_sighting ensure_location
  insert_sighting_known_place i db h =
      let rest = existence i.transpired >>= insert_at_location i in
      let placed : ensure_location i db ≡ (ok tt, db) = rw h refl in
      rw (>>=-ok (ensure_location i) (λ _. rest) db placed) (
        >>=-after (λ d. d.locations ≡ db.locations) (existence i.transpired) (insert_at_location i)
          db (ap (λ (d : Database F). d.locations) (existence_unchanged i.transpired db))
          (λ n d e. insert_at_location_locations i n d ∙ e))
