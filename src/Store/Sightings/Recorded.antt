-- ===== src/Store/Sightings/Recorded.antt =====
-- What a report leaves in the database: the sighting, its location, and what stays as it was.
use reporting_and_mapping.Prelude.{
  ℕ, ◌≡◌, refl, sym, ap, ◌∙◌, ◌⊎◌, inl, inr, true, false, String, some, List, [], ◌∷◌, ◌++◌, map,
  ◌==◌, eqb, eqb_iff, any, any-append, any_of_In, rows_where, In, In-rows_where, In-map,
  map-rows_where-none, Bool-cases, Option-cases, if◌then◌else◌,
}
use reporting_and_mapping.Platform.{Float64, Sqlite}
use reporting_and_mapping.Db.{rfc3339, LocationRow, SightingRow, Database, has_user, has_location}
use reporting_and_mapping.Db.Monad.{ok, pure, ◌>>=◌}
use reporting_and_mapping.Db.Tables.{in_range, insert_location, insert_sighting_row}
use reporting_and_mapping.Db.Invariant.Rules.{>>=-ok}
use reporting_and_mapping.Store.Queries.{bool_to_int}
use reporting_and_mapping.Store.Sightings.{
  SightingInput, existence, is_at, location_ids, new_location, new_sighting, ensure_location,
  insert_at_location, insert_sighting,
}

abbrev pub IsReportable : String → Type 0
IsReportable t = (t ≡ "sighted") ⊎ (t ≡ "missed") ⊎ (t ≡ "removed")

-- The switch on what transpired, in numbers: 1 for a sighted sign and 0 for a missing one.
pub existence_lem :
    {F : Type 0} (t : String) (db : Database F)
    → IsReportable t
    → (n : ℕ) × (existence t db ≡ (ok n, db))
      × (bool_to_int (t == "sighted") ≡ (if eqb n 0 then 0 else 1))
unfolding existence bool_to_int
existence_lem t db (inl e) = rw e (1, refl, refl)
existence_lem t db (inr (inl e)) = rw e (0, refl, refl)
existence_lem t db (inr (inr e)) = rw e (0, refl, refl)

module _ {F : Type 0} ⦃fl : Float64 F⦄ ⦃sq : Sqlite F⦄ where
  -- One sighting more, with the report's content, linked to a location at the reported place.
  pub record IsRecorded (i : SightingInput F) (to_exist : ℕ) (before : List SightingRow)
      (db' : Database F) (id : ℕ) : Type 0 where
    pub row : SightingRow
    pub appended : db'.sightings ≡ before ++ row ∷ []
    pub answered : row.id ≡ id
    pub reporter : row.reporter_id ≡ i.user_id
    pub observed : row.observed_at ≡ rfc3339 i.observed_at
    pub transpired : row.transpired ≡ i.transpired
    pub existing : row.to_exist ≡ to_exist
    pub traits : (row.medium ≡ i.medium) × (row.message ≡ i.message) × (row.height ≡ i.height)
    pub place : LocationRow F
    pub known : In place db'.locations
    pub linked : place.id ≡ row.location_id
    pub located : is_at i.lat i.lon place ≡ true

  -- The location that LIMIT 1 picks is one at the place.
  picked_lem :
      (i : SightingInput F) (db : Database F)
      → any (is_at i.lat i.lon) db.locations ≡ true
      → (l : ℕ) × (sq.any_of (location_ids (rows_where (is_at i.lat i.lon) db.locations)) ≡ some l)
        × (m : LocationRow F) × In m db.locations
        × (m.id ≡ l)
        × (is_at i.lat i.lon m ≡ true)
  picked_lem i db h =
      let here_rows = rows_where (is_at i.lat i.lon) db.locations in
      elim (Option-cases (sq.any_of (location_ids here_rows))) [
        | inl e ↦
            let empty =
              map-rows_where-none (λ (l : LocationRow F). l.id) (is_at i.lat i.lon) db.locations
                (sq.any_of-none _ e) in
            cc
        | inr (l, e) ↦
            let (m, among, same) =
              In-map (λ (l : LocationRow F). l.id) here_rows (sq.any_of-In _ e) in
            let (at, known) = In-rows_where (is_at i.lat i.lon) db.locations among in
            (l, e, m, known, same, at)
      ]

  pub insert_at_location-IsRecorded :
      (i : SightingInput F) (n : ℕ) (db : Database F)
      → has_user db i.user_id ≡ true
      → any (is_at i.lat i.lon) db.locations ≡ true
      → let (r, db') = insert_at_location i n db in
        (id : ℕ) × (r ≡ ok id)
        × IsRecorded i (if eqb n 0 then 0 else 1) db.sightings db' id
        × (db' ≡ record db { sightings = db'.sightings })
  unfolding insert_at_location insert_sighting_row
  insert_at_location-IsRecorded i n db user place =
      let (l, e, m, known, same, at) = picked_lem i db place in
      let linkable : has_location db l ≡ true =
        any_of_In (λ (x : LocationRow F). eqb x.id l) known ((eqb_iff m.id l).1 same) in
      let id : ℕ = sq.fresh (map (λ (r : SightingRow). r.id) db.sightings) in
      rw (e, insert_at_location, user, linkable)
        (
          id,
          refl,
          record {
            row = record (new_sighting i n l) { id = id };
            appended = refl;
            answered = refl;
            reporter = refl;
            observed = refl;
            transpired = refl;
            existing = refl;
            traits = (refl, refl, refl);
            place = m;
            known = known;
            linked = same;
            located = at;
          },
          refl,
        )

  -- A report can be placed: a location at the place is known, or the one that the report creates
  -- lies in range and, rounded to seven digits first, still rounds to the same six.
  abbrev pub IsPlaceable : SightingInput F → Database F → Type 0
  IsPlaceable i db =
      (any (is_at i.lat i.lon) db.locations ≡ true)
      ⊎ ((is_at i.lat i.lon (new_location i) ≡ true)
          × (in_range (sq.round i.lat 7) (sq.round i.lon 7) ≡ true))

  pub insert_location_lem :
      (l : LocationRow F) (db : Database F)
      → in_range l.lat l.lon ≡ true
      → has_user db l.created_by ≡ true
      → let id = sq.fresh (map (λ (r : LocationRow F). r.id) db.locations) in
        insert_location l db
        ≡ (ok id, record db { locations = db.locations ++ record l { id = id } ∷ [] })
  unfolding insert_location
  insert_location_lem l db range user = rw (range, user) refl

  -- The location step of a placeable report: only locations change, and one is at the place.
  pub ensure_location_lem :
      (i : SightingInput F) (db : Database F)
      → has_user db i.user_id ≡ true
      → IsPlaceable i db
      → (ls : List (LocationRow F)) × (ensure_location i db ≡ (ok tt, record db { locations = ls }))
        × (any (is_at i.lat i.lon) ls ≡ true)
  unfolding ensure_location
  ensure_location_lem i db user placeable =
      elim (Bool-cases (any (is_at i.lat i.lon) db.locations)) [
        | inl e ↦ (db.locations, rw e refl, e)
        | inr e ↦ elim placeable [
          | inl k ↦ let bad : true ≡ false = sym k ∙ e in cc
          | inr (at, range) ↦
              let id : ℕ = sq.fresh (map (λ (r : LocationRow F). r.id) db.locations) in
              (
                db.locations ++ record (new_location i) { id = id } ∷ [],
                rw e (
                    >>=-ok (insert_location (new_location i)) (λ _. pure (tt {0})) db
                      (insert_location_lem (new_location i) db range user)),
                rw (any-append (is_at i.lat i.lon) db.locations _, e, at) refl,
              )
        ]
      ]

  pub insert_sighting_runs :
      (i : SightingInput F) (db mid : Database F) (n : ℕ)
      → ensure_location i db ≡ (ok tt, mid)
      → existence i.transpired mid ≡ (ok n, mid)
      → insert_sighting i db ≡ insert_at_location i n mid
  unfolding insert_sighting
  insert_sighting_runs i db mid n e d =
      >>=-ok (ensure_location i) (λ _. existence i.transpired >>= insert_at_location i) db e
      ∙ >>=-ok (existence i.transpired) (insert_at_location i) mid d

  -- A placeable report by a registered user of something sighted, missed or removed succeeds: it
  -- answers the id of one new sighting with the report's content, which exists exactly if the sign
  -- was sighted, and which belongs to a location at the reported place. Nothing but the sightings
  -- and the locations has changed.
  pub insert_sighting-IsRecorded :
      (i : SightingInput F) (db : Database F)
      → has_user db i.user_id ≡ true
      → IsReportable i.transpired
      → IsPlaceable i db
      → let (r, db') = insert_sighting i db in
        (id : ℕ) × (r ≡ ok id)
        × IsRecorded i (bool_to_int (i.transpired == "sighted")) db.sightings db' id
        × (db' ≡ record db { locations = db'.locations; sightings = db'.sightings })
  insert_sighting-IsRecorded i db user reportable placeable =
      let (ls, e, found) = ensure_location_lem i db user placeable in
      let mid : Database F = record db { locations = ls } in
      let (n, d, same) = existence_lem i.transpired mid reportable in
      let (id, r, recorded, frame) = insert_at_location-IsRecorded i n mid user found in
      let after = (insert_at_location i n mid).1 in
      rw (insert_sighting_runs i db mid n e d, same)
        (
          id,
          r,
          recorded,
          frame
              ∙ ap (λ l. record db { locations = l; sightings = after.sightings })
                  (sym (ap (λ (x : Database F). x.locations) frame)),
        )
