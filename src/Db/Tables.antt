-- ===== src/Db/Tables.antt =====
-- INSERT into each table, under the constraints of internal/db/schema.sql: foreign keys are on, a
-- location lies in the valid ranges, and a flag's value is 1 or -1.
use reporting_and_mapping.Prelude.{ℕ, Bool, ◌&&◌, [], ◌∷◌, ◌++◌, map, eqb, if◌then◌else◌}
use reporting_and_mapping.Prelude.Int.{ℤ, pos, negsuc}
use reporting_and_mapping.Platform.{Float64, Sqlite}
use reporting_and_mapping.Db.{LocationRow, SightingRow, FlagRow, NoteRow, has_user, has_location}
use reporting_and_mapping.Db.Monad.{Action, ok, err, failure}

-- CHECK (value IN (-1,1))
abbrev pub is_flag_value : ℤ → Bool
is_flag_value (pos n) = eqb n 1
is_flag_value (negsuc n) = eqb n 0

module _ {F : Type 0} ⦃fl : Float64 F⦄ where
  -- CHECK (lat BETWEEN -90 AND 90), CHECK (lon BETWEEN -180 AND 180)
  abbrev pub in_range : F → F → Bool
  in_range lat lon =
      fl.le (fl.decimal (negsuc 89) 0) lat
      && fl.le lat (fl.decimal (pos 90) 0)
      && fl.le (fl.decimal (negsuc 179) 0) lon
      && fl.le lon (fl.decimal (pos 180) 0)

module _ {F : Type 0} ⦃fl : Float64 F⦄ ⦃sq : Sqlite F⦄ where
  -- The given row's id is not read: the table assigns it.
  unfoldable pub insert_location : LocationRow F → Action F ℕ
  insert_location l db =
      let i = sq.fresh (map (λ (r : LocationRow F). r.id) db.locations) in
      if in_range l.lat l.lon
      then (if has_user db l.created_by
          then (ok i, record db { locations = db.locations ++ record l { id = i } ∷ [] })
          else (err (failure "FOREIGN KEY constraint failed"), db))
      else (err (failure "CHECK constraint failed"), db)

module _ {F : Type 0} ⦃sq : Sqlite F⦄ where
  unfoldable pub insert_sighting_row : SightingRow → Action F ℕ
  insert_sighting_row s db =
      let i = sq.fresh (map (λ (r : SightingRow). r.id) db.sightings) in
      if has_user db s.reporter_id && has_location db s.location_id
      then (ok i, record db { sightings = db.sightings ++ record s { id = i } ∷ [] })
      else (err (failure "FOREIGN KEY constraint failed"), db)

  unfoldable pub insert_flag : FlagRow → Action F ℕ
  insert_flag f db =
      let i = sq.fresh (map (λ (r : FlagRow). r.id) db.user_flags) in
      if is_flag_value f.value
      then (if has_user db f.target_user_id && has_user db f.flagged_by
          then (ok i, record db { user_flags = db.user_flags ++ record f { id = i } ∷ [] })
          else (err (failure "FOREIGN KEY constraint failed"), db))
      else (err (failure "CHECK constraint failed"), db)

  unfoldable pub insert_note : NoteRow → Action F ℕ
  insert_note n db =
      let i = sq.fresh (map (λ (r : NoteRow). r.id) db.reputation_notes) in
      if has_user db n.target_user_id && has_user db n.author_user_id
      then (ok i, record db { reputation_notes = db.reputation_notes ++ record n { id = i } ∷ [] })
      else (err (failure "FOREIGN KEY constraint failed"), db)
