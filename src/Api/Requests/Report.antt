-- ===== src/Api/Requests/Report.antt =====
-- A report from the request to the database.
use reporting_and_mapping.Prelude.{
  ℕ, ◌≡◌, refl, true, String, none, some, ◌==◌, eq_iff, inl, inr, Bool-cases, arith,
}
use reporting_and_mapping.Platform.{Float64, Sqlite}
use reporting_and_mapping.Geo.{PlusCodes}
use reporting_and_mapping.Db.{Time, UserRow, Database, has_user}
use reporting_and_mapping.Store.Queries.{bool_to_int}
use reporting_and_mapping.Store.Users.{has_permission}
use reporting_and_mapping.Store.Sightings.Recorded.{
  IsReportable, IsPlaceable, IsRecorded, insert_sighting-IsRecorded,
}
use reporting_and_mapping.Api.{created_id, write_json, write_err, require, respond}
use reporting_and_mapping.Api.Params.{Times}
use reporting_and_mapping.Api.Contribute.{
  SightingBody, is_transpired, rejection, observed_time, input_of, create_sighting,
  handle_create_sighting,
}
use reporting_and_mapping.Api.Requests.{route, post_sighting}

pub is_transpired-IsReportable : (t : String) → is_transpired t ≡ true → IsReportable t
is_transpired-IsReportable t h = elim (Bool-cases (t == "sighted")) [
  | inl e ↦ inl ((eq_iff t "sighted").0 e)
  | inr e ↦ elim (Bool-cases (t == "missed")) [
    | inl f ↦ inr (inl ((eq_iff t "missed").0 f))
    | inr f ↦ inr (inr ((eq_iff t "removed").0 (let k = rw (e, f) at h in k)))
  ]
]

module _ {F : Type 0} ⦃fl : Float64 F⦄ ⦃ts : Times⦄ where
  -- A body that passes the checks says what transpired.
  pub rejection-none : (b : SightingBody F) → rejection b ≡ none → is_transpired b.transpired ≡ true
  unfolding rejection
  rejection-none b h = ground arith

module _ {F : Type 0} ⦃fl : Float64 F⦄ ⦃ts : Times⦄ ⦃sq : Sqlite F⦄ ⦃pc : PlusCodes F⦄ where
  -- A sighting that a permitted, registered user reports in a body that passes the checks and that
  -- can be placed is answered 201 with the id of the one sighting that is recorded for it, and only
  -- the sightings and the locations change.
  pub post_sighting_created :
      (b : SightingBody F) (now observed : Time) (u : UserRow) (db : Database F)
      → has_permission db u.role "sight" ≡ true
      → has_user db u.id ≡ true
      → rejection b ≡ none
      → observed_time b.observed_at now ≡ some observed
      → IsPlaceable (input_of u b observed) db
      → let (response, db') = route (post_sighting (some b)) now u db in
        (id : ℕ) × (response ≡ write_json 201 (created_id id))
        × IsRecorded
            (input_of u b observed)
            (bool_to_int (b.transpired == "sighted"))
            db.sightings
            db'
            id
        × (db' ≡ record db { locations = db'.locations; sightings = db'.sightings })
  unfolding route handle_create_sighting require create_sighting
  post_sighting_created b now observed u db permitted user passes at placeable =
      let (id, answered, recorded, frame) =
        insert_sighting-IsRecorded (input_of u b observed) db user
          (is_transpired-IsReportable b.transpired (rejection-none b passes)) placeable in
      rw (permitted, create_sighting, passes, at, respond, answered) (id, refl, recorded, frame)

  -- A body that a check refuses is answered 400 with the check's message, to a user who may report,
  -- and the database stays as it was.
  pub post_sighting_rejected :
      (b : SightingBody F) (now : Time) (u : UserRow) (db : Database F) (message : String)
      → has_permission db u.role "sight" ≡ true
      → rejection b ≡ some message
      → route (post_sighting (some b)) now u db ≡ (write_err 400 message, db)
  unfolding route handle_create_sighting require create_sighting
  post_sighting_rejected b now u db message permitted refused =
      rw (permitted, create_sighting, refused) refl
