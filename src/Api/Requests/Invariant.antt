-- ===== src/Api/Requests/Invariant.antt =====
-- What every request keeps true of the database, whoever sends it.
use reporting_and_mapping.Prelude.{ℕ, String, any, Bool-cases, inl, inr, eqb}
use reporting_and_mapping.Platform.{Float64, Sqlite}
use reporting_and_mapping.Geo.{PlusCodes}
use reporting_and_mapping.Db.{Time, UserRow, Database}
use reporting_and_mapping.Db.Invariant.{IsValid}
use reporting_and_mapping.Db.Invariant.Inserts.{insert_location-Keeps}
use reporting_and_mapping.Db.AppendOnly.{
  IsAppended, IsAppended-refl, IsAppended-trans, IsExtension-refl, insert_location-Appends,
}
use reporting_and_mapping.Store.Users.{set_user_called}
use reporting_and_mapping.Store.Users.Invariant.{set_user_called-Keeps}
use reporting_and_mapping.Store.Sightings.{insert_canonical}
use reporting_and_mapping.Store.Sightings.Invariant.{insert_sighting-Keeps}
use reporting_and_mapping.Store.Sightings.Lost.{insert_sighting-Appends}
use reporting_and_mapping.Store.Reputation.Listing.{
  set_insincere-Keeps, set_insincere-Appends, add_note-Keeps, add_note-Appends,
}
use reporting_and_mapping.Db.Registered.{HasUsersOf}
use reporting_and_mapping.Store.Users.Registered.{
  set_user_called-KeepsUsers, insert_location-KeepsUsers, insert_sighting-KeepsUsers,
  set_insincere-KeepsUsers, add_note-KeepsUsers,
}
use reporting_and_mapping.Api.Params.{Times}
use reporting_and_mapping.Api.Requests.{Request, route}
use reporting_and_mapping.Api.Requests.Effects.{IsPreserved}
use reporting_and_mapping.Api.Requests.Preserved.{route-preserves}

module _ {F : Type 0} ⦃fl : Float64 F⦄ ⦃sq : Sqlite F⦄ where
  pub IsValid-IsPreserved : IsPreserved {F = F} IsValid
  unfolding insert_canonical
  IsValid-IsPreserved = record {
    called = set_user_called-Keeps;
    sighting = insert_sighting-Keeps;
    canonical = λ i lat lon now. insert_location-Keeps _;
    insincere = set_insincere-Keeps;
    note = add_note-Keeps;
  }

  set_user_called-IsAppended :
      (i : ℕ) (c : String) (db : Database F) → IsAppended db (set_user_called i c db).1
  unfolding set_user_called
  set_user_called-IsAppended i c db = elim (Bool-cases (any (λ u. eqb u.id i) db.users)) [
    | inl e ↦ rw e (record {
      locations = IsExtension-refl db.locations;
      sightings = IsExtension-refl db.sightings;
      flags = IsExtension-refl db.user_flags;
      notes = IsExtension-refl db.reputation_notes;
    })
    | inr e ↦ rw e (IsAppended-refl db)
  ]

  pub IsAppended-IsPreserved : (start : Database F) → IsPreserved (IsAppended start)
  unfolding insert_canonical
  IsAppended-IsPreserved start = record {
    called = λ i c db h. IsAppended-trans h (set_user_called-IsAppended i c db);
    sighting = λ i db h. IsAppended-trans h (insert_sighting-Appends i db);
    canonical = λ i lat lon now db h. IsAppended-trans h (insert_location-Appends _ db);
    insincere = λ i o b now db h. IsAppended-trans h (set_insincere-Appends i o b now db);
    note = λ i o n now db h. IsAppended-trans h (add_note-Appends i o n now db);
  }

  -- What a handler does to the database unregisters nobody.
  pub HasUsersOf-IsPreserved : (old : Database F) → IsPreserved (HasUsersOf old)
  unfolding insert_canonical
  HasUsersOf-IsPreserved old = record {
    called = λ i c. set_user_called-KeepsUsers i c old;
    sighting = λ i. insert_sighting-KeepsUsers i old;
    canonical = λ i lat lon now. insert_location-KeepsUsers _ old;
    insincere = λ i o b now. set_insincere-KeepsUsers i o b now old;
    note = λ i o n now. add_note-KeepsUsers i o n now old;
  }

module _ {F : Type 0} ⦃fl : Float64 F⦄ ⦃sq : Sqlite F⦄ ⦃ts : Times⦄ ⦃pc : PlusCodes F⦄ where
  -- A request of any user leaves a valid database valid, however it is answered.
  pub route-IsValid :
      (req : Request F) (now : Time) (u : UserRow) (db : Database F)
      → IsValid db
      → IsValid (route req now u db).1
  route-IsValid = route-preserves IsValid IsValid-IsPreserved

  -- A request only adds rows to the sightings, the locations, the flags and the notes: none that
  -- was there is changed or removed.
  pub route-IsAppended :
      (req : Request F) (now : Time) (u : UserRow) (db : Database F)
      → IsAppended db (route req now u db).1
  route-IsAppended req now u db =
      route-preserves (IsAppended db) (IsAppended-IsPreserved db) req now u db (IsAppended-refl db)
