-- ===== src/Store/Sightings/Invariant.antt =====
-- Reporting a sighting keeps the database valid.
use reporting_and_mapping.Prelude.{
  ℕ, Bool-cases, Option-cases, any, rows_where, ◌==◌, inl, inr, String,
}
use reporting_and_mapping.Platform.{Float64, Sqlite}
use reporting_and_mapping.Db.Invariant.{Keeps}
use reporting_and_mapping.Db.Monad.{pure, ◌>>=◌}
use reporting_and_mapping.Db.Tables.{insert_location}
use reporting_and_mapping.Db.Invariant.Inserts.{insert_location-Keeps, insert_sighting_row-Keeps}
use reporting_and_mapping.Db.Invariant.Rules.{>>=-Keeps}
use reporting_and_mapping.Store.Sightings.{
  SightingInput, existence, is_at, location_ids, new_location, new_sighting, ensure_location,
  insert_at_location, insert_sighting,
}

module _ {F : Type 0} ⦃fl : Float64 F⦄ ⦃sq : Sqlite F⦄ where
  ensure_location-Keeps : (i : SightingInput F) → Keeps (ensure_location i)
  unfolding ensure_location
  ensure_location-Keeps i db v = elim (Bool-cases (any (is_at i.lat i.lon) db.locations)) [
    | inl e ↦ rw e v
    | inr e ↦ rw e (
        >>=-Keeps (insert_location (new_location i)) (λ _. pure (tt {0}))
          (insert_location-Keeps (new_location i)) (λ a d w. w) db v)
  ]

  existence-Keeps : (t : String) → Keeps {F = F} (existence t)
  unfolding existence
  existence-Keeps t db v = elim (Bool-cases (t == "sighted")) [
    | inl e ↦ rw e v
    | inr e ↦ elim (Bool-cases (t == "missed")) [
      | inl f ↦ rw (e, f) v
      | inr f ↦ elim (Bool-cases (t == "removed")) [
        | inl g ↦ rw (e, f, g) v
        | inr g ↦ rw (e, f, g) v
      ]
    ]
  ]

  insert_at_location-Keeps : (i : SightingInput F) (n : ℕ) → Keeps (insert_at_location i n)
  unfolding insert_at_location
  insert_at_location-Keeps i n db v =
      elim (Option-cases (sq.any_of (location_ids (rows_where (is_at i.lat i.lon) db.locations)))) [
        | inl e ↦ rw (e, insert_at_location) v
        | inr (l, e) ↦
            rw (e, insert_at_location) (insert_sighting_row-Keeps (new_sighting i n l) db v)
      ]

  -- Whatever it is given and however it ends, `InsertSighting` keeps the constraints of the schema.
  pub insert_sighting-Keeps : (i : SightingInput F) → Keeps (insert_sighting i)
  unfolding insert_sighting
  insert_sighting-Keeps i =
      >>=-Keeps (ensure_location i) (λ _. existence i.transpired >>= insert_at_location i)
        (ensure_location-Keeps i)
        (λ u.
          >>=-Keeps (existence i.transpired) (insert_at_location i) (existence-Keeps i.transpired)
            (insert_at_location-Keeps i))
