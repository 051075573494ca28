-- ===== src/Db/Invariant/Inserts.antt =====
-- Every INSERT of internal/db/schema.sql's tables keeps the invariant.
use reporting_and_mapping.Prelude.{
  ℕ, ◌≡◌, refl, sym, ◌∙◌, true, false, List, ◌++◌, map, eqb, any, any-append, All-append,
  Bool-cases, inl, inr,
}
use reporting_and_mapping.Prelude.Unique.{IsUnique-append, any-key, All-mono}
use reporting_and_mapping.Platform.{Float64, Sqlite}
use reporting_and_mapping.Db.{LocationRow, SightingRow, FlagRow, NoteRow, has_user, has_location}
use reporting_and_mapping.Db.Tables.{
  in_range, is_flag_value, insert_location, insert_sighting_row, insert_flag, insert_note,
}
use reporting_and_mapping.Db.Invariant.{
  IsReported, is_location, Keeps, same_location_id, same_sighting_id,
}

-- A fresh id is no row's id.
pub fresh_key :
    (F : Type 0) ⦃sq : Sqlite F⦄ {A : Type 0} (key : A → ℕ) (xs : List A)
    → any (λ x. eqb (key x) (sq.fresh (map key xs))) xs ≡ false
fresh_key F ⦃sq⦄ key xs = sym (any-key key _ xs) ∙ sq.fresh_new (map key xs)

module _ {F : Type 0} ⦃fl : Float64 F⦄ ⦃sq : Sqlite F⦄ where
  is_location-append :
      (ls ms : List (LocationRow F)) (i : ℕ)
      → is_location ls i ≡ true
      → is_location (ls ++ ms) i ≡ true
  is_location-append ls ms i h = rw (any-append _ ls ms, h) refl

  pub insert_location-Keeps : (l : LocationRow F) → Keeps (insert_location l)
  unfolding insert_location
  insert_location-Keeps l db v = elim (Bool-cases (in_range l.lat l.lon)) [
    | inr e ↦ rw e v
    | inl e ↦ elim (Bool-cases (any (λ u. eqb u.id l.created_by) db.users)) [
      | inr f ↦ rw (e, f) v
      | inl f ↦
          rw (e, f)
            (record {
              user_ids = v.user_ids;
              opaque_ids = v.opaque_ids;
              location_ids =
                  IsUnique-append same_location_id db.locations _ v.location_ids
                    (fresh_key F (λ (r : LocationRow F). r.id) db.locations);
              sighting_ids = v.sighting_ids;
              located = All-append _ db.locations _ v.located ((e, f), tt);
              reported =
                  All-mono _ (IsReported db.users _)
                    (λ s h. (h.0, is_location-append db.locations _ s.location_id h.1)) db.sightings
                    v.reported;
              flags = v.flags;
              notes = v.notes;
            })
    ]
  ]

  pub insert_sighting_row-Keeps : (s : SightingRow) → Keeps {F = F} (insert_sighting_row s)
  unfolding insert_sighting_row
  insert_sighting_row-Keeps s db v = elim (Bool-cases (has_user db s.reporter_id)) [
    | inr e ↦ rw e v
    | inl e ↦ elim (Bool-cases (has_location db s.location_id)) [
      | inr f ↦ rw (e, f) v
      | inl f ↦
          rw (e, f)
            (record {
              user_ids = v.user_ids;
              opaque_ids = v.opaque_ids;
              location_ids = v.location_ids;
              sighting_ids =
                  IsUnique-append same_sighting_id db.sightings _ v.sighting_ids
                    (fresh_key F (λ (r : SightingRow). r.id) db.sightings);
              located = v.located;
              reported = All-append _ db.sightings _ v.reported ((e, f), tt);
              flags = v.flags;
              notes = v.notes;
            })
    ]
  ]

  pub insert_flag-Keeps : (f : FlagRow) → Keeps {F = F} (insert_flag f)
  unfolding insert_flag
  insert_flag-Keeps r db v = elim (Bool-cases (is_flag_value r.value)) [
    | inr e ↦ rw e v
    | inl e ↦ elim (Bool-cases (has_user db r.target_user_id)) [
      | inr f ↦ rw (e, f) v
      | inl f ↦ elim (Bool-cases (has_user db r.flagged_by)) [
        | inr g ↦ rw (e, f, g) v
        | inl g ↦
            rw (e, f, g)
              (record {
                user_ids = v.user_ids;
                opaque_ids = v.opaque_ids;
                location_ids = v.location_ids;
                sighting_ids = v.sighting_ids;
                located = v.located;
                reported = v.reported;
                flags = All-append _ db.user_flags _ v.flags ((e, f, g), tt);
                notes = v.notes;
              })
      ]
    ]
  ]

  pub insert_note-Keeps : (n : NoteRow) → Keeps {F = F} (insert_note n)
  unfolding insert_note
  insert_note-Keeps n db v = elim (Bool-cases (has_user db n.target_user_id)) [
    | inr e ↦ rw e v
    | inl e ↦ elim (Bool-cases (has_user db n.author_user_id)) [
      | inr f ↦ rw (e, f) v
      | inl f ↦
          rw (e, f)
            (record {
              user_ids = v.user_ids;
              opaque_ids = v.opaque_ids;
              location_ids = v.location_ids;
              sighting_ids = v.sighting_ids;
              located = v.located;
              reported = v.reported;
              flags = v.flags;
              notes = All-append _ db.reputation_notes _ v.notes ((e, f), tt);
            })
    ]
  ]
