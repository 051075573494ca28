-- ===== src/Db/AppendOnly.antt =====
-- The append-only tables of internal/db/schema.sql: a call may add rows to sightings, user_flags,
-- reputation_notes and locations, and never changes or removes one.
use reporting_and_mapping.Prelude.{◌≡◌, refl, sym, ap, ◌∙◌, List, [], ◌++◌, Bool-cases, inl, inr}
use mathlib.Core.List.{append-nil, append_assoc}
use reporting_and_mapping.Platform.{Float64, Sqlite}
use reporting_and_mapping.Db.{
  LocationRow, SightingRow, FlagRow, NoteRow, Database, has_user, has_location,
}
use reporting_and_mapping.Db.Monad.{Action, ◌>>=◌}
use reporting_and_mapping.Db.Tables.{
  in_range, is_flag_value, insert_location, insert_sighting_row, insert_flag, insert_note,
}
use reporting_and_mapping.Db.Invariant.Rules.{Result-cases}

-- The second list is the first with rows added at its end.
abbrev pub IsExtension {ℓ} : {A : Type ℓ} → List A → List A → Type ℓ
IsExtension {A = A} xs ys = (new : List A) × (ys ≡ xs ++ new)

pub IsExtension-refl {ℓ} : {A : Type ℓ} (xs : List A) → IsExtension xs xs
IsExtension-refl xs = ([], sym (append-nil xs))

IsExtension-trans {ℓ} :
    {A : Type ℓ} (xs ys zs : List A) → IsExtension xs ys → IsExtension ys zs → IsExtension xs zs
IsExtension-trans xs ys zs (us, e) (vs, f) =
    (us ++ vs, f ∙ ap (λ l. l ++ vs) e ∙ append_assoc xs us vs)

pub record IsAppended {F : Type 0} (db db' : Database F) : Type 0 where
  pub locations : IsExtension db.locations db'.locations
  pub sightings : IsExtension db.sightings db'.sightings
  pub flags : IsExtension db.user_flags db'.user_flags
  pub notes : IsExtension db.reputation_notes db'.reputation_notes

pub IsAppended-refl : {F : Type 0} (db : Database F) → IsAppended db db
IsAppended-refl db = record {
  locations = IsExtension-refl db.locations;
  sightings = IsExtension-refl db.sightings;
  flags = IsExtension-refl db.user_flags;
  notes = IsExtension-refl db.reputation_notes;
}

pub IsAppended-trans :
    {F : Type 0} {a b c : Database F} → IsAppended a b → IsAppended b c → IsAppended a c
IsAppended-trans {a} {b} {c} p q = record {
  locations = IsExtension-trans a.locations b.locations c.locations p.locations q.locations;
  sightings = IsExtension-trans a.sightings b.sightings c.sightings p.sightings q.sightings;
  flags = IsExtension-trans a.user_flags b.user_flags c.user_flags p.flags q.flags;
  notes =
      IsExtension-trans a.reputation_notes b.reputation_notes c.reputation_notes p.notes q.notes;
}

-- Whatever the action answers, it only adds rows.
abbrev pub Appends : {F A : Type 0} → Action F A → Type 0
Appends {F} m = (db : Database F) → IsAppended db (m db).1

pub >>=-Appends :
    {F A B : Type 0} (m : Action F A) (f : A → Action F B)
    → Appends m
    → ((a : A) → Appends (f a))
    → Appends (m >>= f)
>>=-Appends m f h k db = elim (Result-cases (m db).0) [
  | inl (a, e) ↦ rw (e, ◌>>=◌) (IsAppended-trans (h db) (k a (m db).1))
  | inr (x, e) ↦ rw (e, ◌>>=◌) (h db)
]

module _ {F : Type 0} ⦃fl : Float64 F⦄ ⦃sq : Sqlite F⦄ where
  pub insert_location-Appends : (l : LocationRow F) → Appends (insert_location l)
  unfolding insert_location
  insert_location-Appends l db = elim (Bool-cases (in_range l.lat l.lon)) [
    | inr e ↦ rw e (IsAppended-refl db)
    | inl e ↦ elim (Bool-cases (has_user db l.created_by)) [
      | inr f ↦ rw (e, f) (IsAppended-refl db)
      | inl f ↦
          rw (e, f)
            (record {
              locations = (_, refl);
              sightings = IsExtension-refl db.sightings;
              flags = IsExtension-refl db.user_flags;
              notes = IsExtension-refl db.reputation_notes;
            })
    ]
  ]

module _ {F : Type 0} ⦃sq : Sqlite F⦄ where
  pub insert_sighting_row-Appends : (s : SightingRow) → Appends {F = F} (insert_sighting_row s)
  unfolding insert_sighting_row
  insert_sighting_row-Appends s db = elim (Bool-cases (has_user db s.reporter_id)) [
    | inr e ↦ rw e (IsAppended-refl db)
    | inl e ↦ elim (Bool-cases (has_location db s.location_id)) [
      | inr f ↦ rw (e, f) (IsAppended-refl db)
      | inl f ↦
          rw (e, f)
            (record {
              locations = IsExtension-refl db.locations;
              sightings = (_, refl);
              flags = IsExtension-refl db.user_flags;
              notes = IsExtension-refl db.reputation_notes;
            })
    ]
  ]

  pub insert_flag-Appends : (r : FlagRow) → Appends {F = F} (insert_flag r)
  unfolding insert_flag
  insert_flag-Appends r db = elim (Bool-cases (is_flag_value r.value)) [
    | inr e ↦ rw e (IsAppended-refl db)
    | inl e ↦ elim (Bool-cases (has_user db r.target_user_id)) [
      | inr f ↦ rw (e, f) (IsAppended-refl db)
      | inl f ↦ elim (Bool-cases (has_user db r.flagged_by)) [
        | inr g ↦ rw (e, f, g) (IsAppended-refl db)
        | inl g ↦
            rw (e, f, g)
              (record {
                locations = IsExtension-refl db.locations;
                sightings = IsExtension-refl db.sightings;
                flags = (_, refl);
                notes = IsExtension-refl db.reputation_notes;
              })
      ]
    ]
  ]

  pub insert_note-Appends : (n : NoteRow) → Appends {F = F} (insert_note n)
  unfolding insert_note
  insert_note-Appends n db = elim (Bool-cases (has_user db n.target_user_id)) [
    | inr e ↦ rw e (IsAppended-refl db)
    | inl e ↦ elim (Bool-cases (has_user db n.author_user_id)) [
      | inr f ↦ rw (e, f) (IsAppended-refl db)
      | inl f ↦
          rw (e, f)
            (record {
              locations = IsExtension-refl db.locations;
              sightings = IsExtension-refl db.sightings;
              flags = IsExtension-refl db.user_flags;
              notes = (_, refl);
            })
    ]
  ]
