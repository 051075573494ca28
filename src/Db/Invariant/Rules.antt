-- ===== src/Db/Invariant/Rules.antt =====
-- How the invariant passes through a chain of calls and through a change of the user table.
use reporting_and_mapping.Prelude.{ℕ, ◌≡◌, refl, ap, true, List, ◌⊎◌, inl, inr}
use reporting_and_mapping.Prelude.Unique.{IsUnique, All-mono}
use reporting_and_mapping.Platform.{Float64, Sqlite}
use reporting_and_mapping.Db.{UserRow, Database}
use reporting_and_mapping.Db.Monad.{Action, StoreError, Result, ok, err, ◌>>=◌, transaction}
use reporting_and_mapping.Db.Invariant.{
  IsReported, IsFlag, IsNote, IsLocated, is_user, IsValid, Keeps, same_user_id, same_opaque_id,
}

pub Result-cases : {A : Type 0} (r : Result A) → ((a : A) × (r ≡ ok a)) ⊎ ((e : _) × (r ≡ err e))
Result-cases (ok a) = inl (a, refl)
Result-cases (err e) = inr (e, refl)

-- A call that succeeds hands its answer and its database on.
pub >>=-ok :
    {F A B : Type 0} (m : Action F A) (f : A → Action F B) (db : Database F) {a : A}
    {db' : Database F}
    → m db ≡ (ok a, db')
    → (m >>= f) db ≡ f a db'
>>=-ok {F} {A} {B} m f db e = ap after e
  where
    after : Result A × Database F → Result B × Database F
    after p = elim p.0 [ ok a ↦ f a p.1 | err x ↦ (err x, p.1) ]

-- A call that fails ends the chain.
pub >>=-err :
    {F A B : Type 0} (m : Action F A) (f : A → Action F B) (db : Database F) {x : StoreError}
    {db' : Database F}
    → m db ≡ (err x, db')
    → (m >>= f) db ≡ (err x, db')
>>=-err {F} {A} {B} m f db e = ap after e
  where
    after : Result A × Database F → Result B × Database F
    after p = elim p.0 [ ok a ↦ f a p.1 | err x ↦ (err x, p.1) ]

-- What each part of a chain keeps true of the database, the chain does, however it ends.
pub >>=-after :
    {F A B : Type 0} (P : Database F → Type 0) (m : Action F A) (f : A → Action F B)
    (db : Database F)
    → P (m db).1
    → ((a : A) (d : Database F) → P d → P (f a d).1)
    → P ((m >>= f) db).1
>>=-after P m f db h k = elim (Result-cases (m db).0) [
  | inl (a, e) ↦ rw (e, ◌>>=◌) (k a (m db).1 h)
  | inr (x, e) ↦ rw (e, ◌>>=◌) h
]

module _ {F : Type 0} ⦃fl : Float64 F⦄ ⦃sq : Sqlite F⦄ where
  pub >>=-Keeps :
      {A B : Type 0} (m : Action F A) (f : A → Action F B)
      → Keeps m
      → ((a : A) → Keeps (f a))
      → Keeps (m >>= f)
  >>=-Keeps m f h k db v = >>=-after IsValid m f db (h db v) (λ a d w. k a d w)

  pub transaction-Keeps : {A : Type 0} (m : Action F A) → Keeps m → Keeps (transaction m)
  transaction-Keeps m h db v = elim (Result-cases (m db).0) [
    | inl (a, e) ↦ rw (e, transaction) (h db v)
    | inr (x, e) ↦ rw (e, transaction) v
  ]

  -- A new user table that still holds every user, with distinct keys.
  pub users-Keeps :
      (db : Database F) (us : List UserRow)
      → IsValid db
      → IsUnique same_user_id us
      → IsUnique same_opaque_id us
      → ((i : ℕ) → is_user db.users i ≡ true → is_user us i ≡ true)
      → IsValid (record db { users = us })
  users-Keeps db us v ids opaques more = record {
    user_ids = ids;
    opaque_ids = opaques;
    location_ids = v.location_ids;
    sighting_ids = v.sighting_ids;
    located =
        All-mono (IsLocated db.users) (IsLocated us) (λ l h. (h.0, more l.created_by h.1))
          db.locations v.located;
    reported =
        All-mono (IsReported db.users db.locations) (IsReported us db.locations)
          (λ s h. (more s.reporter_id h.0, h.1)) db.sightings v.reported;
    flags =
        All-mono (IsFlag db.users) (IsFlag us)
          (λ f h. (h.0, more f.target_user_id h.1, more f.flagged_by h.2)) db.user_flags v.flags;
    notes =
        All-mono (IsNote db.users) (IsNote us)
          (λ n h. (more n.target_user_id h.0, more n.author_user_id h.1)) db.reputation_notes
          v.notes;
  }
