-- ===== src/Db/Invariant.antt =====
-- What the constraints of internal/db/schema.sql keep true of the database, and what an action of
-- the store keeps.
pub mod Inserts
pub mod Rules
use reporting_and_mapping.Prelude.{ℕ, ◌≡◌, Bool, true, String, List, ◌==◌, eqb, any, All}
use reporting_and_mapping.Prelude.Unique.{IsUnique}
use reporting_and_mapping.Platform.{Float64}
use reporting_and_mapping.Db.{UserRow, LocationRow, SightingRow, FlagRow, NoteRow, Database}
use reporting_and_mapping.Db.Monad.{Action}
use reporting_and_mapping.Db.Tables.{in_range, is_flag_value}

abbrev pub same_user_id : UserRow → UserRow → Bool
same_user_id u v = eqb u.id v.id

abbrev pub same_opaque_id : UserRow → UserRow → Bool
same_opaque_id u v = u.opaque_id == v.opaque_id

abbrev pub same_location_id : {F : Type 0} → LocationRow F → LocationRow F → Bool
same_location_id l m = eqb l.id m.id

abbrev pub same_sighting_id : SightingRow → SightingRow → Bool
same_sighting_id s t = eqb s.id t.id

abbrev pub is_user : List UserRow → ℕ → Bool
is_user users i = any (λ u. eqb u.id i) users

abbrev pub is_location : {F : Type 0} → List (LocationRow F) → ℕ → Bool
is_location locations i = any (λ l. eqb l.id i) locations

abbrev pub IsReported : {F : Type 0} → List UserRow → List (LocationRow F) → SightingRow → Type 0
IsReported users locations s =
    (is_user users s.reporter_id ≡ true) × (is_location locations s.location_id ≡ true)

abbrev pub IsFlag : List UserRow → FlagRow → Type 0
IsFlag users f =
    (is_flag_value f.value ≡ true)
    × (is_user users f.target_user_id ≡ true)
    × (is_user users f.flagged_by ≡ true)

abbrev pub IsNote : List UserRow → NoteRow → Type 0
IsNote users n = (is_user users n.target_user_id ≡ true) × (is_user users n.author_user_id ≡ true)

module _ {F : Type 0} ⦃fl : Float64 F⦄ where
  abbrev pub IsLocated : List UserRow → LocationRow F → Type 0
  IsLocated users l = (in_range l.lat l.lon ≡ true) × (is_user users l.created_by ≡ true)

  pub record IsValid (db : Database F) : Type 0 where
    pub user_ids : IsUnique same_user_id db.users
    pub opaque_ids : IsUnique same_opaque_id db.users
    pub location_ids : IsUnique same_location_id db.locations
    pub sighting_ids : IsUnique same_sighting_id db.sightings
    pub located : All (IsLocated db.users) db.locations
    pub reported : All (IsReported db.users db.locations) db.sightings
    pub flags : All (IsFlag db.users) db.user_flags
    pub notes : All (IsNote db.users) db.reputation_notes

  -- Whatever the action answers, it leaves a valid database valid.
  abbrev pub Keeps : {A : Type 0} → Action F A → Type 0
  Keeps m = (db : Database F) → IsValid db → IsValid (m db).1
