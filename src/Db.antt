-- ===== src/Db.antt =====
-- The datastore of internal/db/schema.sql: a record for each table's row, the whole database, the
-- outcome of a statement, and actions that chain statements. Ids are those that SQLite assigns.
-- A stored timestamp is the number of seconds that its RFC-3339 text in UTC stands for: up to the
-- year 9999 the texts order as the times do.
pub mod Tables
pub mod Columns
pub mod Monad
pub mod Invariant
pub mod AppendOnly
pub mod Spared
pub mod Registered
use reporting_and_mapping.Prelude.{ℕ, ◌/◌, String, Option, List, ◌==◌, any, eqb}
use reporting_and_mapping.Prelude.{Bool}
use reporting_and_mapping.Prelude.Int.{ℤ}

-- time.Time, as nanoseconds; `now` is an argument of each operation that reads the clock.
abbrev pub Time : Type 0
Time = ℕ

abbrev pub Stamp : Type 0
Stamp = ℕ

-- t.UTC().Format(time.RFC3339) drops the fraction of a second.
abbrev pub rfc3339 : Time → Stamp
rfc3339 t = t / 1_000_000_000

pub record ConfigRow : Type 0 where
  pub key : String
  pub value : String
  pub updated_at : Stamp

pub record UserRow : Type 0 where
  pub id : ℕ
  pub opaque_id : String
  pub role : String
  pub registered_at : Stamp
  pub last_seen_at : Stamp
  pub called : String

pub record LocationRow (F : Type 0) : Type 0 where
  pub id : ℕ
  pub lat : F
  pub lon : F
  pub created_by : ℕ
  pub created_at : Stamp

pub record SightingRow : Type 0 where
  pub id : ℕ
  pub reporter_id : ℕ
  pub location_id : ℕ
  pub observed_at : Stamp
  pub transpired : String
  pub to_exist : ℕ
  pub image_url : Option String
  pub medium : String
  pub message : String
  pub height : String
  pub description : String
  pub external_id : Option String

pub record FlagRow : Type 0 where
  pub id : ℕ
  pub target_user_id : ℕ
  pub flag_type : String
  pub value : ℤ
  pub flagged_by : ℕ
  pub created_at : Stamp

pub record NoteRow : Type 0 where
  pub id : ℕ
  pub target_user_id : ℕ
  pub author_user_id : ℕ
  pub note : String
  pub created_at : Stamp

-- `user_identities` is the table of databases from before opaque ids; `none` when it is not there.
pub record Database (F : Type 0) : Type 0 where
  pub config : List ConfigRow
  pub users : List UserRow
  pub role_permissions : List (String × String)
  pub locations : List (LocationRow F)
  pub sightings : List SightingRow
  pub user_flags : List FlagRow
  pub reputation_notes : List NoteRow
  pub user_identities : Option (List (ℕ × String))

-- `REFERENCES users(id)` and `REFERENCES locations(id)`
abbrev pub has_user : {F : Type 0} → Database F → ℕ → Bool
has_user db i = any (λ u. eqb u.id i) db.users

abbrev pub has_location : {F : Type 0} → Database F → ℕ → Bool
has_location db i = any (λ l. eqb l.id i) db.locations
