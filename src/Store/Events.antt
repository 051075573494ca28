-- ===== src/Store/Events.antt =====
-- internal/store/auditing.go: sightings and new locations as one list of events.
pub mod Newest
use reporting_and_mapping.Prelude.{
  ℕ, Bool, String, Option, none, some, List, [], ◌∷◌, ◌++◌, ◌&&◌, ◌||◌, eqb, leb, ltb, rows_where,
  rows_from, take,
}
use reporting_and_mapping.Prelude.Int.{ℤ}
use reporting_and_mapping.Prelude.Order.{order_by}
use reporting_and_mapping.Geo.{PlusCodes, plus_code}
use reporting_and_mapping.Db.{Time, Stamp, rfc3339, UserRow, LocationRow, SightingRow, Database}
use reporting_and_mapping.Db.Monad.{Action, gets}
use reporting_and_mapping.Store.Lists.{location_with_id}
use reporting_and_mapping.Store.Reputation.{insincerity, user_with_id}

-- 'sighting' or 'location_created'
pub data EventType : Type 0 where
  sighting : EventType
  location_created : EventType

-- ToExist is in the struct and never set.
pub record AuditEvent (F : Type 0) : Type 0 where
  pub event_type : EventType
  pub event_id : ℕ
  pub author_opaque_id : String
  pub author_insincerity : ℤ
  pub lat : F
  pub lon : F
  pub plus_code : String
  pub timestamp : Stamp
  pub transpired : Option String
  pub description : Option String
  pub medium : Option String
  pub message : Option String
  pub height : Option String
  pub location_id : Option ℕ

-- The places of the two texts in SQLite's order.
abbrev pub rank : EventType → ℕ
rank location_created = 0
rank sighting = 1

-- ORDER BY timestamp DESC, event_type DESC, event_id DESC
abbrev pub events_order : {F : Type 0} → AuditEvent F → AuditEvent F → Bool
events_order a b =
    ltb b.timestamp a.timestamp
    || eqb b.timestamp a.timestamp
      && (ltb (rank b.event_type) (rank a.event_type)
          || eqb (rank b.event_type) (rank a.event_type) && leb b.event_id a.event_id)

module _ {F : Type 0} ⦃pc : PlusCodes F⦄ where
  abbrev pub created_event : Database F → LocationRow F → UserRow → AuditEvent F
  created_event db l u = record {
    event_type = location_created;
    event_id = l.id;
    author_opaque_id = u.opaque_id;
    author_insincerity = insincerity db u.id;
    lat = l.lat;
    lon = l.lon;
    plus_code = plus_code l.lat l.lon;
    timestamp = l.created_at;
    transpired = none;
    description = none;
    medium = none;
    message = none;
    height = none;
    location_id = none;
  }

  abbrev pub sighting_event : Database F → SightingRow → LocationRow F → UserRow → AuditEvent F
  sighting_event db s l u = record {
    event_type = sighting;
    event_id = s.id;
    author_opaque_id = u.opaque_id;
    author_insincerity = insincerity db u.id;
    lat = l.lat;
    lon = l.lon;
    plus_code = plus_code l.lat l.lon;
    timestamp = s.observed_at;
    transpired = some s.transpired;
    description = some s.description;
    medium = some s.medium;
    message = some s.message;
    height = some s.height;
    location_id = some s.location_id;
  }

  -- FROM locations l JOIN users u ON u.id = l.created_by
  unfoldable pub event_of_location : Database F → LocationRow F → Option (AuditEvent F)
  event_of_location db l = elim (user_with_id db.users l.created_by) [
    | none ↦ none
    | some u ↦ some (created_event db l u)
  ]

  -- FROM sightings s JOIN locations l ON … JOIN users u ON …
  unfoldable pub event_of_sighting : Database F → SightingRow → Option (AuditEvent F)
  event_of_sighting db s = elim (location_with_id db.locations s.location_id) [
    | none ↦ none
    | some l ↦ elim (user_with_id db.users s.reporter_id) [
      | none ↦ none
      | some u ↦ some (sighting_event db s l u)
    ]
  ]

  -- … UNION ALL …
  unfoldable pub all_events : Stamp → Database F → List (AuditEvent F)
  unfolding event_of_location event_of_sighting
  all_events since db =
      rows_from (event_of_location db) (rows_where (λ l. leb since l.created_at) db.locations)
      ++ rows_from (event_of_sighting db) (rows_where (λ s. leb since s.observed_at) db.sightings)

  unfoldable pub audit_events_since : Time → Action F (List (AuditEvent F))
  unfolding all_events
  audit_events_since since =
      gets λ db. take 500 (order_by events_order (all_events (rfc3339 since) db))
