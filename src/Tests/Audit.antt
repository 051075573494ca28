-- ===== src/Tests/Audit.antt =====
-- The theorems on events, histories, the directory of users and the map at concrete inputs.
use reporting_and_mapping.Prelude.{
  ◌≡◌, ◌⊎◌, refl, true, false, some, List, [], ◌∷◌, ◌++◌, All, ◌≤◌, ◌&&◌, not, eqb, leb, length,
  map, rows_where, inl, inr, In, arith,
}
use mathlib.Core.List.{Perm}
use reporting_and_mapping.Prelude.Order.{IsOrdered}
use reporting_and_mapping.Platform.Fixed.{Fixed, fixed_floats, counting_rows}
use reporting_and_mapping.Db.{LocationRow, SightingRow, rfc3339}
use reporting_and_mapping.Db.Monad.{ok}
use reporting_and_mapping.Store.Lists.{ListedSighting}
use reporting_and_mapping.Store.Lists.Complete.{AreListed}
use reporting_and_mapping.Store.Events.{AuditEvent, events_order, all_events, audit_events_since}
use reporting_and_mapping.Store.Events.Newest.{audit_events_since_lem, all_events_lem}
use reporting_and_mapping.Store.History.{location_history, history_order, has_flag_row}
use reporting_and_mapping.Store.History.Shown.{location_history_lem}
use reporting_and_mapping.Store.Reconciliation.{LocationSummary, get_location}
use reporting_and_mapping.Store.Reputation.{insincerity}
use reporting_and_mapping.Store.Users.Directory.{
  arrive, assign, executes, promises, directory, executes_refines,
}
use reporting_and_mapping.Store.Sightings.{
  insert_sighting, is_at, ensure_location, existence, insert_at_location,
}
use reporting_and_mapping.Db.Tables.{insert_location, insert_sighting_row}
use reporting_and_mapping.Store.Mapping.{MapMarker, map_data, latest, latest_stamp}
use reporting_and_mapping.Store.Mapping.Visible.{map_data-insert_sighting}
use reporting_and_mapping.Geo.{BBox}
use reporting_and_mapping.Platform.Fixed.{degrees}
use reporting_and_mapping.Prelude.Int.{pos}
use reporting_and_mapping.Tests.Data.{town-IsValid, toy_codes, town, new_place}

-- What getLocation answers for the corner: its latest sighting.
abbrev corner_summary : LocationSummary Fixed
corner_summary = record {
  id = 1;
  lat = degrees (pos 51_500_000) 6;
  lon = degrees (pos 120_000) 6;
  created_at = 10;
  observed_at = 40;
  message = "js";
  medium = "ink";
  height = "7ft";
}

audit_events_since_lem_example :
    (es : List (AuditEvent Fixed)) × (others : List (AuditEvent Fixed)) × (audit_events_since
        35_000_000_000 town
      ≡ (ok es, town))
    × IsOrdered events_order es
    × (length es ≤ 500)
    × ((others ≡ []) ⊎ (length es ≡ 500))
    × Perm (es ++ others) (all_events (rfc3339 35_000_000_000) town)
    × All (λ r. All (λ e. events_order e r ≡ true) es) others
audit_events_since_lem_example = audit_events_since_lem 35_000_000_000 town

all_events_lem_example :
    map (λ (e : AuditEvent Fixed). e.event_id) (all_events 5 town)
    ≡ map (λ (l : LocationRow Fixed). l.id) (rows_where (λ l. leb 5 l.created_at) town.locations)
      ++ map (λ (s : SightingRow). s.id) (rows_where (λ s. leb 5 s.observed_at) town.sightings)
all_events_lem_example = all_events_lem 5 town town-IsValid

executes_refines_example :
    let cs = arrive "cyd-id" 60_000_000_000 ∷ assign "bob-id" "administrator" ∷ [] in
    ((executes cs town).0 ≡ (promises cs (directory town)).0)
    × (directory (executes cs town).1 ≡ (promises cs (directory town)).1)
executes_refines_example =
    executes_refines (arrive "cyd-id" 60_000_000_000 ∷ assign "bob-id" "administrator" ∷ []) town

abbrev dutch : BBox Fixed
dutch = record {
  min_lat = degrees (pos 52) 0;
  max_lat = degrees (pos 54) 0;
  min_lon = degrees (pos 3) 0;
  max_lon = degrees (pos 5) 0;
}

map_data-insert_sighting_example :
    let (r, db') = insert_sighting new_place town in
    (ms : List (MapMarker Fixed)) × (m : MapMarker Fixed) × (map_data 45_000_000_000 false false
        (some dutch)
        db'
      ≡ some ms)
    × In m ms
    × (r ≡ ok m.sighting_id)
    × (m.latest_observed_at ≡ 50)
    × (m.medium ≡ "ink")
    × (m.message ≡ "js")
    × (m.height ≡ "7ft")
    × (is_at new_place.lat new_place.lon
          (record { id = m.location_id; lat = m.lat; lon = m.lon; created_by = 2; created_at = 0 })
        ≡ true)
unfolding insincerity insert_sighting ensure_location insert_location existence insert_at_location
    insert_sighting_row
map_data-insert_sighting_example =
    map_data-insert_sighting new_place 45_000_000_000 false false dutch town refl (inl refl)
      (inr (refl, refl)) refl (omega arith) refl (omega arith, (omega arith, tt)) (refl, tt)

location_history_lem_example :
    (ls : List (ListedSighting Fixed)) × (ss : List SightingRow) × (location_history 1
        25_000_000_000 false town
      ≡ (ok (record { location = corner_summary; reconciled = ls; nearby = [] }), town))
    × Perm ss (
        rows_where
          (λ s.
            eqb s.location_id 1
            && leb 25 s.observed_at
            && not (false && has_flag_row town s.reporter_id))
          town.sightings)
    × IsOrdered history_order ss
    × AreListed town ls ss
unfolding get_location latest latest_stamp
location_history_lem_example =
    location_history_lem 1 25_000_000_000 false town {loc = corner_summary} town-IsValid
      (omega arith, (omega arith, tt)) refl
