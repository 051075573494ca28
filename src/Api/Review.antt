-- ===== src/Api/Review.antt =====
-- internal/api/handlers.go: the lists that the audit reads, and the history of a location.
use reporting_and_mapping.Prelude.{◌-◌, String, none, some, ◌==◌, if◌then◌else◌, Option}
use reporting_and_mapping.Prelude.Int.{ℤ, pos, negsuc}
use reporting_and_mapping.Platform.{Float64, Sqlite}
use reporting_and_mapping.Geo.{PlusCodes}
use reporting_and_mapping.Db.{Time}
use reporting_and_mapping.Store.Lists.{sightings_by_opaque_user, sightings_since}
use reporting_and_mapping.Db.Monad.{failure}
use reporting_and_mapping.Store.Events.{audit_events_since}
use reporting_and_mapping.Store.History.{location_history}
use reporting_and_mapping.Api.{
  Handler, sighting_list, write_json, write_err, require, respond, event_list, history,
  map_store_err,
}
use reporting_and_mapping.Api.Params.{Times, Query, at_most, parse_since, include_insincere}

-- Where the list starts, or the message of a parameter that is refused.
pub data Horizon : Type 0 where
  starts : Time → Horizon
  refused : String → Horizon

-- 14 * 24 * time.Hour, in nanoseconds
abbrev pub fortnight : Time
fortnight = 1_209_600_000_000_000

module _ (F : Type 0) ⦃fl : Float64 F⦄ ⦃ts : Times⦄ where
  abbrev days_back : Query → Time → Horizon
  days_back q now = elim (fl.parse (q "horizon_days")) [
    | none ↦ refused "invalid horizon_days"
    | some v ↦
        if fl.lt (fl.decimal (pos 0) 0) v
        then starts (now - fl.days_to_ns (at_most (fl.decimal (pos 3650) 0) v))
        else refused "invalid horizon_days"
  ]

  unfoldable pub horizon : Query → Time → Horizon
  horizon q now =
      if q "since" == ""
      then (if q "horizon_days" == "" then starts (now - fortnight) else days_back q now)
      else (elim (ts.parse_rfc3339 (q "since")) [
        | none ↦ refused "since must be RFC-3339"
        | some t ↦ starts t
      ])

module _ {F : Type 0} ⦃fl : Float64 F⦄ ⦃pc : PlusCodes F⦄ where
  abbrev pub send_user_sightings : String → Handler F
  send_user_sightings target u db =
      respond (sightings_by_opaque_user target) (λ ls. write_json 200 (sighting_list ls)) db

  unfoldable pub handle_audit_sightings : String → Handler F
  handle_audit_sightings target = require "audit" (send_user_sightings target)

  abbrev pub send_sightings : Horizon → Handler F
  send_sightings (refused message) u db = (write_err 400 message, db)
  send_sightings (starts since) u db =
      respond (sightings_since since) (λ ls. write_json 200 (sighting_list ls)) db

  unfoldable pub handle_list_sightings : ⦃ts : Times⦄ → Query → Time → Handler F
  unfolding horizon
  handle_list_sightings q now = require "audit" (send_sightings (horizon F q now))

  abbrev pub send_events : Horizon → Handler F
  send_events (refused message) u db = (write_err 400 message, db)
  send_events (starts since) u db =
      respond (audit_events_since since) (λ es. write_json 200 (event_list es)) db

  unfoldable pub handle_list_events : ⦃ts : Times⦄ → Query → Time → Handler F
  unfolding horizon
  handle_list_events q now = require "audit" (send_events (horizon F q now))

module _ {F : Type 0} ⦃fl : Float64 F⦄ ⦃sq : Sqlite F⦄ ⦃ts : Times⦄ ⦃pc : PlusCodes F⦄ where
  -- The path value as ParseInt reads it, `none` for its error. No location has a negative id.
  abbrev pub send_history : Option ℤ → Query → Time → Handler F
  send_history none q now u db = (write_err 400 "invalid canonical location id", db)
  send_history (some (negsuc n)) q now u db =
      (map_store_err (failure "converting NULL to int64 is unsupported"), db)
  send_history (some (pos i)) q now u db =
      respond
        (location_history i (parse_since q (fl.decimal (pos 365) 0) now) (include_insincere q))
        (λ found. write_json 200 (history found)) db

  unfoldable pub handle_location_history : Option ℤ → Query → Time → Handler F
  handle_location_history id q now = require "view" (send_history id q now)
