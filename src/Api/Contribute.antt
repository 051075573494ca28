-- ===== src/Api/Contribute.antt =====
-- internal/api/handlers.go: who am I, reporting sightings, adding and linking locations, the map.
-- A decoded body is `some`, and `none` is a body that decodeJSON refuses.
use reporting_and_mapping.Prelude.{
  Bool, String, Option, none, some, ◌==◌, ◌&&◌, ◌||◌, not, if◌then◌else◌,
}
use reporting_and_mapping.Platform.{Float64, Sqlite}
use reporting_and_mapping.Prelude.Int.{ℤ, pos}
use reporting_and_mapping.Geo.{PlusCodes}
use reporting_and_mapping.Db.{Time, UserRow}
use reporting_and_mapping.Db.Monad.{failure}
use reporting_and_mapping.Store.Sightings.{SightingInput, insert_sighting, insert_canonical}
use reporting_and_mapping.Store.Reconciliation.{insert_reconciliation}
use reporting_and_mapping.Store.Mapping.{map_data}
use reporting_and_mapping.Store.Users.{set_user_called}
use reporting_and_mapping.Api.{
  Handler, user, created_id, markers, undecodable, panic, is_zero, write_json, write_err,
  map_store_err, require, respond,
}
use reporting_and_mapping.Api.Params.{
  Times, Query, valid_lat_lon, parse_bbox, parse_since, include_insincere, include_missing,
}

-- The called note of the JSON body, else that of the query.
abbrev pub chosen_called : Query → Option String → String
chosen_called q none = q "called"
chosen_called q (some given) = if given == "" then q "called" else given

module _ {F : Type 0} where
  unfoldable pub handle_me : Handler F
  handle_me u db = (write_json 200 (user u), db)

  -- decodeOptional: `some none` is an empty body, `none` one that does not decode.
  unfoldable pub handle_update_me : Query → Option (Option String) → Handler F
  unfolding set_user_called
  handle_update_me q none u db = (write_err 400 "invalid request body", db)
  handle_update_me q (some body) u db =
      respond (set_user_called u.id (chosen_called q body))
        (λ _. write_json 200 (user (record u { called = chosen_called q body }))) db

-- The body of POST /api/sightings; a field that is left out has its zero value.
pub record SightingBody (F : Type 0) : Type 0 where
  pub lat : F
  pub lon : F
  pub observed_at : String
  pub to_exist : Bool
  pub transpired : String
  pub medium : String
  pub message : String
  pub height : String
  pub location_id : Option ℤ

abbrev pub is_medium : String → Bool
is_medium s = s == "unknown" || s == "placard" || s == "ink" || s == "sticker" || s == ""

abbrev pub is_transpired : String → Bool
is_transpired s = s == "sighted" || s == "missed" || s == "removed"

abbrev pub is_message : String → Bool
is_message s = s == "unknown" || s == "js" || s == "jicr" || s == "bij" || s == "other" || s == ""

abbrev pub is_height : String → Bool
is_height s =
    s == "unknown" || s == "reachable" || s == "7ft" || s == "10ft" || s == "15+ft" || s == ""

-- An empty trait is unknown, unless the sign was missed.
abbrev pub or_unknown : String → String → String
or_unknown transpired trait =
    if trait == "" && not (transpired == "missed") then "unknown" else trait

-- The time now where observed_at is left out.
abbrev pub observed_time : ⦃ts : Times⦄ → String → Time → Option Time
observed_time ⦃ts⦄ s now = if s == "" then some now else ts.parse_rfc3339 s

module _ {F : Type 0} ⦃fl : Float64 F⦄ ⦃ts : Times⦄ where
  abbrev pub input_of : UserRow → SightingBody F → Time → SightingInput F
  input_of u b observed = record {
    user_id = u.id;
    lat = b.lat;
    lon = b.lon;
    observed_at = observed;
    to_exist = b.to_exist;
    transpired = b.transpired;
    medium = or_unknown b.transpired b.medium;
    message = or_unknown b.transpired b.message;
    height = or_unknown b.transpired b.height;
    description = "";
    location_id = b.location_id;
  }

  -- The message of the first check that fails, in the handler's order; the switch on to_exist accepts
  -- both of its values.
  unfoldable pub rejection : SightingBody F → Option String
  unfolding valid_lat_lon
  rejection b =
      if not (valid_lat_lon b.lat b.lon)
      then some "lat/lon out of range"
      else if not (is_medium (or_unknown b.transpired b.medium))
      then some "invalid medium"
      else if not (is_transpired b.transpired)
      then some "invalid transpired event, expecting sighted, missed, or removed"
      else if not (is_message (or_unknown b.transpired b.message))
      then some "invalid message"
      else if not (is_height (or_unknown b.transpired b.height))
      then some "invalid height"
      else none

  module _ ⦃sq : Sqlite F⦄ where
    unfoldable pub create_sighting : SightingBody F → Time → Handler F
    unfolding rejection
    create_sighting b now u db = elim (rejection b) [
      | some message ↦ (write_err 400 message, db)
      | none ↦ elim (observed_time b.observed_at now) [
        | none ↦ (write_err 400 "observed_at must be RFC-3339", db)
        | some observed ↦
            respond (insert_sighting (input_of u b observed)) (λ i. write_json 201 (created_id i))
              db
      ]
    ]

    abbrev pub decoded_sighting : Option (SightingBody F) → Time → Handler F
    decoded_sighting none now u db = (write_json 400 undecodable, db)
    decoded_sighting (some b) now u db = create_sighting b now u db

    unfoldable pub handle_create_sighting : Option (SightingBody F) → Time → Handler F
    unfolding create_sighting
    handle_create_sighting body now = require "sight" (decoded_sighting body now)

    abbrev pub create_location : Option (F × F) → Time → Handler F
    create_location none now u db = (write_json 400 undecodable, db)
    create_location (some (lat, lon)) now u db =
        if not (valid_lat_lon lat lon)
        then (write_err 400 "lat/lon out of range", db)
        else respond (insert_canonical u.id lat lon now) (λ i. write_json 201 (created_id i)) db

    unfoldable pub handle_create_location : Option (F × F) → Time → Handler F
    handle_create_location body now = require "canonicalize" (create_location body now)

    abbrev pub reconcile : Option (ℤ × ℤ) → Handler F
    reconcile none u db = (write_json 400 undecodable, db)
    reconcile (some (sighting_id, location_id)) u db =
        if is_zero sighting_id || is_zero location_id
        then (write_err 400 "sighting_id and location_id required", db)
        else respond (insert_reconciliation sighting_id location_id)
            (λ i. write_json 201 (created_id i)) db

    unfoldable pub handle_reconcile : Option (ℤ × ℤ) → Handler F
    handle_reconcile body = require "reconcile" (reconcile body)

    module _ ⦃pc : PlusCodes F⦄ where
      abbrev pub send_map : Query → Time → Handler F
      send_map q now u db = elim (parse_bbox {F = F} q) [
        | none ↦ (map_store_err (failure "invalid bounding box"), db)
        | some box ↦
            elim (map_data (parse_since q (fl.decimal (pos 90) 0) now) (include_insincere q)
              (include_missing q) box db) [
                | none ↦ (panic, db)
                | some ms ↦ (write_json 200 (markers ms), db)
              ]
      ]

      unfoldable pub handle_map : Query → Time → Handler F
      handle_map q now = require "view" (send_map q now)
