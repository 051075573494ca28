-- ===== src/Api/Requests.antt =====
-- internal/api/server.go: the routes, each with the handler that answers it, but for the static files.
pub mod Access
pub mod Panics
pub mod Effects
pub mod Preserved
pub mod Invariant
pub mod Report
pub mod Renamed
use reporting_and_mapping.Prelude.{ℕ, Bool, String, Option, none, some}
use reporting_and_mapping.Prelude.Int.{ℤ}
use reporting_and_mapping.Platform.{Float64, Sqlite}
use reporting_and_mapping.Geo.{PlusCodes}
use reporting_and_mapping.Db.{Time}
use reporting_and_mapping.Api.{Handler, nothing, write_json}
use reporting_and_mapping.Api.Params.{Times, Query}
use reporting_and_mapping.Api.Contribute.{
  SightingBody, handle_me, handle_update_me, handle_create_sighting, handle_create_location,
  handle_reconcile, handle_map,
}
use reporting_and_mapping.Api.Review.{
  handle_list_sightings, handle_audit_sightings, handle_list_events, handle_location_history,
}
use reporting_and_mapping.Api.Moderate.{
  handle_flag_insincere, handle_set_flags, handle_add_note, handle_list_notes, handle_list_flags,
}

-- A route with its path value, query and decoded body.
pub data Request (F : Type 0) : Type 0 where
  get_me : Request F
  post_me : Query → Option (Option String) → Request F
  post_sighting : Option (SightingBody F) → Request F
  post_location : Option (F × F) → Request F
  post_reconciliation : Option (ℤ × ℤ) → Request F
  get_map : Query → Request F
  get_flags : String → Request F
  post_flags : String → Option (String × Option ℤ) → Request F
  post_insincere : String → Option Bool → Request F
  post_note : String → Option String → Request F
  get_notes : String → Request F
  get_ping : Request F
  get_sightings : Query → Request F
  get_user_sightings : String → Request F
  get_events : Query → Request F
  get_history : Option ℤ → Query → Request F

-- The permission column of the table above Routes.
unfoldable pub required : {F : Type 0} → Request F → Option String
required get_me = none
required (post_me q body) = none
required (post_sighting body) = some "sight"
required (post_location body) = some "canonicalize"
required (post_reconciliation body) = some "reconcile"
required (get_map q) = some "view"
required (get_flags target) = some "audit"
required (post_flags target body) = some "set-user-flags"
required (post_insincere target body) = some "flag_insincere"
required (post_note target body) = some "gossip"
required (get_notes target) = some "audit"
required get_ping = none
required (get_sightings q) = some "audit"
required (get_user_sightings target) = some "audit"
required (get_events q) = some "audit"
required (get_history id q) = some "view"

module _ {F : Type 0} ⦃fl : Float64 F⦄ ⦃ts : Times⦄ ⦃sq : Sqlite F⦄ ⦃pc : PlusCodes F⦄ where
  unfoldable pub route : Request F → Time → Handler F
  unfolding handle_list_events handle_location_history handle_list_sightings handle_audit_sightings
      handle_me handle_update_me handle_create_sighting handle_create_location handle_reconcile
      handle_map handle_list_flags handle_set_flags handle_flag_insincere handle_add_note
      handle_list_notes
  route get_me now = handle_me
  route (post_me q body) now = handle_update_me q body
  route (post_sighting body) now = handle_create_sighting body now
  route (post_location body) now = handle_create_location body now
  route (post_reconciliation body) now = handle_reconcile body
  route (get_map q) now = handle_map q now
  route (get_flags target) now = handle_list_flags target
  route (post_flags target body) now = handle_set_flags target body now
  route (post_insincere target body) now = handle_flag_insincere target body now
  route (post_note target body) now = handle_add_note target body now
  route (get_notes target) now = handle_list_notes target
  route get_ping now = λ u db. (write_json 200 nothing, db)
  route (get_sightings q) now = handle_list_sightings q now
  route (get_user_sightings target) now = handle_audit_sightings target
  route (get_events q) now = handle_list_events q now
  route (get_history id q) now = handle_location_history id q now
