-- ===== src/Api/Requests/Preserved.antt =====
-- Every route keeps what the actions of the store keep.
use reporting_and_mapping.Platform.{Float64, Sqlite}
use reporting_and_mapping.Geo.{PlusCodes}
use reporting_and_mapping.Db.{Time, UserRow, Database}
use reporting_and_mapping.Store.Reputation.{set_insincere, list_notes, list_user_flags}
use reporting_and_mapping.Store.Reputation.Listing.{list_notes_unchanged, list_user_flags_unchanged}
use reporting_and_mapping.Api.Params.{Times}
use reporting_and_mapping.Api.Contribute.{
  create_location, reconcile, send_map, handle_me, handle_create_sighting, handle_create_location,
  handle_reconcile, handle_map, decoded_sighting,
}
use reporting_and_mapping.Store.Lists.{sightings_by_opaque_user}
use reporting_and_mapping.Store.Lists.Complete.{sightings_by_opaque_user_unchanged}
use reporting_and_mapping.Api.Review.{
  horizon, send_sightings, send_events, send_history, handle_list_events, handle_location_history,
  send_user_sightings, handle_list_sightings, handle_audit_sightings,
}
use reporting_and_mapping.Api.Moderate.{
  flag_insincere, set_flags, send_note, send_notes, send_flags, chosen_flag, handle_flag_insincere,
  handle_set_flags, handle_add_note, handle_list_notes, handle_list_flags,
}
use reporting_and_mapping.Api.Requests.{
  Request, route, get_me, post_me, post_sighting, post_location, post_reconciliation, get_map,
  get_flags, post_flags, post_insincere, post_note, get_notes, get_ping, get_sightings,
  get_user_sightings, get_events, get_history,
}
use reporting_and_mapping.Api.Requests.Effects.{
  IsPreserved, require-after, respond-after, handle_update_me-preserves, create_location-preserves,
  reconcile-preserves, set_flags-preserves, send_note-preserves, decoded_sighting-preserves,
  send_map-preserves, send_sightings-preserves, send_events-preserves, send_history-preserves,
}

module _ {F : Type 0} ⦃fl : Float64 F⦄ ⦃sq : Sqlite F⦄ ⦃ts : Times⦄ ⦃pc : PlusCodes F⦄
    (P : Database F → Type 0) (k : IsPreserved P) where
  -- What every action of the store keeps true of the database, every request does.
  pub route-preserves :
      (req : Request F) (now : Time) (u : UserRow) (db : Database F)
      → P db
      → P (route req now u db).1
  unfolding handle_list_events handle_location_history handle_list_sightings handle_audit_sightings
      route handle_me handle_create_sighting handle_create_location handle_reconcile handle_map
      handle_list_flags handle_set_flags handle_flag_insincere handle_add_note handle_list_notes
  route-preserves get_me now u db h = h
  route-preserves (post_me q body) now u db h = handle_update_me-preserves P k q body u db h
  route-preserves (post_sighting body) now u db h =
      require-after P "sight" (decoded_sighting body now) u db h
        (decoded_sighting-preserves P k body now u db h)
  route-preserves (post_location body) now u db h =
      require-after P "canonicalize" (create_location body now) u db h
        (create_location-preserves P k body now u db h)
  route-preserves (post_reconciliation body) now u db h =
      require-after P "reconcile" (reconcile body) u db h (reconcile-preserves P k body u db h)
  route-preserves (get_map q) now u db h =
      require-after P "view" (send_map q now) u db h (send_map-preserves P k q now u db h)
  route-preserves (get_flags target) now u db h =
      require-after P "audit" (send_flags target) u db h
        (respond-after P (list_user_flags target) _ db (rw (list_user_flags_unchanged target db) h))
  route-preserves (post_flags target body) now u db h =
      require-after P "set-user-flags" (set_flags target body now) u db h
        (set_flags-preserves P k target body now u db h)
  route-preserves (post_insincere target body) now u db h =
      require-after P "flag_insincere" (flag_insincere target body now) u db h (
        respond-after P (set_insincere u.id target (chosen_flag body) now) _ db
          (k.insincere _ _ _ _ db h))
  route-preserves (post_note target body) now u db h =
      require-after P "gossip" (send_note target body now) u db h
        (send_note-preserves P k target body now u db h)
  route-preserves (get_notes target) now u db h =
      require-after P "audit" (send_notes target) u db h
        (respond-after P (list_notes target) _ db (rw (list_notes_unchanged target db) h))
  route-preserves get_ping now u db h = h
  route-preserves (get_sightings q) now u db h =
      require-after P "audit" (send_sightings (horizon F q now)) u db h
        (send_sightings-preserves P k (horizon F q now) u db h)
  route-preserves (get_user_sightings target) now u db h =
      require-after P "audit" (send_user_sightings target) u db h (
        respond-after P (sightings_by_opaque_user target) _ db
          (rw (sightings_by_opaque_user_unchanged target db) h))
  route-preserves (get_events q) now u db h =
      require-after P "audit" (send_events (horizon F q now)) u db h
        (send_events-preserves P k (horizon F q now) u db h)
  route-preserves (get_history id q) now u db h =
      require-after P "view" (send_history id q now) u db h
        (send_history-preserves P k id q now u db h)
