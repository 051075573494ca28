-- ===== src/Api/Requests/Access.antt =====
-- Who may do what: the permission that guards each route.
use Prim.Native.String.{◌++◌ as ◌+++◌}
use mathlib.Core.Option.{some-injective}
use reporting_and_mapping.Prelude.{◌≡◌, refl, false, String, some}
use reporting_and_mapping.Platform.{Float64, Sqlite}
use reporting_and_mapping.Geo.{PlusCodes}
use reporting_and_mapping.Db.{Time, UserRow, Database}
use reporting_and_mapping.Store.Users.{has_permission}
use reporting_and_mapping.Api.{Handler, require, write_err}
use reporting_and_mapping.Api.Params.{Times}
use reporting_and_mapping.Api.Requests.{
  Request, required, route, get_me, post_me, post_sighting, post_location, post_reconciliation,
  get_map, get_flags, post_flags, post_insincere, post_note, get_notes, get_ping, get_sightings,
  get_user_sightings, get_events, get_history,
}
use reporting_and_mapping.Api.Contribute.{
  handle_create_sighting, handle_create_location, handle_reconcile, handle_map,
}
use reporting_and_mapping.Api.Review.{
  handle_list_sightings, handle_audit_sightings, handle_list_events, handle_location_history,
}
use reporting_and_mapping.Api.Moderate.{
  handle_flag_insincere, handle_set_flags, handle_add_note, handle_list_notes, handle_list_flags,
}

module _ {F : Type 0} where
  require_refuses :
      (held needed : String) (rest : Handler F) (u : UserRow) (db : Database F)
      → some held ≡ some needed
      → has_permission db u.role needed ≡ false
      → require held rest u db ≡ (write_err 403 ("missing permission: " +++ needed), db)
  unfolding require
  require_refuses held needed rest u db e h =
      let same : held ≡ needed = some-injective held needed e in rw (same, h) refl

module _ {F : Type 0} ⦃fl : Float64 F⦄ ⦃ts : Times⦄ ⦃sq : Sqlite F⦄ ⦃pc : PlusCodes F⦄ where
  -- A user whose role lacks the permission that a route requires is answered 403 with its name, and
  -- the database stays as it was.
  pub route_refuses :
      (req : Request F) (now : Time) (u : UserRow) (db : Database F) (permission : String)
      → required req ≡ some permission
      → has_permission db u.role permission ≡ false
      → route req now u db ≡ (write_err 403 ("missing permission: " +++ permission), db)
  unfolding handle_list_events handle_location_history handle_list_sightings handle_audit_sightings
      route required handle_create_sighting handle_create_location handle_reconcile handle_map
      handle_list_flags handle_set_flags handle_flag_insincere handle_add_note handle_list_notes
  route_refuses get_me now u db p e h = cc
  route_refuses (post_me q body) now u db p e h = cc
  route_refuses (post_sighting body) now u db p e h = require_refuses _ p _ u db e h
  route_refuses (post_location body) now u db p e h = require_refuses _ p _ u db e h
  route_refuses (post_reconciliation body) now u db p e h = require_refuses _ p _ u db e h
  route_refuses (get_map q) now u db p e h = require_refuses _ p _ u db e h
  route_refuses (get_flags target) now u db p e h = require_refuses _ p _ u db e h
  route_refuses (post_flags target body) now u db p e h = require_refuses _ p _ u db e h
  route_refuses (post_insincere target body) now u db p e h = require_refuses _ p _ u db e h
  route_refuses (post_note target body) now u db p e h = require_refuses _ p _ u db e h
  route_refuses (get_notes target) now u db p e h = require_refuses _ p _ u db e h
  route_refuses get_ping now u db p e h = cc
  route_refuses (get_sightings q) now u db p e h = require_refuses _ p _ u db e h
  route_refuses (get_user_sightings target) now u db p e h = require_refuses _ p _ u db e h
  route_refuses (get_events q) now u db p e h = require_refuses _ p _ u db e h
  route_refuses (get_history id q) now u db p e h = require_refuses _ p _ u db e h
