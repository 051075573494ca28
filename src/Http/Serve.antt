-- ===== src/Http/Serve.antt =====
-- The handler of cmd/server/main.go: PanicRecoveryMiddleware of internal/api/panic.go around Middleware
-- of internal/auth/auth.go around Routes of internal/api/server.go. RequestLoggingMiddleware hands every
-- request on as it is. A handler that panics gives `none`.
pub mod Public
pub mod Handled
pub mod Preserved
pub mod Identified
pub mod Answered
pub mod Shown
pub mod Roles
use reporting_and_mapping.Prelude.{
  ℕ, Bool, true, false, String, Option, none, some, List, [], ◌∷◌, ◌++◌, ◌==◌, ◌&&◌, ◌||◌, not,
  if◌then◌else◌,
}
use reporting_and_mapping.Prelude.Int.{ℤ}
use reporting_and_mapping.Platform.{Float64, Sqlite}
use reporting_and_mapping.Geo.{PlusCodes}
use reporting_and_mapping.Identity.{Crypto}
use reporting_and_mapping.Db.{Time, UserRow, Database}
use reporting_and_mapping.Db.Monad.{Result, ok, err}
use reporting_and_mapping.Store.{Store}
use reporting_and_mapping.Store.Users.{resolve_user}
use reporting_and_mapping.Importer.Text.{Text, codes, contains, has_prefix}
use reporting_and_mapping.Importer.Source.{has_suffix}
use reporting_and_mapping.Api.{Response, nothing, is_panic, write_json, write_err, http_error}
use reporting_and_mapping.Api.Params.{Times}
use reporting_and_mapping.Api.Contribute.{SightingBody}
use reporting_and_mapping.Api.Requests.{
  Request, route, get_me, post_me, post_sighting, post_location, post_reconciliation, get_map,
  get_flags, post_flags, post_insincere, post_note, get_notes, get_ping, get_sightings,
  get_user_sightings, get_events, get_history,
}
use reporting_and_mapping.Api.Auth.{Config, extract_subject}
use reporting_and_mapping.Http.{
  HttpRequest, HttpResponse, answered, redirected, file, decoded, path, same, is_clean, parse_int,
}
use reporting_and_mapping.Http.Mux.{
  Endpoint, me, update_me, list_sightings, list_events, create_sighting, create_location,
  location_history, reconcile, map_view, audit_sightings, list_flags, set_flags, flag_insincere,
  add_note, list_notes, ping, find_route,
}

-- encoding/json, reading a body into the variable of a handler; `none` is its error. Beside it, a text
-- as Go's string, and the path that net/http redirects to where a path is not clean.
pub record Decoders (F : Type 0) : Type 0 where
  pub called : Text → Option (Option String)
  pub sighting : Text → Option (SightingBody F)
  pub location : Text → Option (F × F)
  pub reconciliation : Text → Option (ℤ × ℤ)
  pub flags : Text → Option (String × Option ℤ)
  pub insincere : Text → Option Bool
  pub note : Text → Option String
  pub string : Text → String
  pub clean : List Text → List Text

abbrev first_value : List Text → Text
first_value [] = []
first_value (v ∷ vs) = v

-- The prefix that the authentication lets pass.
abbrev pub is_public : HttpRequest → Bool
is_public req = has_prefix (path req) (codes "/public-")

-- A path without an extension names a page.
abbrev pub static_path : Text → Text
static_path p =
    if not (contains p (codes ".")) && not (has_suffix p (codes "/")) then p ++ codes ".html" else p

module _ {F : Type 0} ⦃de : Decoders F⦄ where
  -- What the handler of an endpoint reads of the request: r.PathValue, r.URL.Query and the body.
  unfoldable pub request_of : Endpoint → List Text → HttpRequest → Request F
  unfolding parse_int
  request_of me values req = get_me
  request_of update_me values req = post_me req.query (de.called req.body)
  request_of list_sightings values req = get_sightings req.query
  request_of list_events values req = get_events req.query
  request_of create_sighting values req = post_sighting (de.sighting req.body)
  request_of create_location values req = post_location (de.location req.body)
  request_of location_history values req = get_history (parse_int (first_value values)) req.query
  request_of reconcile values req = post_reconciliation (de.reconciliation req.body)
  request_of map_view values req = get_map req.query
  request_of audit_sightings values req = get_user_sightings (de.string (first_value values))
  request_of list_flags values req = get_flags (de.string (first_value values))
  request_of set_flags values req = post_flags (de.string (first_value values)) (de.flags req.body)
  request_of flag_insincere values req =
      post_insincere (de.string (first_value values)) (de.insincere req.body)
  request_of add_note values req = post_note (de.string (first_value values)) (de.note req.body)
  request_of list_notes values req = get_notes (de.string (first_value values))
  request_of ping values req = get_ping

-- A handler that UserFrom gives nil: it sends null, refuses the body, or dereferences nil.
abbrev pub without_user : {F : Type 0} → Request F → Option (HttpResponse F)
without_user get_ping = some (answered (write_json 200 nothing))
without_user get_me = some (answered (write_json 200 nothing))
without_user (post_me q none) = some (answered (write_err 400 "invalid request body"))
without_user _ = none

module _ {F : Type 0} ⦃fl : Float64 F⦄ ⦃ts : Times⦄ ⦃sq : Sqlite F⦄ ⦃pc : PlusCodes F⦄
    ⦃de : Decoders F⦄ where
  -- What is sent for a handler's response.
  abbrev pub sent : Response F → Option (HttpResponse F)
  sent r = if is_panic r.body then none else some (answered r)

  abbrev pub handle :
      Option UserRow → Request F → Time → Database F → Option (HttpResponse F) × Database F
  handle none req now db = (without_user req, db)
  handle (some u) req now db = let (a, db') = route req now u db in (sent a, db')

  abbrev pub serve_match :
      Option UserRow
      → HttpRequest
      → Time
      → Option (Endpoint × List Text)
      → Database F
      → Option (HttpResponse F) × Database F
  serve_match u req now none db = (some (file (static_path (path req))), db)
  serve_match u req now (some (e, values)) db = handle u (request_of e values req) now db

  -- The mux; a CONNECT request is matched as it is.
  unfoldable pub serve_mux :
      Option UserRow → HttpRequest → Time → Database F → Option (HttpResponse F) × Database F
  unfolding find_route request_of route
  serve_mux u req now db =
      if not (same req.method (codes "CONNECT")) && not (is_clean req.segments)
      then (some (redirected (de.clean req.segments)), db)
      else serve_match u req now (find_route req.method (decoded req)) db

module _ {F : Type 0} ⦃fl : Float64 F⦄ ⦃ts : Times⦄ ⦃sq : Sqlite F⦄ ⦃pc : PlusCodes F⦄
    ⦃de : Decoders F⦄ ⦃cr : Crypto⦄ where
  abbrev pub serve_resolved :
      HttpRequest
      → Time
      → Result UserRow
      → Store
      → Database F
      → Option (HttpResponse F) × Store × Database F
  serve_resolved req now (err e) st db = (some (answered (http_error 500 "internal error")), st, db)
  serve_resolved req now (ok u) st db = let (r, db') = serve_mux (some u) req now db in (r, st, db')

  abbrev pub serve_subject :
      String
      → HttpRequest
      → Time
      → Store
      → Database F
      → Option (HttpResponse F) × Store × Database F
  serve_subject subject req now st db =
      if subject == ""
      then (some (answered (http_error 401 "unauthenticated: missing identity header")), st, db)
      else (let (r, st', db') = resolve_user st subject now db in serve_resolved req now r st' db')

  -- auth.Middleware
  unfoldable pub authenticate :
      (String → String)
      → Config
      → HttpRequest
      → Time
      → Store
      → Database F
      → Option (HttpResponse F) × Store × Database F
  unfolding extract_subject resolve_user serve_mux
  authenticate trim cfg req now st db =
      if is_public req
      then (let (r, db') = serve_mux none req now db in (r, st, db'))
      else serve_subject (extract_subject trim req.headers cfg.identity_headers cfg.dev_subject) req
          now st db

  abbrev pub recovered : Option (HttpResponse F) → HttpResponse F
  recovered none = answered (http_error 500 "Internal Server Error")
  recovered (some r) = r

  -- PanicRecoveryMiddleware around it all
  unfoldable pub serve_http :
      (String → String)
      → Config
      → HttpRequest
      → Time
      → Store
      → Database F
      → HttpResponse F × Store × Database F
  unfolding authenticate
  serve_http trim cfg req now st db =
      let (r, st', db') = authenticate trim cfg req now st db in (recovered r, st', db')
