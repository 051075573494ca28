-- ===== src/Tests/Web.antt =====
-- The theorems on HTTP requests and on histories at concrete inputs.
use reporting_and_mapping.Api.Requests.Renamed.{IsGiven, post_me_renames}
use reporting_and_mapping.Api.Requests.{route, post_me}
use reporting_and_mapping.Prelude.{◌≡◌, ◌≢◌, ◌↔◌, refl, none, some, [], ◌∷◌, In, String}
use reporting_and_mapping.Platform.Fixed.{Fixed, fixed_floats, counting_rows}
use reporting_and_mapping.Identity.{opaque_user_id}
use reporting_and_mapping.Importer.Text.{codes}
use reporting_and_mapping.Api.Auth.{default_config}
use reporting_and_mapping.Http.{HttpRequest, HttpResponse, answered}
use reporting_and_mapping.Http.Mux.{Pattern, routes, find_route, match_pattern, list_notes}
use reporting_and_mapping.Http.Mux.Disjoint.{find_route_lem}
use reporting_and_mapping.Http.Serve.{authenticate, serve_http}
use reporting_and_mapping.Http.Serve.Public.{IsStatic, serve_http_public}
use reporting_and_mapping.Http.Serve.Handled.{authenticate_answers, serve_http_unauthenticated}
use reporting_and_mapping.Http.Serve.Roles.{serve_http-HasPrivilegesOf}
use reporting_and_mapping.Store.Users.Roles.{HasPrivilegesOf}
use reporting_and_mapping.Api.{http_error, user}
use reporting_and_mapping.Prelude.{List, ◌==◌, if◌then◌else◌, inr, arith}
use reporting_and_mapping.Prelude.Int.{pos}
use reporting_and_mapping.Geo.{BBox}
use reporting_and_mapping.Platform.Fixed.{degrees}
use reporting_and_mapping.Store.Users.{seen, user_with_opaque}
use reporting_and_mapping.Store.Mapping.{MapMarker}
use reporting_and_mapping.Api.{write_json, created_id, markers}
use reporting_and_mapping.Http.Serve.Shown.{serve_http_shown}
use reporting_and_mapping.Store.Sightings.{
  insert_sighting, ensure_location, existence, insert_at_location,
}
use reporting_and_mapping.Db.Tables.{insert_location, insert_sighting_row}
use reporting_and_mapping.Api.Params.{parse_bbox, parse_since, include_insincere, include_missing}
use reporting_and_mapping.Api.Contribute.{rejection}
use reporting_and_mapping.Store.Users.{has_permission}
use reporting_and_mapping.Store.Reputation.{insincerity}
use reporting_and_mapping.Api.{require}
use reporting_and_mapping.Tests.Data.{
  toy_crypto, toy_codes, toy_times, toy_decoders, bob, town, idle, form, request_to,
  post_a_sighting, town-IsValid,
}

-- GET /public-logo.svg
abbrev logo : HttpRequest
logo = request_to "GET" (codes "public-logo.svg" ∷ [])

serve_http_public_example :
    (r : HttpResponse Fixed) × (serve_http (λ s. s) default_config logo 60 idle town
      ≡ (r, idle, town))
    × IsStatic logo r
serve_http_public_example = serve_http_public (λ s. s) default_config logo 60 idle town refl

authenticate_answers_example :
    (authenticate {F = Fixed} (λ s. s) default_config post_a_sighting 60_000_000_000 idle town).0
    ≢ none
authenticate_answers_example =
    authenticate_answers (λ s. s) default_config post_a_sighting 60_000_000_000 idle town

find_route_lem_example :
    (find_route (codes "HEAD") (codes "api" ∷ codes "users" ∷ codes "a b" ∷ codes "notes" ∷ [])
      ≡ some (list_notes, codes "a b" ∷ []))
    ↔ ((p : Pattern) × In p routes
        × (p.endpoint ≡ list_notes)
        × (match_pattern
              (codes "HEAD")
              (codes "api" ∷ codes "users" ∷ codes "a b" ∷ codes "notes" ∷ [])
              p
            ≡ some (codes "a b" ∷ [])))
find_route_lem_example =
    find_route_lem (codes "HEAD") (codes "api" ∷ codes "users" ∷ codes "a b" ∷ codes "notes" ∷ [])
      list_notes (codes "a b" ∷ [])

-- GET /api/map?min_lat=50&max_lat=60&min_lon=0&max_lon=5
abbrev get_the_map : HttpRequest
get_the_map = record (request_to "GET" (codes "api" ∷ codes "map" ∷ [])) {
  query = λ name.
      if name == "min_lat"
      then "50"
      else if name == "max_lat"
      then "60"
      else if name == "min_lon"
      then "0"
      else if name == "max_lon"
      then "5"
      else "";
}

abbrev seen_box : BBox Fixed
seen_box = record {
  min_lat = degrees (pos 50) 0;
  max_lat = degrees (pos 60) 0;
  min_lon = degrees (pos 0) 0;
  max_lon = degrees (pos 5) 0;
}

serve_http_shown_example :
    let (answer, st, db) =
      serve_http {F = Fixed} (λ s. s) default_config post_a_sighting 60_000_000_000 idle town in
    let (answer', st', db') =
      serve_http {F = Fixed} (λ s. s) default_config get_the_map 60_500_000_000 st db in
    (ms : List (MapMarker Fixed)) × (m : MapMarker Fixed) × (answer
      ≡ answered (write_json 201 (created_id m.sighting_id)))
    × (answer' ≡ answered (write_json 200 (markers ms)))
    × In m ms
    × (m.latest_observed_at ≡ 60)
    × (m.medium ≡ "unknown")
    × (m.message ≡ "js")
    × (m.height ≡ "unknown")
unfolding serve_http opaque_user_id has_permission require insert_sighting ensure_location
    insert_location existence insert_at_location insert_sighting_row parse_bbox include_insincere
    insincerity include_missing rejection parse_since
serve_http_shown_example =
    serve_http_shown (λ s. s) default_config post_a_sighting get_the_map 60_000_000_000
      60_000_000_000 60_500_000_000 idle town (seen 60_000_000_000 bob) (seen 60_500_000_000 bob)
      (form "sighted") seen_box refl refl (refl, refl) refl refl refl refl (inr (refl, refl))
      (omega arith, (omega arith, tt)) refl refl (refl, refl) refl refl (omega arith) refl refl
      (refl, tt)

-- GET /api/map without an identity
abbrev anonymous : HttpRequest
anonymous = record get_the_map { headers = λ name. "" }

serve_http_unauthenticated_example :
    serve_http {F = Fixed} (λ s. s) default_config anonymous 60_000_000_000 idle town
    ≡ (answered (http_error 401 "unauthenticated: missing identity header"), idle, town)
serve_http_unauthenticated_example =
    serve_http_unauthenticated (λ s. s) default_config anonymous 60_000_000_000 idle town refl
      (λ h m. refl) refl

serve_http-HasPrivilegesOf_example :
    HasPrivilegesOf town
      (serve_http (λ s. s) default_config post_a_sighting 60_000_000_000 idle town).2
serve_http-HasPrivilegesOf_example =
    serve_http-HasPrivilegesOf (λ s. s) default_config post_a_sighting 60_000_000_000 idle town

-- Bob gives himself a name.
post_me_renames_example :
    let (answer, db') = route {F = Fixed} (post_me (λ name. "") (some (some "Bob"))) 60 bob town in
    (called : String) × IsGiven (λ name. "") (some "Bob") called
    × (answer ≡ write_json 200 (user (record bob { called = called })))
    × ((o : String)
        → user_with_opaque o db'.users ≡ (
            if "bob-id" == o
            then some (record bob { called = called })
            else user_with_opaque o town.users))
    × (db' ≡ record town { users = db'.users })
post_me_renames_example = post_me_renames (λ name. "") (some "Bob") 60 bob town town-IsValid refl
