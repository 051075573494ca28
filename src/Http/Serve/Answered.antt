-- ===== src/Http/Serve/Answered.antt =====
-- What a report over HTTP and the map over HTTP are answered.
use reporting_and_mapping.Prelude.{ℕ, ◌≡◌, refl, ap, ◌∙◌, true, String, none, some, List, [], ◌∷◌}
use reporting_and_mapping.Prelude.Int.{pos}
use reporting_and_mapping.Platform.{Float64, Sqlite}
use reporting_and_mapping.Geo.{BBox, PlusCodes}
use reporting_and_mapping.Identity.{Crypto}
use reporting_and_mapping.Db.{Time, UserRow, Database}
use reporting_and_mapping.Db.Monad.{ok}
use reporting_and_mapping.Store.{Store}
use reporting_and_mapping.Store.Users.{has_permission}
use reporting_and_mapping.Store.Reputation.{insincerity}
use reporting_and_mapping.Store.Sightings.{insert_sighting}
use reporting_and_mapping.Store.Mapping.{MapMarker, marker_of, map_data}
use reporting_and_mapping.Importer.Text.{codes}
use reporting_and_mapping.Api.{created_id, markers, write_json, require, respond}
use reporting_and_mapping.Api.Params.{
  Times, parse_bbox, parse_since, include_insincere, include_missing, Query,
}
use reporting_and_mapping.Api.Contribute.{
  SightingBody, rejection, observed_time, input_of, create_sighting, handle_create_sighting,
  send_map, handle_map,
}
use reporting_and_mapping.Api.Requests.{route, post_sighting, get_map}
use reporting_and_mapping.Api.Auth.{Config, extract_subject}
use reporting_and_mapping.Http.{HttpRequest, answered}
use reporting_and_mapping.Http.Mux.{
  create_sighting as create_sighting_endpoint, map_view, routes, find_route,
}
use reporting_and_mapping.Http.Serve.{Decoders, request_of, serve_http}
use reporting_and_mapping.Http.Serve.Identified.{
  IsIdentified, resolved, resolve_user_frame, serve_http_identified,
}

module _ {F : Type 0} ⦃fl : Float64 F⦄ ⦃ts : Times⦄ ⦃sq : Sqlite F⦄ ⦃pc : PlusCodes F⦄ where
  route_post_sighting :
      (b : SightingBody F) (now observed : Time) (u : UserRow) (db : Database F) (n : ℕ)
      → has_permission db u.role "sight" ≡ true
      → rejection b ≡ none
      → observed_time b.observed_at now ≡ some observed
      → (insert_sighting (input_of u b observed) db).0 ≡ ok n
      → route (post_sighting (some b)) now u db
        ≡ (write_json 201 (created_id n), (insert_sighting (input_of u b observed) db).1)
  unfolding route handle_create_sighting require create_sighting
  route_post_sighting b now observed u db n permitted passes at gives =
      rw (permitted, create_sighting, passes, at, respond, gives) refl

  route_get_map :
      (q : Query) (now : Time) (v : UserRow) (db : Database F) (box : BBox F)
      (ms : List (MapMarker F))
      → has_permission db v.role "view" ≡ true
      → parse_bbox q ≡ some (some box)
      → map_data
          (parse_since q (fl.decimal (pos 90) 0) now)
          (include_insincere q)
          (include_missing q)
          (some box)
          db
        ≡ some ms
      → route (get_map q) now v db ≡ (write_json 200 (markers ms), db)
  unfolding route handle_map require
  route_get_map q now v db box ms permitted bounds shown =
      rw (permitted, send_map, bounds, shown) refl

module _ {F : Type 0} ⦃fl : Float64 F⦄ ⦃ts : Times⦄ ⦃sq : Sqlite F⦄ ⦃pc : PlusCodes F⦄
    ⦃de : Decoders F⦄ ⦃cr : Crypto⦄ where
  -- What a report over HTTP is answered, and what it leaves.
  pub serve_http_posts :
      (trim : String → String) (cfg : Config) (post : HttpRequest) (now observed : Time)
      (st : Store) (db : Database F) (u : UserRow) (b : SightingBody F) (n : ℕ)
      → let (st', d) = resolved trim cfg post now st db in
        post.method ≡ codes "POST"
        → post.segments ≡ codes "api" ∷ codes "sightings" ∷ []
        → IsIdentified trim cfg post now st db u
        → has_permission d u.role "sight" ≡ true
        → de.sighting post.body ≡ some b
        → rejection b ≡ none
        → observed_time b.observed_at now ≡ some observed
        → (insert_sighting (input_of u b observed) d).0 ≡ ok n
        → serve_http trim cfg post now st db ≡ (
          answered (write_json 201 (created_id n)),
          st',
          (insert_sighting (input_of u b observed) d).1,
        )
  unfolding find_route routes request_of
  serve_http_posts trim cfg post now observed st db u b n m s k sight body passes at gives =
      let (st', d) = resolved trim cfg post now st db in
      serve_http_identified trim cfg post now st db u create_sighting_endpoint [] _ _ m s refl refl
        refl k
      ∙ ap (λ x. let (a, d') = route (post_sighting x) now u d in (answered a, st', d')) body
      ∙ ap (λ x. (answered x.0, st', x.1))
          (route_post_sighting b now observed u d n sight passes at gives)

  -- What the map is answered over HTTP.
  pub serve_http_maps :
      (trim : String → String) (cfg : Config) (get : HttpRequest) (later : Time) (st : Store)
      (db : Database F) (v : UserRow) (box : BBox F) (ms : List (MapMarker F))
      → get.method ≡ codes "GET"
      → get.segments ≡ codes "api" ∷ codes "map" ∷ []
      → IsIdentified trim cfg get later st db v
      → has_permission db v.role "view" ≡ true
      → parse_bbox get.query ≡ some (some box)
      → map_data
          (parse_since get.query (fl.decimal (pos 90) 0) later)
          (include_insincere get.query)
          (include_missing get.query)
          (some box)
          db
        ≡ some ms
      → (serve_http trim cfg get later st db).0 ≡ answered (write_json 200 (markers ms))
  unfolding find_route routes request_of has_permission map_data marker_of insincerity
  serve_http_maps trim cfg get later st db v box ms m s k view bounds shown =
      let (st', d) = resolved trim cfg get later st db in
      let frame =
        resolve_user_frame st
          (extract_subject trim get.headers cfg.identity_headers cfg.dev_subject) later db in
      let permitted : has_permission d v.role "view" ≡ true =
        ap (λ x. has_permission x v.role "view") frame ∙ view in
      let same =
        ap
          (λ x.
            map_data (parse_since get.query (fl.decimal (pos 90) 0) later)
              (include_insincere get.query) (include_missing get.query) (some box) x)
          frame in
      ap (λ x. x.0)
        (serve_http_identified trim cfg get later st db v map_view [] _ _ m s refl refl refl k)
      ∙ ap (λ x. answered x.0)
          (route_get_map get.query later v d box ms permitted bounds (same ∙ shown))
