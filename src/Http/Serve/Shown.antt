-- ===== src/Http/Serve/Shown.antt =====
-- From a report over HTTP to the map over HTTP.
use reporting_and_mapping.Prelude.{
  ◌≤◌, ◌<◌, ◌≡◌, sym, ap, ◌∙◌, true, String, none, some, List, [], ◌∷◌, ◌==◌, ◌||◌, In, rows_where,
  All, Bool,
}
use mathlib.Core.Path.{subst}
use reporting_and_mapping.Prelude.Int.{pos, leb_ℤ}
use reporting_and_mapping.Platform.{Float64, Sqlite}
use reporting_and_mapping.Geo.{BBox, PlusCodes, in_box}
use reporting_and_mapping.Identity.{Crypto}
use reporting_and_mapping.Db.{Time, rfc3339, UserRow, LocationRow, SightingRow, Database, has_user}
use reporting_and_mapping.Db.Monad.{ok}
use reporting_and_mapping.Store.{Store}
use reporting_and_mapping.Store.Users.{has_permission}
use reporting_and_mapping.Store.Reputation.{insincerity}
use reporting_and_mapping.Store.Sightings.{is_at, insert_sighting}
use reporting_and_mapping.Store.Sightings.Recorded.{IsPlaceable, insert_sighting-IsRecorded}
use reporting_and_mapping.Store.Mapping.{MapMarker, map_data}
use reporting_and_mapping.Store.Mapping.Visible.{map_data-insert_sighting}
use reporting_and_mapping.Importer.Text.{codes}
use reporting_and_mapping.Api.{created_id, markers, write_json}
use reporting_and_mapping.Api.Params.{
  Times, parse_bbox, parse_since, include_insincere, include_missing,
}
use reporting_and_mapping.Api.Contribute.{SightingBody, rejection, observed_time, input_of}
use reporting_and_mapping.Api.Requests.Report.{is_transpired-IsReportable, rejection-none}
use reporting_and_mapping.Api.Auth.{Config, extract_subject}
use reporting_and_mapping.Http.{HttpRequest, answered}
use reporting_and_mapping.Http.Serve.{Decoders, serve_http}
use reporting_and_mapping.Http.Serve.Identified.{
  IsIdentified, resolved, resolve_user_frame, resolve_user_registers,
}
use reporting_and_mapping.Store.Sightings.{SightingInput}
use reporting_and_mapping.Store.Sightings.Recorded.{IsReportable}
use reporting_and_mapping.Http.Serve.Answered.{serve_http_posts, serve_http_maps}

module _ {F : Type 0} ⦃fl : Float64 F⦄ ⦃sq : Sqlite F⦄ ⦃pc : PlusCodes F⦄ where
  -- The map after a report, where only the users have changed before it.
  map_data-after_users :
      (i : SightingInput F) (since : Time) (inc missing : Bool) (box : BBox F) (db d : Database F)
      → d ≡ record db { users = d.users }
      → has_user d i.user_id ≡ true
      → IsReportable i.transpired
      → IsPlaceable i db
      → (missing || i.transpired == "sighted") ≡ true
      → rfc3339 since ≤ rfc3339 i.observed_at
      → (inc || leb_ℤ (insincerity db i.user_id) (pos 0)) ≡ true
      → All (λ (s : SightingRow). s.observed_at < rfc3339 i.observed_at) db.sightings
      → All
          (λ (l : LocationRow F). in_box box l.lat l.lon ≡ true)
          (rows_where (is_at i.lat i.lon) (insert_sighting i d).1.locations)
      → (ms : List (MapMarker F)) × (m : MapMarker F) × (map_data since inc missing
            (some box)
            (insert_sighting i d).1
          ≡ some ms)
        × In m ms
        × ((insert_sighting i d).0 ≡ ok m.sighting_id)
        × (m.latest_observed_at ≡ rfc3339 i.observed_at)
        × (m.medium ≡ i.medium)
        × (m.message ≡ i.message)
        × (m.height ≡ i.height)
  unfolding insincerity
  map_data-after_users i since inc missing box db d frame user reportable placeable shown recent
        sincere latest inside =
      let latest' =
        subst
          (λ (x : Database F).
            All (λ (r : SightingRow). r.observed_at < rfc3339 i.observed_at) x.sightings)
          (sym frame) latest in
      let (ms, m, found, among, is, at, medium, message, height, place) =
        map_data-insert_sighting i since inc missing box d user reportable
          (subst (IsPlaceable i) (sym frame) placeable) shown recent
          (ap (λ x. inc || leb_ℤ (insincerity x i.user_id) (pos 0)) frame ∙ sincere) latest'
          inside in
      (ms, m, found, among, is, at, medium, message, height)

module _ {F : Type 0} ⦃fl : Float64 F⦄ ⦃ts : Times⦄ ⦃sq : Sqlite F⦄ ⦃pc : PlusCodes F⦄
    ⦃de : Decoders F⦄ ⦃cr : Crypto⦄ where
  -- A report that a permitted user posts over HTTP, in a body that passes the checks, and that can be
  -- placed, is answered 201 with the id of a sighting, and GET /api/map, asked next by a user who may
  -- view, is answered 200 with a marker that shows this sighting, with what was reported: if the report
  -- is later than all sightings that are there and within the time that is asked for, its reporter is
  -- not insincere or insincere ones are asked for, the sign was sighted or missing ones are asked for,
  -- and every location at the place is in the box that is asked for.
  pub serve_http_shown :
      (trim : String → String) (cfg : Config) (post get : HttpRequest) (now observed later : Time)
      (st : Store) (db : Database F) (u v : UserRow) (b : SightingBody F) (box : BBox F)
      → let i = input_of u b observed in
        let (answer, st', db') = serve_http trim cfg post now st db in
        let (answer', st'', db'') = serve_http trim cfg get later st' db' in
        let since = parse_since get.query (fl.decimal (pos 90) 0) later in
        post.method ≡ codes "POST"
        → post.segments ≡ codes "api" ∷ codes "sightings" ∷ []
        → IsIdentified trim cfg post now st db u
        → has_permission db u.role "sight" ≡ true
        → de.sighting post.body ≡ some b
        → rejection b ≡ none
        → observed_time b.observed_at now ≡ some observed
        → IsPlaceable i db
        → All (λ (s : SightingRow). s.observed_at < rfc3339 observed) db.sightings
        → get.method ≡ codes "GET"
        → get.segments ≡ codes "api" ∷ codes "map" ∷ []
        → IsIdentified trim cfg get later st' db' v
        → has_permission db v.role "view" ≡ true
        → parse_bbox get.query ≡ some (some box)
        → rfc3339 since ≤ rfc3339 observed
        → (include_insincere get.query || leb_ℤ (insincerity db u.id) (pos 0)) ≡ true
        → (include_missing get.query || b.transpired == "sighted") ≡ true
        → All
            (λ (l : LocationRow F). in_box box l.lat l.lon ≡ true)
            (rows_where (is_at b.lat b.lon) db'.locations)
        → (ms : List (MapMarker F)) × (m : MapMarker F) × (answer
            ≡ answered (write_json 201 (created_id m.sighting_id)))
          × (answer' ≡ answered (write_json 200 (markers ms)))
          × In m ms
          × (m.latest_observed_at ≡ rfc3339 observed)
          × (m.medium ≡ i.medium)
          × (m.message ≡ i.message)
          × (m.height ≡ i.height)
  unfolding has_permission
  serve_http_shown trim cfg post get now observed later st db u v b box pm ps pu sight body passes
        at placeable latest gm gs gv view bounds recent sincere shown inside =
      let (st', d) = resolved trim cfg post now st db in
      let i = input_of u b observed in
      let frame =
        resolve_user_frame st
          (extract_subject trim post.headers cfg.identity_headers cfg.dev_subject) now db in
      let user : has_user d u.id ≡ true = resolve_user_registers st _ now db u pu.1 in
      let permitted : has_permission d u.role "sight" ≡ true =
        ap (λ x. has_permission x u.role "sight") frame ∙ sight in
      let reportable = is_transpired-IsReportable b.transpired (rejection-none b passes) in
      let placeable' : IsPlaceable i d = subst (IsPlaceable i) (sym frame) placeable in
      let (n, gives, rec, kept) = insert_sighting-IsRecorded i d user reportable placeable' in
      let posted =
        serve_http_posts trim cfg post now observed st db u b n pm ps pu permitted body passes at
          gives in
      let since = parse_since get.query (fl.decimal (pos 90) 0) later in
      let inside' =
        subst
          (λ r.
            All (λ (l : LocationRow F). in_box box l.lat l.lon ≡ true)
              (rows_where (is_at b.lat b.lon) r.2.locations))
          posted inside in
      let (ms, m, found, among, is, last, medium, message, height) =
        map_data-after_users i since (include_insincere get.query) (include_missing get.query) box
          db d frame user reportable placeable shown recent sincere latest inside' in
      let (answer, st₁, db') = serve_http trim cfg post now st db in
      let viewed : has_permission db' v.role "view" ≡ true =
        ap (λ r. has_permission r.2 v.role "view") posted
        ∙ ap (λ x. has_permission x v.role "view") kept
        ∙ ap (λ x. has_permission x v.role "view") frame
        ∙ view in
      let mapped =
        ap
          (λ r.
            map_data since (include_insincere get.query) (include_missing get.query) (some box) r.2)
          posted
        ∙ found in
      (
        ms,
        m,
        ap (λ r. r.0)
            (serve_http_posts trim cfg post now observed st db u b m.sighting_id pm ps pu permitted
              body passes at is),
        serve_http_maps trim cfg get later st₁ db' v box ms gm gs gv viewed bounds mapped,
        among,
        last,
        medium,
        message,
        height,
      )
