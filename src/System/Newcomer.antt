-- ===== src/System/Newcomer.antt =====
-- From the start of the server to the first report of somebody new.
use reporting_and_mapping.Prelude.{
  ℕ, ◌≡◌, refl, sym, ap, ◌∙◌, ◌==◌, true, String, Option, none, some, List, [], ◌∷◌,
}
use mathlib.Core.Path.{subst}
use reporting_and_mapping.Platform.{Float64, Sqlite}
use reporting_and_mapping.Geo.{PlusCodes}
use reporting_and_mapping.Identity.{Crypto}
use reporting_and_mapping.Db.{Time, UserRow, Database}
use reporting_and_mapping.Db.Monad.{ok}
use reporting_and_mapping.Startup.{default_role_permissions}
use reporting_and_mapping.Startup.Restart.{open_database}
use reporting_and_mapping.Store.{Store}
use reporting_and_mapping.Store.Users.{user_with_opaque, has_permission, resolve_user}
use reporting_and_mapping.Store.Queries.{bool_to_int}
use reporting_and_mapping.Store.Sightings.{insert_sighting}
use reporting_and_mapping.Store.Sightings.Recorded.{
  IsPlaceable, IsRecorded, insert_sighting-IsRecorded,
}
use reporting_and_mapping.RoleTool.Granted.{open_database-granted}
use reporting_and_mapping.Importer.Text.{codes}
use reporting_and_mapping.Api.{created_id, write_json}
use reporting_and_mapping.Api.Params.{Times}
use reporting_and_mapping.Api.Contribute.{SightingBody, rejection, observed_time, input_of}
use reporting_and_mapping.Api.Requests.Report.{is_transpired-IsReportable, rejection-none}
use reporting_and_mapping.Api.Auth.{Config, extract_subject}
use reporting_and_mapping.Http.{HttpRequest, answered}
use reporting_and_mapping.Http.Serve.{Decoders, serve_http}
use reporting_and_mapping.Http.Serve.Identified.{
  IsIdentified, resolve_user_frame, resolve_user_registers, resolve_user_newcomer,
}
use reporting_and_mapping.Http.Serve.Answered.{serve_http_posts}

module _ {F : Type 0} ⦃fl : Float64 F⦄ ⦃ts : Times⦄ ⦃sq : Sqlite F⦄ ⦃pc : PlusCodes F⦄
    ⦃de : Decoders F⦄ ⦃cr : Crypto⦄ where
  -- Once the server has started with the default permissions, whatever was in the database before,
  -- somebody who is not registered yet may report at once: a body that passes the checks and that can
  -- be placed is answered 201 with the id of the one sighting that it adds, which has the report's
  -- content and is linked to a location at the reported place.
  pub newcomer_reports :
      (random : Option (List ℕ)) (opening now observed : Time) (db : Database F)
      (trim : String → String) (cfg : Config) (post : HttpRequest) (u : UserRow)
      (b : SightingBody F)
      → let (r, db') = open_database random default_role_permissions opening db in
        let st : Store = record { seed = none } in
        r ≡ ok tt
        → post.method ≡ codes "POST"
        → post.segments ≡ codes "api" ∷ codes "sightings" ∷ []
        → IsIdentified trim cfg post now st db' u
        → user_with_opaque u.opaque_id db'.users ≡ none
        → de.sighting post.body ≡ some b
        → rejection b ≡ none
        → observed_time b.observed_at now ≡ some observed
        → IsPlaceable (input_of u b observed) db'
        → let (answer, st', db'') = serve_http trim cfg post now st db' in
          (n : ℕ) × (answer ≡ answered (write_json 201 (created_id n)))
          × IsRecorded
              (input_of u b observed)
              (bool_to_int (b.transpired == "sighted"))
              db'.sightings
              db''
              n
  unfolding has_permission default_role_permissions
  newcomer_reports random opening now observed db trim cfg post u b opened pm ps pu fresh body
        passes at placeable =
      let st : Store = record { seed = none } in
      let db' : Database F = (open_database random default_role_permissions opening db).1 in
      let subject = extract_subject trim post.headers cfg.identity_headers cfg.dev_subject in
      let d : Database F = (resolve_user st subject now db').2 in
      let frame = resolve_user_frame st subject now db' in
      let role = resolve_user_newcomer st subject now db' u pu.1 fresh in
      let granted : has_permission db' "reporter" "sight" ≡ true =
        open_database-granted random default_role_permissions opening db "reporter" "sight" opened
          refl in
      let permitted : has_permission d u.role "sight" ≡ true =
        ap (λ x. has_permission x u.role "sight") frame
        ∙ ap (λ x. has_permission db' x "sight") role
        ∙ granted in
      let i = input_of u b observed in
      let (n, gives, rec, kept) =
        insert_sighting-IsRecorded i d (resolve_user_registers st subject now db' u pu.1)
          (is_transpired-IsReportable b.transpired (rejection-none b passes))
          (subst (IsPlaceable i) (sym frame) placeable) in
      let served =
        serve_http_posts trim cfg post now observed st db' u b n pm ps pu permitted body passes at
          gives in
      let k = bool_to_int (b.transpired == "sighted") in
      let same : d.sightings ≡ db'.sightings = ap (λ (x : Database F). x.sightings) frame in
      let added : IsRecorded i k db'.sightings (insert_sighting i d).1 n =
        subst (λ ss. IsRecorded i k ss (insert_sighting i d).1 n) same rec in
      (
        n,
        ap (λ r. r.0) served,
        subst (λ x. IsRecorded i k db'.sightings x n) (sym (ap (λ r. r.2) served)) added,
      )
