-- ===== src/Http/Serve/Roles.antt =====
-- What no request can give: roles and permissions.
use reporting_and_mapping.Prelude.{refl, inl, String}
use reporting_and_mapping.Platform.{Float64, Sqlite}
use reporting_and_mapping.Geo.{PlusCodes}
use reporting_and_mapping.Identity.{Crypto}
use reporting_and_mapping.Db.{Time, Database}
use reporting_and_mapping.Store.{Store}
use reporting_and_mapping.Store.Users.{hash_seed, resolve_user}
use reporting_and_mapping.Store.Users.Roles.{
  HasPrivilegesOf, set_user_called-GrantsNothing, resolve_with-GrantsNothing,
  insert_location-GrantsNothing, insert_sighting-GrantsNothing, set_insincere-GrantsNothing,
  add_note-GrantsNothing,
}
use reporting_and_mapping.Store.Sightings.{insert_canonical}
use reporting_and_mapping.Api.Params.{Times}
use reporting_and_mapping.Api.Requests.Effects.{IsPreserved}
use reporting_and_mapping.Api.Auth.{Config}
use reporting_and_mapping.Http.{HttpRequest}
use reporting_and_mapping.Http.Serve.{Decoders, serve_http}
use reporting_and_mapping.Http.Serve.Preserved.{serve_http-preserves}

module _ {F : Type 0} ⦃fl : Float64 F⦄ ⦃ts : Times⦄ ⦃sq : Sqlite F⦄ ⦃pc : PlusCodes F⦄
    ⦃de : Decoders F⦄ ⦃cr : Crypto⦄ where
  HasPrivilegesOf-IsPreserved : (old : Database F) → IsPreserved (HasPrivilegesOf old)
  unfolding insert_canonical
  HasPrivilegesOf-IsPreserved old = record {
    called = λ i c. set_user_called-GrantsNothing i c old;
    sighting = λ i. insert_sighting-GrantsNothing i old;
    canonical = λ i lat lon now. insert_location-GrantsNothing _ old;
    insincere = λ i o b now. set_insincere-GrantsNothing i o b now old;
    note = λ i o n now. add_note-GrantsNothing i o n now old;
  }

  -- No HTTP request, whoever sends it, changes what a role permits or which role a user has: each
  -- opaque id has the role that it had, or had none and belongs to a new reporter.
  pub serve_http-HasPrivilegesOf :
      (trim : String → String) (cfg : Config) (req : HttpRequest) (now : Time) (st : Store)
      (db : Database F)
      → HasPrivilegesOf db (serve_http trim cfg req now st db).2
  unfolding resolve_user
  serve_http-HasPrivilegesOf trim cfg req now st db =
      serve_http-preserves (HasPrivilegesOf db) (HasPrivilegesOf-IsPreserved db)
        (λ st subject now d. resolve_with-GrantsNothing (hash_seed st d).0 subject now db d) trim
        cfg req now st db (refl, λ o. inl refl)
