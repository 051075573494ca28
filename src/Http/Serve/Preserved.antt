-- ===== src/Http/Serve/Preserved.antt =====
-- What a request keeps true of the database, from the store's actions up to the composed handler.
use reporting_and_mapping.Prelude.{
  inl, inr, String, Option, none, some, List, ◌==◌, ◌&&◌, not, Bool-cases,
}
use reporting_and_mapping.Platform.{Float64, Sqlite}
use reporting_and_mapping.Geo.{PlusCodes}
use reporting_and_mapping.Identity.{Crypto}
use reporting_and_mapping.Db.{Time, UserRow, Database}
use reporting_and_mapping.Db.Invariant.Rules.{Result-cases}
use reporting_and_mapping.Store.{Store}
use reporting_and_mapping.Store.Users.{resolve_user}
use reporting_and_mapping.Importer.Text.{Text, codes}
use reporting_and_mapping.Api.Params.{Times}
use reporting_and_mapping.Api.Requests.Effects.{IsPreserved}
use reporting_and_mapping.Api.Requests.Preserved.{route-preserves}
use reporting_and_mapping.Api.Auth.{Config, extract_subject}
use reporting_and_mapping.Http.{HttpRequest, decoded, is_clean, same}
use reporting_and_mapping.Http.Mux.{Endpoint, find_route}
use reporting_and_mapping.Http.Serve.{
  Decoders, is_public, request_of, serve_match, serve_mux, authenticate, serve_http,
}

-- What the authentication keeps.
abbrev pub IsKeptByResolve :
    {F : Type 0} → ⦃sq : Sqlite F⦄ → ⦃cr : Crypto⦄ → (Database F → Type 0) → Type 0
IsKeptByResolve {F = F} P =
    (st : Store) (subject : String) (now : Time) (db : Database F)
    → P db
    → P (resolve_user st subject now db).2

module _ {F : Type 0} ⦃fl : Float64 F⦄ ⦃ts : Times⦄ ⦃sq : Sqlite F⦄ ⦃pc : PlusCodes F⦄
    ⦃de : Decoders F⦄ ⦃cr : Crypto⦄ (P : Database F → Type 0) (k : IsPreserved P) where
  serve_match-preserves :
      (u : Option UserRow) (req : HttpRequest) (now : Time) (m : Option (Endpoint × List Text))
      (db : Database F)
      → P db
      → P (serve_match u req now m db).1
  serve_match-preserves u req now none db h = h
  serve_match-preserves none req now (some (e, values)) db h = h
  serve_match-preserves (some u) req now (some (e, values)) db h =
      route-preserves P k (request_of e values req) now u db h

  serve_mux-preserves :
      (u : Option UserRow) (req : HttpRequest) (now : Time) (db : Database F)
      → P db
      → P (serve_mux u req now db).1
  unfolding serve_mux
  serve_mux-preserves u req now db h =
      elim (Bool-cases (not (same req.method (codes "CONNECT")) && not (is_clean req.segments))) [
        | inl e ↦ rw e h
        | inr e ↦ rw e (serve_match-preserves u req now (find_route req.method (decoded req)) db h)
      ]

  -- What resolving a user and every action of the store keep true of the database, every request
  -- does, whatever it is answered.
  pub serve_http-preserves :
      (resolve : IsKeptByResolve P) (trim : String → String) (cfg : Config) (req : HttpRequest)
      (now : Time) (st : Store) (db : Database F)
      → P db
      → P (serve_http trim cfg req now st db).2
  unfolding serve_http authenticate
  serve_http-preserves resolve trim cfg req now st db h =
      let subject = extract_subject trim req.headers cfg.identity_headers cfg.dev_subject in
      let d = (resolve_user st subject now db).2 in
      let resolved : P d = resolve st subject now db h in
      elim (Bool-cases (is_public req)) [
        | inl p ↦ rw p (serve_mux-preserves none req now db h)
        | inr p ↦ elim (Bool-cases (subject == "")) [
          | inl e ↦ rw (p, e) h
          | inr e ↦ elim (Result-cases (resolve_user st subject now db).0) [
            | inr (x, f) ↦ rw (p, e, f) resolved
            | inl (u, f) ↦ rw (p, e, f) (serve_mux-preserves (some u) req now d resolved)
          ]
        ]
      ]
