-- ===== src/Http/Serve/Handled.antt =====
-- Which requests are answered, and which are refused for lack of an identity.
use reporting_and_mapping.Prelude.{
  ◌≡◌, ◌≢◌, ap, sym, ◌∙◌, refl, inl, inr, Bool, true, false, String, Option, none, some, List, ◌==◌,
  ◌&&◌, not, Bool-cases, Option-cases, if◌then◌else◌,
}
use reporting_and_mapping.Platform.{Float64, Sqlite}
use reporting_and_mapping.Geo.{PlusCodes}
use reporting_and_mapping.Identity.{Crypto}
use reporting_and_mapping.Db.{Time, UserRow, Database}
use reporting_and_mapping.Db.Invariant.Rules.{Result-cases}
use reporting_and_mapping.Store.{Store}
use reporting_and_mapping.Store.Users.{resolve_user}
use reporting_and_mapping.Importer.Text.{Text, codes}
use reporting_and_mapping.Api.{http_error}
use reporting_and_mapping.Prelude.{In, eq_iff}
use reporting_and_mapping.Api.Params.{Times}
use reporting_and_mapping.Api.Requests.{Request, route}
use reporting_and_mapping.Api.Requests.Panics.{route-Answers}
use reporting_and_mapping.Api.Auth.{Config, extract_subject, extract_subject_nobody}
use reporting_and_mapping.Http.{HttpRequest, HttpResponse, answered, decoded, is_clean, same}
use reporting_and_mapping.Http.Mux.{Endpoint, find_route}
use reporting_and_mapping.Http.Serve.{
  Decoders, is_public, request_of, sent, handle, serve_mux, authenticate, serve_http,
}
use reporting_and_mapping.Http.Serve.Public.{serve_mux_public}

module _ {F : Type 0} ⦃fl : Float64 F⦄ ⦃ts : Times⦄ ⦃sq : Sqlite F⦄ ⦃pc : PlusCodes F⦄
    ⦃de : Decoders F⦄ ⦃cr : Crypto⦄ where
  -- The handler of an endpoint sends a response to a user.
  pub handle_answers :
      (u : UserRow) (r : Request F) (now : Time) (db : Database F)
      → handle (some u) r now db ≡ (let (a, db') = route r now u db in (some (answered a), db'))
  handle_answers u r now db = let e = route-Answers r now u db in rw (handle, sent, e) refl

  serve_mux_answers :
      (u : UserRow) (req : HttpRequest) (now : Time) (db : Database F)
      → (serve_mux (some u) req now db).0 ≢ none
  unfolding serve_mux
  serve_mux_answers u req now db h =
      elim (Bool-cases (not (same req.method (codes "CONNECT")) && not (is_clean req.segments))) [
        | inl k ↦ let e = rw k at h in cc
        | inr k ↦ elim (Option-cases (find_route req.method (decoded req))) [
          | inl e ↦ let g = rw (k, e) at h in cc
          | inr ((p, values), e) ↦
              let g = rw (k, e) at h in
              let r = request_of p values req in
              let wrong = sym (ap (λ x. x.0) (handle_answers u r now db)) ∙ g in cc
        ]
      ]

  -- No request makes a handler panic, whatever it is and whoever sends it. An endpoint that would
  -- dereference a user who is nil is never reached without one, since no pattern begins with the
  -- prefix that the authentication lets pass; and with a user no endpoint dereferences nil, since the
  -- map never gets a box that is nil.
  pub authenticate_answers :
      (trim : String → String) (cfg : Config) (req : HttpRequest) (now : Time) (st : Store)
      (db : Database F)
      → (authenticate trim cfg req now st db).0 ≢ none
  unfolding authenticate
  authenticate_answers trim cfg req now st db h =
      let subject = extract_subject trim req.headers cfg.identity_headers cfg.dev_subject in
      elim (Bool-cases (is_public req)) [
        | inl p ↦ let (r, e, static) = serve_mux_public req now db p in let g = rw (p, e) at h in cc
        | inr p ↦ elim (Bool-cases (subject == "")) [
          | inl e ↦ let g = rw (p, e) at h in cc
          | inr e ↦ elim (Result-cases (resolve_user st subject now db).0) [
            | inr (x, f) ↦ let g = rw (p, e, f) at h in cc
            | inl (u, f) ↦
                let g = rw (p, e, f) at h in
                serve_mux_answers u req now (resolve_user st subject now db).2 g
          ]
        ]
      ]

  -- The mux hands a request for an endpoint, with a clean path, to its handler.
  pub serve_mux_endpoint :
      (u : Option UserRow) (req : HttpRequest) (now : Time) (db : Database F) (e : Endpoint)
      (values : List Text)
      → is_clean req.segments ≡ true
      → find_route req.method (decoded req) ≡ some (e, values)
      → serve_mux u req now db ≡ handle u (request_of e values req) now db
  unfolding serve_mux
  serve_mux_endpoint u req now db e values c m =
      rw (c, m) (either _ _ (same req.method (codes "CONNECT")))
    where
      either :
          (x y : Option (HttpResponse F) × Database F) (b : Bool)
          → (if not b && false then y else x) ≡ x
      either x y true = refl
      either x y false = refl

  -- Without a header that has text in it, and without a development subject, a request outside
  -- "/public-" is answered 401, whatever its path, registers nobody and changes nothing.
  pub serve_http_unauthenticated :
      (trim : String → String) (cfg : Config) (req : HttpRequest) (now : Time) (st : Store)
      (db : Database F)
      → is_public req ≡ false
      → ((h : String) → In h cfg.identity_headers → trim (req.headers h) ≡ "")
      → cfg.dev_subject ≡ ""
      → serve_http trim cfg req now st db
        ≡ (answered (http_error 401 "unauthenticated: missing identity header"), st, db)
  unfolding serve_http authenticate
  serve_http_unauthenticated trim cfg req now st db p nobody dev =
      rw
        (
          p,
          (eq_iff _ "").1 (
              extract_subject_nobody trim req.headers cfg.identity_headers cfg.dev_subject nobody
                dev),
        )
        refl
