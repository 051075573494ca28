-- ===== src/Http/Serve/Identified.antt =====
-- A request of a user who is known by its headers: what resolving the user changes, and what the
-- endpoint's handler then does.
use reporting_and_mapping.Prelude.{
  ◌≡◌, ap, ◌∙◌, inl, inr, true, false, String, some, List, ◌∷◌, map, ◌==◌, eqb, any_of_In,
  find_sound, eqb_refl, eq_refl, arith, none, sym,
}
use reporting_and_mapping.Platform.{Float64, Sqlite}
use reporting_and_mapping.Geo.{PlusCodes}
use reporting_and_mapping.Identity.{Crypto, opaque_user_id}
use reporting_and_mapping.Db.{Time, UserRow, Database, has_user}
use reporting_and_mapping.Db.Monad.{Result, ok, err}
use reporting_and_mapping.Db.Invariant.Rules.{Result-cases}
use reporting_and_mapping.Store.{Store}
use reporting_and_mapping.Store.Users.{
  user_with_opaque, hash_seed, upsert_user, resolve_with, resolve_user,
}
use reporting_and_mapping.Store.Users.Resolve.{upsert_user-IsUpserted}
use reporting_and_mapping.Importer.Text.{Text, codes, join, has_prefix}
use reporting_and_mapping.Api.Params.{Times}
use reporting_and_mapping.Api.Requests.{route}
use reporting_and_mapping.Api.Auth.{Config, extract_subject}
use reporting_and_mapping.Http.{HttpRequest, answered, decoded, unescape, is_clean}
use reporting_and_mapping.Http.Mux.{Endpoint, find_route}
use reporting_and_mapping.Http.Serve.{
  Decoders, is_public, request_of, serve_http, authenticate, recovered,
}
use reporting_and_mapping.Http.Serve.Handled.{handle_answers, serve_mux_endpoint}

module _ {F : Type 0} ⦃sq : Sqlite F⦄ ⦃cr : Crypto⦄ where
  resolve_with_frame :
      (seed : Result String) (subject : String) (now : Time) (db : Database F)
      → (resolve_with seed subject now db).1
        ≡ record db { users = (resolve_with seed subject now db).1.users }
  unfolding resolve_with upsert_user
  resolve_with_frame seed subject now db = ground arith

  -- Resolving a user changes nothing but the users.
  pub resolve_user_frame :
      (st : Store) (subject : String) (now : Time) (db : Database F)
      → (resolve_user st subject now db).2
        ≡ record db { users = (resolve_user st subject now db).2.users }
  unfolding resolve_user
  resolve_user_frame st subject now db = resolve_with_frame (hash_seed st db).0 subject now db

  upsert_user_registers :
      (o : String) (now : Time) (db : Database F) (u : UserRow)
      → (upsert_user o now db).0 ≡ ok u
      → has_user (upsert_user o now db).1 u.id ≡ true
  upsert_user_registers o now db u h =
      let (w, e, up) = upsert_user-IsUpserted o now db in
      let here_is : user_with_opaque o (upsert_user o now db).1.users ≡ some w =
        (let k = rw (eq_refl o) at (up.lookup o) in k) in
      let (same, m) = find_sound (λ (x : UserRow). x.opaque_id == o) _ here_is in
      let is : u ≡ w = ground arith in
      rw is (any_of_In (λ (x : UserRow). eqb x.id w.id) m (eqb_refl w.id))

  resolve_with_registers :
      (seed : Result String) (subject : String) (now : Time) (db : Database F) (u : UserRow)
      → (resolve_with seed subject now db).0 ≡ ok u
      → has_user (resolve_with seed subject now db).1 u.id ≡ true
  unfolding resolve_with
  resolve_with_registers (err x) subject now db u h = cc
  resolve_with_registers (ok seed) subject now db u h =
      elim (Result-cases (opaque_user_id seed subject)) [
        | inr (x, e) ↦ let k = rw (e, resolve_with) at h in cc
        | inl (o, e) ↦
            rw (e, resolve_with)
              (upsert_user_registers o now db u (let k = rw (e, resolve_with) at h in k))
      ]

  pub resolve_user_registers :
      (st : Store) (subject : String) (now : Time) (db : Database F) (u : UserRow)
      → (resolve_user st subject now db).0 ≡ ok u
      → has_user (resolve_user st subject now db).2 u.id ≡ true
  unfolding resolve_user
  resolve_user_registers st subject now db u h =
      resolve_with_registers (hash_seed st db).0 subject now db u h

  upsert_user_newcomer :
      (o : String) (now : Time) (db : Database F) (u : UserRow)
      → (upsert_user o now db).0 ≡ ok u
      → user_with_opaque u.opaque_id db.users ≡ none
      → u.role ≡ "reporter"
  upsert_user_newcomer o now db u h fresh =
      let (w, e, up) = upsert_user-IsUpserted o now db in
      let is : u ≡ w = ground arith in
      let nobody : user_with_opaque o db.users ≡ none =
        ap (λ x. user_with_opaque x db.users)
          (sym up.identity ∙ sym (ap (λ (x : UserRow). x.opaque_id) is))
        ∙ fresh in
      let origin = (let k = rw nobody at up.origin in k) in
      ap (λ (x : UserRow). x.role) is ∙ origin.0

  resolve_with_newcomer :
      (seed : Result String) (subject : String) (now : Time) (db : Database F) (u : UserRow)
      → (resolve_with seed subject now db).0 ≡ ok u
      → user_with_opaque u.opaque_id db.users ≡ none
      → u.role ≡ "reporter"
  unfolding resolve_with
  resolve_with_newcomer (err x) subject now db u h fresh = cc
  resolve_with_newcomer (ok seed) subject now db u h fresh =
      elim (Result-cases (opaque_user_id seed subject)) [
        | inr (x, e) ↦ let k = rw (e, resolve_with) at h in cc
        | inl (o, e) ↦
            upsert_user_newcomer o now db u (let k = rw (e, resolve_with) at h in k) fresh
      ]

  -- A user who resolves and was not there is a reporter.
  pub resolve_user_newcomer :
      (st : Store) (subject : String) (now : Time) (db : Database F) (u : UserRow)
      → (resolve_user st subject now db).0 ≡ ok u
      → user_with_opaque u.opaque_id db.users ≡ none
      → u.role ≡ "reporter"
  unfolding resolve_user
  resolve_user_newcomer st subject now db u h fresh =
      resolve_with_newcomer (hash_seed st db).0 subject now db u h fresh

module _ {F : Type 0} ⦃fl : Float64 F⦄ ⦃ts : Times⦄ ⦃sq : Sqlite F⦄ ⦃pc : PlusCodes F⦄
    ⦃de : Decoders F⦄ ⦃cr : Crypto⦄ where
  -- The headers name a subject, and it resolves to the user.
  abbrev pub IsIdentified :
      (String → String) → Config → HttpRequest → Time → Store → Database F → UserRow → Type 0
  IsIdentified trim cfg req now st db u =
      let subject = extract_subject trim req.headers cfg.identity_headers cfg.dev_subject in
      ((subject == "") ≡ false) × ((resolve_user st subject now db).0 ≡ ok u)

  -- The store and the database once the user is resolved.
  abbrev pub resolved :
      (String → String) → Config → HttpRequest → Time → Store → Database F → Store × Database F
  resolved trim cfg req now st db =
      let subject = extract_subject trim req.headers cfg.identity_headers cfg.dev_subject in
      let (r, st', db') = resolve_user st subject now db in (st', db')

  pub serve_http_identified :
      (trim : String → String) (cfg : Config) (req : HttpRequest) (now : Time) (st : Store)
      (db : Database F) (u : UserRow) (e : Endpoint) (values segments : List Text) (method : Text)
      → req.method ≡ method
      → req.segments ≡ segments
      → has_prefix (47 ∷ join 47 (map unescape segments)) (codes "/public-") ≡ false
      → is_clean segments ≡ true
      → find_route method (map unescape segments) ≡ some (e, values)
      → IsIdentified trim cfg req now st db u
      → let (st', d) = resolved trim cfg req now st db in
        let (a, d') = route (request_of e values req) now u d in
        serve_http trim cfg req now st db ≡ (answered a, st', d')
  unfolding serve_http authenticate
  serve_http_identified trim cfg req now st db u e values segments method m s p c r (k, f) =
      let public : is_public req ≡ false =
        ap (λ x. has_prefix (47 ∷ join 47 (map unescape x)) (codes "/public-")) s ∙ p in
      let routed : find_route req.method (decoded req) ≡ some (e, values) =
        ap (λ x. find_route x (decoded req)) m
        ∙ ap (λ x. find_route method (map unescape x)) s
        ∙ r in
      let subject = extract_subject trim req.headers cfg.identity_headers cfg.dev_subject in
      let d = (resolve_user st subject now db).2 in
      let given = request_of e values req in
      let sent = serve_mux_endpoint (some u) req now d e values (ap is_clean s ∙ c) routed in
      let answers = handle_answers u given now d in
      rw (public, k, f, sent)
        (ap (λ x. (recovered x.0, (resolve_user st subject now db).1, x.1)) answers)
