-- ===== src/Http/Serve/Public.antt =====
-- What the authentication lets pass without a user.
use reporting_and_mapping.Prelude.{
  ◌≡◌, refl, ◌⊎◌, inl, inr, Bool, true, false, String, Option, none, some, List, [], ◌∷◌, ◌++◌,
  ◌&&◌, not, eqb, Bool-cases, Option-cases, all, if◌then◌else◌, arith,
}
use reporting_and_mapping.Platform.{Float64, Sqlite}
use reporting_and_mapping.Geo.{PlusCodes}
use reporting_and_mapping.Identity.{Crypto}
use reporting_and_mapping.Db.{Time, Database}
use reporting_and_mapping.Store.{Store}
use reporting_and_mapping.Importer.Text.{Text, codes, has_prefix, has_prefix_rest, join}
use reporting_and_mapping.Api.Params.{Times}
use reporting_and_mapping.Api.Auth.{Config}
use reporting_and_mapping.Http.{
  HttpRequest, HttpResponse, redirected, file, decoded, path, is_clean, same,
}
use reporting_and_mapping.Http.Mux.{
  Pattern, find_route, routes, matches_method, match_parts, match_pattern, find_pattern,
}
use reporting_and_mapping.Http.Serve.{
  Decoders, is_public, static_path, serve_mux, authenticate, serve_http,
}

-- A prefix without a slash is a prefix of the first segment.
first_segment :
    (p s rest : Text)
    → all (λ c. not (eqb 47 c)) p ≡ true
    → has_prefix (s ++ 47 ∷ rest) p ≡ true
    → has_prefix s p ≡ true
first_segment [] [] rest l h = refl
first_segment [] (c ∷ cs) rest l h = refl
first_segment (p ∷ ps) [] rest l h = ground arith
first_segment (p ∷ ps) (c ∷ cs) rest l h =
    let k = first_segment ps cs rest (ground arith) (ground arith) in ground arith

abbrev is_none : Option (List Text) → Bool
is_none none = true
is_none (some values) = false

match_pattern-none :
    (p : Pattern) (method : Text) (segments : List Text)
    → is_none (match_parts p.parts segments) ≡ true
    → match_pattern method segments p ≡ none
match_pattern-none p method segments h = elim (Option-cases (match_parts p.parts segments)) [
  | inl e ↦ rw e (either none (matches_method p.method method))
  | inr (values, e) ↦ let k = rw e at h in cc
]
  where
    either : (o : Option (List Text)) (b : Bool) → (if b then o else o) ≡ o
    either o true = refl
    either o false = refl

no_match :
    (ps : List Pattern) (method : Text) (segments : List Text)
    → all (λ p. is_none (match_parts p.parts segments)) ps ≡ true
    → find_pattern ps method segments ≡ none
no_match [] method segments h = refl
no_match (p ∷ ps) method segments h =
    let here_none = match_pattern-none p method segments (ground arith) in
    rw (find_pattern, here_none) (no_match ps method segments (ground arith))

-- No pattern begins with a segment that begins with "public-".
unmatched :
    (post : Text) (ts : List Text) (method : Text)
    → find_route method ((codes "public-" ++ post) ∷ ts) ≡ none
unfolding find_route routes
unmatched post ts method = no_match routes method ((codes "public-" ++ post) ∷ ts) refl

public_unmatched :
    (method : Text) (segments : List Text)
    → has_prefix (47 ∷ join 47 segments) (codes "/public-") ≡ true
    → find_route method segments ≡ none
public_unmatched method [] h = cc
public_unmatched method (s ∷ []) h =
    let (post, e) = has_prefix_rest s (codes "public-") h in rw e (unmatched post [] method)
public_unmatched method (s ∷ t ∷ ts) h =
    let first = first_segment (codes "public-") s (join 47 (t ∷ ts)) refl h in
    let (post, e) = has_prefix_rest s (codes "public-") first in
    rw e (unmatched post (t ∷ ts) method)

module _ {F : Type 0} ⦃fl : Float64 F⦄ ⦃ts : Times⦄ ⦃sq : Sqlite F⦄ ⦃pc : PlusCodes F⦄
    ⦃de : Decoders F⦄ ⦃cr : Crypto⦄ where
  -- What is not an endpoint: a redirect or a file.
  abbrev pub IsStatic : HttpRequest → HttpResponse F → Type 0
  IsStatic req r = (r ≡ redirected (de.clean req.segments)) ⊎ (r ≡ file (static_path (path req)))

  pub serve_mux_public :
      (req : HttpRequest) (now : Time) (db : Database F)
      → is_public req ≡ true
      → (r : HttpResponse F) × (serve_mux none req now db ≡ (some r, db)) × IsStatic req r
  unfolding serve_mux
  serve_mux_public req now db h =
      let e = public_unmatched req.method (decoded req) h in
      elim (Bool-cases (not (same req.method (codes "CONNECT")) && not (is_clean req.segments))) [
        | inl k ↦ (redirected (de.clean req.segments), rw k refl, inl refl)
        | inr k ↦ (file (static_path (path req)), rw (k, e) refl, inr refl)
      ]

  -- A request under "/public-" needs no identity, and gets no further than the static files: the
  -- answer is a redirect or a file, and neither the database nor the store's cache is touched.
  pub serve_http_public :
      (trim : String → String) (cfg : Config) (req : HttpRequest) (now : Time) (st : Store)
      (db : Database F)
      → is_public req ≡ true
      → (r : HttpResponse F) × (serve_http trim cfg req now st db ≡ (r, st, db)) × IsStatic req r
  unfolding serve_http authenticate
  serve_http_public trim cfg req now st db h =
      let (r, e, static) = serve_mux_public req now db h in (r, rw (h, e) refl, static)
