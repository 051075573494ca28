-- ===== src/Http.antt =====
-- HTTP requests as net/http hands them on, and the handler that cmd/server/main.go composes: panic
-- recovery around the authentication around the routes. The path of a request is the list of its
-- segments between slashes, as they are sent, percent-encoded.
pub mod Mux
pub mod Serve
use reporting_and_mapping.Prelude.{
  ℕ, ◌+◌, ◌-◌, ◌*◌, Bool, true, false, String, Option, none, some, List, [], ◌∷◌, ◌++◌, ◌&&◌, ◌||◌,
  not, eqb, leb, ltb, map, zero, suc, if◌then◌else◌,
}
use Prim.Native.Nat.{◌^◌}
use reporting_and_mapping.Prelude.Int.{ℤ, pos, negsuc}
use reporting_and_mapping.Importer.Text.{Text, codes, join, is_empty, has_prefix}
use reporting_and_mapping.Api.{Response}
use reporting_and_mapping.Api.Params.{Query}
use reporting_and_mapping.Api.Auth.{Headers}

pub record HttpRequest : Type 0 where
  pub method : Text
  pub segments : List Text
  pub query : Query
  pub headers : Headers
  pub body : Text

-- What the server sends: an answer, a redirect of the mux to a clean path, or what the file server has
-- for a path, be it a redirect of its own.
pub data HttpResponse (F : Type 0) : Type 0 where
  answered : Response F → HttpResponse F
  redirected : List Text → HttpResponse F
  file : Text → HttpResponse F

abbrev hex_value : ℕ → ℕ
hex_value c = if leb 97 c then c - 87 else if leb 65 c then c - 55 else c - 48

abbrev byte_at : Text → ℕ
byte_at (a ∷ b ∷ rest) = 16 * hex_value a + hex_value b
byte_at _ = 0

-- url.PathUnescape of an encoding that the parser of the request has accepted; `skip` characters
-- belong to the last escape.
abbrev unescape_from : ℕ → Text → Text
unescape_from skip [] = []
unescape_from (suc skip) (c ∷ cs) = unescape_from skip cs
unescape_from zero (c ∷ cs) = elim (eqb c 37) [
  | true ↦ byte_at cs ∷ unescape_from 2 cs
  | false ↦ c ∷ unescape_from 0 cs
]

abbrev pub unescape : Text → Text
unescape = unescape_from 0

-- The segments that the mux compares.
abbrev pub decoded : HttpRequest → List Text
decoded req = map unescape req.segments

-- r.URL.Path
abbrev pub path : HttpRequest → Text
path req = 47 ∷ join 47 (decoded req)

abbrev pub same : Text → Text → Bool
same [] [] = true
same (a ∷ as') (b ∷ bs) = eqb a b && same as' bs
same _ _ = false

abbrev pub is_dots : Text → Bool
is_dots s = same s (codes ".") || same s (codes "..")

-- net/http leaves the path as it is: it has no empty segment but at its end, and no dots.
abbrev pub is_clean : List Text → Bool
is_clean [] = true
is_clean (s ∷ []) = not (is_dots s)
is_clean (s ∷ t ∷ ts) = not (is_empty s) && not (is_dots s) && is_clean (t ∷ ts)

-- strconv.ParseInt(s, 10, 64)
abbrev digits_onto : ℕ → Text → Option ℕ
digits_onto n [] = some n
digits_onto n (c ∷ cs) =
    let rest = digits_onto (10 * n + (c - 48)) cs in if leb 48 c && leb c 57 then rest else none

abbrev magnitude : Text → Option ℕ
magnitude [] = none
magnitude (c ∷ cs) = digits_onto 0 (c ∷ cs)

abbrev positive : Option ℕ → Option ℤ
positive none = none
positive (some n) = if ltb n (2 ^ 63) then some (pos n) else none

abbrev negative : Option ℕ → Option ℤ
negative none = none
negative (some zero) = some (pos 0)
negative (some (suc n)) = if ltb n (2 ^ 63) then some (negsuc n) else none

unfoldable pub parse_int : Text → Option ℤ
parse_int [] = none
parse_int (c ∷ cs) =
    if eqb c 45
    then negative (magnitude cs)
    else if eqb c 43
    then positive (magnitude cs)
    else positive (magnitude (c ∷ cs))
