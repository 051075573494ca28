-- ===== src/Http/Mux.antt =====
-- Routes of internal/api/server.go: the patterns that http.ServeMux knows, and which one a request
-- matches. The pattern "/" matches what no other does: the static files.
pub mod Disjoint
use reporting_and_mapping.Prelude.{
  ℕ, Bool, true, false, String, Option, none, some, List, [], ◌∷◌, ◌++◌, ◌&&◌, ◌||◌, if◌then◌else◌,
}
use reporting_and_mapping.Importer.Text.{Text, codes}
use reporting_and_mapping.Http.{same}

-- A segment of a pattern: itself, or {name}.
pub data Part : Type 0 where
  literal : String → Part
  wildcard : Part

pub data Endpoint : Type 0 where
  me : Endpoint
  update_me : Endpoint
  list_sightings : Endpoint
  list_events : Endpoint
  create_sighting : Endpoint
  create_location : Endpoint
  location_history : Endpoint
  reconcile : Endpoint
  map_view : Endpoint
  audit_sightings : Endpoint
  list_flags : Endpoint
  set_flags : Endpoint
  flag_insincere : Endpoint
  add_note : Endpoint
  list_notes : Endpoint
  ping : Endpoint

pub record Pattern : Type 0 where
  pub method : String
  pub parts : List Part
  pub endpoint : Endpoint

abbrev of_user : String → List Part
of_user name = literal "api" ∷ literal "users" ∷ wildcard ∷ literal name ∷ []

unfoldable pub routes : List Pattern
routes =
    record { method = "GET"; parts = literal "api" ∷ literal "me" ∷ []; endpoint = me }
    ∷ record { method = "POST"; parts = literal "api" ∷ literal "me" ∷ []; endpoint = update_me }
    ∷ record {
      method = "GET";
      parts = literal "api" ∷ literal "sightings" ∷ [];
      endpoint = list_sightings;
    }
    ∷ record {
      method = "GET";
      parts = literal "api" ∷ literal "events" ∷ [];
      endpoint = list_events;
    }
    ∷ record {
      method = "POST";
      parts = literal "api" ∷ literal "sightings" ∷ [];
      endpoint = create_sighting;
    }
    ∷ record {
      method = "POST";
      parts = literal "api" ∷ literal "locations" ∷ [];
      endpoint = create_location;
    }
    ∷ record {
      method = "GET";
      parts = literal "api" ∷ literal "locations" ∷ wildcard ∷ literal "history" ∷ [];
      endpoint = location_history;
    }
    ∷ record {
      method = "POST";
      parts = literal "api" ∷ literal "reconciliations" ∷ [];
      endpoint = reconcile;
    }
    ∷ record { method = "GET"; parts = literal "api" ∷ literal "map" ∷ []; endpoint = map_view }
    ∷ record { method = "GET"; parts = of_user "sightings"; endpoint = audit_sightings }
    ∷ record { method = "GET"; parts = of_user "flags"; endpoint = list_flags }
    ∷ record { method = "POST"; parts = of_user "flags"; endpoint = set_flags }
    ∷ record { method = "POST"; parts = of_user "insincere"; endpoint = flag_insincere }
    ∷ record { method = "POST"; parts = of_user "notes"; endpoint = add_note }
    ∷ record { method = "GET"; parts = of_user "notes"; endpoint = list_notes }
    ∷ record { method = "GET"; parts = literal "ping" ∷ []; endpoint = ping }
    ∷ []

-- A pattern's method GET stands for HEAD too.
abbrev pub matches_method : String → Text → Bool
matches_method m method =
    same method (codes m) || same (codes m) (codes "GET") && same method (codes "HEAD")

-- The values of the wildcards.
abbrev pub match_parts : List Part → List Text → Option (List Text)
match_parts [] [] = some []
match_parts (literal s ∷ ps) (t ∷ ts) =
    let rest = match_parts ps ts in if same t (codes s) then rest else none
match_parts (wildcard ∷ ps) (t ∷ ts) = elim (match_parts ps ts) [
  | none ↦ none
  | some values ↦ some (t ∷ values)
]
match_parts _ _ = none

abbrev pub match_pattern : Text → List Text → Pattern → Option (List Text)
match_pattern method segments p =
    if matches_method p.method method then match_parts p.parts segments else none

-- Which pattern of a list matches; the mux registers no two that both do.
abbrev pub find_pattern : List Pattern → Text → List Text → Option (Endpoint × List Text)
find_pattern [] method segments = none
find_pattern (p ∷ ps) method segments =
    let rest = find_pattern ps method segments in
    elim (match_pattern method segments p) [ none ↦ rest | some values ↦ some (p.endpoint, values) ]

unfoldable pub find_route : Text → List Text → Option (Endpoint × List Text)
unfolding routes
find_route = find_pattern routes
