-- ===== src/Tests/Data.antt =====
-- A database with two users, one sign and its reports.
use reporting_and_mapping.Prelude.{
  ℕ, refl, true, String, none, some, List, [], ◌∷◌, ◌==◌, eqb, if◌then◌else◌,
}
use reporting_and_mapping.Prelude.Int.{pos}
use reporting_and_mapping.Platform.Fixed.{Fixed, degrees, fixed_floats}
use reporting_and_mapping.Geo.{PlusCodes, BBox}
use reporting_and_mapping.Identity.{Crypto, seed_config_key}
use reporting_and_mapping.Db.{UserRow, LocationRow, SightingRow, Database}
use reporting_and_mapping.Db.Invariant.{IsValid}
use reporting_and_mapping.Store.{Store}
use reporting_and_mapping.Store.Sightings.{SightingInput}
use reporting_and_mapping.Api.Params.{Times}
use reporting_and_mapping.Api.Contribute.{SightingBody}
use reporting_and_mapping.Importer.Text.{Text, codes}
use reporting_and_mapping.Http.{HttpRequest}
use reporting_and_mapping.Http.Serve.{Decoders}

-- The seed "seed" is decoded to one byte; each subject has its own digest.
abbrev digest_of : List ℕ → List ℕ
digest_of [] = 0 ∷ []
digest_of (n ∷ ns) = n ∷ []

abbrev text_of : List ℕ → String
text_of [] = ""
text_of (n ∷ ns) = if eqb n 1 then "ann-id" else if eqb n 2 then "bob-id" else "cyd-id"

instance abbrev pub toy_crypto : Crypto
toy_crypto = record {
  encode = text_of;
  decode = λ s. if s == "seed" then some (7 ∷ []) else none;
  hmac_sha256 = λ key message. digest_of message;
  utf8 = λ s. if s == "ann" then 1 ∷ [] else if s == "bob" then 2 ∷ [] else 3 ∷ [];
}

instance abbrev pub toy_codes : PlusCodes Fixed
toy_codes = record { encode = λ lat lon digits. "9C3W9QCJ+2VX" }

instance abbrev pub toy_times : Times
toy_times = record {
  parse_rfc3339 = λ s. if s == "1970-01-01T00:00:50Z" then some 50_000_000_000 else none;
}

abbrev pub ann : UserRow
ann = record {
  id = 1;
  opaque_id = "ann-id";
  role = "administrator";
  registered_at = 10;
  last_seen_at = 20;
  called = "";
}

abbrev pub bob : UserRow
bob = record {
  id = 2;
  opaque_id = "bob-id";
  role = "reporter";
  registered_at = 11;
  last_seen_at = 21;
  called = "";
}

abbrev pub corner : LocationRow Fixed
corner = record {
  id = 1;
  lat = degrees (pos 51_500_000) 6;
  lon = degrees (pos 120_000) 6;
  created_by = 1;
  created_at = 10;
}

abbrev pub sighting_at : ℕ → ℕ → String → ℕ → SightingRow
sighting_at i at transpired to_exist = record {
  id = i;
  reporter_id = 2;
  location_id = 1;
  observed_at = at;
  transpired = transpired;
  to_exist = to_exist;
  image_url = none;
  medium = "ink";
  message = "js";
  height = "7ft";
  description = "";
  external_id = none;
}

abbrev pub first_seen : SightingRow
first_seen = sighting_at 1 30 "sighted" 1

abbrev pub seen_later : SightingRow
seen_later = sighting_at 2 40 "sighted" 1

abbrev pub town : Database Fixed
town = record {
  config = record { key = seed_config_key; value = "seed"; updated_at = 5 } ∷ [];
  users = ann ∷ bob ∷ [];
  role_permissions = ("reporter", "sight") ∷ ("reporter", "view") ∷ ("administrator", "sight") ∷ [];
  locations = corner ∷ [];
  sightings = first_seen ∷ seen_later ∷ [];
  user_flags = [];
  reputation_notes = [];
  user_identities = none;
}

abbrev pub idle : Store
idle = record { seed = none }

abbrev pub report : Fixed → Fixed → SightingInput Fixed
report lat lon = record {
  user_id = 2;
  lat = lat;
  lon = lon;
  observed_at = 50_000_000_000;
  transpired = "sighted";
  to_exist = true;
  medium = "ink";
  message = "js";
  height = "7ft";
  description = "";
  location_id = none;
}

-- 7 and then 6 digits round 52.500000450 to 52.500001, 6 digits alone to 52.5.
abbrev pub unlucky : SightingInput Fixed
unlucky = report (degrees (pos 52_500_000_450) 9) (degrees (pos 120_000) 6)

abbrev pub new_place : SightingInput Fixed
new_place = report (degrees (pos 53) 0) (degrees (pos 4) 0)

abbrev pub around : BBox Fixed
around = record {
  min_lat = degrees (pos 51) 0;
  max_lat = degrees (pos 52) 0;
  min_lon = degrees (pos 0) 0;
  max_lon = degrees (pos 1) 0;
}

abbrev pub form : String → SightingBody Fixed
form transpired = record {
  lat = degrees (pos 53) 0;
  lon = degrees (pos 4) 0;
  observed_at = "";
  to_exist = true;
  transpired = transpired;
  medium = "";
  message = "js";
  height = "";
  location_id = none;
}

-- The town before opaque ids were derived: bob's subject is in a table, under another id.
abbrev pub legacy : Database Fixed
legacy = record town {
  users = ann ∷ record bob { opaque_id = "old-id" } ∷ [];
  user_identities = some ((2, "bob") ∷ []);
}

pub town-IsValid : IsValid town
town-IsValid = record {
  user_ids = (refl, (refl, tt));
  opaque_ids = (refl, (refl, tt));
  location_ids = (refl, tt);
  sighting_ids = (refl, (refl, tt));
  located = ((refl, refl), tt);
  reported = ((refl, refl), ((refl, refl), tt));
  flags = tt;
  notes = tt;
}

-- Every body says the same, and none is a flag.
instance abbrev pub toy_decoders : Decoders Fixed
toy_decoders = record {
  called = λ body. some (some "Bob");
  sighting = λ body. some (form "sighted");
  location = λ body. none;
  reconciliation = λ body. some (pos 1, pos 1);
  flags = λ body. none;
  insincere = λ body. none;
  note = λ body. some "seen nearby";
  string = λ t. "ann-id";
  clean = λ segments. codes "ping" ∷ [];
}

abbrev pub request_to : String → List Text → HttpRequest
request_to method segments = record {
  method = codes method;
  segments = segments;
  query = λ name. "";
  headers = λ name. "bob";
  body = [];
}

abbrev pub post_a_sighting : HttpRequest
post_a_sighting = request_to "POST" (codes "api" ∷ codes "sightings" ∷ [])
