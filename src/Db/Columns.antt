-- ===== src/Db/Columns.antt =====
-- The tables and columns that internal/db/schema.sql declares, and the step in which SQLite
-- prepares a statement: it is refused if it names a table or a column that is not there.
use reporting_and_mapping.Prelude.{Bool, false, String, none, some, List, [], ◌∷◌}
use reporting_and_mapping.Prelude.{◌==◌, any, find, if◌then◌else◌}
use reporting_and_mapping.Db.Monad.{Action, failure, raise, pure}

-- What a statement names: a table, or a column of a table.
pub data Reference : Type 0 where
  table : String → Reference
  column : String → String → Reference

abbrev pub Schema : Type 0
Schema = List (String × List String)

unfoldable pub declared : Schema
declared =
    ("config", "key" ∷ "value" ∷ "updated_at" ∷ [])
    ∷ ("users", "id" ∷ "opaque_id" ∷ "role" ∷ "registered_at" ∷ "last_seen_at" ∷ "called" ∷ [])
    ∷ ("role_permissions", "role" ∷ "permission" ∷ [])
    ∷ ("locations", "id" ∷ "lat" ∷ "lon" ∷ "created_by" ∷ "created_at" ∷ "validated_by" ∷ [])
    ∷ (
      "sightings",
      "id" ∷ "reporter_id" ∷ "location_id" ∷ "observed_at" ∷ "transpired" ∷ "to_exist" ∷ "image_url"
          ∷ "medium" ∷ "message" ∷ "height" ∷ "description" ∷ "external_id" ∷ [],
    )
    ∷ (
      "suggested_location_movements",
      "id" ∷ "sighting_id" ∷ "suggested_by" ∷ "suggested_lat" ∷ "suggested_lon" ∷ "created_at" ∷ [],
    )
    ∷ (
      "user_flags",
      "id" ∷ "target_user_id" ∷ "flag_type" ∷ "value" ∷ "flagged_by" ∷ "created_at" ∷ [],
    )
    ∷ ("reputation_notes", "id" ∷ "target_user_id" ∷ "author_user_id" ∷ "note" ∷ "created_at" ∷ [])
    ∷ ("frequent_messages", "abbr" ∷ [])
    ∷ []

unfoldable pub resolves : Reference → Bool
unfolding declared
resolves (table t) = any (λ d. d.0 == t) declared
resolves (column t c) = elim (find (λ d. d.0 == t) declared) [
  | none ↦ false
  | some d ↦ any (λ k. k == c) d.1
]

abbrev refusal : Reference → String
refusal (table t) = "no such table"
refusal (column t c) = "no such column"

-- SQLite reports the first name that it cannot resolve.
unfoldable pub prepare : {F : Type 0} → List Reference → Action F (Unit {0})
unfolding resolves
prepare [] = pure tt
prepare (r ∷ rs) = if resolves r then prepare rs else raise (failure (refusal r))
