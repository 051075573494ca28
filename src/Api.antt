-- ===== src/Api.antt =====
-- internal/api: the REST endpoints. A handler takes the user that the authentication put into the
-- context, the decoded request and the database, and gives a response and the database after it.
pub mod Params
pub mod Contribute
pub mod Moderate
pub mod Review
pub mod Requests
pub mod Auth
use Prim.Native.String.{◌++◌ as ◌+++◌}
use reporting_and_mapping.Prelude.{
  ℕ, Bool, true, false, String, Option, none, some, List, ◌==◌, eqb, if◌then◌else◌,
}
use reporting_and_mapping.Prelude.Int.{ℤ, pos, negsuc}
use reporting_and_mapping.Db.{Time, UserRow, Database}
use reporting_and_mapping.Db.Monad.{Action, Result, ok, err, StoreError, not_found, failure}
use reporting_and_mapping.Store.Mapping.{MapMarker}
use reporting_and_mapping.Store.Lists.{ListedSighting}
use reporting_and_mapping.Store.Events.{AuditEvent}
use reporting_and_mapping.Store.History.{LocationHistory}
use reporting_and_mapping.Store.Reputation.{Note, UserFlag}
use reporting_and_mapping.Store.Users.{has_permission}

-- What json.Encode writes; `nothing` is a nil value or an empty body, and `undecodable` is the error
-- that decodeJSON sends, "invalid JSON body: " with the decoder's own text after it. `plain_text` is
-- not JSON. `panicked` is no body: the handler has dereferenced nil.
pub data Body (F : Type 0) : Type 0 where
  nothing : Body F
  error_message : String → Body F
  undecodable : Body F
  plain_text : String → Body F
  user : UserRow → Body F
  created_id : ℕ → Body F
  markers : List (MapMarker F) → Body F
  insincere : Bool → Body F
  flag_value : ℤ → Body F
  flags : List UserFlag → Body F
  notes : List Note → Body F
  sighting_list : List (ListedSighting F) → Body F
  event_list : List (AuditEvent F) → Body F
  history : LocationHistory F → Body F
  panicked : Body F

abbrev pub is_panic : {F : Type 0} → Body F → Bool
is_panic panicked = true
is_panic _ = false

-- v == 0
abbrev pub is_zero : ℤ → Bool
is_zero (pos n) = eqb n 0
is_zero (negsuc n) = false

pub record Response (F : Type 0) : Type 0 where
  pub status : ℕ
  pub body : Body F

abbrev pub Handler : Type 0 → Type 0
Handler F = UserRow → Database F → Response F × Database F

module _ {F : Type 0} where
  abbrev pub write_json : ℕ → Body F → Response F
  write_json status body = record { status = status; body = body }

  abbrev pub write_err : ℕ → String → Response F
  write_err status message = record { status = status; body = error_message message }

  abbrev pub panic : Response F
  panic = record { status = 0; body = panicked }

  -- http.Error
  abbrev pub http_error : ℕ → String → Response F
  http_error status text = record { status = status; body = plain_text text }

  -- mapStoreErr
  unfoldable pub map_store_err : StoreError → Response F
  map_store_err not_found = write_err 404 "not found"
  map_store_err (failure _) = write_err 500 "internal error"

  -- `if !s.require(w, u, perm) { return }` before the rest of a handler
  unfoldable pub require : String → Handler F → Handler F
  unfolding has_permission
  require permission rest u db =
      if has_permission db u.role permission
      then rest u db
      else (write_err 403 ("missing permission: " +++ permission), db)

  -- The end of a handler: the store's answer, or its error mapped to a status.
  abbrev pub respond :
      {A : Type 0} → Action F A → (A → Response F) → Database F → Response F × Database F
  respond m answer db =
      let (r, db') = m db in elim r [ ok a ↦ (answer a, db') | err e ↦ (map_store_err e, db') ]
