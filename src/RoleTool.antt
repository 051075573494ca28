-- ===== src/RoleTool.antt =====
-- cmd/user-role/main.go: the tool that lists users and assigns roles. Its flags are read by package
-- flag; the model starts from the arguments that are left.
pub mod Granted
use reporting_and_mapping.Prelude.{String, Option, List, [], ◌∷◌, ◌==◌, ℕ, if◌then◌else◌}
use reporting_and_mapping.Platform.{Sqlite}
use reporting_and_mapping.Identity.{Crypto}
use reporting_and_mapping.Db.{Time, UserRow, Database}
use reporting_and_mapping.Db.Monad.{StoreError, Result, ok, err, not_found, failure}
use reporting_and_mapping.Startup.Restart.{open_database}
use reporting_and_mapping.Store.Users.{list_users, set_user_role}

-- What the tool prints, or the failure that it exits with. `misused` is the exit code 2.
pub data Outcome : Type 0 where
  known : List String → Outcome
  no_users : Outcome
  listed : List UserRow → Outcome
  assigned : String → String → Outcome
  misused : Outcome
  unknown_user : String → Outcome
  failed : StoreError → Outcome

-- store.KnownRoles
abbrev pub known_roles : List String
known_roles = "reporter" ∷ "editor" ∷ "administrator" ∷ "muted" ∷ []

abbrev pub listing : List UserRow → Outcome
listing [] = no_users
listing (u ∷ us) = listed (u ∷ us)

abbrev pub set_outcome : String → String → Result (Unit {0}) → Outcome
set_outcome o role (ok t) = assigned o role
set_outcome o role (err not_found) = unknown_user o
set_outcome o role (err (failure text)) = failed (failure text)

module _ {F : Type 0} where
  unfoldable pub handle_list : Database F → Outcome × Database F
  unfolding list_users
  handle_list db = (listing (list_users db), db)

  unfoldable pub handle_set : List String → Database F → Outcome × Database F
  unfolding set_user_role
  handle_set (o ∷ role ∷ []) db =
      let (r, db') = set_user_role o role db in (set_outcome o role r, db')
  handle_set _ db = (misused, db)

  -- The switch on the first argument.
  unfoldable pub command : List String → Database F → Outcome × Database F
  unfolding handle_list handle_set
  command [] db = (known known_roles, db)
  command (cmd ∷ args) db =
      if cmd == "list"
      then handle_list db
      else if cmd == "set"
      then handle_set args db
      else (misused, db)

module _ {F : Type 0} ⦃cr : Crypto⦄ where
  -- main: the database is opened, and so seeded, whatever the arguments are.
  unfoldable pub role_tool :
      Option (List ℕ)
      → List (String × List String)
      → Time
      → List String
      → Database F
      → Outcome × Database F
  unfolding open_database command
  role_tool random entries now args db =
      let (opened, db') = open_database random entries now db in
      elim opened [ err e ↦ (failed e, db') | ok t ↦ command args db' ]
