-- ===== src/Startup/Identities.antt =====
-- internal/db/db.go: `dropUserIdentities`, which rewrites the opaque ids of a database from before
-- they were derived, and drops the table of subjects.
pub mod Migrated
pub mod Rehashed
use reporting_and_mapping.Prelude.{
  ℕ, Bool, String, Option, none, some, List, [], ◌∷◌, ◌==◌, ◌&&◌, not, eqb, any, update_where,
  if◌then◌else◌,
}
use reporting_and_mapping.Identity.{Crypto, opaque_user_id}
use reporting_and_mapping.Db.{UserRow, Database}
use reporting_and_mapping.Db.Monad.{
  Action, Result, ok, err, failure, pure, raise, modify, transaction, ◌>>=◌, ◌>>◌,
}

-- Another user has the opaque id.
abbrev pub is_taken : ℕ → String → UserRow → Bool
is_taken i o u = o == u.opaque_id && not (eqb u.id i)

abbrev pub has_id : ℕ → UserRow → Bool
has_id i u = eqb u.id i

abbrev pub with_opaque : String → UserRow → UserRow
with_opaque o u = record u { opaque_id = o }

module _ {F : Type 0} where
  -- UPDATE users SET opaque_id = ? WHERE id = ?, which the UNIQUE constraint may refuse.
  unfoldable pub set_opaque_id : ℕ → String → Action F (Unit {0})
  set_opaque_id i o db =
      if any (has_id i) db.users && any (is_taken i o) db.users
      then (err (failure "UNIQUE constraint failed"), db)
      else (ok tt, record db { users = update_where (has_id i) (with_opaque o) db.users })

  -- The second loop, over the pending pairs.
  unfoldable pub set_opaque_ids : List (ℕ × String) → Action F (Unit {0})
  unfolding set_opaque_id
  set_opaque_ids [] = pure tt
  set_opaque_ids ((i, o) ∷ pending) = set_opaque_id i o >> set_opaque_ids pending

  -- DROP TABLE user_identities
  abbrev pub drop_table : Action F (Unit {0})
  drop_table = modify (λ db. record db { user_identities = none })

module _ ⦃cr : Crypto⦄ where
  -- The first loop: each subject's opaque id, or the first error.
  unfoldable pub rehash : String → List (ℕ × String) → Result (List (ℕ × String))
  rehash seed [] = ok []
  rehash seed ((i, subject) ∷ rows) = elim (opaque_user_id seed subject) [
    | err e ↦ err e
    | ok o ↦ elim (rehash seed rows) [ err e ↦ err e | ok pending ↦ ok ((i, o) ∷ pending) ]
  ]

module _ {F : Type 0} ⦃cr : Crypto⦄ where
  abbrev pub migrate : String → List (ℕ × String) → Action F (Unit {0})
  migrate seed rows db = elim (rehash seed rows) [
    | err e ↦ (err e, db)
    | ok pending ↦ (set_opaque_ids pending >> drop_table) db
  ]

  -- No table, no migration; else it runs in a transaction.
  abbrev pub migrate_table : String → Option (List (ℕ × String)) → Action F (Unit {0})
  migrate_table seed none db = (ok tt, db)
  migrate_table seed (some rows) db = transaction (migrate seed rows) db

  unfoldable pub drop_user_identities : String → Action F (Unit {0})
  unfolding rehash set_opaque_ids
  drop_user_identities seed db = migrate_table seed db.user_identities db
