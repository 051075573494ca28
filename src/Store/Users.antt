-- ===== src/Store/Users.antt =====
-- internal/store/users.go: identities, permissions and the user table.
pub mod Invariant
pub mod Resolve
pub mod Returning
pub mod Directory
pub mod Spared
pub mod Registered
pub mod Roles
use reporting_and_mapping.Prelude.{
  ℕ, String, Bool, Option, none, some, List, [], ◌∷◌, ◌++◌, map, ◌==◌, ◌&&◌, eqb, leb, any, find,
  update_where, if◌then◌else◌,
}
use reporting_and_mapping.Prelude.Order.{order_by}
use reporting_and_mapping.Platform.{Sqlite}
use reporting_and_mapping.Identity.{Crypto, seed_config_key, opaque_user_id}
use reporting_and_mapping.Db.{Time, rfc3339, UserRow, Database}
use reporting_and_mapping.Db.Monad.{
  Action, Result, ok, err, StoreError, not_found, failure, or_raise, modify, gets, pure, raise,
  ◌>>=◌, ◌>>◌,
}
use reporting_and_mapping.Store.{Store}
use reporting_and_mapping.Store.Config.{config}

abbrev has_opaque : String → UserRow → Bool
has_opaque o u = u.opaque_id == o

abbrev pub user_with_opaque : String → List UserRow → Option UserRow
user_with_opaque o users = find (λ u. u.opaque_id == o) users

-- A missing row gets an error of its own.
abbrev seed_error : Result String → Result String
seed_error (err not_found) =
    err (failure "user_id_hash_seed is missing from config; open the database with db.Open")
seed_error r = r

module _ {F : Type 0} where
  -- `seedOnce.Do` runs its body on the first call only.
  unfoldable pub hash_seed : Store → Database F → Result String × Store
  unfolding config
  hash_seed st db = elim st.seed [
    | some r ↦ (r, st)
    | none ↦ let r = seed_error (config seed_config_key db).0 in (r, record { seed = some r })
  ]

  -- SELECT 1 FROM role_permissions WHERE role = ? AND permission = ?
  unfoldable pub has_permission : Database F → String → String → Bool
  has_permission db role permission =
      any (λ p. p.0 == role && p.1 == permission) db.role_permissions

  unfoldable pub user_by_opaque : String → Action F ℕ
  user_by_opaque o db = elim (user_with_opaque o db.users) [
    | none ↦ (err not_found, db)
    | some u ↦ (ok (u.id), db)
  ]

  unfoldable pub list_users : Database F → List UserRow
  list_users db = order_by (λ a b. leb a.id b.id) db.users

  -- UPDATE users SET role = ? WHERE opaque_id = ?, and no row affected is ErrNotFound.
  unfoldable pub set_user_role : String → String → Action F (Unit {0})
  set_user_role o role db =
      if any (λ u. u.opaque_id == o) db.users
      then (
        ok tt,
        record db {
          users = update_where (λ u. u.opaque_id == o) (λ u. record u { role = role }) db.users;
        },
      )
      else (err not_found, db)

  unfoldable pub set_user_called : ℕ → String → Action F (Unit {0})
  set_user_called i called db =
      if any (λ u. eqb u.id i) db.users
      then (
        ok tt,
        record db {
          users = update_where (λ u. eqb u.id i) (λ u. record u { called = called }) db.users;
        },
      )
      else (err not_found, db)

abbrev pub new_user : ℕ → String → Time → UserRow
new_user i o now = record {
  id = i;
  opaque_id = o;
  role = "reporter";
  registered_at = rfc3339 now;
  last_seen_at = rfc3339 now;
  called = "";
}

abbrev pub seen : Time → UserRow → UserRow
seen now u = record u { last_seen_at = rfc3339 now }

module _ {F : Type 0} ⦃sq : Sqlite F⦄ where
  -- INSERT INTO users … ON CONFLICT(opaque_id) DO UPDATE SET last_seen_at RETURNING …
  unfoldable pub upsert_user : String → Time → Action F UserRow
  upsert_user o now db = elim (user_with_opaque o db.users) [
    | some u ↦ (
      ok (seen now u),
      record db { users = update_where (λ v. v.opaque_id == o) (seen now) db.users },
    )
    | none ↦
        let u = new_user (sq.fresh (map (λ (u : UserRow). u.id) db.users)) o now in
        (ok u, record db { users = db.users ++ u ∷ [] })
  ]

module _ {F : Type 0} ⦃sq : Sqlite F⦄ ⦃cr : Crypto⦄ where
  -- `resolve_user` once the seed has been read.
  unfoldable pub resolve_with : Result String → String → Time → Action F UserRow
  unfolding upsert_user
  resolve_with (err e) subject now = raise e
  resolve_with (ok seed) subject now = elim (opaque_user_id seed subject) [
    | err e ↦ raise e
    | ok o ↦ upsert_user o now
  ]

  unfoldable pub resolve_user :
      Store → String → Time → Database F → Result UserRow × Store × Database F
  unfolding hash_seed resolve_with
  resolve_user st subject now db =
      let (seed, st') = hash_seed st db in
      let (r, db') = resolve_with seed subject now db in (r, st', db')
