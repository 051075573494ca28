-- ===== src/Startup/Registered.antt =====
-- Opening the database unregisters nobody.
use reporting_and_mapping.Prelude.{
  ℕ, inl, inr, refl, any, ◌&&◌, Bool-cases, String, Option, none, some, List, [], ◌∷◌, arith,
}
use reporting_and_mapping.Identity.{Crypto}
use reporting_and_mapping.Db.{Time}
use reporting_and_mapping.Db.Monad.{◌>>◌}
use reporting_and_mapping.Db.Invariant.Rules.{Result-cases}
use reporting_and_mapping.Startup.{ensure_user_id_hash_seed, seed_role_permissions}
use reporting_and_mapping.Startup.Identities.{
  has_id, is_taken, set_opaque_id, set_opaque_ids, drop_table, rehash, migrate, migrate_table,
  drop_user_identities,
}
use reporting_and_mapping.Startup.Restart.{open_database}
use reporting_and_mapping.Store.Users.Registered.{update_users-HasUsersOf}
use reporting_and_mapping.Db.Registered.{KeepsUsers, >>=-KeepsUsers, transaction-KeepsUsers}

module _ {F : Type 0} where
  set_opaque_id-KeepsUsers : (i : ℕ) (o : String) → KeepsUsers (set_opaque_id {F = F} i o)
  unfolding set_opaque_id
  set_opaque_id-KeepsUsers i o old db v =
      elim (Bool-cases (any (has_id i) db.users && any (is_taken i o) db.users)) [
        | inl e ↦ rw e v
        | inr e ↦ rw e (update_users-HasUsersOf _ _ old db (λ u. refl) v)
      ]

  set_opaque_ids-KeepsUsers :
      (pending : List (ℕ × String)) → KeepsUsers (set_opaque_ids {F = F} pending)
  unfolding set_opaque_ids
  set_opaque_ids-KeepsUsers [] old db v = v
  set_opaque_ids-KeepsUsers ((i, o) ∷ pending) old db v =
      >>=-KeepsUsers (set_opaque_id i o) (λ _. set_opaque_ids pending)
        (set_opaque_id-KeepsUsers i o) (λ _. set_opaque_ids-KeepsUsers pending) old db v

module _ {F : Type 0} ⦃cr : Crypto⦄ where
  migrate-KeepsUsers :
      (seed : String) (rows : List (ℕ × String)) → KeepsUsers (migrate {F = F} seed rows)
  migrate-KeepsUsers seed rows old db v = elim (Result-cases (rehash seed rows)) [
    | inr (x, e) ↦ rw (e, migrate) v
    | inl (pending, e) ↦
        rw (e, migrate)
          (>>=-KeepsUsers (set_opaque_ids pending) (λ _. drop_table)
            (set_opaque_ids-KeepsUsers pending) (λ _ old db w. w) old db v)
  ]

  migrate_table-KeepsUsers :
      (seed : String) (rows : Option (List (ℕ × String)))
      → KeepsUsers (migrate_table {F = F} seed rows)
  migrate_table-KeepsUsers seed none old db v = v
  migrate_table-KeepsUsers seed (some rows) old db v =
      transaction-KeepsUsers (migrate seed rows) (migrate-KeepsUsers seed rows) old db v

  drop_user_identities-KeepsUsers : (seed : String) → KeepsUsers (drop_user_identities {F = F} seed)
  unfolding drop_user_identities
  drop_user_identities-KeepsUsers seed old db v =
      migrate_table-KeepsUsers seed db.user_identities old db v

  pub open_database-KeepsUsers :
      (random : Option (List ℕ)) (entries : List (String × List String)) (now : Time)
      → KeepsUsers (open_database {F = F} random entries now)
  unfolding open_database seed_role_permissions ensure_user_id_hash_seed
  open_database-KeepsUsers random entries now =
      >>=-KeepsUsers (ensure_user_id_hash_seed random now)
        (λ seed. drop_user_identities seed >> seed_role_permissions entries)
        (λ old db v. ground arith)
        (λ seed.
          >>=-KeepsUsers (drop_user_identities seed) (λ _. seed_role_permissions entries)
            (drop_user_identities-KeepsUsers seed) (λ _ old db w. w))
