-- ===== src/Startup/Spared.antt =====
-- Opening the database spares the reports.
use reporting_and_mapping.Prelude.{ℕ, inl, inr, String, Option, none, some, List, [], ◌∷◌, arith}
use reporting_and_mapping.Identity.{Crypto}
use reporting_and_mapping.Db.{Time}
use reporting_and_mapping.Db.Monad.{◌>>◌}
use reporting_and_mapping.Db.Invariant.Rules.{Result-cases}
use reporting_and_mapping.Startup.{ensure_user_id_hash_seed, seed_role_permissions}
use reporting_and_mapping.Startup.Identities.{
  set_opaque_id, set_opaque_ids, drop_table, rehash, migrate, migrate_table, drop_user_identities,
}
use reporting_and_mapping.Startup.Restart.{open_database}
use reporting_and_mapping.Db.Spared.{Spares, >>=-Spares, transaction-Spares}

module _ {F : Type 0} where
  set_opaque_ids-Spares : (pending : List (ℕ × String)) → Spares (set_opaque_ids {F = F} pending)
  unfolding set_opaque_ids set_opaque_id
  set_opaque_ids-Spares [] old db v = v
  set_opaque_ids-Spares ((i, o) ∷ pending) old db v =
      >>=-Spares (set_opaque_id i o) (λ _. set_opaque_ids pending) (λ old db v. ground arith)
        (λ _. set_opaque_ids-Spares pending) old db v

module _ {F : Type 0} ⦃cr : Crypto⦄ where
  migrate-Spares : (seed : String) (rows : List (ℕ × String)) → Spares (migrate {F = F} seed rows)
  migrate-Spares seed rows old db v = elim (Result-cases (rehash seed rows)) [
    | inr (x, e) ↦ rw (e, migrate) v
    | inl (pending, e) ↦
        rw (e, migrate)
          (>>=-Spares (set_opaque_ids pending) (λ _. drop_table) (set_opaque_ids-Spares pending)
            (λ _ old db w. w) old db v)
  ]

  migrate_table-Spares :
      (seed : String) (rows : Option (List (ℕ × String))) → Spares (migrate_table {F = F} seed rows)
  migrate_table-Spares seed none old db v = v
  migrate_table-Spares seed (some rows) old db v =
      transaction-Spares (migrate seed rows) (migrate-Spares seed rows) old db v

  drop_user_identities-Spares : (seed : String) → Spares (drop_user_identities {F = F} seed)
  unfolding drop_user_identities
  drop_user_identities-Spares seed old db v = migrate_table-Spares seed db.user_identities old db v

  pub open_database-Spares :
      (random : Option (List ℕ)) (entries : List (String × List String)) (now : Time)
      → Spares (open_database {F = F} random entries now)
  unfolding open_database seed_role_permissions ensure_user_id_hash_seed
  open_database-Spares random entries now =
      >>=-Spares (ensure_user_id_hash_seed random now)
        (λ seed. drop_user_identities seed >> seed_role_permissions entries)
        (λ old db v. ground arith)
        (λ seed.
          >>=-Spares (drop_user_identities seed) (λ _. seed_role_permissions entries)
            (drop_user_identities-Spares seed) (λ _ old db w. w))
