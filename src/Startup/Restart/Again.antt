-- ===== src/Startup/Restart/Again.antt =====
-- internal/db/db.go: `Open` on a database that `Open` has opened before.
use reporting_and_mapping.Prelude.{
  ℕ, ◌≡◌, refl, sym, ap, ◌∙◌, inl, inr, String, Option, none, some, List, [], ◌∷◌, Option-cases,
  arith,
}
use mathlib.Core.Path.{subst}
use reporting_and_mapping.Identity.{Crypto, seed_config_key}
use reporting_and_mapping.Db.{Time, ConfigRow, Database, rfc3339}
use reporting_and_mapping.Db.Monad.{Action, ok, err, ◌>>◌, transaction}
use reporting_and_mapping.Db.Invariant.Rules.{Result-cases, >>=-after, >>=-ok, >>=-err}
use reporting_and_mapping.Store.Config.{config_row}
use reporting_and_mapping.Startup.{
  lists, seeded, seed_role_permissions, ensure_user_id_hash_seed, ensure_known, ensure_new,
  find-append,
}
use reporting_and_mapping.Startup.Identities.{
  set_opaque_id, set_opaque_ids, drop_table, rehash, migrate, migrate_table, drop_user_identities,
}
use reporting_and_mapping.Startup.Identities.Migrated.{drop_user_identities_lem}
use reporting_and_mapping.Startup.Restart.{open_database, seed_role_permissions_again}

module _ {F : Type 0} (rows : List ConfigRow) where
  -- The configuration is the given one.
  abbrev HasConfig : Database F → Type 0
  HasConfig db = db.config ≡ rows

  set_opaque_ids-HasConfig :
      (pending : List (ℕ × String)) (db : Database F)
      → HasConfig db
      → HasConfig (set_opaque_ids pending db).1
  unfolding set_opaque_ids set_opaque_id
  set_opaque_ids-HasConfig [] db h = h
  set_opaque_ids-HasConfig ((i, o) ∷ pending) db h =
      >>=-after HasConfig (set_opaque_id i o) (λ _. set_opaque_ids pending) db (ground arith)
        (λ _ d k. set_opaque_ids-HasConfig pending d k)

module _ {F : Type 0} ⦃cr : Crypto⦄ (rows : List ConfigRow) where
  migrate-HasConfig :
      (seed : String) (pairs : List (ℕ × String)) (db : Database F)
      → HasConfig rows db
      → HasConfig rows (migrate seed pairs db).1
  migrate-HasConfig seed pairs db h = elim (Result-cases (rehash seed pairs)) [
    | inr (x, e) ↦ rw (e, migrate) h
    | inl (pending, e) ↦
        rw (e, migrate)
          (>>=-after (HasConfig rows) (set_opaque_ids pending) (λ _. drop_table) db
            (set_opaque_ids-HasConfig rows pending db h) (λ _ d k. k))
  ]

  migrate_table-HasConfig :
      (seed : String) (t : Option (List (ℕ × String))) (db : Database F)
      → HasConfig rows db
      → HasConfig rows (migrate_table seed t db).1
  migrate_table-HasConfig seed none db h = h
  migrate_table-HasConfig seed (some pairs) db h = elim (Result-cases (migrate seed pairs db).0) [
    | inl (a, e) ↦ rw (e, transaction) (migrate-HasConfig seed pairs db h)
    | inr (x, e) ↦ rw (e, transaction) h
  ]

module _ {F : Type 0} ⦃cr : Crypto⦄ where
  -- The seed step of an opening, and the row that it leaves.
  ensure_leaves :
      (random : List ℕ) (now : Time) (db : Database F)
      → (r : ConfigRow) × (d : Database F) × (ensure_user_id_hash_seed (some random) now db
          ≡ (ok r.value, d))
        × (config_row seed_config_key d.config ≡ some r)
  ensure_leaves random now db = elim (Option-cases (config_row seed_config_key db.config)) [
    | inr (r, e) ↦ (r, db, ensure_known random now db e, e)
    | inl e ↦
        let r : ConfigRow = record {
          key = seed_config_key;
          value = cr.encode random;
          updated_at = rfc3339 now;
        } in
        (r, seeded random now db, ensure_new random now db e, find-append db.config r e refl)
  ]

  -- The migration step of an opening that succeeds: the table is gone and the configuration as before.
  migration_succeeds :
      (seed : String) (entries : List (String × List String)) (db : Database F)
      → ((drop_user_identities seed >> seed_role_permissions entries) db).0 ≡ ok tt
      → (d : Database F) × (drop_user_identities seed db ≡ (ok tt, d))
        × (d.user_identities ≡ none)
        × (d.config ≡ db.config)
  unfolding drop_user_identities
  migration_succeeds seed entries db h = elim (drop_user_identities_lem seed db) [
    | inl (e, gone) ↦ (
      (drop_user_identities seed db).1,
      (λ i. (e i, (drop_user_identities seed db).1)),
      gone,
      migrate_table-HasConfig db.config seed db.user_identities db refl,
    )
    | inr (x, e) ↦
        let stop = >>=-err (drop_user_identities seed) (λ _. seed_role_permissions entries) db e in
        let bad : err x ≡ ok tt = sym (ap (λ p. p.0) stop) ∙ h in cc
  ]

  -- Opening a database again that an opening left, with the same defaults in whatever order, succeeds
  -- and changes nothing, whatever random bytes it draws: a restart rotates no seed, migrates nothing
  -- and grants nothing.
  pub open_database_again :
      (first second : List ℕ) (entries again : List (String × List String)) (now later : Time)
      (db : Database F)
      → (open_database (some first) entries now db).0 ≡ ok tt
      → ((a b : String) → lists again a b ≡ lists entries a b)
      → let db' = (open_database (some first) entries now db).1 in
        open_database (some second) again later db' ≡ (ok tt, db')
  unfolding open_database seed_role_permissions drop_user_identities
  open_database_again first second entries again now later db opened same =
      let (r, d, seed, row) = ensure_leaves first now db in
      let rest : String → Action F (Unit {0}) =
        λ s. drop_user_identities s >> seed_role_permissions entries in
      let ran = >>=-ok (ensure_user_id_hash_seed (some first) now) rest db seed in
      let (e, dropped, gone, config) =
        migration_succeeds r.value entries d (sym (ap (λ p. p.0) ran) ∙ opened) in
      let end : Database F = (seed_role_permissions entries e).1 in
      let whole : open_database (some first) entries now db ≡ (ok tt, end) =
        ran
        ∙ >>=-ok (drop_user_identities r.value) (λ _. seed_role_permissions entries) d dropped in
      let rest' : String → Action F (Unit {0}) =
        λ s. drop_user_identities s >> seed_role_permissions again in
      let known : config_row seed_config_key end.config ≡ some r =
        subst (λ c. config_row seed_config_key c ≡ some r) (sym config) row in
      let nothing : drop_user_identities r.value end ≡ (ok tt, end) = rw gone refl in
      let settled : open_database (some second) again later end ≡ (ok tt, end) =
        >>=-ok (ensure_user_id_hash_seed (some second) later) rest' end
          (ensure_known second later end known)
        ∙ >>=-ok (drop_user_identities r.value) (λ _. seed_role_permissions again) end nothing
        ∙ seed_role_permissions_again entries again e same in
      rw (ap (λ p. p.1) whole) settled
