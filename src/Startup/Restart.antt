-- ===== src/Startup/Restart.antt =====
-- internal/db/db.go: `Open` once the schema is there, and the defaults when it is opened again.
pub mod Again
use reporting_and_mapping.Prelude.{
  ℕ, ◌≡◌, refl, sym, ap, ◌∙◌, Bool, true, false, String, Option, none, some, List, [], ◌∷◌, ◌==◌,
  ◌||◌, any, eq_refl, Option-cases, inl, inr,
}
use reporting_and_mapping.Platform.{Float64, Sqlite}
use reporting_and_mapping.Identity.{Crypto, seed_config_key, new_seed}
use reporting_and_mapping.Db.{Time, ConfigRow, Database}
use reporting_and_mapping.Db.Invariant.{IsValid, Keeps}
use reporting_and_mapping.Db.Invariant.Rules.{>>=-Keeps}
use reporting_and_mapping.Store.Config.{config_row}
use reporting_and_mapping.Startup.Identities.{drop_user_identities}
use reporting_and_mapping.Startup.Identities.Migrated.{drop_user_identities-IsValid}
use reporting_and_mapping.Db.Monad.{Action, ok, ◌>>=◌, ◌>>◌}
use reporting_and_mapping.Startup.{
  Grants, grants, lists, insert_grant, insert_grants, seed_grants, seed_role_permissions,
  ensure_user_id_hash_seed, ensure_known, ensure_new, grants-seed_grants,
}

-- Every listed permission is granted.
abbrev AreGranted : List (String × List String) → Grants → Type 0
AreGranted entries rows = (a b : String) → lists entries a b ≡ true → grants rows a b ≡ true

insert_grants_nothing :
    (role : String) (ps : List String) (rows : Grants)
    → ((b : String) → any (λ p. p == b) ps ≡ true → grants rows role b ≡ true)
    → insert_grants role ps rows ≡ rows
unfolding insert_grants insert_grant
insert_grants_nothing role [] rows h = refl
insert_grants_nothing role (p ∷ ps) rows h =
    let known : grants rows role p ≡ true = h p (rw (eq_refl p) refl) in
    rw known (insert_grants_nothing role ps rows (λ b k. h b (or_right (p == b) _ k)))
  where
    or_right : (x y : Bool) → y ≡ true → x || y ≡ true
    or_right true y k = refl
    or_right false y k = k

seed_grants_nothing :
    (entries : List (String × List String)) (rows : Grants)
    → AreGranted entries rows
    → seed_grants entries rows ≡ rows
unfolding seed_grants
seed_grants_nothing [] rows h = refl
seed_grants_nothing ((role, ps) ∷ entries) rows h =
    rw (insert_grants_nothing role ps rows (λ b k. h role b (first b k)))
      (seed_grants_nothing entries rows (λ a b k. h a b (or_right _ (lists entries a b) k)))
  where
    or_right : (x y : Bool) → y ≡ true → x || y ≡ true
    or_right true y k = refl
    or_right false y k = k

    first : (b : String) → any (λ p. p == b) ps ≡ true → lists ((role, ps) ∷ entries) role b ≡ true
    first b k = rw (eq_refl role, k) refl

-- Seeding again with the same defaults, in whatever order, changes nothing.
pub seed_role_permissions_again :
    {F : Type 0} (entries later : List (String × List String)) (db : Database F)
    → ((a b : String) → lists later a b ≡ lists entries a b)
    → let db' = (seed_role_permissions entries db).1 in
      seed_role_permissions later db' ≡ (ok tt, db')
unfolding seed_role_permissions
seed_role_permissions_again entries later db same =
    let db' = (seed_role_permissions entries db).1 in
    ap (λ rows. (ok tt, record db' { role_permissions = rows }))
      (seed_grants_nothing later db'.role_permissions (λ a b k.
        grants-seed_grants entries db.role_permissions a b ∙ or_true _ _ (sym (same a b) ∙ k)))
  where
    or_true : (x y : Bool) → y ≡ true → x || y ≡ true
    or_true true y k = refl
    or_true false y k = k

module _ {F : Type 0} ⦃cr : Crypto⦄ where
  -- The steps of Open after the schema, each of them only if the one before succeeds.
  unfoldable pub open_database :
      Option (List ℕ) → List (String × List String) → Time → Action F (Unit {0})
  unfolding ensure_user_id_hash_seed drop_user_identities seed_role_permissions
  open_database random entries now = do
    seed ← ensure_user_id_hash_seed random now
    drop_user_identities seed
    seed_role_permissions entries

module _ {F : Type 0} ⦃fl : Float64 F⦄ where
  -- The constraints do not speak of the configuration and of the permissions.
  elsewhere :
      (db : Database F) (rows : List ConfigRow) (ps : Grants)
      → IsValid db
      → IsValid (record db { config = rows; role_permissions = ps })
  elsewhere db rows ps v = record {
    user_ids = v.user_ids;
    opaque_ids = v.opaque_ids;
    location_ids = v.location_ids;
    sighting_ids = v.sighting_ids;
    located = v.located;
    reported = v.reported;
    flags = v.flags;
    notes = v.notes;
  }

module _ {F : Type 0} ⦃fl : Float64 F⦄ ⦃sq : Sqlite F⦄ ⦃cr : Crypto⦄ where
  ensure_user_id_hash_seed-Keeps :
      (random : Option (List ℕ)) (now : Time) → Keeps {F = F} (ensure_user_id_hash_seed random now)
  unfolding new_seed ensure_user_id_hash_seed
  ensure_user_id_hash_seed-Keeps none now db v = v
  ensure_user_id_hash_seed-Keeps (some b) now db v =
      elim (Option-cases (config_row seed_config_key db.config)) [
        | inr (r, e) ↦ rw (ensure_known b now db e) v
        | inl e ↦ rw (ensure_new b now db e) (elsewhere db _ db.role_permissions v)
      ]

  -- Opening the database leaves a valid one valid, wherever it fails.
  pub open_database-IsValid :
      (random : Option (List ℕ)) (entries : List (String × List String)) (now : Time)
      (db : Database F)
      → IsValid db
      → IsValid (open_database random entries now db).1
  unfolding open_database seed_role_permissions
  open_database-IsValid random entries now =
      >>=-Keeps (ensure_user_id_hash_seed random now)
        (λ seed. drop_user_identities seed >> seed_role_permissions entries)
        (ensure_user_id_hash_seed-Keeps random now)
        (λ seed.
          >>=-Keeps (drop_user_identities seed) (λ _. seed_role_permissions entries)
            (drop_user_identities-IsValid seed) (λ _ db v. elsewhere db db.config _ v))
