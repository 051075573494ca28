-- ===== src/Startup.antt =====
-- internal/db/db.go: what `Open` seeds the database with, the default permissions of the roles and
-- the key under which the users' ids are derived.
pub mod Identities
pub mod Restart
pub mod Spared
pub mod Registered
use reporting_and_mapping.Prelude.{
  ℕ, ◌≡◌, refl, ap, ◌∙◌, Bool, true, false, String, Option, none, some, List, [], ◌∷◌, ◌++◌, ◌==◌,
  ◌&&◌, ◌||◌, any, any-append, Bool-cases, Option-cases, inl, inr, if◌then◌else◌, eq_iff, arith,
}
use mathlib.Core.Path.{subst}
use reporting_and_mapping.Identity.{Crypto, seed_config_key, new_seed}
use reporting_and_mapping.Db.{Time, rfc3339, ConfigRow, Database}
use reporting_and_mapping.Db.Monad.{Action, ok, err}
use reporting_and_mapping.Store.Config.{config_row}
use reporting_and_mapping.Store.Users.{has_permission}

abbrev pub Grants : Type 0
Grants = List (String × String)

abbrev pub grants : Grants → String → String → Bool
grants rows role permission = any (λ p. p.0 == role && p.1 == permission) rows

-- The map's entries; Go iterates over them in an order of its own.
unfoldable pub default_role_permissions : List (String × List String)
default_role_permissions =
    ("reporter", "sight" ∷ "view" ∷ [])
    ∷ ("editor", "sight" ∷ "view" ∷ "reconcile" ∷ "canonicalize" ∷ "gossip" ∷ [])
    ∷ (
      "administrator",
      "sight" ∷ "view" ∷ "reconcile" ∷ "canonicalize" ∷ "gossip" ∷ "audit" ∷ "flag_insincere"
          ∷ "set-user-flags" ∷ [],
    )
    ∷ ("muted", "view" ∷ [])
    ∷ []

-- INSERT OR IGNORE INTO role_permissions (role, permission) VALUES (?, ?)
unfoldable pub insert_grant : String → String → Grants → Grants
insert_grant role permission rows =
    if grants rows role permission then rows else rows ++ (role, permission) ∷ []

unfoldable pub insert_grants : String → List String → Grants → Grants
insert_grants role [] rows = rows
insert_grants role (p ∷ ps) rows = insert_grants role ps (insert_grant role p rows)

unfoldable pub seed_grants : List (String × List String) → Grants → Grants
seed_grants [] rows = rows
seed_grants ((role, permissions) ∷ entries) rows =
    seed_grants entries (insert_grants role permissions rows)

-- The entries of the map in the order of its iteration, in one transaction.
unfoldable pub seed_role_permissions :
    {F : Type 0} → List (String × List String) → Action F (Unit {0})
seed_role_permissions entries db =
    (ok tt, record db { role_permissions = seed_grants entries db.role_permissions })

module _ {F : Type 0} ⦃cr : Crypto⦄ where
  -- INSERT OR IGNORE of a candidate, then SELECT; `random` is what rand.Read gives.
  unfoldable pub ensure_user_id_hash_seed : Option (List ℕ) → Time → Action F String
  unfolding new_seed config_row
  ensure_user_id_hash_seed random now db = elim (new_seed random) [
    | err e ↦ (err e, db)
    | ok candidate ↦ elim (config_row seed_config_key db.config) [
      | some r ↦ (ok r.value, db)
      | none ↦ (
        ok candidate,
        record db {
          config =
              db.config
              ++ record { key = seed_config_key; value = candidate; updated_at = rfc3339 now } ∷ [];
        },
      )
    ]
  ]

-- What a default entry lists.
abbrev pub lists : List (String × List String) → String → String → Bool
lists entries role permission = any (λ e. e.0 == role && any (λ p. p == permission) e.1) entries

grants-insert_grant :
    (role permission : String) (rows : Grants) (a b : String)
    → grants (insert_grant role permission rows) a b
      ≡ grants rows a b || (role == a && permission == b)
unfolding insert_grant
grants-insert_grant role permission rows a b = elim (Bool-cases (grants rows role permission)) [
  | inr e ↦ rw e (any-append (λ p. p.0 == a && p.1 == b) rows _ ∙ or_last (grants rows a b) _)
  | inl e ↦ elim (Bool-cases (role == a && permission == b)) [
    | inr f ↦ rw (e, f) (or_last₀ (grants rows a b))
    | inl f ↦
        let (r, p) = both (role == a) (permission == b) f in
        let known : grants rows a b ≡ true =
          subst (λ x. grants rows x b ≡ true) ((eq_iff role a).0 r)
            (subst (λ x. grants rows role x ≡ true) ((eq_iff permission b).0 p) e) in
        rw (e, f, known) refl
  ]
]
  where
    or_last : (x y : Bool) → x || (y || false) ≡ x || y
    or_last true y = refl
    or_last false true = refl
    or_last false false = refl

    or_last₀ : (x : Bool) → x ≡ x || false
    or_last₀ true = refl
    or_last₀ false = refl

    both : (x y : Bool) → x && y ≡ true → (x ≡ true) × (y ≡ true)
    both true y h = (refl, h)
    both false y h = cc

or_assoc : (x y z : Bool) → (x || y) || z ≡ x || (y || z)
or_assoc true y z = refl
or_assoc false y z = refl

and_or : (x y z : Bool) → (x && y) || (x && z) ≡ x && (y || z)
and_or true y z = refl
and_or false y z = refl

grants-insert_grants :
    (role : String) (ps : List String) (rows : Grants) (a b : String)
    → grants (insert_grants role ps rows) a b
      ≡ grants rows a b || (role == a && any (λ p. p == b) ps)
unfolding insert_grants
grants-insert_grants role [] rows a b = ground arith
grants-insert_grants role (p ∷ ps) rows a b =
    grants-insert_grants role ps (insert_grant role p rows) a b
    ∙ ap (λ x. x || (role == a && any (λ q. q == b) ps)) (grants-insert_grant role p rows a b)
    ∙ or_assoc (grants rows a b) (role == a && p == b) (role == a && any (λ q. q == b) ps)
    ∙ ap (λ x. grants rows a b || x) (and_or (role == a) (p == b) (any (λ q. q == b) ps))

pub grants-seed_grants :
    (entries : List (String × List String)) (rows : Grants) (a b : String)
    → grants (seed_grants entries rows) a b ≡ grants rows a b || lists entries a b
unfolding seed_grants
grants-seed_grants [] rows a b = ground arith
grants-seed_grants ((role, ps) ∷ entries) rows a b =
    grants-seed_grants entries (insert_grants role ps rows) a b
    ∙ ap (λ x. x || lists entries a b) (grants-insert_grants role ps rows a b)
    ∙ or_assoc (grants rows a b) _ (lists entries a b)

-- After the seeding a role has a permission exactly if it had it before or the defaults list it, in
-- whatever order they are inserted: what an operator granted stays, and a default that an operator
-- took away is back.
pub has_permission-seed_role_permissions :
    {F : Type 0} (entries : List (String × List String)) (db : Database F)
    (role permission : String)
    → has_permission (seed_role_permissions entries db).1 role permission
      ≡ has_permission db role permission || lists entries role permission
unfolding seed_role_permissions has_permission
has_permission-seed_role_permissions entries db role permission =
    grants-seed_grants entries db.role_permissions role permission

pub find-append :
    (rows : List ConfigRow) (r : ConfigRow)
    → config_row seed_config_key rows ≡ none
    → r.key ≡ seed_config_key
    → config_row seed_config_key (rows ++ r ∷ []) ≡ some r
unfolding config_row
find-append [] r h same = rw ((eq_iff r.key seed_config_key).1 same) refl
find-append (s ∷ rows) r h same = elim (Bool-cases (s.key == seed_config_key)) [
  | inl e ↦ let k = rw e at h in cc
  | inr e ↦ let k = rw e at h in rw e (find-append rows r k same)
]

module _ {F : Type 0} ⦃cr : Crypto⦄ where
  abbrev pub seeded : List ℕ → Time → Database F → Database F
  seeded random now db = record db {
    config =
        db.config
        ++ record { key = seed_config_key; value = cr.encode random; updated_at = rfc3339 now }
          ∷ [];
  }

  pub ensure_known :
      (random : List ℕ) (now : Time) (db : Database F) {r : ConfigRow}
      → config_row seed_config_key db.config ≡ some r
      → ensure_user_id_hash_seed (some random) now db ≡ (ok r.value, db)
  unfolding new_seed ensure_user_id_hash_seed
  ensure_known random now db e = rw (ensure_user_id_hash_seed, e) refl

  pub ensure_new :
      (random : List ℕ) (now : Time) (db : Database F)
      → config_row seed_config_key db.config ≡ none
      → ensure_user_id_hash_seed (some random) now db
        ≡ (ok (cr.encode random), seeded random now db)
  unfolding new_seed ensure_user_id_hash_seed
  ensure_new random now db e = rw (ensure_user_id_hash_seed, e) refl

  -- Once a start of the server has found or made a seed, every later start answers the same seed,
  -- whatever random bytes it draws, and changes nothing: restarts never rotate it.
  pub ensure_user_id_hash_seed_again :
      (first second : List ℕ) (now later : Time) (db : Database F)
      → let (r, db') = ensure_user_id_hash_seed (some first) now db in
        ensure_user_id_hash_seed (some second) later db' ≡ (r, db')
  ensure_user_id_hash_seed_again first second now later db =
      elim (Option-cases (config_row seed_config_key db.config)) [
        | inr (r, e) ↦ rw (ensure_known first now db e) (ensure_known second later db e)
        | inl e ↦
            rw (ensure_new first now db e)
              (ensure_known second later (seeded first now db) (find-append db.config _ e refl))
      ]
