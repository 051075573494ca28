-- ===== src/RoleTool/Granted.antt =====
-- What the tool does to a user's role and permissions.
use reporting_and_mapping.Prelude.{
  any_of_find-some, any_of_find-none, ℕ, ◌≡◌, refl, ◌∙◌, ◌⊎◌, inl, inr, Bool, true, false, String,
  Option, none, some, List, [], ◌∷◌, ◌==◌, ◌||◌, Bool-cases, Option-cases,
}
use reporting_and_mapping.Prelude.{eq_refl, eq_iff}
use reporting_and_mapping.Identity.{Crypto}
use reporting_and_mapping.Db.{Time, UserRow, Database}
use reporting_and_mapping.Db.Monad.{Action, ok, ◌>>=◌, ◌>>◌}
use reporting_and_mapping.Db.Invariant.Rules.{Result-cases}
use reporting_and_mapping.Startup.{
  lists, ensure_user_id_hash_seed, seed_role_permissions, has_permission-seed_role_permissions,
}
use reporting_and_mapping.Startup.Identities.{drop_user_identities}
use reporting_and_mapping.Startup.Restart.{open_database}
use reporting_and_mapping.Store.Users.{user_with_opaque, set_user_role, has_permission}
use reporting_and_mapping.Store.Users.Returning.{set_user_role_lem}
use reporting_and_mapping.RoleTool.{
  assigned, unknown_user, handle_set, handle_list, command, role_tool,
}

-- A chain that succeeds is two calls that do.
>>=-inv :
    {F A B : Type 0} (m : Action F A) (f : A → Action F B) (db : Database F) {b : B}
    → ((m >>= f) db).0 ≡ ok b
    → (a : A) × ((m db).0 ≡ ok a) × ((m >>= f) db ≡ f a (m db).1) × ((f a (m db).1).0 ≡ ok b)
>>=-inv m f db h = elim (Result-cases (m db).0) [
  | inr (x, e) ↦ let k = rw (e, ◌>>=◌) at h in cc
  | inl (a, e) ↦ let k = rw (e, ◌>>=◌) at h in (a, e, rw (e, ◌>>=◌) refl, k)
]

module _ {F : Type 0} ⦃cr : Crypto⦄ where
  -- After a successful opening a role has every permission that its default entry lists.
  pub open_database-granted :
      (random : Option (List ℕ)) (entries : List (String × List String)) (now : Time)
      (db : Database F) (role permission : String)
      → (open_database random entries now db).0 ≡ ok tt
      → lists entries role permission ≡ true
      → has_permission (open_database random entries now db).1 role permission ≡ true
  unfolding open_database
  open_database-granted random entries now db role permission h listed =
      let rest =
        λ (seed : String). drop_user_identities {F = F} seed >> seed_role_permissions entries in
      let (seed, _, e, k) = >>=-inv (ensure_user_id_hash_seed random now) rest db h in
      let d = (ensure_user_id_hash_seed {F = F} random now db).1 in
      let (t, _, f, _) =
        >>=-inv (drop_user_identities seed) (λ _. seed_role_permissions entries) d k in
      let d' = (drop_user_identities {F = F} seed d).1 in
      rw (e, f)
        (has_permission-seed_role_permissions entries d' role permission
          ∙ rw listed (or_true (has_permission d' role permission)))
    where
      or_true : (b : Bool) → b || true ≡ true
      or_true true = refl
      or_true false = refl

handle_set_lem :
    {F : Type 0} (o role : String) (db : Database F) {u : UserRow}
    → user_with_opaque o db.users ≡ some u
    → let (out, db') = handle_set (o ∷ role ∷ []) db in
      (out ≡ assigned o role)
      × (user_with_opaque o db'.users ≡ some (record u { role = role }))
      × (db'.role_permissions ≡ db.role_permissions)
unfolding handle_set set_user_role
handle_set_lem o role db found =
    let (lookup, refused) = set_user_role_lem o role o db in
    let there_is = any_of_find-some (λ (u : UserRow). u.opaque_id == o) db.users found in
    let k = rw (there_is, eq_refl o, found) at lookup in rw there_is (refl, k, refl)

handle_set-none :
    {F : Type 0} (o role : String) (db : Database F)
    → user_with_opaque o db.users ≡ none
    → handle_set (o ∷ role ∷ []) db ≡ (unknown_user o, db)
unfolding handle_set set_user_role
handle_set-none o role db found =
    rw (any_of_find-none (λ (u : UserRow). u.opaque_id == o) db.users found) refl

handle_set_cases :
    {F : Type 0} (args : List String) (db : Database F)
    → ((handle_set args db).1 ≡ db)
      ⊎ ((o : String) × (role : String) × (u : UserRow) × (args ≡ o ∷ role ∷ [])
          × (user_with_opaque o db.users ≡ some u)
          × ((handle_set args db).0 ≡ assigned o role))
unfolding handle_set
handle_set_cases [] db = inl refl
handle_set_cases (o ∷ []) db = inl refl
handle_set_cases (o ∷ role ∷ a ∷ args) db = inl refl
handle_set_cases (o ∷ role ∷ []) db = elim (Option-cases (user_with_opaque o db.users)) [
  | inl e ↦ inl (λ i. (handle_set-none o role db e i).1)
  | inr (u, e) ↦ inr (o, role, u, refl, e, (handle_set_lem o role db e).0)
]

command_lem :
    {F : Type 0} (args : List String) (db : Database F)
    → ((command args db).1 ≡ db)
      ⊎ ((o : String) × (role : String) × (u : UserRow) × (args ≡ "set" ∷ o ∷ role ∷ [])
          × (user_with_opaque o db.users ≡ some u)
          × ((command args db).0 ≡ assigned o role))
unfolding command handle_list
command_lem [] db = inl refl
command_lem (cmd ∷ args) db = elim (Bool-cases (cmd == "list")) [
  | inl e ↦ rw e (inl refl)
  | inr e ↦ elim (Bool-cases (cmd == "set")) [
    | inr k ↦ rw (e, k) (inl refl)
    | inl k ↦ elim (handle_set_cases args db) [
      | inl same ↦ rw (e, k) (inl same)
      | inr (o, role, u, shape, found, out) ↦
          let is_set : cmd ≡ "set" = (eq_iff cmd "set").0 k in
          rw (e, k) (inr (o, role, u, (λ i. is_set i ∷ shape i), found, out))
    ]
  ]
]

module _ {F : Type 0} ⦃cr : Crypto⦄ where
  opened_lem :
      (random : Option (List ℕ)) (entries : List (String × List String)) (now : Time)
      (args : List String) (db : Database F)
      → (open_database random entries now db).0 ≡ ok tt
      → role_tool random entries now args db ≡ command args (open_database random entries now db).1
  unfolding role_tool
  opened_lem random entries now args db h = rw (role_tool, h) refl

  -- Once the database is opened, setting the role of a user who is there reports the assignment; the
  -- user has the role afterwards, and the role has each permission that its default entry lists.
  pub role_tool_grants :
      (random : Option (List ℕ)) (entries : List (String × List String)) (now : Time)
      (o role permission : String) (db : Database F) {u : UserRow}
      → (open_database random entries now db).0 ≡ ok tt
      → user_with_opaque o (open_database random entries now db).1.users ≡ some u
      → lists entries role permission ≡ true
      → let (out, db') = role_tool random entries now ("set" ∷ o ∷ role ∷ []) db in
        (out ≡ assigned o role)
        × (user_with_opaque o db'.users ≡ some (record u { role = role }))
        × (has_permission db' role permission ≡ true)
  unfolding command has_permission
  role_tool_grants random entries now o role permission db h found listed =
      let d = (open_database random entries now db).1 in
      let (out, lookup, same) = handle_set_lem o role d found in
      let granted = open_database-granted random entries now db role permission h listed in
      rw (opened_lem random entries now ("set" ∷ o ∷ role ∷ []) db h, same) (out, lookup, granted)

  -- Once the database is opened, the tool changes nothing, whatever the arguments are, except where it
  -- reports the assignment of a role: it was asked for that, and the user is there.
  pub role_tool_reports :
      (random : Option (List ℕ)) (entries : List (String × List String)) (now : Time)
      (args : List String) (db : Database F)
      → (open_database random entries now db).0 ≡ ok tt
      → let d = (open_database random entries now db).1 in
        let (out, db') = role_tool random entries now args db in
        (db' ≡ d)
        ⊎ ((o : String) × (role : String) × (u : UserRow) × (args ≡ "set" ∷ o ∷ role ∷ [])
            × (user_with_opaque o d.users ≡ some u)
            × (out ≡ assigned o role))
  role_tool_reports random entries now args db h =
      rw (opened_lem random entries now args db h)
        (command_lem args (open_database random entries now db).1)
