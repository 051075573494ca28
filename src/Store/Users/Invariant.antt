-- ===== src/Store/Users/Invariant.antt =====
-- The operations on the user table keep the database valid.
use reporting_and_mapping.Prelude.{
  ℕ, ◌≡◌, refl, ◌∙◌, ap, String, ◌==◌, eqb, any, any-append, update_where, Bool-cases, Option-cases,
  Bool, any_of_find-none, inl, inr,
}
use reporting_and_mapping.Prelude.Unique.{
  IsUnique-append, IsUnique-update_where, any-update_where_same,
}
use reporting_and_mapping.Platform.{Float64, Sqlite}
use reporting_and_mapping.Identity.{Crypto, opaque_user_id}
use reporting_and_mapping.Db.{Time, UserRow, Database}
use reporting_and_mapping.Db.Monad.{Result, ok, err}
use reporting_and_mapping.Db.Invariant.{IsValid, Keeps, same_user_id, same_opaque_id}
use reporting_and_mapping.Db.Invariant.Inserts.{fresh_key}
use reporting_and_mapping.Db.Invariant.Rules.{users-Keeps, Result-cases}
use reporting_and_mapping.Store.{Store}
use reporting_and_mapping.Store.Users.{
  user_with_opaque, upsert_user, resolve_with, resolve_user, hash_seed, set_user_role,
  set_user_called,
}

module _ {F : Type 0} ⦃fl : Float64 F⦄ ⦃sq : Sqlite F⦄ where
  -- An UPDATE that leaves both keys of every user alone.
  update_users-IsValid :
      (p : UserRow → Bool) (f : UserRow → UserRow) (db : Database F)
      → ((u : UserRow) → (f u).id ≡ u.id)
      → ((u : UserRow) → (f u).opaque_id ≡ u.opaque_id)
      → IsValid db
      → IsValid (record db { users = update_where p f db.users })
  update_users-IsValid p f db ids opaques v =
      users-Keeps db _ v
        (IsUnique-update_where same_user_id f (λ a b. ap (λ i. eqb i b.id) (ids a))
          (λ a b. ap (eqb a.id) (ids b)) p db.users v.user_ids)
        (IsUnique-update_where same_opaque_id f (λ a b. ap (λ o. o == b.opaque_id) (opaques a))
          (λ a b. ap (λ o. a.opaque_id == o) (opaques b)) p db.users v.opaque_ids)
        (λ i h. any-update_where_same p f _ (λ a. ap (λ j. eqb j i) (ids a)) db.users ∙ h)

  pub set_user_role-Keeps : (o role : String) → Keeps {F = F} (set_user_role o role)
  unfolding set_user_role
  set_user_role-Keeps o role db v = elim (Bool-cases (any (λ u. u.opaque_id == o) db.users)) [
    | inr e ↦ rw e v
    | inl e ↦ rw e (update_users-IsValid _ _ db (λ u. refl) (λ u. refl) v)
  ]

  pub set_user_called-Keeps : (i : ℕ) (called : String) → Keeps {F = F} (set_user_called i called)
  unfolding set_user_called
  set_user_called-Keeps i called db v = elim (Bool-cases (any (λ u. eqb u.id i) db.users)) [
    | inr e ↦ rw e v
    | inl e ↦ rw e (update_users-IsValid _ _ db (λ u. refl) (λ u. refl) v)
  ]

  pub upsert_user-Keeps : (o : String) (now : Time) → Keeps {F = F} (upsert_user o now)
  unfolding upsert_user
  upsert_user-Keeps o now db v = elim (Option-cases (user_with_opaque o db.users)) [
    | inl e ↦
        rw (e, upsert_user)
          (users-Keeps db _ v
            (IsUnique-append same_user_id db.users _ v.user_ids
              (fresh_key F (λ (u : UserRow). u.id) db.users))
            (IsUnique-append same_opaque_id db.users _ v.opaque_ids (any_of_find-none _ db.users e))
            (λ i h. rw (any-append (λ u. eqb u.id i) db.users _, h) refl))
    | inr (u, e) ↦ rw (e, upsert_user) (update_users-IsValid _ _ db (λ u. refl) (λ u. refl) v)
  ]

module _ {F : Type 0} ⦃fl : Float64 F⦄ ⦃sq : Sqlite F⦄ ⦃cr : Crypto⦄ where
  pub resolve_with-Keeps :
      (seed : Result String) (subject : String) (now : Time)
      → Keeps {F = F} (resolve_with seed subject now)
  unfolding resolve_with
  resolve_with-Keeps (err e) subject now db v = v
  resolve_with-Keeps (ok seed) subject now db v =
      elim (Result-cases (opaque_user_id seed subject)) [
        | inl (o, e) ↦ rw (e, resolve_with) (upsert_user-Keeps o now db v)
        | inr (x, e) ↦ rw (e, resolve_with) v
      ]

  -- Registering or bumping a user leaves a valid database valid, whatever the outcome.
  pub resolve_user-IsValid :
      (st : Store) (subject : String) (now : Time) (db : Database F)
      → IsValid db
      → IsValid (resolve_user st subject now db).2
  unfolding resolve_user
  resolve_user-IsValid st subject now db v = resolve_with-Keeps (hash_seed st db).0 subject now db v
