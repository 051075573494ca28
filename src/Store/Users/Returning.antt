-- ===== src/Store/Users/Returning.antt =====
-- A returning user, and the two changes that the program makes to a user's row.
use reporting_and_mapping.Prelude.{
  ◌≡◌, refl, ◌∙◌, ap, String, some, ◌==◌, eq_refl, inl, inr, if◌then◌else◌, eq_iff,
  any_of_find-some, Option-cases, none, any_of_find-none, Bool-cases, ◌↔◌,
}
use mathlib.Core.Option
use reporting_and_mapping.Platform.{Sqlite}
use reporting_and_mapping.Identity.{Crypto, opaque_user_id}
use reporting_and_mapping.Db.{Time, UserRow, Database}
use reporting_and_mapping.Db.Invariant.Rules.{Result-cases}
use reporting_and_mapping.Db.Monad.{ok, err, not_found}
use reporting_and_mapping.Store.{Store}
use reporting_and_mapping.Store.Users.{
  seen, user_with_opaque, resolve_with, resolve_user, hash_seed, set_user_role,
}
use reporting_and_mapping.Store.Users.Resolve.{resolve_user-IsUpserted, find-update_opaque}

module _ {F : Type 0} where
  -- Once read, the seed does not change for as long as the server runs, whatever is written.
  pub hash_seed-cached :
      (st : Store) (db later : Database F)
      → hash_seed (hash_seed st db).1 later ≡ ((hash_seed st db).0, (hash_seed st db).1)
  unfolding hash_seed
  hash_seed-cached st db later = elim (Option-cases st.seed) [
    | inl e ↦ rw e refl
    | inr (r, e) ↦ rw e refl
  ]

module _ {F : Type 0} ⦃sq : Sqlite F⦄ ⦃cr : Crypto⦄ where
  resolve_user_seed :
      (st : Store) (subject : String) (now : Time) (db : Database F) {u : UserRow}
      → (resolve_user st subject now db).0 ≡ ok u
      → (seed : String) × (o : String) × ((hash_seed st db).0 ≡ ok seed)
        × (opaque_user_id seed subject ≡ ok o)
  unfolding resolve_user
  resolve_user_seed st subject now db {u} h = elim (Result-cases (hash_seed st db).0) [
    | inr (x, e) ↦ let k = rw (e, resolve_with) at h in cc
    | inl (seed, e) ↦ elim (Result-cases (opaque_user_id seed subject)) [
      | inr (x, d) ↦ let k = rw (e, resolve_with, d) at h in cc
      | inl (o, d) ↦ (seed, o, e, d)
    ]
  ]

  -- A subject that was resolved once resolves to the same row again, on the same server: id, opaque
  -- id, role, registration and note are the first call's, and the heartbeat is the second's.
  pub resolve_user-again :
      (st : Store) (subject : String) (now later : Time) (db : Database F) {u : UserRow}
      → (resolve_user st subject now db).0 ≡ ok u
      → let (_, st', db') = resolve_user st subject now db in
        (resolve_user st' subject later db').0 ≡ ok (seen later u)
  unfolding resolve_user
  resolve_user-again st subject now later db {u} h =
      let (seed, o, e, d) = resolve_user_seed st subject now db h in
      let (v, r, first) = resolve_user-IsUpserted st subject now db e d in
      let st' = (resolve_user st subject now db).1 in
      let db' = (resolve_user st subject now db).2 in
      let (w, r', second) =
        resolve_user-IsUpserted st' subject later db'
          (ap (λ p. p.0) (hash_seed-cached st db db') ∙ e) d in
      let found : user_with_opaque o db'.users ≡ some v = first.lookup o ∙ rw (eq_refl o) refl in
      let same : v ≡ u = cc in
      rw (← same) (r' ∙ ap ok (let k = second.origin in let m = rw found at k in m))

module _ {F : Type 0} where
  -- Changing a role changes the role of the user with that opaque id and nothing that the lookup of
  -- another opaque id finds; it is refused with ErrNotFound exactly if there is no such user.
  pub set_user_role_lem :
      (o role p : String) (db : Database F)
      → let (r, db') = set_user_role o role db in
        (user_with_opaque p db'.users ≡ (
          if o == p
          then Option.map (λ (u : UserRow). record u { role = role }) (user_with_opaque p db.users)
          else user_with_opaque p db.users))
        × ((r ≡ err not_found) ↔ (user_with_opaque o db.users ≡ none))
  unfolding set_user_role
  set_user_role_lem o role p db = elim (Option-cases (user_with_opaque o db.users)) [
    | inl e ↦ rw (any_of_find-none _ db.users e) (unchanged e, ((λ _. e), (λ _. refl)))
    | inr (u, e) ↦ rw (any_of_find-some _ db.users e) (
      find-update_opaque o p (λ u. record u { role = role }) db.users (λ u. refl),
      ((λ h. cc), (λ h. cc)),
    )
  ]
    where
      unchanged :
          user_with_opaque o db.users ≡ none
          → user_with_opaque p db.users ≡ (
              if o == p
              then Option.map
                  (λ (u : UserRow). record u { role = role })
                  (user_with_opaque p db.users)
              else user_with_opaque p db.users)
      unchanged e = elim (Bool-cases (o == p)) [
        | inr t ↦ rw t refl
        | inl t ↦ rw (t, ← (eq_iff o p).0 t, e) refl
      ]
