-- ===== src/Store/Users/Registered.antt =====
-- The store's actions unregister nobody.
use reporting_and_mapping.Prelude.{
  ◌==◌, ℕ, ◌≡◌, refl, ap, ◌∙◌, inl, inr, Bool, String, Option-cases, Bool-cases, eqb, any,
  any-append, update_where, arith,
}
use reporting_and_mapping.Prelude.Unique.{any-update_where_same}
use reporting_and_mapping.Platform.{Float64, Sqlite}
use reporting_and_mapping.Db.{Time, UserRow, Database}
use reporting_and_mapping.Db.Registered.{HasUsersOf, KeepsUsers, >>=-KeepsUsers}
use reporting_and_mapping.Identity.{Crypto, opaque_user_id}
use reporting_and_mapping.Db.Monad.{Result, ok, err}
use reporting_and_mapping.Db.Invariant.Rules.{Result-cases}
use reporting_and_mapping.Store.Users.{
  user_with_opaque, upsert_user, resolve_with, set_user_role, set_user_called,
}
use reporting_and_mapping.Db.{LocationRow}
use reporting_and_mapping.Db.Monad.{pure, ◌>>=◌}
use reporting_and_mapping.Db.Tables.{insert_location, insert_sighting_row, insert_flag, insert_note}
use reporting_and_mapping.Store.Users.{user_by_opaque}
use reporting_and_mapping.Store.Sightings.{
  SightingInput, existence, is_at, new_location, ensure_location, insert_at_location,
  insert_sighting,
}
use reporting_and_mapping.Store.Reputation.{set_insincere, add_note}

module _ {F : Type 0} where
  pub update_users-HasUsersOf :
      (p : UserRow → Bool) (f : UserRow → UserRow) (old db : Database F)
      → ((u : UserRow) → (f u).id ≡ u.id)
      → HasUsersOf old db
      → HasUsersOf old (record db { users = update_where p f db.users })
  update_users-HasUsersOf p f old db ids v i h =
      any-update_where_same p f _ (λ a. ap (λ j. eqb j i) (ids a)) db.users ∙ v i h

  pub set_user_role-KeepsUsers : (o role : String) → KeepsUsers {F = F} (set_user_role o role)
  unfolding set_user_role
  set_user_role-KeepsUsers o role old db v =
      elim (Bool-cases (any (λ u. u.opaque_id == o) db.users)) [
        | inr e ↦ rw e v
        | inl e ↦ rw e (update_users-HasUsersOf _ _ old db (λ u. refl) v)
      ]

  pub set_user_called-KeepsUsers :
      (i : ℕ) (called : String) → KeepsUsers {F = F} (set_user_called i called)
  unfolding set_user_called
  set_user_called-KeepsUsers i called old db v =
      elim (Bool-cases (any (λ u. eqb u.id i) db.users)) [
        | inr e ↦ rw e v
        | inl e ↦ rw e (update_users-HasUsersOf _ _ old db (λ u. refl) v)
      ]

module _ {F : Type 0} ⦃sq : Sqlite F⦄ where
  upsert_user-KeepsUsers : (o : String) (now : Time) → KeepsUsers {F = F} (upsert_user o now)
  unfolding upsert_user
  upsert_user-KeepsUsers o now old db v = elim (Option-cases (user_with_opaque o db.users)) [
    | inl e ↦ rw (e, upsert_user) (λ i h. rw (any-append (λ u. eqb u.id i) db.users _, v i h) refl)
    | inr (u, e) ↦ rw (e, upsert_user) (update_users-HasUsersOf _ _ old db (λ u. refl) v)
  ]

module _ {F : Type 0} ⦃sq : Sqlite F⦄ ⦃cr : Crypto⦄ where
  pub resolve_with-KeepsUsers :
      (seed : Result String) (subject : String) (now : Time)
      → KeepsUsers {F = F} (resolve_with seed subject now)
  unfolding resolve_with
  resolve_with-KeepsUsers (err e) subject now old db v = v
  resolve_with-KeepsUsers (ok seed) subject now old db v =
      elim (Result-cases (opaque_user_id seed subject)) [
        | inl (o, e) ↦ rw (e, resolve_with) (upsert_user-KeepsUsers o now old db v)
        | inr (x, e) ↦ rw (e, resolve_with) v
      ]

module _ {F : Type 0} ⦃fl : Float64 F⦄ ⦃sq : Sqlite F⦄ where
  pub insert_location-KeepsUsers : (l : LocationRow F) → KeepsUsers (insert_location l)
  unfolding insert_location
  insert_location-KeepsUsers l old db v = ground arith

  ensure_location-KeepsUsers : (i : SightingInput F) → KeepsUsers (ensure_location i)
  unfolding ensure_location
  ensure_location-KeepsUsers i old db v = elim (Bool-cases (any (is_at i.lat i.lon) db.locations)) [
    | inl e ↦ rw e v
    | inr e ↦ rw e (
        >>=-KeepsUsers (insert_location (new_location i)) (λ _. pure (tt {0}))
          (insert_location-KeepsUsers (new_location i)) (λ a old d w. w) old db v)
  ]

  insert_at_location-KeepsUsers :
      (i : SightingInput F) (n : ℕ) → KeepsUsers (insert_at_location i n)
  unfolding insert_at_location insert_sighting_row
  insert_at_location-KeepsUsers i n old db v = ground arith

  existence-KeepsUsers : (t : String) → KeepsUsers {F = F} (existence t)
  unfolding existence
  existence-KeepsUsers t old db v = ground arith

  pub insert_sighting-KeepsUsers : (i : SightingInput F) → KeepsUsers (insert_sighting i)
  unfolding insert_sighting
  insert_sighting-KeepsUsers i =
      >>=-KeepsUsers (ensure_location i) (λ _. existence i.transpired >>= insert_at_location i)
        (ensure_location-KeepsUsers i)
        (λ u.
          >>=-KeepsUsers (existence i.transpired) (insert_at_location i)
            (existence-KeepsUsers i.transpired) (insert_at_location-KeepsUsers i))

  pub set_insincere-KeepsUsers :
      (by : ℕ) (o : String) (b : Bool) (now : Time) → KeepsUsers {F = F} (set_insincere by o b now)
  unfolding set_insincere user_by_opaque insert_flag
  set_insincere-KeepsUsers by o b now old db v = ground arith

  pub add_note-KeepsUsers :
      (by : ℕ) (o n : String) (now : Time) → KeepsUsers {F = F} (add_note by o n now)
  unfolding add_note user_by_opaque insert_note
  add_note-KeepsUsers by o n now old db v = ground arith
