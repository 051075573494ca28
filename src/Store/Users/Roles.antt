-- ===== src/Store/Users/Roles.antt =====
-- The store's actions, but for SetUserRole, give no one a role and no role a permission.
use reporting_and_mapping.Prelude.{
  ℕ, ◌≡◌, refl, sym, ◌∙◌, ◌⊎◌, inl, inr, Bool, String, Option, none, some, List, [], ◌∷◌, ◌++◌,
  ◌==◌, eqb, any, map, update_where, if◌then◌else◌, Bool-cases, Option-cases, arith,
}
use reporting_and_mapping.Platform.{Float64, Sqlite}
use reporting_and_mapping.Identity.{Crypto, opaque_user_id}
use reporting_and_mapping.Db.{Time, UserRow, LocationRow, Database}
use reporting_and_mapping.Db.Monad.{Action, Result, ok, err, pure, ◌>>=◌}
use reporting_and_mapping.Db.Invariant.Rules.{Result-cases, >>=-after}
use reporting_and_mapping.Db.Tables.{insert_location, insert_sighting_row, insert_flag, insert_note}
use reporting_and_mapping.Store.Users.{
  user_with_opaque, user_by_opaque, new_user, seen, upsert_user, resolve_with, set_user_called,
}
use reporting_and_mapping.Store.Sightings.{
  SightingInput, existence, is_at, new_location, ensure_location, insert_at_location,
  insert_sighting,
}
use reporting_and_mapping.Store.Reputation.{set_insincere, add_note}

-- The role of the user with the opaque id.
abbrev pub role_of : List UserRow → String → Option String
role_of [] o = none
role_of (u ∷ us) o = let rest = role_of us o in if u.opaque_id == o then some u.role else rest

-- The users of the second list have the roles that they have in the first, or are new reporters.
abbrev pub HasRolesOf : List UserRow → List UserRow → Type 0
HasRolesOf old us =
    (o : String)
    → (role_of us o ≡ role_of old o) ⊎ ((role_of old o ≡ none) × (role_of us o ≡ some "reporter"))

-- No role is given a permission, and no user a role but that of a new reporter.
abbrev pub HasPrivilegesOf : {F : Type 0} → Database F → Database F → Type 0
HasPrivilegesOf old db =
    (db.role_permissions ≡ old.role_permissions) × HasRolesOf old.users db.users

role_of-update_where :
    (p : UserRow → Bool) (f : UserRow → UserRow) (us : List UserRow) (o : String)
    → ((u : UserRow) → (f u).opaque_id ≡ u.opaque_id)
    → ((u : UserRow) → (f u).role ≡ u.role)
    → role_of (update_where p f us) o ≡ role_of us o
role_of-update_where p f [] o same roles = refl
role_of-update_where p f (u ∷ us) o same roles =
    let rest = role_of-update_where p f us o same roles in
    elim (Bool-cases (p u)) [
      | inl e ↦ rw (e, same u, roles u, rest) refl
      | inr e ↦ rw (e, rest) refl
    ]

role_of-append :
    (us : List UserRow) (u : UserRow) (o : String)
    → (role_of (us ++ u ∷ []) o ≡ role_of us o)
      ⊎ ((role_of us o ≡ none) × (role_of (us ++ u ∷ []) o ≡ some u.role))
role_of-append [] u o = elim (Bool-cases (u.opaque_id == o)) [
  | inl e ↦ inr (refl, rw e refl)
  | inr e ↦ inl (rw e refl)
]
role_of-append (v ∷ us) u o = elim (Bool-cases (v.opaque_id == o)) [
  | inl e ↦ inl (rw e refl)
  | inr e ↦ rw e (role_of-append us u o)
]

-- A step that keeps every role, or adds a reporter.
HasRolesOf-step :
    (old us vs : List UserRow)
    → HasRolesOf old us
    → ((o : String)
        → (role_of vs o ≡ role_of us o)
          ⊎ ((role_of us o ≡ none) × (role_of vs o ≡ some "reporter")))
    → HasRolesOf old vs
HasRolesOf-step old us vs h k o = elim (k o) [
  | inl e ↦ elim (h o) [ inl f ↦ inl (e ∙ f) | inr (fresh, f) ↦ inr (fresh, e ∙ f) ]
  | inr (gone, e) ↦ elim (h o) [ inl f ↦ inr (sym f ∙ gone, e) | inr (fresh, f) ↦ inr (fresh, e) ]
]

HasRolesOf-update_where :
    (old us : List UserRow) (p : UserRow → Bool) (f : UserRow → UserRow)
    → HasRolesOf old us
    → ((u : UserRow) → (f u).opaque_id ≡ u.opaque_id)
    → ((u : UserRow) → (f u).role ≡ u.role)
    → HasRolesOf old (update_where p f us)
HasRolesOf-update_where old us p f h same roles =
    HasRolesOf-step old us (update_where p f us) h
      (λ o. inl (role_of-update_where p f us o same roles))

module _ {F : Type 0} where
  -- The call gives nobody a role and no role a permission, however it ends.
  abbrev pub GrantsNothing : {A : Type 0} → Action F A → Type 0
  GrantsNothing m = (old db : Database F) → HasPrivilegesOf old db → HasPrivilegesOf old (m db).1

  >>=-GrantsNothing :
      {A B : Type 0} (m : Action F A) (f : A → Action F B)
      → GrantsNothing m
      → ((a : A) → GrantsNothing (f a))
      → GrantsNothing (m >>= f)
  >>=-GrantsNothing m f h k old db v =
      >>=-after (HasPrivilegesOf old) m f db (h old db v) (λ a d w. k a old d w)

  pub set_user_called-GrantsNothing :
      (i : ℕ) (called : String) → GrantsNothing (set_user_called {F = F} i called)
  unfolding set_user_called
  set_user_called-GrantsNothing i called old db (ps, roles) =
      elim (Bool-cases (any (λ u. eqb u.id i) db.users)) [
        | inr e ↦ rw e (ps, roles)
        | inl e ↦ rw e (
          ps,
          HasRolesOf-update_where old.users db.users (λ u. eqb u.id i)
              (λ u. record u { called = called }) roles (λ u. refl) (λ u. refl),
        )
      ]

module _ {F : Type 0} ⦃sq : Sqlite F⦄ where
  upsert_user-GrantsNothing : (o : String) (now : Time) → GrantsNothing {F = F} (upsert_user o now)
  unfolding upsert_user
  upsert_user-GrantsNothing o now old db (ps, roles) =
      elim (Option-cases (user_with_opaque o db.users)) [
        | inl e ↦
            rw (e, upsert_user)
              (
                ps,
                HasRolesOf-step old.users db.users _ roles (
                    role_of-append db.users
                      (new_user (sq.fresh (map (λ (u : UserRow). u.id) db.users)) o now)),
              )
        | inr (u, e) ↦
            rw (e, upsert_user)
              (
                ps,
                HasRolesOf-update_where old.users db.users (λ v. v.opaque_id == o) (seen now) roles
                    (λ u. refl) (λ u. refl),
              )
      ]

module _ {F : Type 0} ⦃sq : Sqlite F⦄ ⦃cr : Crypto⦄ where
  pub resolve_with-GrantsNothing :
      (seed : Result String) (subject : String) (now : Time)
      → GrantsNothing {F = F} (resolve_with seed subject now)
  unfolding resolve_with
  resolve_with-GrantsNothing (err e) subject now old db v = v
  resolve_with-GrantsNothing (ok seed) subject now old db v =
      elim (Result-cases (opaque_user_id seed subject)) [
        | inl (o, e) ↦ rw (e, resolve_with) (upsert_user-GrantsNothing o now old db v)
        | inr (x, e) ↦ rw (e, resolve_with) v
      ]

module _ {F : Type 0} ⦃fl : Float64 F⦄ ⦃sq : Sqlite F⦄ where
  pub insert_location-GrantsNothing : (l : LocationRow F) → GrantsNothing (insert_location l)
  unfolding insert_location
  insert_location-GrantsNothing l old db v = ground arith

  ensure_location-GrantsNothing : (i : SightingInput F) → GrantsNothing (ensure_location i)
  unfolding ensure_location
  ensure_location-GrantsNothing i old db v =
      elim (Bool-cases (any (is_at i.lat i.lon) db.locations)) [
        | inl e ↦ rw e v
        | inr e ↦ rw e (
            >>=-GrantsNothing (insert_location (new_location i)) (λ _. pure (tt {0}))
              (insert_location-GrantsNothing (new_location i)) (λ a old d w. w) old db v)
      ]

  insert_at_location-GrantsNothing :
      (i : SightingInput F) (n : ℕ) → GrantsNothing (insert_at_location i n)
  unfolding insert_at_location insert_sighting_row
  insert_at_location-GrantsNothing i n old db v = ground arith

  existence-GrantsNothing : (t : String) → GrantsNothing {F = F} (existence t)
  unfolding existence
  existence-GrantsNothing t old db v = ground arith

  pub insert_sighting-GrantsNothing : (i : SightingInput F) → GrantsNothing (insert_sighting i)
  unfolding insert_sighting
  insert_sighting-GrantsNothing i =
      >>=-GrantsNothing (ensure_location i) (λ _. existence i.transpired >>= insert_at_location i)
        (ensure_location-GrantsNothing i)
        (λ u.
          >>=-GrantsNothing (existence i.transpired) (insert_at_location i)
            (existence-GrantsNothing i.transpired) (insert_at_location-GrantsNothing i))

  pub set_insincere-GrantsNothing :
      (by : ℕ) (o : String) (b : Bool) (now : Time)
      → GrantsNothing {F = F} (set_insincere by o b now)
  unfolding set_insincere user_by_opaque insert_flag
  set_insincere-GrantsNothing by o b now old db v = ground arith

  pub add_note-GrantsNothing :
      (by : ℕ) (o n : String) (now : Time) → GrantsNothing {F = F} (add_note by o n now)
  unfolding add_note user_by_opaque insert_note
  add_note-GrantsNothing by o n now old db v = ground arith
