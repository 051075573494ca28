-- ===== src/Store/Users/Resolve.antt =====
-- What `ResolveUser` promises: one row for each identity, whose role and id do not change.
use reporting_and_mapping.Prelude.{
  ◌≡◌, refl, ◌∙◌, String, Option, none, some, List, [], ◌∷◌, ◌++◌, map, ◌==◌, find_sound,
  update_where, Bool-cases, Option-cases, inl, inr, arith, eq_iff, if◌then◌else◌,
}
use mathlib.Core.Option
use mathlib.Core.Option.{some-injective}
use reporting_and_mapping.Platform.{Sqlite}
use reporting_and_mapping.Identity.{Crypto, opaque_user_id}
use reporting_and_mapping.Db.{Time, rfc3339, UserRow, Database}
use reporting_and_mapping.Db.Monad.{ok}
use reporting_and_mapping.Store.{Store}
use reporting_and_mapping.Store.Users.{
  new_user, seen, user_with_opaque, upsert_user, resolve_with, resolve_user, hash_seed,
}

-- What a lookup of `p` finds after the rows with opaque id `o` were changed.
pub find-update_opaque :
    (o p : String) (f : UserRow → UserRow) (us : List UserRow)
    → ((u : UserRow) → (f u).opaque_id ≡ u.opaque_id)
    → user_with_opaque p (update_where (λ u. u.opaque_id == o) f us)
      ≡ (if o == p then Option.map f (user_with_opaque p us) else user_with_opaque p us)
find-update_opaque o p f [] h = ground arith
find-update_opaque o p f (u ∷ us) h = ground (
  arith,
  h u,
  find-update_opaque o p f us h,
  eq_iff u.opaque_id o,
  eq_iff u.opaque_id p,
  eq_iff o p,
)

find-append_new :
    (p : String) (u : UserRow) (us : List UserRow)
    → user_with_opaque u.opaque_id us ≡ none
    → user_with_opaque p (us ++ u ∷ [])
      ≡ (if u.opaque_id == p then some u else user_with_opaque p us)
find-append_new p u [] h = refl
find-append_new p u (v ∷ us) h = ground (
  arith,
  find-append_new p u us,
  eq_iff v.opaque_id p,
  eq_iff v.opaque_id u.opaque_id,
  eq_iff u.opaque_id p,
)

-- A returning user's row, bumped, or a new reporter's.
abbrev pub IsFrom : Time → Option UserRow → UserRow → Type 0
IsFrom now (some v) u = u ≡ seen now v
IsFrom now none u = (u.role ≡ "reporter") × (u.registered_at ≡ rfc3339 now) × (u.called ≡ "")

-- The row that an upsert of `o` answers, and what every lookup finds afterwards.
pub record IsUpserted {F : Type 0} (o : String) (now : Time) (db db' : Database F) (u : UserRow)
    : Type 0 where
  pub identity : u.opaque_id ≡ o
  pub heartbeat : u.last_seen_at ≡ rfc3339 now
  pub lookup :
      (p : String)
      → user_with_opaque p db'.users ≡ (if o == p then some u else user_with_opaque p db.users)
  pub origin : IsFrom now (user_with_opaque o db.users) u

module _ {F : Type 0} ⦃sq : Sqlite F⦄ where
  pub upsert_user-IsUpserted :
      (o : String) (now : Time) (db : Database F)
      → (u : UserRow) × ((upsert_user o now db).0 ≡ ok u)
        × IsUpserted o now db (upsert_user o now db).1 u
  unfolding upsert_user
  upsert_user-IsUpserted o now db = elim (Option-cases (user_with_opaque o db.users)) [
    | inl e ↦
        let u : UserRow = new_user (sq.fresh (map (λ (u : UserRow). u.id) db.users)) o now in
        (
          u,
          rw (e, upsert_user) refl,
          rw (e, upsert_user)
              (record {
                identity = refl;
                heartbeat = refl;
                lookup = λ p. find-append_new p u db.users e;
                origin = rw e (refl, refl, refl);
              }),
        )
    | inr (v, e) ↦
        let same : v.opaque_id ≡ o = (eq_iff v.opaque_id o).0 (find_sound _ db.users e).0 in
        (
          seen now v,
          rw (e, upsert_user) refl,
          rw (e, upsert_user)
              (record {
                identity = same;
                heartbeat = refl;
                lookup = λ p. found p v e;
                origin = rw e refl;
              }),
        )
  ]
    where
      found :
          (p : String) (v : UserRow)
          → user_with_opaque o db.users ≡ some v
          → user_with_opaque p (update_where (λ u. u.opaque_id == o) (seen now) db.users)
            ≡ (if o == p then some (seen now v) else user_with_opaque p db.users)
      found p v e = elim (Bool-cases (o == p)) [
        | inr t ↦ find-update_opaque o p (seen now) db.users (λ u. refl) ∙ rw t refl
        | inl t ↦
            find-update_opaque o p (seen now) db.users (λ u. refl)
            ∙ rw (t, ← (eq_iff o p).0 t, e) refl
      ]

module _ {F : Type 0} ⦃sq : Sqlite F⦄ ⦃cr : Crypto⦄ where
  -- With a readable seed and a subject that has an opaque id, the call answers the one user who has
  -- that id, bumps that user's heartbeat, leaves every other user as found before, keeps the row of
  -- a returning user but for the heartbeat, and registers a new user as a reporter.
  pub resolve_user-IsUpserted :
      (st : Store) (subject : String) (now : Time) (db : Database F) {seed o : String}
      → (hash_seed st db).0 ≡ ok seed
      → opaque_user_id seed subject ≡ ok o
      → (u : UserRow) × ((resolve_user st subject now db).0 ≡ ok u)
        × IsUpserted o now db (resolve_user st subject now db).2 u
  unfolding resolve_user
  resolve_user-IsUpserted st subject now db {o} h d =
      rw (h, resolve_with, d) (upsert_user-IsUpserted o now db)
