-- ===== src/Startup/Identities/Migrated.antt =====
-- The migration of the opaque ids: all or nothing, and what it leaves.
use mathlib.Core.Path.{subst}
use reporting_and_mapping.Prelude.{
  ℕ, ◌≡◌, refl, sym, ap, ◌∙◌, true, false, String, Option, none, some, List, [], ◌∷◌, ◌==◌, eqb,
  eqb_iff, eq_iff, any, update_where, ◌⊎◌, inl, inr, Bool-cases, arith,
}
use reporting_and_mapping.Prelude.Unique.{IsUnique, IsUnique-update_where, any-update_where_same}
use reporting_and_mapping.Platform.{Float64, Sqlite}
use reporting_and_mapping.Identity.{Crypto}
use reporting_and_mapping.Db.{UserRow, Database}
use reporting_and_mapping.Db.Monad.{StoreError, Result, ok, err, transaction, ◌>>◌}
use reporting_and_mapping.Db.Invariant.{IsValid, Keeps, same_user_id, same_opaque_id}
use reporting_and_mapping.Db.Invariant.Rules.{
  Result-cases, users-Keeps, >>=-Keeps, transaction-Keeps, >>=-ok, >>=-err,
}
use reporting_and_mapping.Startup.Identities.{
  is_taken, has_id, with_opaque, set_opaque_id, set_opaque_ids, drop_table, rehash, migrate,
  migrate_table, drop_user_identities,
}

module _ (i : ℕ) (o : String) where
  -- A text other than the new id is among the ids afterwards only if it was before.
  any-other :
      (x : String) (us : List UserRow)
      → (x == o) ≡ false
      → any (λ (v : UserRow). x == v.opaque_id) us ≡ false
      → any (λ (v : UserRow). x == v.opaque_id) (update_where (has_id i) (with_opaque o) us) ≡ false
  any-other x [] d h = refl
  any-other x (u ∷ us) d h = elim (Bool-cases (has_id i u)) [
    | inl e ↦ rw (e, d) (any-other x us d (ground arith))
    | inr e ↦ rw e (ground (arith, any-other x us d))
  ]

  -- Where no user has the number and no other user the new id, nobody has it afterwards.
  any-new :
      (us : List UserRow)
      → any (has_id i) us ≡ false
      → any (is_taken i o) us ≡ false
      → any (λ (v : UserRow). o == v.opaque_id) (update_where (has_id i) (with_opaque o) us) ≡ false
  any-new [] h k = refl
  any-new (u ∷ us) h k = elim (Bool-cases (has_id i u)) [
    | inl e ↦ let bad : true ≡ false = ground arith in cc
    | inr e ↦ rw e (ground (arith, any-new us))
  ]

  IsUnique-opaque :
      (us : List UserRow)
      → IsUnique same_user_id us
      → IsUnique same_opaque_id us
      → any (is_taken i o) us ≡ false
      → IsUnique same_opaque_id (update_where (has_id i) (with_opaque o) us)
  IsUnique-opaque [] ids opaques free = tt
  IsUnique-opaque (u ∷ us) (id, ids) (op, ops) free =
      let rest = IsUnique-opaque us ids ops (ground arith) in
      elim (Bool-cases (has_id i u)) [
        | inl e ↦
            let alone : any (has_id i) us ≡ false =
              ap (λ k. any (λ (v : UserRow). eqb v.id k) us) (sym ((eqb_iff u.id i).0 e))
              ∙ no_other u us id in
            rw e (any-new us alone (ground arith), rest)
        | inr e ↦
            let apart : (u.opaque_id == o) ≡ false = differs u e (ground arith) in
            rw e (any-other u.opaque_id us apart op, rest)
      ]
    where
      no_other :
          (u : UserRow) (vs : List UserRow)
          → any (same_user_id u) vs ≡ false
          → any (λ (v : UserRow). eqb v.id u.id) vs ≡ false
      no_other u [] h = refl
      no_other u (v ∷ vs) h = ground (arith, no_other u vs)

      differs :
          (u : UserRow) → has_id i u ≡ false → is_taken i o u ≡ false → (u.opaque_id == o) ≡ false
      differs u e h = elim (Bool-cases (u.opaque_id == o)) [
        | inr n ↦ n
        | inl t ↦
            let same : (o == u.opaque_id) ≡ true =
              (eq_iff o u.opaque_id).1 (sym ((eq_iff u.opaque_id o).0 t)) in
            let bad : true ≡ false = rw (same, e) at h in cc
      ]

module _ {F : Type 0} ⦃fl : Float64 F⦄ ⦃sq : Sqlite F⦄ where
  set_opaque_id-Keeps : (i : ℕ) (o : String) → Keeps {F = F} (set_opaque_id i o)
  unfolding set_opaque_id
  set_opaque_id-Keeps i o db v = elim (Bool-cases (any (has_id i) db.users)) [
    | inl known ↦ elim (Bool-cases (any (is_taken i o) db.users)) [
      | inl taken ↦ rw (known, taken) v
      | inr free ↦
          rw (known, free) (moved db v (IsUnique-opaque i o db.users v.user_ids v.opaque_ids free))
    ]
    | inr nobody ↦ rw nobody (
        moved db v
          (subst (IsUnique same_opaque_id) (sym (update_nobody db.users nobody)) v.opaque_ids))
  ]
    where
      moved :
          (db : Database F)
          → IsValid db
          → IsUnique same_opaque_id (update_where (has_id i) (with_opaque o) db.users)
          → IsValid (record db { users = update_where (has_id i) (with_opaque o) db.users })
      moved db v unique =
          users-Keeps db _ v
            (IsUnique-update_where same_user_id (with_opaque o) (λ a b. refl) (λ a b. refl)
              (has_id i) db.users v.user_ids)
            unique
            (λ j h. any-update_where_same (has_id i) (with_opaque o) _ (λ a. refl) db.users ∙ h)

      update_nobody :
          (us : List UserRow)
          → any (has_id i) us ≡ false
          → update_where (has_id i) (with_opaque o) us ≡ us
      update_nobody [] h = refl
      update_nobody (u ∷ us) h = elim (Bool-cases (has_id i u)) [
        | inl e ↦ let bad : true ≡ false = ground arith in cc
        | inr e ↦ rw e (ap (λ l. u ∷ l) (update_nobody us (ground arith)))
      ]

  set_opaque_ids-Keeps : (pending : List (ℕ × String)) → Keeps {F = F} (set_opaque_ids pending)
  unfolding set_opaque_ids
  set_opaque_ids-Keeps [] db v = v
  set_opaque_ids-Keeps ((i, o) ∷ pending) db v =
      >>=-Keeps (set_opaque_id i o) (λ _. set_opaque_ids pending) (set_opaque_id-Keeps i o)
        (λ _. set_opaque_ids-Keeps pending) db v

  drop_table-Keeps : Keeps {F = F} drop_table
  drop_table-Keeps db v = record {
    user_ids = v.user_ids;
    opaque_ids = v.opaque_ids;
    location_ids = v.location_ids;
    sighting_ids = v.sighting_ids;
    located = v.located;
    reported = v.reported;
    flags = v.flags;
    notes = v.notes;
  }

module _ {F : Type 0} ⦃fl : Float64 F⦄ ⦃sq : Sqlite F⦄ ⦃cr : Crypto⦄ where
  migrate-Keeps : (seed : String) (rows : List (ℕ × String)) → Keeps {F = F} (migrate seed rows)
  migrate-Keeps seed rows db v = elim (Result-cases (rehash seed rows)) [
    | inr (x, e) ↦ rw (migrate, e) v
    | inl (pending, e) ↦
        rw (migrate, e)
          (>>=-Keeps (set_opaque_ids pending) (λ _. drop_table) (set_opaque_ids-Keeps pending)
            (λ _. drop_table-Keeps) db v)
  ]

  migrate_table-Keeps :
      (seed : String) (t : Option (List (ℕ × String))) → Keeps {F = F} (migrate_table seed t)
  migrate_table-Keeps seed none db v = v
  migrate_table-Keeps seed (some rows) db v =
      transaction-Keeps (migrate seed rows) (migrate-Keeps seed rows) db v

  -- The migration leaves a valid database valid: in particular no two users share an opaque id.
  pub drop_user_identities-IsValid :
      (seed : String) (db : Database F) → IsValid db → IsValid (drop_user_identities seed db).1
  unfolding drop_user_identities
  drop_user_identities-IsValid seed db = migrate_table-Keeps seed db.user_identities db

module _ {F : Type 0} ⦃cr : Crypto⦄ where
  migrate_drops :
      (seed : String) (rows : List (ℕ × String)) (db : Database F)
      → (migrate seed rows db).0 ≡ ok tt
      → (migrate seed rows db).1.user_identities ≡ none
  migrate_drops seed rows db h = elim (Result-cases (rehash seed rows)) [
    | inr (x, e) ↦ let k = rw (migrate, e) at h in cc
    | inl (pending, e) ↦ elim (Result-cases (set_opaque_ids pending db).0) [
      | inr (x, f) ↦
          let k : ((set_opaque_ids pending >> drop_table) db).0 ≡ ok tt = rw (migrate, e) at h in
          let stop =
            >>=-err (set_opaque_ids pending) (λ _. drop_table) db
              (λ i. (f i, (set_opaque_ids pending db).1)) in
          let bad : err x ≡ ok tt = sym (ap (λ p. p.0) stop) ∙ k in cc
      | inl (t, f) ↦
          rw (migrate, e)
            (ap (λ p. p.1.user_identities)
              (>>=-ok (set_opaque_ids pending) (λ _. drop_table) db
                (λ i. (f i, (set_opaque_ids pending db).1))))
    ]
  ]

  abbrev IsAllOrNothing : Database F → Result (Unit {0}) × Database F → Type 0
  IsAllOrNothing db p =
      ((p.0 ≡ ok tt) × (p.1.user_identities ≡ none)) ⊎ ((e : StoreError) × (p ≡ (err e, db)))

  migrate_table_lem :
      (seed : String) (t : Option (List (ℕ × String))) (db : Database F)
      → db.user_identities ≡ t
      → IsAllOrNothing db (migrate_table seed t db)
  migrate_table_lem seed none db h = inl (refl, h)
  migrate_table_lem seed (some rows) db h = elim (Result-cases (migrate seed rows db).0) [
    | inr (x, f) ↦ rw (migrate_table, transaction, f) (inr (x, refl))
    | inl (t, f) ↦ rw (migrate_table, transaction, f) (inl (f, migrate_drops seed rows db f))
  ]

  -- The migration is all or nothing: it succeeds and the table of subjects is gone, or it answers an
  -- error and the database is as it was.
  pub drop_user_identities_lem :
      (seed : String) (db : Database F)
      → let (r, db') = drop_user_identities seed db in
        ((r ≡ ok tt) × (db'.user_identities ≡ none))
        ⊎ ((e : StoreError) × (drop_user_identities seed db ≡ (err e, db)))
  unfolding drop_user_identities
  drop_user_identities_lem seed db = migrate_table_lem seed db.user_identities db refl
