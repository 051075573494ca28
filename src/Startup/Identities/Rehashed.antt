-- ===== src/Startup/Identities/Rehashed.antt =====
-- The migration reaches every user that it has a subject of.
use mathlib.Core.Path.{subst}
use reporting_and_mapping.Prelude.{
  ℕ, ◌≡◌, refl, sym, ap, ◌∙◌, Bool, true, false, String, some, List, [], ◌∷◌, ◌&&◌, ◌||◌, eqb,
  eqb_iff, any, any_of_In, update_where, In, here, there, inl, inr, Bool-cases, arith,
}
use reporting_and_mapping.Prelude.Unique.{IsUnique}
use reporting_and_mapping.Identity.{Crypto, opaque_user_id}
use reporting_and_mapping.Db.{UserRow, Database}
use reporting_and_mapping.Db.Monad.{Action, Result, ok, err, transaction, ◌>>◌}
use reporting_and_mapping.Db.Invariant.Rules.{Result-cases, >>=-ok, >>=-err}
use reporting_and_mapping.Startup.Identities.{
  is_taken, has_id, with_opaque, set_opaque_id, set_opaque_ids, drop_table, rehash, migrate,
  migrate_table, drop_user_identities,
}

-- Two rows of one user.
abbrev pub same_user : {A : Type 0} → ℕ × A → ℕ × A → Bool
same_user p q = eqb p.0 q.0

-- A chain that succeeds began with a success.
>>-inv :
    {F : Type 0} (m k : Action F (Unit {0})) (db : Database F)
    → ((m >> k) db).0 ≡ ok tt
    → (m db ≡ (ok tt, (m db).1)) × ((m >> k) db ≡ k (m db).1)
>>-inv m k db h = elim (Result-cases (m db).0) [
  | inl (t, e) ↦
      let run : m db ≡ (ok tt, (m db).1) = λ i. (e i, (m db).1) in (run, >>=-ok m (λ _. k) db run)
  | inr (x, e) ↦
      let bad : err x ≡ ok tt =
        sym (ap (λ p. p.0) (>>=-err m (λ _. k) db (λ i. (e i, (m db).1)))) ∙ h in
      cc
]

In-update_here :
    (i : ℕ) (o : String) {u : UserRow} {us : List UserRow}
    → u.id ≡ i
    → In u us
    → In (with_opaque o u) (update_where (has_id i) (with_opaque o) us)
In-update_here i o same (here {x} {xs} e) =
    let hit : eqb x.id i ≡ true = (eqb_iff x.id i).1 (ap (λ (v : UserRow). v.id) (sym e) ∙ same) in
    here (ap (with_opaque o) e ∙ rw hit refl)
In-update_here i o same (there {x} {xs} m) = there (In-update_here i o same m)

In-update_other :
    (i : ℕ) (o : String) {u : UserRow} {us : List UserRow}
    → eqb u.id i ≡ false
    → In u us
    → In u (update_where (has_id i) (with_opaque o) us)
In-update_other i o apart (here {x} {xs} e) =
    let miss : eqb x.id i ≡ false = ap (λ (v : UserRow). eqb v.id i) (sym e) ∙ apart in
    here (e ∙ rw miss refl)
In-update_other i o apart (there {x} {xs} m) = there (In-update_other i o apart m)

module _ {F : Type 0} where
  set_opaque_id_runs :
      (i : ℕ) (o : String) (db : Database F)
      → (set_opaque_id i o db).0 ≡ ok tt
      → (set_opaque_id i o db).1.users ≡ update_where (has_id i) (with_opaque o) db.users
  unfolding set_opaque_id
  set_opaque_id_runs i o db h =
      elim (Bool-cases (any (has_id i) db.users && any (is_taken i o) db.users)) [
        | inl e ↦ let k = rw e at h in cc
        | inr e ↦ rw e refl
      ]

  -- Later pairs leave a user alone that none of them names.
  set_opaque_ids_other :
      (pending : List (ℕ × String)) (db : Database F) {u : UserRow}
      → any (λ p. eqb p.0 u.id) pending ≡ false
      → In u db.users
      → (set_opaque_ids pending db).0 ≡ ok tt
      → In u (set_opaque_ids pending db).1.users
  unfolding set_opaque_ids
  set_opaque_ids_other [] db apart m h = m
  set_opaque_ids_other ((i, o) ∷ pending) db {u} apart m h =
      let (first, rest) = >>-inv (set_opaque_id i o) (set_opaque_ids pending) db h in
      let mid = (set_opaque_id i o db).1 in
      let changed = set_opaque_id_runs i o db (ap (λ p. p.0) first) in
      let here_apart : eqb u.id i ≡ false = ground arith in
      let kept : In u mid.users = subst (In u) (sym changed) (In-update_other i o here_apart m) in
      rw rest (set_opaque_ids_other pending mid (ground arith) kept (sym (ap (λ p. p.0) rest) ∙ h))

  set_opaque_ids_lem :
      (pending : List (ℕ × String)) (db : Database F) {o : String} {u : UserRow}
      → IsUnique same_user pending
      → In (u.id, o) pending
      → In u db.users
      → (set_opaque_ids pending db).0 ≡ ok tt
      → In (with_opaque o u) (set_opaque_ids pending db).1.users
  unfolding set_opaque_ids
  set_opaque_ids_lem [] db unique at m h = elim at [ ]
  set_opaque_ids_lem ((i, x) ∷ pending) db {o} {u} (alone, unique) (here e) m h =
      let (first, rest) = >>-inv (set_opaque_id i x) (set_opaque_ids pending) db h in
      let mid = (set_opaque_id i x db).1 in
      let changed = set_opaque_id_runs i x db (ap (λ p. p.0) first) in
      let same : u.id ≡ i = ap (λ (p : ℕ × String). p.0) e in
      let text : o ≡ x = ap (λ (p : ℕ × String). p.1) e in
      let moved : In (with_opaque x u) mid.users =
        subst (In (with_opaque x u)) (sym changed) (In-update_here i x same m) in
      let apart : any (λ (p : ℕ × String). eqb p.0 u.id) pending ≡ false =
        ap (λ k. any (λ (p : ℕ × String). eqb p.0 k) pending) same ∙ flip i pending alone in
      let kept = set_opaque_ids_other pending mid apart moved (sym (ap (λ p. p.0) rest) ∙ h) in
      rw (text, rest) kept
    where
      flip :
          (i : ℕ) (ps : List (ℕ × String))
          → any (λ p. eqb i p.0) ps ≡ false
          → any (λ p. eqb p.0 i) ps ≡ false
      flip i [] h = refl
      flip i (p ∷ ps) h = ground (arith, flip i ps)
  set_opaque_ids_lem ((i, x) ∷ pending) db {o} {u} (alone, unique) (there n) m h =
      let (first, rest) = >>-inv (set_opaque_id i x) (set_opaque_ids pending) db h in
      let mid = (set_opaque_id i x db).1 in
      let changed = set_opaque_id_runs i x db (ap (λ p. p.0) first) in
      let apart : eqb u.id i ≡ false = elim (Bool-cases (eqb u.id i)) [
        | inr k ↦ k
        | inl k ↦
            let named : any (λ (p : ℕ × String). eqb i p.0) pending ≡ true =
              any_of_In (λ (p : ℕ × String). eqb i p.0) n
                ((eqb_iff i u.id).1 (sym ((eqb_iff u.id i).0 k))) in
            let bad : true ≡ false = sym named ∙ alone in cc
      ] in
      let kept : In u mid.users = subst (In u) (sym changed) (In-update_other i x apart m) in
      rw rest (set_opaque_ids_lem pending mid unique n kept (sym (ap (λ p. p.0) rest) ∙ h))

transaction-inv :
    {F : Type 0} (m : Action F (Unit {0})) (db : Database F)
    → (transaction m db).0 ≡ ok tt
    → ((m db).0 ≡ ok tt) × (transaction m db ≡ m db)
transaction-inv {F} m db h = elim (Result-cases (m db).0) [
  | inl (t, e) ↦ (e, ap choose e)
  | inr (x, e) ↦ let k = rw (transaction, e) at h in cc
]
  where
    choose : Result (Unit {0}) → Result (Unit {0}) × Database F
    choose r = elim r [ ok a ↦ m db | err e ↦ (err e, db) ]

ok-injective : {A : Type 0} (a b : A) → ok a ≡ ok b → a ≡ b
ok-injective {A} a b e = ap from e
  where
    from : Result A → A
    from r = elim r [ ok x ↦ x | err x ↦ a ]

module _ ⦃cr : Crypto⦄ where
  rehash-inv :
      (seed : String) (i : ℕ) (s : String) (rows : List (ℕ × String)) {pending : List (ℕ × String)}
      → rehash seed ((i, s) ∷ rows) ≡ ok pending
      → (o : String) × (ps : List (ℕ × String)) × (opaque_user_id seed s ≡ ok o)
        × (rehash seed rows ≡ ok ps)
        × ((i, o) ∷ ps ≡ pending)
  unfolding rehash
  rehash-inv seed i s rows {pending} h = elim (Result-cases (opaque_user_id seed s)) [
    | inr (x, e) ↦ let k = rw (rehash, e) at h in cc
    | inl (o, e) ↦ elim (Result-cases (rehash seed rows)) [
      | inr (x, f) ↦ let k = rw (rehash, e, f) at h in cc
      | inl (ps, f) ↦
          let k : ok ((i, o) ∷ ps) ≡ ok pending = rw (rehash, e, f) at h in
          (o, ps, e, f, ok-injective _ _ k)
    ]
  ]

  In-rehash :
      (seed : String) (rows : List (ℕ × String)) {pending : List (ℕ × String)} {i : ℕ} {s : String}
      → rehash seed rows ≡ ok pending
      → In (i, s) rows
      → (o : String) × (opaque_user_id seed s ≡ ok o) × In (i, o) pending
  In-rehash seed [] h m = elim m [ ]
  In-rehash seed ((j, t) ∷ rows) {pending} {i} {s} h (here e) =
      let (o, ps, d, f, same) = rehash-inv seed j t rows h in
      let number : i ≡ j = ap (λ (p : ℕ × String). p.0) e in
      let subject : s ≡ t = ap (λ (p : ℕ × String). p.1) e in
      (o, rw subject d, subst (In (i, o)) same (here (ap (λ k. (k, o)) number)))
  In-rehash seed ((j, t) ∷ rows) {pending} {i} h (there m) =
      let (o, ps, d, f, same) = rehash-inv seed j t rows h in
      let (x, dx, n) = In-rehash seed rows f m in (x, dx, subst (In (i, x)) same (there n))

  any-rehash :
      (seed : String) (i : ℕ) (rows : List (ℕ × String)) {pending : List (ℕ × String)}
      → rehash seed rows ≡ ok pending
      → any (λ (p : ℕ × String). eqb i p.0) rows ≡ any (λ (p : ℕ × String). eqb i p.0) pending
  unfolding rehash
  any-rehash seed i [] h = ap (any (λ (p : ℕ × String). eqb i p.0)) (ok-injective _ _ h)
  any-rehash seed i ((j, t) ∷ rows) h =
      let (o, ps, d, f, same) = rehash-inv seed j t rows h in
      ap (λ b. eqb i j || b) (any-rehash seed i rows f)
      ∙ ap (any (λ (p : ℕ × String). eqb i p.0)) same

  IsUnique-rehash :
      (seed : String) (rows : List (ℕ × String)) {pending : List (ℕ × String)}
      → rehash seed rows ≡ ok pending
      → IsUnique same_user rows
      → IsUnique same_user pending
  unfolding rehash
  IsUnique-rehash seed [] h u = subst (IsUnique same_user) (ok-injective _ _ h) tt
  IsUnique-rehash seed ((j, t) ∷ rows) h (alone, u) =
      let (o, ps, d, f, same) = rehash-inv seed j t rows h in
      subst (IsUnique same_user) same
        (sym (any-rehash seed j rows f) ∙ alone, IsUnique-rehash seed rows f u)

module _ {F : Type 0} ⦃cr : Crypto⦄ where
  migrate_lem :
      (seed : String) (rows : List (ℕ × String)) (db : Database F) {s : String} {u : UserRow}
      → IsUnique same_user rows
      → In (u.id, s) rows
      → In u db.users
      → (migrate seed rows db).0 ≡ ok tt
      → (o : String) × (opaque_user_id seed s ≡ ok o)
        × In (with_opaque o u) (migrate seed rows db).1.users
  migrate_lem seed rows db {s} {u} unique at m h = elim (Result-cases (rehash seed rows)) [
    | inr (x, e) ↦ let k = rw (migrate, e) at h in cc
    | inl (pending, e) ↦
        let k : ((set_opaque_ids pending >> drop_table) db).0 ≡ ok tt = rw (migrate, e) at h in
        let (first, rest) = >>-inv (set_opaque_ids pending) drop_table db k in
        let (o, d, n) = In-rehash seed rows e at in
        let moved =
          set_opaque_ids_lem pending db (IsUnique-rehash seed rows e unique) n m
            (ap (λ p. p.0) first) in
        rw (migrate, e) (o, d, subst (λ p. In (with_opaque o u) p.1.users) (sym rest) moved)
  ]

  -- When a migration succeeds and no user has two subjects, every user with a subject has the opaque
  -- id that is derived from it afterwards, and is otherwise as before.
  pub drop_user_identities_rehashed :
      (seed : String) (db : Database F) {rows : List (ℕ × String)} {s : String} {u : UserRow}
      → db.user_identities ≡ some rows
      → IsUnique same_user rows
      → In (u.id, s) rows
      → In u db.users
      → (drop_user_identities seed db).0 ≡ ok tt
      → (o : String) × (opaque_user_id seed s ≡ ok o)
        × In (with_opaque o u) (drop_user_identities seed db).1.users
  unfolding drop_user_identities
  drop_user_identities_rehashed seed db {rows} {s} {u} table unique at m h =
      let opened : drop_user_identities seed db ≡ transaction (migrate seed rows) db =
        ap (λ t. migrate_table seed t db) table in
      let (done, run) = transaction-inv (migrate seed rows) db (sym (ap (λ p. p.0) opened) ∙ h) in
      let (o, d, n) = migrate_lem seed rows db unique at m done in
      (o, d, subst (λ p. In (with_opaque o u) p.1.users) (sym (opened ∙ run)) n)
