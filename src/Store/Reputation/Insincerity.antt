-- ===== src/Store/Reputation/Insincerity.antt =====
-- How flags add up, and who may be flagged.
use reporting_and_mapping.Prelude.{
  ℕ, ◌≡◌, refl, sym, ap, ◌∙◌, Bool, true, false, String, none, some, List, [], ◌∷◌, ◌++◌, map, eqb,
  eqb_refl, find_sound, any_of_In, Bool-cases, inl, inr, if◌then◌else◌,
}
use reporting_and_mapping.Prelude.Int.{ℤ, pos, negsuc, ◌+ℤ◌, int_laws, +ℤ_assoc, +ℤ_zero}
use reporting_and_mapping.Platform.{Sqlite}
use reporting_and_mapping.Db.{Time, rfc3339, UserRow, FlagRow, Database, has_user}
use reporting_and_mapping.Db.Invariant.Rules.{>>=-ok, >>=-err}
use reporting_and_mapping.Db.Monad.{Result, ok, err, not_found, pure, ◌>>◌}
use reporting_and_mapping.Db.Tables.{insert_flag}
use reporting_and_mapping.Store.Users.{user_with_opaque, user_by_opaque}
use reporting_and_mapping.Store.Reputation.{
  set_insincere, sum_of_flags, insincerity, is_insincere_flag,
}

sum_of_flags-append :
    (user : ℕ) (fs gs : List FlagRow)
    → sum_of_flags user (fs ++ gs) ≡ sum_of_flags user fs +ℤ sum_of_flags user gs
sum_of_flags-append user [] gs = omega int_laws
sum_of_flags-append user (f ∷ fs) gs = elim (Bool-cases (is_insincere_flag user f)) [
  | inl e ↦ rw (e, sum_of_flags-append user fs gs) (sym (+ℤ_assoc f.value _ _))
  | inr e ↦ rw e (sum_of_flags-append user fs gs)
]

abbrev pub weight : Bool → ℤ
weight insincere = if insincere then pos 1 else negsuc 0

abbrev pub total_weight : List Bool → ℤ
total_weight [] = pos 0
total_weight (b ∷ bs) = weight b +ℤ total_weight bs

abbrev pub flag : ℕ → ℕ → Bool → Time → ℕ → FlagRow
flag by target insincere now id = record {
  id = id;
  target_user_id = target;
  flag_type = "insincere";
  value = weight insincere;
  flagged_by = by;
  created_at = rfc3339 now;
}

module _ {F : Type 0} ⦃sq : Sqlite F⦄ where
  user_by_opaque_known :
      (o : String) (db : Database F) {u : UserRow}
      → user_with_opaque o db.users ≡ some u
      → (user_by_opaque o db ≡ (ok u.id, db)) × (has_user db u.id ≡ true)
  unfolding user_by_opaque
  user_by_opaque_known o db {u} e = (
    rw (user_by_opaque, e) refl,
    any_of_In (λ (v : UserRow). eqb v.id u.id) (find_sound _ db.users e).1 (eqb_refl u.id),
  )

  insert_flag_lem :
      (by target : ℕ) (insincere : Bool) (now : Time) (db : Database F)
      → has_user db target ≡ true
      → has_user db by ≡ true
      → let id = sq.fresh (map (λ (r : FlagRow). r.id) db.user_flags) in
        insert_flag (flag by target insincere now 0) db
        ≡ (ok id, record db { user_flags = db.user_flags ++ flag by target insincere now id ∷ [] })
  unfolding insert_flag
  insert_flag_lem by target true now db t b = rw (t, b) refl
  insert_flag_lem by target false now db t b = rw (t, b) refl

  -- Flagging a known user by a known user succeeds and adds one flag row, at the end.
  set_insincere_lem :
      (by : ℕ) (o : String) (insincere : Bool) (now : Time) (db : Database F) {u : UserRow}
      → user_with_opaque o db.users ≡ some u
      → has_user db by ≡ true
      → let id = sq.fresh (map (λ (r : FlagRow). r.id) db.user_flags) in
        set_insincere by o insincere now db
        ≡ (ok tt, record db { user_flags = db.user_flags ++ flag by u.id insincere now id ∷ [] })
  unfolding set_insincere
  set_insincere_lem by o insincere now db {u} e b =
      let (found, known) = user_by_opaque_known o db e in
      >>=-ok (user_by_opaque o) (λ t. insert_flag (flag by t insincere now 0) >> pure (tt {0})) db
        found
      ∙ >>=-ok (insert_flag (flag by u.id insincere now 0)) (λ _. pure (tt {0})) db
          (insert_flag_lem by u.id insincere now db known b)

  -- A flag set by a known user on a known user raises that user's insincerity by one, a flag
  -- cleared lowers it by one, and no other user's insincerity changes.
  pub insincerity-set_insincere :
      (by : ℕ) (o : String) (insincere : Bool) (now : Time) (db : Database F) (v : ℕ) {u : UserRow}
      → user_with_opaque o db.users ≡ some u
      → has_user db by ≡ true
      → let (r, db') = set_insincere by o insincere now db in
        (r ≡ ok tt)
        × (insincerity db' v
            ≡ (if eqb u.id v then insincerity db v +ℤ weight insincere else insincerity db v))
  unfolding insincerity
  insincerity-set_insincere by o insincere now db v {u} e b =
      rw (set_insincere_lem by o insincere now db e b)
        (refl, sum_of_flags-append v db.user_flags _ ∙ added)
    where
      id : ℕ
      id = sq.fresh (map (λ (r : FlagRow). r.id) db.user_flags)

      added :
          sum_of_flags v db.user_flags +ℤ sum_of_flags v (flag by u.id insincere now id ∷ []) ≡ (
            if eqb u.id v
            then sum_of_flags v db.user_flags +ℤ weight insincere
            else sum_of_flags v db.user_flags)
      added = elim (Bool-cases (eqb u.id v)) [
        | inl t ↦ rw (t, +ℤ_zero (weight insincere)) refl
        | inr t ↦ rw t (+ℤ_zero _)
      ]

  -- Flags and clearings of one user, in order.
  pub flag_in_turn : ℕ → String → List Bool → Time → Database F → Database F
  flag_in_turn by o [] now db = db
  flag_in_turn by o (b ∷ bs) now db = flag_in_turn by o bs now (set_insincere by o b now db).1

  -- After any sequence of flags and clearings of one known user by another, the insincerity is what
  -- it was plus the number of flags less the number of clearings: no flag wins for being the latest.
  pub insincerity-flag_in_turn :
      (by : ℕ) (o : String) (bs : List Bool) (now : Time) (db : Database F) {u : UserRow}
      → user_with_opaque o db.users ≡ some u
      → has_user db by ≡ true
      → insincerity (flag_in_turn by o bs now db) u.id ≡ insincerity db u.id +ℤ total_weight bs
  unfolding flag_in_turn
  insincerity-flag_in_turn by o [] now db e b = sym (+ℤ_zero _)
  insincerity-flag_in_turn by o (x ∷ bs) now db {u} e b =
      let id : ℕ = sq.fresh (map (λ (r : FlagRow). r.id) db.user_flags) in
      let next : Database F = record db {
        user_flags = db.user_flags ++ flag by u.id x now id ∷ [];
      } in
      let done = set_insincere_lem by o x now db e b in
      let one = (insincerity-set_insincere by o x now db u.id e b).1 in
      let sum : insincerity next u.id ≡ insincerity db u.id +ℤ weight x =
        sym (ap (λ (p : Result (Unit {0}) × Database F). insincerity p.1 u.id) done)
        ∙ one
        ∙ rw (eqb_refl u.id) refl in
      rw (done, insincerity-flag_in_turn by o bs now next e b, sum) (+ℤ_assoc _ (weight x) _)

  -- An unknown target is refused with ErrNotFound, and nothing is written.
  pub set_insincere_unknown :
      (by : ℕ) (o : String) (insincere : Bool) (now : Time) (db : Database F)
      → user_with_opaque o db.users ≡ none
      → set_insincere by o insincere now db ≡ (err not_found, db)
  unfolding set_insincere user_by_opaque
  set_insincere_unknown by o insincere now db e =
      >>=-err (user_by_opaque o) (λ t. insert_flag (flag by t insincere now 0) >> pure (tt {0})) db
        (rw (user_by_opaque, e) refl)
