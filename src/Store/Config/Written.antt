-- ===== src/Store/Config/Written.antt =====
-- What is read from the configuration after it is written.
use mathlib.Core.Path.{subst}
use reporting_and_mapping.Prelude.{
  ◌≡◌, refl, sym, ap, ◌∙◌, Bool, true, false, String, Option, none, some, List, [], ◌∷◌, ◌++◌, ◌==◌,
  eq_iff, any, find, update_where, Bool-cases, Option-cases, inl, inr, if◌then◌else◌, arith,
}
use reporting_and_mapping.Db.{Time, rfc3339, ConfigRow, Database}
use reporting_and_mapping.Db.Monad.{Action, Result, ok, err, not_found, or_raise, pure}
use reporting_and_mapping.Db.Invariant.Rules.{>>=-ok, >>=-err}
use reporting_and_mapping.Store.Config.{config, config_row, set_config}

abbrev row_of : String → String → Time → ConfigRow
row_of key value now = record { key = key; value = value; updated_at = rfc3339 now }

abbrev written : String → Time → ConfigRow → ConfigRow
written value now r = record r { value = value; updated_at = rfc3339 now }

abbrev has_key : String → ConfigRow → Bool
has_key key r = r.key == key

-- The answer for the row that a lookup finds.
abbrev answer : Option ConfigRow → Result String
answer none = err not_found
answer (some r) = ok r.value

module _ (key value : String) (now : Time) where
  updated :
      (o : String) (rows : List ConfigRow)
      → any (has_key key) rows ≡ true
      → answer (config_row o (update_where (has_key key) (written value now) rows))
        ≡ (if key == o then ok value else answer (config_row o rows))
  unfolding config_row
  updated o [] h = cc
  updated o (r ∷ rows) h = elim (Bool-cases (r.key == key)) [
    | inl e ↦ elim (Bool-cases (r.key == o)) [
      | inl t ↦
          let k : (key == o) ≡ true = subst (λ x. (x == o) ≡ true) ((eq_iff r.key key).0 e) t in
          rw (e, t, k) refl
      | inr t ↦
          let k : (key == o) ≡ false = subst (λ x. (x == o) ≡ false) ((eq_iff r.key key).0 e) t in
          rw (e, t, k)
            (elim (Bool-cases (any (has_key key) rows)) [
              | inl more ↦ updated o rows more ∙ rw k refl
              | inr gone ↦ ap (λ l. answer (find (λ r. r.key == o) l)) (unchanged rows gone)
            ])
    ]
    | inr e ↦ elim (Bool-cases (r.key == o)) [
      | inl t ↦ let k : (key == o) ≡ false = apart r e t in rw (e, t, k) refl
      | inr t ↦ rw (e, t) (updated o rows (rw e at h))
    ]
  ]
    where
      unchanged :
          (rows : List ConfigRow)
          → any (has_key key) rows ≡ false
          → update_where (has_key key) (written value now) rows ≡ rows
      unchanged [] h = refl
      unchanged (s ∷ rows) h = elim (Bool-cases (s.key == key)) [
        | inl e ↦ let bad : true ≡ false = ground arith in cc
        | inr e ↦ rw e (ap (λ l. s ∷ l) (unchanged rows (ground arith)))
      ]

      apart : (r : ConfigRow) → (r.key == key) ≡ false → (r.key == o) ≡ true → (key == o) ≡ false
      apart r e t = elim (Bool-cases (key == o)) [
        | inr k ↦ k
        | inl k ↦
            let same : r.key ≡ key = (eq_iff r.key o).0 t ∙ sym ((eq_iff key o).0 k) in
            let bad : true ≡ false = sym ((eq_iff r.key key).1 same) ∙ e in cc
      ]

  added :
      (o : String) (rows : List ConfigRow)
      → any (has_key key) rows ≡ false
      → answer (config_row o (rows ++ row_of key value now ∷ []))
        ≡ (if key == o then ok value else answer (config_row o rows))
  unfolding config_row
  added o [] h = elim (Bool-cases (key == o)) [ inl k ↦ rw k refl | inr k ↦ rw k refl ]
  added o (r ∷ rows) h = elim (Bool-cases (r.key == o)) [
    | inr t ↦ rw t (added o rows (ground arith))
    | inl t ↦ elim (Bool-cases (key == o)) [
      | inr k ↦ rw (t, k) refl
      | inl k ↦
          let same : r.key ≡ key = (eq_iff r.key o).0 t ∙ sym ((eq_iff key o).0 k) in
          let hit : (r.key == key) ≡ true = (eq_iff r.key key).1 same in
          let bad : true ≡ false = ground arith in cc
    ]
  ]

module _ {F : Type 0} where
  config_lem : (o : String) (db : Database F) → (config o db).0 ≡ answer (config_row o db.config)
  unfolding config
  config_lem o db =
      let read : Action F ConfigRow = λ d. or_raise (config_row o d.config) not_found d in
      elim (Option-cases (config_row o db.config)) [
        | inl e ↦
            ap (λ p. p.0)
              (>>=-err read (λ row. pure row.value) db (ap (λ t. or_raise t not_found db) e))
            ∙ ap answer (sym e)
        | inr (r, e) ↦
            ap (λ p. p.0)
              (>>=-ok read (λ row. pure row.value) db (ap (λ t. or_raise t not_found db) e))
            ∙ ap answer (sym e)
      ]

  -- After a key is set, reading that key answers the value, and reading another key answers what it
  -- did before.
  pub config-set_config :
      (key other value : String) (now : Time) (db : Database F)
      → (config other (set_config key value now db).1).0
        ≡ (if key == other then ok value else (config other db).0)
  unfolding set_config
  config-set_config key other value now db =
      config_lem other (set_config key value now db).1
      ∙ elim (Bool-cases (any (has_key key) db.config)) [
        | inl e ↦ rw (e, config_lem other db) (updated key value now other db.config e)
        | inr e ↦ rw (e, config_lem other db) (added key value now other db.config e)
      ]
