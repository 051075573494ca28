-- ===== src/Db/Monad.antt =====
-- A call of the store: it reads and changes the database, and may end with an error. Statements
-- outside a transaction stay done when a later one fails.
use reporting_and_mapping.Prelude.{Bool, String, Option, none, some, if◌then◌else◌}
use reporting_and_mapping.Db.{Database}

-- `not_found` is store.ErrNotFound; `failure` carries any other error's text.
pub data StoreError : Type 0 where
  not_found : StoreError
  failure : String → StoreError

pub data Result (A : Type 0) : Type 0 where
  ok : A → Result A
  err : StoreError → Result A

abbrev pub Action : Type 0 → Type 0 → Type 0
Action F A = Database F → Result A × Database F

module _ {F A : Type 0} where
  abbrev pub pure : A → Action F A
  pure a db = (ok a, db)

  abbrev pub raise : StoreError → Action F A
  raise e db = (err e, db)

  abbrev pub gets : (Database F → A) → Action F A
  gets f db = (ok (f db), db)

  -- A row that Scan reads, or sql.ErrNoRows turned into the given error.
  abbrev pub or_raise : Option A → StoreError → Action F A
  or_raise none e db = (err e, db)
  or_raise (some a) e db = (ok a, db)

abbrev pub modify : {F : Type 0} → (Database F → Database F) → Action F (Unit {0})
modify f db = (ok tt, f db)

abbrev pub raise_unless : {F : Type 0} → Bool → String → Action F (Unit {0})
raise_unless b e db = (if b then ok tt else err (failure e), db)

infixl 5 ◌>>=◌ ◌>>◌
abbrev pub ◌>>=◌ : {F A B : Type 0} → Action F A → (A → Action F B) → Action F B
◌>>=◌ m f db = let (r, db') = m db in elim r [ ok a ↦ f a db' | err e ↦ (err e, db') ]

abbrev pub ◌>>◌ : {F A B : Type 0} → Action F A → Action F B → Action F B
m >> k = m >>= λ _. k

-- BEGIN … COMMIT with a deferred ROLLBACK: an error gives the database back as it was.
abbrev pub transaction : {F A : Type 0} → Action F A → Action F A
transaction m db = elim (m db).0 [ ok a ↦ m db | err e ↦ (err e, db) ]
