-- ===== src/Platform.antt =====
-- What the program takes from outside the repository: Go's float64 arithmetic and the choices that
-- SQLite makes (internal/db/db.go links modernc.org/sqlite). Both are instance arguments of the
-- model, with the documented behaviour that the code relies on as laws.
pub mod Fixed
use reporting_and_mapping.Prelude.{ℕ, ◌≡◌, Bool, true, false, String, Option, none, some, List, []}
use reporting_and_mapping.Prelude.{any, eqb, In}
use reporting_and_mapping.Prelude.Int.{ℤ}

-- IEEE 754 double precision, as Go's operators and package math give it.
pub record Float64 (F : Type 0) : Type 0 where
  -- `decimal m e` is the float nearest to m / 10^e, as a literal of the source is.
  pub decimal : ℤ → ℕ → F
  pub le : F → F → Bool
  pub lt : F → F → Bool
  pub eq : F → F → Bool
  pub add : F → F → F
  pub sub : F → F → F
  pub mul : F → F → F
  pub div : F → F → F
  pub sin : F → F
  pub cos : F → F
  pub sqrt : F → F
  pub atan2 : F → F → F
  pub pi : F
  -- strconv.ParseFloat, `none` for its error
  pub parse : String → Option F
  -- time.Duration(days * float64(24*time.Hour)) for a positive number of days, in nanoseconds
  pub days_to_ns : F → ℕ
  -- false of NaN alone
  pub is_number : F → Bool
  pub decimal-is_number : (m : ℤ) (e : ℕ) → is_number (decimal m e) ≡ true
  pub le_refl : (a : F) → is_number a ≡ true → le a a ≡ true
  pub le_of_lt : (a b : F) → lt a b ≡ true → le a b ≡ true
  -- Two numbers are always ordered; a comparison with NaN is false.
  pub le_of_not_lt :
      (a b : F) → is_number a ≡ true → is_number b ≡ true → lt a b ≡ false → le b a ≡ true
  pub le-is_number : (a b : F) → le a b ≡ true → is_number a ≡ true
  pub le_trans : (a b c : F) → le a b ≡ true → le b c ≡ true → le a c ≡ true

-- What SQLite leaves open or defines itself.
pub record Sqlite (F : Type 0) : Type 0 where
  -- The rowid that an INTEGER PRIMARY KEY receives, from those in use.
  pub fresh : List ℕ → ℕ
  pub fresh_new : (ids : List ℕ) → any (eqb (fresh ids)) ids ≡ false
  -- The row that LIMIT 1, or a bare column beside max(), picks where several qualify.
  pub any_of : List ℕ → Option ℕ
  pub any_of-In : (ids : List ℕ) {i : ℕ} → any_of ids ≡ some i → In i ids
  pub any_of-none : (ids : List ℕ) → any_of ids ≡ none → ids ≡ []
  -- The SQL function round(x, digits).
  pub round : F → ℕ → F
  -- last_insert_rowid() of the connection after an INSERT … SELECT that inserted no row.
  pub stale_rowid : ℕ
