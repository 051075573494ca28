-- ===== src/Db/Registered.antt =====
-- Calls that unregister nobody: the ids that other tables refer to stay there.
use reporting_and_mapping.Prelude.{ℕ, ◌≡◌, inl, inr, true}
use reporting_and_mapping.Db.{Database, has_user}
use reporting_and_mapping.Db.Monad.{Action, ◌>>=◌, transaction}
use reporting_and_mapping.Db.Invariant.Rules.{Result-cases, >>=-after}

-- Who is registered in the first database is registered in the second.
abbrev pub HasUsersOf : {F : Type 0} → Database F → Database F → Type 0
HasUsersOf db db' = (i : ℕ) → has_user db i ≡ true → has_user db' i ≡ true

module _ {F : Type 0} where
  -- The call unregisters nobody, however it ends.
  abbrev pub KeepsUsers : {A : Type 0} → Action F A → Type 0
  KeepsUsers m = (old db : Database F) → HasUsersOf old db → HasUsersOf old (m db).1

  pub >>=-KeepsUsers :
      {A B : Type 0} (m : Action F A) (f : A → Action F B)
      → KeepsUsers m
      → ((a : A) → KeepsUsers (f a))
      → KeepsUsers (m >>= f)
  >>=-KeepsUsers m f h k old db v =
      >>=-after (HasUsersOf old) m f db (h old db v) (λ a d w. k a old d w)

  pub transaction-KeepsUsers :
      {A : Type 0} (m : Action F A) → KeepsUsers m → KeepsUsers (transaction m)
  transaction-KeepsUsers m h old db v = elim (Result-cases (m db).0) [
    | inl (a, e) ↦ rw (e, transaction) (h old db v)
    | inr (x, e) ↦ rw (e, transaction) v
  ]
