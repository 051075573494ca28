-- ===== src/Db/Spared.antt =====
-- Calls that change neither the reports nor what is said of their reporters.
use reporting_and_mapping.Prelude.{◌≡◌, refl, inl, inr}
use reporting_and_mapping.Db.{Database}
use reporting_and_mapping.Db.Monad.{Action, ◌>>=◌, transaction}
use reporting_and_mapping.Db.Invariant.Rules.{Result-cases, >>=-after}

-- What is reported in the second database is what is reported in the first: locations, sightings,
-- flags and notes.
abbrev pub HasReportsOf : {F : Type 0} → Database F → Database F → Type 0
HasReportsOf db db' =
    (db'.locations ≡ db.locations)
    × (db'.sightings ≡ db.sightings)
    × (db'.user_flags ≡ db.user_flags)
    × (db'.reputation_notes ≡ db.reputation_notes)

module _ {F : Type 0} where
  -- The call leaves the reports of a database alone, however it ends.
  abbrev pub Spares : {A : Type 0} → Action F A → Type 0
  Spares m = (old db : Database F) → HasReportsOf old db → HasReportsOf old (m db).1

  pub >>=-Spares :
      {A B : Type 0} (m : Action F A) (f : A → Action F B)
      → Spares m
      → ((a : A) → Spares (f a))
      → Spares (m >>= f)
  >>=-Spares m f h k old db v =
      >>=-after (HasReportsOf old) m f db (h old db v) (λ a d w. k a old d w)

  pub transaction-Spares : {A : Type 0} (m : Action F A) → Spares m → Spares (transaction m)
  transaction-Spares m h old db v = elim (Result-cases (m db).0) [
    | inl (a, e) ↦ rw (e, transaction) (h old db v)
    | inr (x, e) ↦ rw (e, transaction) v
  ]

pub HasReportsOf-refl : {F : Type 0} (db : Database F) → HasReportsOf db db
HasReportsOf-refl db = (refl, refl, refl, refl)
