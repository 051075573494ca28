-- ===== src/Store/Lists/Complete.antt =====
-- The audit's lists hold every sighting that they select, once each, newest first.
use mathlib.Core.List.{Perm}
use reporting_and_mapping.Prelude.{
  ℕ, zero, suc, ◌≡◌, refl, ◌≤◌, ◌∙◌, sym, Bool, true, false, String, some, List, [], ◌∷◌, eqb,
  eqb_iff, leb, any, find, find_sound, any_of_find-none, rows_where, In, All, All-rows_where,
  Option-cases, inl, inr, arith,
}
use reporting_and_mapping.Prelude.Order.{
  order_by, IsOrdered, order_by-IsOrdered, order_by-perm, order_by-All,
}
use reporting_and_mapping.Platform.{Float64}
use reporting_and_mapping.Geo.{PlusCodes}
use reporting_and_mapping.Db.{Time, rfc3339, UserRow, LocationRow, SightingRow, Database}
use reporting_and_mapping.Db.Monad.{◌>>=◌, ok}
use reporting_and_mapping.Db.Invariant.{IsValid, IsReported}
use reporting_and_mapping.Db.Invariant.Rules.{Result-cases, >>=-ok}
use reporting_and_mapping.Store.Users.{user_by_opaque, user_with_opaque}
use reporting_and_mapping.Store.Reputation.Listing.{
  newest_first_total, newest_first_trans, user_by_opaque_unchanged, user_by_opaque_lem,
}
use reporting_and_mapping.Store.Lists.{
  ListedSighting, scan_bool, listed, scan_row, scan_sightings, sightings_order, select_sightings,
  sightings_by_opaque_user, sightings_since,
}

-- A row of the list is that of the sighting, under its reporter's opaque id and with the
-- coordinates of its location.
pub record IsListed {F : Type 0} (db : Database F) (a : ListedSighting F) (s : SightingRow)
    : Type 0 where
  pub same : a.sighting_id ≡ s.id
  pub reporter : UserRow
  pub known_reporter : In reporter db.users
  pub reported : reporter.id ≡ s.reporter_id
  pub author : a.author_opaque_id ≡ reporter.opaque_id
  pub place : LocationRow F
  pub known_place : In place db.locations
  pub linked : place.id ≡ s.location_id
  pub coordinates : (a.lat ≡ place.lat) × (a.lon ≡ place.lon)
  pub observed : a.observed_at ≡ s.observed_at
  pub traits : (a.medium ≡ s.medium) × (a.message ≡ s.message) × (a.height ≡ s.height)

-- Row by row.
abbrev pub AreListed :
    {F : Type 0} → Database F → List (ListedSighting F) → List SightingRow → Type 0
AreListed db [] [] = Unit
AreListed db [] (s ∷ ss) = ⊥
AreListed db (a ∷ ls) [] = ⊥
AreListed db (a ∷ ls) (s ∷ ss) = IsListed db a s × AreListed db ls ss

pub found_of_any :
    {A : Type 0} (p : A → Bool) (xs : List A)
    → any p xs ≡ true
    → (x : A) × (find p xs ≡ some x) × (p x ≡ true) × In x xs
found_of_any p xs h = elim (Option-cases (find p xs)) [
  | inl n ↦ let bad : true ≡ false = sym h ∙ any_of_find-none p xs n in cc
  | inr (x, e) ↦ let (t, m) = find_sound p xs e in (x, e, t, m)
]

scan_bool_lem : (n : ℕ) → n ≤ 1 → (b : Bool) × (scan_bool n ≡ some b)
scan_bool_lem zero h = (false, refl)
scan_bool_lem (suc zero) h = (true, refl)
scan_bool_lem (suc (suc n)) h = absurd (omega arith)

-- What makes a sighting's row readable.
abbrev pub IsReadable : {F : Type 0} → Database F → SightingRow → Type 0
IsReadable db s = IsReported db.users db.locations s × (s.to_exist ≤ 1)

module _ {F : Type 0} ⦃fl : Float64 F⦄ ⦃pc : PlusCodes F⦄ where
  scan_row_lem :
      (db : Database F) (s : SightingRow)
      → IsReadable db s
      → (a : ListedSighting F) × (scan_row db s ≡ some a) × IsListed db a s
  unfolding scan_row
  scan_row_lem db s ((known_user, known_place), bit) =
      let (u, eu, tu, mu) =
        found_of_any (λ (v : UserRow). eqb v.id s.reporter_id) db.users known_user in
      let (l, el, tl, ml) =
        found_of_any (λ (k : LocationRow F). eqb k.id s.location_id) db.locations known_place in
      let (b, eb) = scan_bool_lem s.to_exist bit in
      (
        listed s u l b,
        rw (scan_row, eu, el, eb) refl,
        record {
          same = refl;
          reporter = u;
          known_reporter = mu;
          reported = (eqb_iff u.id s.reporter_id).0 tu;
          author = refl;
          place = l;
          known_place = ml;
          linked = (eqb_iff l.id s.location_id).0 tl;
          coordinates = (refl, refl);
          observed = refl;
          traits = (refl, refl, refl);
        },
      )

  pub scan_sightings_lem :
      (db : Database F) (ss : List SightingRow)
      → All (IsReadable db) ss
      → (ls : List (ListedSighting F)) × (scan_sightings db ss ≡ ok ls) × AreListed db ls ss
  unfolding scan_sightings
  scan_sightings_lem db [] h = ([], refl, tt)
  scan_sightings_lem db (s ∷ ss) (h, hs) =
      let (a, e, is) = scan_row_lem db s h in
      let (ls, es, are) = scan_sightings_lem db ss hs in
      (a ∷ ls, rw (scan_sightings, e, es) refl, (is, are))

  pub All-both :
      (db : Database F) (ss : List SightingRow)
      → All (IsReported db.users db.locations) ss
      → All (λ (s : SightingRow). s.to_exist ≤ 1) ss
      → All (IsReadable db) ss
  All-both db [] h k = tt
  All-both db (s ∷ ss) (h, hs) (k, ks) = ((h, k), All-both db ss hs ks)

  select_sightings_lem :
      (test : SightingRow → Bool) (db : Database F)
      → IsValid db
      → All (λ (s : SightingRow). s.to_exist ≤ 1) db.sightings
      → (ls : List (ListedSighting F)) × (ss : List SightingRow) × (select_sightings test db
          ≡ (ok ls, db))
        × Perm ss (rows_where test db.sightings)
        × IsOrdered sightings_order ss
        × AreListed db ls ss
  select_sightings_lem test db v bits =
      let rows = rows_where test db.sightings in
      let readable = order_by-All sightings_order (IsReadable db) rows (
        All-rows_where (IsReadable db) test db.sightings
          (All-both db db.sightings v.reported bits)) in
      let (ls, e, are) = scan_sightings_lem db (order_by sightings_order rows) readable in
      (
        ls,
        order_by sightings_order rows,
        rw e refl,
        order_by-perm sightings_order rows,
        order_by-IsOrdered sightings_order
            (newest_first_total (λ (s : SightingRow). s.observed_at) (λ (s : SightingRow). s.id))
            (newest_first_trans (λ (s : SightingRow). s.observed_at) (λ (s : SightingRow). s.id))
            rows,
        are,
      )

  pub sightings_by_opaque_user_unchanged :
      (o : String) (db : Database F) → (sightings_by_opaque_user {F = F} o db).1 ≡ db
  unfolding sightings_by_opaque_user
  sightings_by_opaque_user_unchanged o db = elim (Result-cases (user_by_opaque o db).0) [
    | inl (t, e) ↦ rw (e, ◌>>=◌) (user_by_opaque_unchanged o db)
    | inr (x, e) ↦ rw (e, ◌>>=◌) (user_by_opaque_unchanged o db)
  ]

  -- In a valid database whose column to_exist holds only 0 and 1, the list since a time is a row
  -- for each sighting observed then or later, in an order that is newest first, and nothing else.
  pub sightings_since_lem :
      (since : Time) (db : Database F)
      → IsValid db
      → All (λ (s : SightingRow). s.to_exist ≤ 1) db.sightings
      → (ls : List (ListedSighting F)) × (ss : List SightingRow) × (sightings_since since db
          ≡ (ok ls, db))
        × Perm ss (rows_where (λ s. leb (rfc3339 since) s.observed_at) db.sightings)
        × IsOrdered sightings_order ss
        × AreListed db ls ss
  unfolding sightings_since
  sightings_since_lem since db = select_sightings_lem (λ s. leb (rfc3339 since) s.observed_at) db

  -- The same of the list by a user with a known opaque id: each sighting of that user, and no other.
  pub sightings_by_opaque_user_lem :
      (o : String) (db : Database F) {u : UserRow}
      → user_with_opaque o db.users ≡ some u
      → IsValid db
      → All (λ (s : SightingRow). s.to_exist ≤ 1) db.sightings
      → (ls : List (ListedSighting F)) × (ss : List SightingRow) × (sightings_by_opaque_user o db
          ≡ (ok ls, db))
        × Perm ss (rows_where (λ s. eqb s.reporter_id u.id) db.sightings)
        × IsOrdered sightings_order ss
        × AreListed db ls ss
  unfolding sightings_by_opaque_user
  sightings_by_opaque_user_lem o db {u} e v bits =
      let (ls, ss, run, perm, ordered, are) =
        select_sightings_lem (λ s. eqb s.reporter_id u.id) db v bits in
      (
        ls,
        ss,
        >>=-ok (user_by_opaque o) (λ i. select_sightings (λ s. eqb s.reporter_id i)) db
              (user_by_opaque_lem o db e)
            ∙ run,
        perm,
        ordered,
        are,
      )
