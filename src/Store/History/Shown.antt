-- ===== src/Store/History/Shown.antt =====
-- What the history of a location shows.
use mathlib.Core.Path.{subst}
use mathlib.Core.List.{Perm}
use reporting_and_mapping.Prelude.{
  ℕ, ◌≤◌, ◌≡◌, refl, ap, ◌∙◌, Bool, true, false, List, [], ◌∷◌, ◌&&◌, not, eqb, leb, rows_where,
  All, All-rows_where, arith,
}
use reporting_and_mapping.Prelude.Order.{
  order_by, IsOrdered, order_by-IsOrdered, order_by-perm, order_by-All,
}
use reporting_and_mapping.Platform.{Float64, Sqlite}
use reporting_and_mapping.Geo.{PlusCodes, bounding_box}
use reporting_and_mapping.Db.{Time, Stamp, rfc3339, SightingRow, Database}
use reporting_and_mapping.Db.Monad.{ok, pure, ◌>>=◌}
use reporting_and_mapping.Db.Invariant.{IsValid}
use reporting_and_mapping.Db.Invariant.Rules.{>>=-ok, >>=-after}
use reporting_and_mapping.Store.Reconciliation.{
  LocationSummary, get_location, get_location_unchanged,
}
use reporting_and_mapping.Store.Lists.{ListedSighting, scan_sightings, sightings_order}
use reporting_and_mapping.Store.Lists.Complete.{AreListed, IsReadable, All-both, scan_sightings_lem}
use reporting_and_mapping.Store.History.{
  is_in_history, has_flag_row, history_order, reconciled_sightings, candidate_sightings,
  reconcile_radius, within_radius, unscanned, location_history,
}

history_order_total : (a b : SightingRow) → history_order a b ≡ false → history_order b a ≡ true
history_order_total a b h = ground arith

history_order_trans :
    (a b c : SightingRow)
    → history_order a b ≡ true
    → history_order b c ≡ true
    → history_order a c ≡ true
history_order_trans a b c h k = ground arith

no_rows : {A : Type 0} (xs : List A) → rows_where (λ x. false) xs ≡ []
no_rows [] = refl
no_rows (x ∷ xs) = no_rows xs

rows_where-cong :
    {A : Type 0} (p q : A → Bool)
    → ((x : A) → p x ≡ q x)
    → (xs : List A) → rows_where p xs ≡ rows_where q xs
rows_where-cong p q h [] = refl
rows_where-cong p q h (x ∷ xs) = rw (h x, rows_where-cong p q h xs) refl

-- Asking for insincere reporters hides those with a flag, and not asking hides nobody.
abbrev shown : {F : Type 0} → Database F → ℕ → Stamp → Bool → SightingRow → Bool
shown db i since inc s =
    eqb s.location_id i && leb since s.observed_at && not (inc && has_flag_row db s.reporter_id)

is_in_history_lem :
    {F : Type 0} (db : Database F) (i : ℕ) (since : Stamp) (inc : Bool) (s : SightingRow)
    → is_in_history db i since inc s ≡ shown db i since inc s
is_in_history_lem db i since inc s = ground arith

module _ {F : Type 0} ⦃fl : Float64 F⦄ ⦃sq : Sqlite F⦄ ⦃pc : PlusCodes F⦄ where
  candidate_sightings_lem :
      (since : Stamp) (inc : Bool) (db : Database F)
      → candidate_sightings
          (bounding_box (unscanned {F = F}) unscanned reconcile_radius)
          since
          inc
          db
        ≡ (ok [], db)
  unfolding scan_sightings order_by
  candidate_sightings_lem since inc db =
      ap (λ ss. (scan_sightings db (order_by sightings_order ss), db)) (no_rows db.sightings)

  -- In a valid database whose column to_exist holds only 0 and 1, the history of a location that has
  -- a summary is that summary with each sighting of the location since the time, oldest first. Those
  -- of flagged reporters are left out exactly if insincere ones were asked for. Nothing is nearby.
  pub location_history_lem :
      (i : ℕ) (since : Time) (include_insincere : Bool) (db : Database F) {loc : LocationSummary F}
      → IsValid db
      → All (λ (s : SightingRow). s.to_exist ≤ 1) db.sightings
      → get_location i db ≡ (ok loc, db)
      → (ls : List (ListedSighting F)) × (ss : List SightingRow) × (location_history i since
            include_insincere db
          ≡ (ok (record { location = loc; reconciled = ls; nearby = [] }), db))
        × Perm ss (
            rows_where
              (λ s.
                eqb s.location_id i
                && leb (rfc3339 since) s.observed_at
                && not (include_insincere && has_flag_row db s.reporter_id))
              db.sightings)
        × IsOrdered history_order ss
        × AreListed db ls ss
  unfolding location_history within_radius
  location_history_lem i since inc db {loc} v bits found =
      let test = is_in_history db i (rfc3339 since) inc in
      let rows = rows_where test db.sightings in
      let readable = order_by-All history_order (IsReadable db) rows (
        All-rows_where (IsReadable db) test db.sightings
          (All-both db db.sightings v.reported bits)) in
      let (ls, e, are) = scan_sightings_lem db (order_by history_order rows) readable in
      let near =
        candidate_sightings (bounding_box (unscanned {F = F}) unscanned reconcile_radius)
          (rfc3339 since) inc in
      let finish = λ (ls : List (ListedSighting F)) (cs : List (ListedSighting F)).
        pure {F = F} (record {
          location = loc;
          reconciled = ls;
          nearby = within_radius unscanned unscanned cs;
        }) in
      (
        ls,
        order_by history_order rows,
        >>=-ok (get_location i)
              (λ l. reconciled_sightings i (rfc3339 since) inc >>= λ r. near >>= λ c. pure (record {
                location = l;
                reconciled = r;
                nearby = within_radius unscanned unscanned c;
              }))
              db found
            ∙ >>=-ok (reconciled_sightings i (rfc3339 since) inc) (λ r. near >>= λ c. finish r c) db
                (λ k. (e k, db))
            ∙ >>=-ok near (finish ls) db (candidate_sightings_lem (rfc3339 since) inc db),
        subst (Perm (order_by history_order rows))
            (rows_where-cong test (shown db i (rfc3339 since) inc)
              (is_in_history_lem db i (rfc3339 since) inc) db.sightings)
            (order_by-perm history_order rows),
        order_by-IsOrdered history_order history_order_total history_order_trans rows,
        are,
      )

  -- Reading the history changes nothing.
  pub location_history_unchanged :
      (i : ℕ) (since : Time) (inc : Bool) (db : Database F)
      → (location_history i since inc db).1 ≡ db
  unfolding location_history
  location_history_unchanged i since inc db =
      let box = bounding_box (unscanned {F = F}) unscanned reconcile_radius in
      let near = candidate_sightings box (rfc3339 since) inc in
      >>=-after (λ d. d ≡ db) (get_location i)
        (λ l. reconciled_sightings i (rfc3339 since) inc >>= λ r. near >>= λ c.
          pure
            (record { location = l; reconciled = r; nearby = within_radius unscanned unscanned c }))
        db (get_location_unchanged i db).0
        (λ l d e.
          >>=-after (λ d. d ≡ db) (reconciled_sightings i (rfc3339 since) inc)
            (λ r. near >>= λ c. pure (record {
              location = l;
              reconciled = r;
              nearby = within_radius unscanned unscanned c;
            }))
            d e
            (λ r d' e'.
              >>=-after (λ d. d ≡ db) near
                (λ c. pure (record {
                  location = l;
                  reconciled = r;
                  nearby = within_radius unscanned unscanned c;
                }))
                d' e' (λ c d'' e''. e'')))
