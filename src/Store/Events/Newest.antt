-- ===== src/Store/Events/Newest.antt =====
-- What the list of events holds: the newest 500, and one for each row.
use mathlib.Core.Path.{subst}
use mathlib.Core.List.{Perm}
use reporting_and_mapping.Prelude.{
  ℕ, ◌≤◌, ◌≡◌, refl, sym, ap, true, false, Option, some, List, [], ◌∷◌, ◌++◌, map, eqb, leb, length,
  rows_where, rows_from, take, drop, take-drop, length-take, drop_cases, ◌⊎◌, All, All-rows_where,
  arith,
}
use reporting_and_mapping.Prelude.Order.{
  order_by, IsOrdered, order_by-IsOrdered, order_by-perm, IsOrdered-take, IsOrdered-drop,
}
use reporting_and_mapping.Platform.{Float64}
use reporting_and_mapping.Geo.{PlusCodes}
use reporting_and_mapping.Db.{Time, Stamp, rfc3339, UserRow, LocationRow, SightingRow, Database}
use reporting_and_mapping.Db.Monad.{ok}
use reporting_and_mapping.Db.Invariant.{IsValid, IsLocated, IsReported}
use reporting_and_mapping.Store.Lists.Complete.{found_of_any}
use reporting_and_mapping.Store.Events.{
  AuditEvent, events_order, created_event, sighting_event, event_of_location, event_of_sighting,
  all_events, audit_events_since,
}

events_order_total :
    {F : Type 0} (a b : AuditEvent F) → events_order a b ≡ false → events_order b a ≡ true
events_order_total a b h = ground arith

events_order_trans :
    {F : Type 0} (a b c : AuditEvent F)
    → events_order a b ≡ true
    → events_order b c ≡ true
    → events_order a c ≡ true
events_order_trans a b c h k = ground arith

-- One row for each row of the source, with the same key.
map-rows_from :
    {A B : Type 0} (f : A → Option B) (key : A → ℕ) (key' : B → ℕ) (P : A → Type 0) (xs : List A)
    → ((x : A) → P x → (b : B) × (f x ≡ some b) × (key' b ≡ key x))
    → All P xs
    → map key' (rows_from f xs) ≡ map key xs
map-rows_from f key key' P [] h k = refl
map-rows_from f key key' P (x ∷ xs) h (p, ps) =
    let (b, e, same) = h x p in rw (rows_from, e, same, map-rows_from f key key' P xs h ps) refl

module _ {F : Type 0} ⦃pc : PlusCodes F⦄ where
  -- The events are ordered newest first, and at most 500: every event since the time is among them,
  -- or among others that all come later in that order, and there are others only if there are 500.
  pub audit_events_since_lem :
      (since : Time) (db : Database F)
      → (es : List (AuditEvent F)) × (others : List (AuditEvent F)) × (audit_events_since since db
          ≡ (ok es, db))
        × IsOrdered events_order es
        × (length es ≤ 500)
        × ((others ≡ []) ⊎ (length es ≡ 500))
        × Perm (es ++ others) (all_events (rfc3339 since) db)
        × All (λ r. All (λ e. events_order e r ≡ true) es) others
  unfolding audit_events_since
  audit_events_since_lem since db =
      let found = all_events (rfc3339 since) db in
      let sorted = order_by events_order found in
      let ordered = order_by-IsOrdered events_order events_order_total events_order_trans found in
      (
        take 500 sorted,
        drop 500 sorted,
        refl,
        IsOrdered-take events_order 500 sorted ordered,
        length-take 500 sorted,
        drop_cases 500 sorted,
        subst (λ l. Perm l found) (sym (take-drop 500 sorted)) (order_by-perm events_order found),
        IsOrdered-drop events_order 500 sorted ordered,
      )

module _ {F : Type 0} ⦃fl : Float64 F⦄ ⦃pc : PlusCodes F⦄ where
  -- In a valid database the joins lose nothing: there is one event for each location created since
  -- the time, and then one for each sighting observed since, with their ids.
  pub all_events_lem :
      (since : Stamp) (db : Database F)
      → IsValid db
      → map (λ (e : AuditEvent F). e.event_id) (all_events since db)
        ≡ map (λ (l : LocationRow F). l.id) (rows_where (λ l. leb since l.created_at) db.locations)
          ++ map
              (λ (s : SightingRow). s.id)
              (rows_where (λ s. leb since s.observed_at) db.sightings)
  unfolding all_events event_of_location event_of_sighting
  all_events_lem since db v = rw (map-append_id _ _) (λ i. created i ++ sighted i)
    where
      map-append_id :
          (xs ys : List (AuditEvent F))
          → map (λ (e : AuditEvent F). e.event_id) (xs ++ ys)
            ≡ map (λ (e : AuditEvent F). e.event_id) xs ++ map (λ (e : AuditEvent F). e.event_id) ys
      map-append_id [] ys = refl
      map-append_id (x ∷ xs) ys = ap (λ l. x.event_id ∷ l) (map-append_id xs ys)

      created :
          map
            (λ (e : AuditEvent F). e.event_id)
            (rows_from
              (event_of_location db)
              (rows_where (λ l. leb since l.created_at) db.locations))
          ≡ map
              (λ (l : LocationRow F). l.id)
              (rows_where (λ l. leb since l.created_at) db.locations)
      created =
          map-rows_from (event_of_location db) (λ (l : LocationRow F). l.id)
            (λ (e : AuditEvent F). e.event_id) (IsLocated db.users)
            (rows_where (λ l. leb since l.created_at) db.locations)
            (λ l h.
              let (u, e, t, m) =
                found_of_any (λ (u : UserRow). eqb u.id l.created_by) db.users h.1 in
              (created_event db l u, rw (event_of_location, e) refl, refl))
            (All-rows_where (IsLocated db.users) (λ l. leb since l.created_at) db.locations
              v.located)

      sighted :
          map
            (λ (e : AuditEvent F). e.event_id)
            (rows_from
              (event_of_sighting db)
              (rows_where (λ s. leb since s.observed_at) db.sightings))
          ≡ map (λ (s : SightingRow). s.id) (rows_where (λ s. leb since s.observed_at) db.sightings)
      sighted =
          map-rows_from (event_of_sighting db) (λ (s : SightingRow). s.id)
            (λ (e : AuditEvent F). e.event_id) (IsReported db.users db.locations)
            (rows_where (λ s. leb since s.observed_at) db.sightings)
            (λ s h.
              let (u, e, t, m) =
                found_of_any (λ (u : UserRow). eqb u.id s.reporter_id) db.users h.0 in
              let (l, f, k, n) =
                found_of_any (λ (l : LocationRow F). eqb l.id s.location_id) db.locations h.1 in
              (sighting_event db s l u, rw (event_of_sighting, f, e) refl, refl))
            (All-rows_where (IsReported db.users db.locations) (λ s. leb since s.observed_at)
              db.sightings v.reported)
