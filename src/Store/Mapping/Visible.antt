-- ===== src/Store/Mapping/Visible.antt =====
-- A report becomes visible: what `InsertSighting` records, `MapData` shows.
use reporting_and_mapping.Prelude.{
  ◌≤◌, ◌<◌, ◌≡◌, refl, sym, ap, ◌∙◌, ◌⊎◌, inl, inr, Bool, true, some, List, [], ◌∷◌, ◌++◌, ◌==◌,
  ◌||◌, eqb_refl, length, rows_where, All, All-In, In, here, there, In-append_right, In-rows_where,
  In-of_rows_where, arith,
}
use mathlib.Core.Path.{subst}
use reporting_and_mapping.Prelude.Int.{pos, leb_ℤ}
use reporting_and_mapping.Platform.{Float64, Sqlite}
use reporting_and_mapping.Geo.{BBox, PlusCodes, in_box}
use reporting_and_mapping.Db.{Time, rfc3339, LocationRow, SightingRow, Database, has_user}
use reporting_and_mapping.Db.Monad.{ok}
use reporting_and_mapping.Store.Reputation.{insincerity}
use reporting_and_mapping.Store.Sightings.{SightingInput, is_at, insert_sighting}
use reporting_and_mapping.Store.Sightings.Recorded.{
  IsReportable, IsPlaceable, insert_sighting-IsRecorded,
}
use reporting_and_mapping.Store.Mapping.{MapMarker, does_exist, counts, group, marker, map_data}
use reporting_and_mapping.Store.Mapping.Markers.{map_data_newest}

In-append-inv : {A : Type 0} {a x : A} (xs : List A) → In a (xs ++ x ∷ []) → In a xs ⊎ (a ≡ x)
In-append-inv [] (here e) = inr e
In-append-inv [] (there m) = elim m [ ]
In-append-inv (y ∷ ys) (here e) = inl (here e)
In-append-inv (y ∷ ys) (there m) = elim (In-append-inv ys m) [
  | inl k ↦ inl (there k)
  | inr e ↦ inr e
]

module _ {F : Type 0} ⦃fl : Float64 F⦄ ⦃sq : Sqlite F⦄ ⦃pc : PlusCodes F⦄ where
  -- A placeable report by a registered user becomes visible: if it is later than all sightings that
  -- are there and within the time that is asked for, its reporter is not insincere or insincere ones
  -- are asked for, the sign was sighted or missing ones are asked for, and every location at the
  -- place is in the box, then the map shows a marker with the report's sighting, at the place.
  pub map_data-insert_sighting :
      (i : SightingInput F) (since : Time) (inc missing : Bool) (box : BBox F) (db : Database F)
      → has_user db i.user_id ≡ true
      → IsReportable i.transpired
      → IsPlaceable i db
      → (missing || i.transpired == "sighted") ≡ true
      → rfc3339 since ≤ rfc3339 i.observed_at
      → (inc || leb_ℤ (insincerity db i.user_id) (pos 0)) ≡ true
      → All (λ (s : SightingRow). s.observed_at < rfc3339 i.observed_at) db.sightings
      → All
          (λ (l : LocationRow F). in_box box l.lat l.lon ≡ true)
          (rows_where (is_at i.lat i.lon) (insert_sighting i db).1.locations)
      → let (r, db') = insert_sighting i db in
        (ms : List (MapMarker F)) × (m : MapMarker F) × (map_data since inc missing (some box) db'
          ≡ some ms)
        × In m ms
        × (r ≡ ok m.sighting_id)
        × (m.latest_observed_at ≡ rfc3339 i.observed_at)
        × (m.medium ≡ i.medium)
        × (m.message ≡ i.message)
        × (m.height ≡ i.height)
        × (is_at i.lat i.lon (record {
          id = m.location_id;
          lat = m.lat;
          lon = m.lon;
          created_by = i.user_id;
          created_at = 0;
        })
            ≡ true)
  unfolding insincerity
  map_data-insert_sighting i since inc missing box db user reportable placeable shown recent sincere
        latest inside =
      let (id, answered, rec, frame) = insert_sighting-IsRecorded i db user reportable placeable in
      let db' = (insert_sighting i db).1 in
      let row = rec.row in
      let place = rec.place in
      let in_there : in_box box place.lat place.lon ≡ true =
        All-In (λ (l : LocationRow F). in_box box l.lat l.lon ≡ true)
          (In-of_rows_where (is_at i.lat i.lon) rec.known rec.located) inside in
      let listed : In row db'.sightings =
        subst (In row) (sym rec.appended) (In-append_right db.sightings (here refl)) in
      let trust : insincerity db' row.reporter_id ≡ insincerity db i.user_id =
        ap (λ (d : Database F). insincerity d row.reporter_id) frame
        ∙ ap (λ n. insincerity db n) rec.reporter in
      let counted : counts db' (rfc3339 since) inc place.id row ≡ true =
        rw (← rec.linked, eqb_refl, rec.observed, trust) (ground arith) in
      let among = In-of_rows_where (counts db' (rfc3339 since) inc place.id) listed counted in
      let strict : (t : SightingRow)
          → In t (group db' (rfc3339 since) inc place.id)
          → (t ≡ row) ⊎ (t.observed_at < row.observed_at) =
        λ t m.
          let (c, n) = In-rows_where (counts db' (rfc3339 since) inc place.id) db'.sightings m in
          elim (In-append-inv db.sightings (subst (In t) rec.appended n)) [
            | inr e ↦ inl e
            | inl k ↦ inr (
                rw rec.observed
                  (All-In (λ (s : SightingRow). s.observed_at < rfc3339 i.observed_at) k latest))
          ] in
      let exists : (missing || does_exist row) ≡ true = rw rec.transpired (ground arith) in
      let (ms, e, k) =
        map_data_newest since inc missing box db' place row rec.known in_there among strict
          exists in
      (
        ms,
        marker place (length (group db' (rfc3339 since) inc place.id)) row,
        e,
        k,
        answered ∙ ap ok (sym rec.answered),
        rec.observed,
        rec.traits.0,
        rec.traits.1,
        rec.traits.2,
        rec.located,
      )
