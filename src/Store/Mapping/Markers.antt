-- ===== src/Store/Mapping/Markers.antt =====
-- What the map shows: the latest sighting decides, and flagged reporters are left out.
use reporting_and_mapping.Prelude.{
  All-of_In, ◌⊎◌, inl, inr, ℕ, ◌≡◌, ◌≤◌, ◌<◌, ◌⊎◌, refl, sym, ap, ◌∙◌, Bool, true, false, Option,
  some, List, [], ◌∷◌, ◌||◌, arith, length, In, here, there, All, In-rows_where, In-of_rows_where,
  rows_where, Bool-cases, Option-cases, inl, inr,
}
use mathlib.Core.Option.{some-injective}
use reporting_and_mapping.Prelude.Int.{ℤ, pos, leb_ℤ, ◌≤ℤ◌}
use reporting_and_mapping.Prelude.Order.{IsOrdered, order_by-IsOrdered, In-order_by, In-of_order_by}
use reporting_and_mapping.Platform.{Float64, Sqlite}
use reporting_and_mapping.Geo.{BBox, in_box, PlusCodes}
use reporting_and_mapping.Db.{Time, Stamp, rfc3339, LocationRow, SightingRow, Database}
use reporting_and_mapping.Store.Reputation.{insincerity}
use reporting_and_mapping.Store.Mapping.{
  MapMarker, does_exist, latest, counts, group, marker, marker_of, markers_of, markers_order,
  map_data,
}
use reporting_and_mapping.Store.Mapping.Latest.{AreNoLater, latest-In, latest_of_strict}

module _ {F : Type 0} where
  In-markers_of :
      (make : LocationRow F → Option (MapMarker F)) {l : LocationRow F} {m : MapMarker F}
      {ls : List (LocationRow F)}
      → make l ≡ some m
      → In l ls
      → In m (markers_of make ls)
  unfolding markers_of
  In-markers_of make e (here {x} {xs} same) = rw (ap make (sym same) ∙ e, markers_of) (here refl)
  In-markers_of make e (there {x} {xs} k) = elim (Option-cases (make x)) [
    | inl n ↦ rw (n, markers_of) (In-markers_of make e k)
    | inr (v, n) ↦ rw (n, markers_of) (there (In-markers_of make e k))
  ]

  In-of_markers_of :
      (make : LocationRow F → Option (MapMarker F)) {m : MapMarker F} (ls : List (LocationRow F))
      → In m (markers_of make ls)
      → (l : LocationRow F) × In l ls × (make l ≡ some m)
  unfolding markers_of
  In-of_markers_of make [] h = elim h [ ]
  In-of_markers_of make {m} (l ∷ ls) h = elim (Option-cases (make l)) [
    | inl n ↦ let (k, q, e) = In-of_markers_of make ls (rw (n, markers_of) at h) in (k, there q, e)
    | inr (v, n) ↦ first v n (In-of_markers_of make ls) (rw (n, markers_of) at h)
  ]
    where
      first :
          (v : MapMarker F)
          → make l ≡ some v
          → (In m (markers_of make ls) → (k : LocationRow F) × In k ls × (make k ≡ some m))
          → In m (v ∷ markers_of make ls)
          → (k : LocationRow F) × In k (l ∷ ls) × (make k ≡ some m)
      first v n ih (here e) = (l, here refl, n ∙ ap some (sym e))
      first v n ih (there q) = let (k, r, e) = ih q in (k, there r, e)

markers_order_total :
    {F : Type 0} (a b : MapMarker F) → markers_order a b ≡ false → markers_order b a ≡ true
markers_order_total a b h = ground arith

markers_order_trans :
    {F : Type 0} (a b c : MapMarker F)
    → markers_order a b ≡ true
    → markers_order b c ≡ true
    → markers_order a c ≡ true
markers_order_trans a b c h k = ground arith

or_cases : (a b : Bool) → (a || b) ≡ true → (a ≡ true) ⊎ (b ≡ true)
or_cases true b h = inl refl
or_cases false b h = inr h

sincere_or : (inc : Bool) (z : ℤ) → (inc || leb_ℤ z (pos 0)) ≡ true → (inc ≡ true) ⊎ (z ≤ℤ pos 0)
sincere_or inc z h = elim (or_cases inc _ h) [ inl e ↦ inl e | inr e ↦ inr (ground arith) ]

module _ {F : Type 0} ⦃fl : Float64 F⦄ ⦃sq : Sqlite F⦄ ⦃pc : PlusCodes F⦄ where
  module _ (db : Database F) (since : Stamp) (include_insincere include_missing : Bool) where
    marker_of_shown :
        (l : LocationRow F) {s : SightingRow}
        → latest F (group db since include_insincere l.id) ≡ some s
        → (include_missing || does_exist s) ≡ true
        → marker_of db since include_insincere include_missing l
          ≡ some (marker l (length (group db since include_insincere l.id)) s)
    unfolding marker_of
    marker_of_shown l e h = rw (marker_of, e) (rw h refl)

    marker_of_inv :
        (l : LocationRow F) {m : MapMarker F}
        → marker_of db since include_insincere include_missing l ≡ some m
        → (s : SightingRow) × (latest F (group db since include_insincere l.id) ≡ some s)
          × ((include_missing || does_exist s) ≡ true)
          × (m ≡ marker l (length (group db since include_insincere l.id)) s)
    unfolding marker_of
    marker_of_inv l {m} h = elim (Option-cases (latest F (group db since include_insincere l.id))) [
      | inl n ↦ let k = rw (marker_of, n) at h in cc
      | inr (s, e) ↦ elim (Bool-cases (include_missing || does_exist s)) [
        | inl t ↦ (s, e, t, sym (some-injective _ _ (sym (marker_of_shown l e t) ∙ h)))
        | inr t ↦ let k = rw (marker_of, e, t) at h in cc
      ]
    ]

  -- Why a marker is shown: the location is in the box, and the sighting is one of the latest that
  -- count for it.
  pub record IsShown (db : Database F) (since : Stamp) (include_insincere include_missing : Bool)
      (box : BBox F) (m : MapMarker F) : Type 0 where
    pub location : LocationRow F
    pub sighting : SightingRow
    pub known : In location db.locations
    pub inside : in_box box location.lat location.lon ≡ true
    pub reported : In sighting db.sightings
    pub linked : sighting.location_id ≡ location.id
    pub recent : since ≤ sighting.observed_at
    pub sincere : (include_insincere ≡ true) ⊎ (insincerity db sighting.reporter_id ≤ℤ pos 0)
    pub newest : AreNoLater sighting.observed_at (group db since include_insincere location.id)
    pub existing : (include_missing ≡ true) ⊎ (does_exist sighting ≡ true)
    pub content :
        m ≡ marker location (length (group db since include_insincere location.id)) sighting

  counts_inv :
      (db : Database F) (since : Stamp) (inc : Bool) (l : ℕ) (s : SightingRow)
      → counts db since inc l s ≡ true
      → (s.location_id ≡ l)
        × (since ≤ s.observed_at)
        × ((inc ≡ true) ⊎ (insincerity db s.reporter_id ≤ℤ pos 0))
  counts_inv db since inc l s h = (ground arith, ground arith, sincere_or inc _ (ground arith))

  IsShown-of_marker :
      (db : Database F) (since : Stamp) (inc missing : Bool) (box : BBox F) (l : LocationRow F)
      {m : MapMarker F}
      → In l (rows_where (λ k. in_box box k.lat k.lon) db.locations)
      → marker_of db since inc missing l ≡ some m
      → IsShown db since inc missing box m
  IsShown-of_marker db since inc missing box l k e =
      let (inside, known) =
        In-rows_where (λ (k : LocationRow F). in_box box k.lat k.lon) db.locations k in
      let (s, newest, shown, content) = marker_of_inv db since inc missing l e in
      let (among, top) = latest-In F (group db since inc l.id) newest in
      let (counted, reported) = In-rows_where (counts db since inc l.id) db.sightings among in
      let (linked, recent, sincere) = counts_inv db since inc l.id s counted in
      record {
        location = l;
        sighting = s;
        known = known;
        inside = inside;
        reported = reported;
        linked = linked;
        recent = recent;
        sincere = sincere;
        newest = top;
        existing = or_cases missing (does_exist s) shown;
        content = content;
      }

  -- Every marker of the map is that of a location in the box, with the content of a sighting there
  -- that no counted sighting of the place is later than; the sighting is recent enough, exists
  -- unless missing ones were asked for, and its reporter's insincerity is at most 0 unless
  -- insincere ones were asked for. The markers come newest first.
  pub map_data_sound :
      (since : Time) (inc missing : Bool) (box : BBox F) (db : Database F)
      → (ms : List (MapMarker F)) × (map_data since inc missing (some box) db ≡ some ms)
        × IsOrdered markers_order ms
        × All (IsShown db (rfc3339 since) inc missing box) ms
  unfolding map_data
  map_data_sound since inc missing box db =
      let make = marker_of db (rfc3339 since) inc missing in
      let ls = rows_where (λ (k : LocationRow F). in_box box k.lat k.lon) db.locations in
      (
        _,
        refl,
        order_by-IsOrdered markers_order markers_order_total markers_order_trans
            (markers_of make ls),
        All-of_In _ _ (λ m k.
            let (l, among, e) = In-of_markers_of make ls (In-of_order_by markers_order _ k) in
            IsShown-of_marker db (rfc3339 since) inc missing box l among e),
      )

  -- The latest sighting wins: if a sighting of a location in the box counts and is later than every
  -- other that counts there, the map shows the location with that sighting's content, provided the
  -- sign existed then or missing ones were asked for.
  pub map_data_newest :
      (since : Time) (inc missing : Bool) (box : BBox F) (db : Database F) (l : LocationRow F)
      (s : SightingRow)
      → In l db.locations
      → in_box box l.lat l.lon ≡ true
      → In s (group db (rfc3339 since) inc l.id)
      → ((t : SightingRow)
          → In t (group db (rfc3339 since) inc l.id)
          → (t ≡ s) ⊎ (t.observed_at < s.observed_at))
      → (missing || does_exist s) ≡ true
      → (ms : List (MapMarker F)) × (map_data since inc missing (some box) db ≡ some ms)
        × In (marker l (length (group db (rfc3339 since) inc l.id)) s) ms
  unfolding map_data
  map_data_newest since inc missing box db l s known inside among strict shown =
      let make = marker_of db (rfc3339 since) inc missing in
      let newest = latest_of_strict F s (group db (rfc3339 since) inc l.id) among strict in
      (
        _,
        refl,
        In-order_by markers_order (
            In-markers_of make (marker_of_shown db (rfc3339 since) inc missing l newest shown)
              (In-of_rows_where (λ (k : LocationRow F). in_box box k.lat k.lon) known inside)),
      )
