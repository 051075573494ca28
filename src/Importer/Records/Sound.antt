-- ===== src/Importer/Records/Sound.antt =====
-- Each import record that buildRecords gives, and what it comes from.
use reporting_and_mapping.Prelude.{
  ◌≤◌, ◌≡◌, refl, sym, ap, ◌∙◌, ◌⊎◌, inl, inr, Bool, true, false, Option, some, List, [], ◌∷◌, ◌++◌,
  rows_from, Bool-cases, Option-cases, In, here, there,
}
use mathlib.Core.Option.{some-injective}
use mathlib.Core.Path.{subst}
use reporting_and_mapping.Platform.{Float64}
use reporting_and_mapping.Db.{Time}
use reporting_and_mapping.Store.Import.{ImportRecord}
use reporting_and_mapping.Importer.Text.{Text, Unicode}
use reporting_and_mapping.Importer.Folders.{Class, exists, gone, discard, unknown, classify}
use reporting_and_mapping.Importer.Dates.Found.{observation_date_bound}
use reporting_and_mapping.Importer.Records.{
  KmlPlace, KmlFolder, KmlDoc, Formats, parse_lon_lat, valid_lat_lon, natural_id, record_at,
  is_exists, build_records,
}
use reporting_and_mapping.Importer.Records.Placed.{record_of, records_of, records_of_all}
use reporting_and_mapping.Importer.Records.Built.{build_records_lem}

-- A record stands for a placemark: its coordinates are those of the placemark and in range, its key is
-- the placemark's, and it is not dated before the default.
abbrev pub StandsFor :
    {F : Type 0} ⦃fl : Float64 F⦄ ⦃fm : Formats F⦄
    → Text
    → Time
    → KmlPlace
    → ImportRecord F
    → Type 0
StandsFor source default_when pm r =
    (parse_lon_lat pm.coordinates ≡ some (r.lat, r.lon))
    × (valid_lat_lon r.lat r.lon ≡ true)
    × (r.external_id ≡ natural_id source pm.name r.lat r.lon)
    × (r.name ≡ pm.name)
    × (r.description ≡ pm.description)
    × (w : Time) × (r.when ≡ some w)
    × (default_when ≤ w)

-- The class that a folder is kept for, as the existence that its records report.
abbrev pub Reports : ⦃un : Unicode⦄ → KmlFolder → Bool → Type 0
Reports f true = classify f.name ≡ exists
Reports f false = classify f.name ≡ gone

first_or_later :
    {A B : Type 0} (f : A → Option B) (x : A) (xs : List A) {y : B}
    → In y (rows_from f (x ∷ xs))
    → (f x ≡ some y) ⊎ In y (rows_from f xs)
first_or_later f x xs {y} m = elim (Option-cases (f x)) [
  | inl e ↦ let k = rw (rows_from, e) at m in inr k
  | inr (z, e) ↦ let k = rw (rows_from, e) at m in head_or_tail (f x) e k
]
  where
    head_or_tail :
        {B : Type 0} (o : Option B) {z y : B} {zs : List B}
        → o ≡ some z
        → In y (z ∷ zs)
        → (o ≡ some y) ⊎ In y zs
    head_or_tail o e (here h) = inl (e ∙ ap some (sym h))
    head_or_tail o e (there i) = inr i

In-rows_from :
    {A B : Type 0} (f : A → Option B) (xs : List A) {y : B}
    → In y (rows_from f xs)
    → (x : A) × In x xs × (f x ≡ some y)
In-rows_from f [] m = elim m [ ]
In-rows_from f (x ∷ xs) m = elim (first_or_later f x xs m) [
  | inl e ↦ (x, here refl, e)
  | inr k ↦ let (a, i, h) = In-rows_from f xs k in (a, there i, h)
]

In-append-cases : {A : Type 0} {a : A} (xs ys : List A) → In a (xs ++ ys) → In a xs ⊎ In a ys
In-append-cases [] ys m = inr m
In-append-cases (x ∷ xs) ys (here e) = inl (here e)
In-append-cases (x ∷ xs) ys (there m) = elim (In-append-cases xs ys m) [
  | inl k ↦ inl (there k)
  | inr k ↦ inr k
]

module _ {F : Type 0} ⦃fl : Float64 F⦄ ⦃un : Unicode⦄ ⦃fm : Formats F⦄ where
  record_of_lem :
      (source : Text) (t : Time) (folder_name : Text) (cls : Class) (pm : KmlPlace)
      {r : ImportRecord F}
      → record_of source t folder_name cls pm ≡ some r
      → StandsFor source t pm r × (r.exists ≡ is_exists cls)
  record_of_lem source t folder_name cls pm {r} h =
      elim (Option-cases (parse_lon_lat {F = F} pm.coordinates)) [
        | inl e ↦ let k = rw (record_of, e) at h in cc
        | inr (p, e) ↦ elim (Bool-cases (valid_lat_lon p.0 p.1)) [
          | inr v ↦ let k = rw (record_of, e, v) at h in cc
          | inl v ↦ let k = rw (record_of, e, v) at h in made p e v (some-injective _ _ k)
        ]
      ]
    where
      made :
          (p : F × F)
          → parse_lon_lat pm.coordinates ≡ some p
          → valid_lat_lon p.0 p.1 ≡ true
          → record_at source t folder_name cls pm p.0 p.1 ≡ r
          → StandsFor source t pm r × (r.exists ≡ is_exists cls)
      made p e v k =
          subst (λ (r : ImportRecord F). StandsFor source t pm r × (r.exists ≡ is_exists cls)) k
            ((e, v, refl, refl, refl, _, refl, observation_date_bound t pm.description), refl)

  folder_lem :
      (source : Text) (t : Time) (cls : Class) (f : KmlFolder) {r : ImportRecord F}
      → cls ≡ classify f.name
      → In r (records_of source t cls f)
      → (pm : KmlPlace) × In pm f.placemarks × StandsFor source t pm r × Reports f r.exists
  folder_lem source t discard f c m = elim m [ ]
  folder_lem source t unknown f c m = elim m [ ]
  folder_lem source t exists f c m =
      let (pm, i, h) = In-rows_from (record_of source t f.name exists) f.placemarks m in
      let (stands, k) = record_of_lem source t f.name exists pm h in
      (pm, i, stands, subst (Reports f) (sym k) (sym c))
  folder_lem source t gone f c m =
      let (pm, i, h) = In-rows_from (record_of source t f.name gone) f.placemarks m in
      let (stands, k) = record_of_lem source t f.name gone pm h in
      (pm, i, stands, subst (Reports f) (sym k) (sym c))

  folders_lem :
      (source : Text) (t : Time) (fs : List KmlFolder) {r : ImportRecord F}
      → In r (records_of_all source t fs)
      → (f : KmlFolder) × (pm : KmlPlace) × In f fs
        × In pm f.placemarks
        × StandsFor source t pm r
        × Reports f r.exists
  folders_lem source t [] m = elim m [ ]
  folders_lem source t (f ∷ fs) m =
      elim (In-append-cases (records_of source t (classify f.name) f) (records_of_all source t fs)
        m) [
          | inl k ↦
              let (pm, i, h, e) = folder_lem source t (classify f.name) f refl k in
              (f, pm, here refl, i, h, e)
          | inr k ↦ let (g, pm, i, j, h, e) = folders_lem source t fs k in (g, pm, there i, j, h, e)
        ]

  -- Every record stands for a placemark of a folder of the document, with valid coordinates and not
  -- before the default time, and reports a sign that exists or that is gone as the folder's name says.
  pub build_records_sound :
      (doc : KmlDoc) (source : Text) (default_when : Time) {r : ImportRecord F}
      → In r (build_records doc source default_when).0
      → (f : KmlFolder) × (pm : KmlPlace) × In f doc.folders
        × In pm f.placemarks
        × StandsFor source default_when pm r
        × Reports f r.exists
  build_records_sound doc source default_when {r} m =
      folders_lem source default_when doc.folders
        (subst (In r) (build_records_lem doc source default_when) m)
