-- ===== src/Importer/Records/Placed.antt =====
-- What a run of buildRecords' loop over placemarks does.
use mathlib.Core.List.{append_assoc, append-nil}
use reporting_and_mapping.Prelude.{
  ℕ, ◌+◌, ◌≡◌, refl, sym, ap, ◌∙◌, inl, inr, Option, none, some, List, [], ◌∷◌, ◌++◌, length,
  length-append, rows_from, Bool-cases, Option-cases, if◌then◌else◌, arith,
}
use reporting_and_mapping.Platform.{Float64}
use reporting_and_mapping.Db.{Time}
use reporting_and_mapping.Store.Import.{ImportRecord}
use reporting_and_mapping.Importer.Text.{Text, Unicode}
use reporting_and_mapping.Importer.Folders.{Class, exists, gone, discard, unknown, classify}
use reporting_and_mapping.Importer.Records.{
  KmlPlace, KmlFolder, FolderStat, Formats, Building, parse_lon_lat, valid_lat_lon, record_at,
  place_at, add_place, add_places,
}

-- The placemarks of a document, those of no folder too.
abbrev pub places_in : List KmlFolder → ℕ
places_in [] = 0
places_in (f ∷ fs) = length f.placemarks + places_in fs

abbrev pub counted : {F : Type 0} → Building F → ℕ
counted b = length b.recs + b.sum.discarded + b.sum.bad_coords

abbrev pub stat_of : ⦃un : Unicode⦄ → KmlFolder → FolderStat
stat_of f = record { name = f.name; class = classify f.name; count = length f.placemarks }

rows_from-cons :
    {A B : Type 0} (f : A → Option B) (x : A) (xs : List A)
    → rows_from f (x ∷ []) ++ rows_from f xs ≡ rows_from f (x ∷ xs)
rows_from-cons f x xs = elim (Option-cases (f x)) [
  | inl e ↦ rw (rows_from, e) refl
  | inr (y, e) ↦ rw (rows_from, e) refl
]

-- What a run over placemarks does to the variables: it keeps the records of the good ones and counts
-- all of them.
pub record Ran {F : Type 0} (more : List (ImportRecord F)) (stats : List FolderStat) (n : ℕ)
    (b b' : Building F) : Type 0 where
  pub kept : b'.recs ≡ b.recs ++ more
  pub listed : b'.sum.folders ≡ b.sum.folders ++ stats
  pub all : counted b' ≡ counted b + n

module _ {F : Type 0} ⦃fl : Float64 F⦄ ⦃un : Unicode⦄ ⦃fm : Formats F⦄ where
  -- The record of a placemark whose coordinates can be used.
  abbrev pub record_of : Text → Time → Text → Class → KmlPlace → Option (ImportRecord F)
  record_of source default_when folder_name cls pm = elim (parse_lon_lat {F = F} pm.coordinates) [
    | none ↦ none
    | some p ↦
        if valid_lat_lon p.0 p.1
        then some (record_at source default_when folder_name cls pm p.0 p.1)
        else none
  ]

  -- The records of a folder: none if its class is not kept.
  abbrev pub records_of : Text → Time → Class → KmlFolder → List (ImportRecord F)
  records_of source default_when discard f = []
  records_of source default_when unknown f = []
  records_of source default_when exists f =
      rows_from (record_of source default_when f.name exists) f.placemarks
  records_of source default_when gone f =
      rows_from (record_of source default_when f.name gone) f.placemarks

  abbrev pub records_of_all : Text → Time → List KmlFolder → List (ImportRecord F)
  records_of_all source default_when [] = []
  records_of_all source default_when (f ∷ fs) =
      records_of source default_when (classify f.name) f ++ records_of_all source default_when fs

  counted-add_place :
      (source : Text) (default_when : Time) (folder_name : Text) (cls : Class) (pm : KmlPlace)
      (b : Building F)
      → counted (add_place source default_when folder_name cls pm b) ≡ counted b + 1
  counted-add_place source default_when folder_name cls pm b =
      elim (Option-cases (parse_lon_lat {F = F} pm.coordinates)) [
        | inl e ↦ rw (place_at, e) (omega arith)
        | inr (p, e) ↦ elim (Bool-cases (valid_lat_lon p.0 p.1)) [
          | inr v ↦ rw (place_at, e, v) (omega arith)
          | inl v ↦
              let long =
                length-append b.recs
                  (record_at source default_when folder_name cls pm p.0 p.1 ∷ []) in
              rw (place_at, e, v, long) (omega arith)
        ]
      ]

  add_place-recs :
      (source : Text) (default_when : Time) (folder_name : Text) (cls : Class) (pm : KmlPlace)
      (b : Building F)
      → (add_place source default_when folder_name cls pm b).recs
        ≡ b.recs ++ rows_from (record_of source default_when folder_name cls) (pm ∷ [])
  add_place-recs source default_when folder_name cls pm b =
      elim (Option-cases (parse_lon_lat {F = F} pm.coordinates)) [
        | inl e ↦ rw (place_at, rows_from, e) (sym (append-nil b.recs))
        | inr (p, e) ↦ elim (Bool-cases (valid_lat_lon p.0 p.1)) [
          | inr v ↦ rw (place_at, rows_from, e, v) (sym (append-nil b.recs))
          | inl v ↦ rw (place_at, rows_from, e, v) refl
        ]
      ]

  add_place-folders :
      (source : Text) (default_when : Time) (folder_name : Text) (cls : Class) (pm : KmlPlace)
      (b : Building F)
      → (add_place source default_when folder_name cls pm b).sum.folders ≡ b.sum.folders
  add_place-folders source default_when folder_name cls pm b =
      elim (Option-cases (parse_lon_lat {F = F} pm.coordinates)) [
        | inl e ↦ rw (place_at, e) refl
        | inr (p, e) ↦ elim (Bool-cases (valid_lat_lon p.0 p.1)) [
          | inr v ↦ rw (place_at, e, v) refl
          | inl v ↦ rw (place_at, e, v) refl
        ]
      ]

  pub add_places_lem :
      (source : Text) (default_when : Time) (folder_name : Text) (cls : Class) (pms : List KmlPlace)
      (b : Building F)
      → Ran
          (rows_from (record_of source default_when folder_name cls) pms)
          []
          (length pms)
          b
          (add_places source default_when folder_name cls pms b)
  unfolding add_places
  add_places_lem source default_when folder_name cls [] b = record {
    kept = sym (append-nil b.recs);
    listed = sym (append-nil b.sum.folders);
    all = omega arith;
  }
  add_places_lem source default_when folder_name cls (pm ∷ pms) b =
      let one = add_place source default_when folder_name cls pm b in
      let f = record_of source default_when folder_name cls in
      let run = add_places_lem source default_when folder_name cls pms one in
      let k = counted-add_place source default_when folder_name cls pm b in
      record {
        kept =
            run.kept
            ∙ ap (λ l. l ++ rows_from f pms)
                (add_place-recs source default_when folder_name cls pm b)
            ∙ append_assoc b.recs (rows_from f (pm ∷ [])) (rows_from f pms)
            ∙ ap (λ l. b.recs ++ l) (rows_from-cons f pm pms);
        listed =
            run.listed
            ∙ ap (λ l. l ++ []) (add_place-folders source default_when folder_name cls pm b);
        all = let h = run.all in omega arith;
      }
